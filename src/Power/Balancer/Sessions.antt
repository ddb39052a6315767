-- ===== src/Power/Balancer/Sessions.antt =====
-- The limits that the sessions of a location hold when a pass begins, and the limit of the new ones.
use evsys.Common.{
  All, All-map, Bool, Bool-cases, List, [], ap, arith, elem, eq_self, false, if_false, if_true,
  if◌then◌else◌, inl, inr, int_has_eq, nat_has_eq, string_has_eq, subst, sym, true, ℤ, ◌++◌, ◌||◌,
  ◌∙◌, ◌∷◌, ◌≡◌, ◌≢◌, ◌⊎◌,
}
use evsys.Entity.{ChargePoint, Connector}
use evsys.Power.Balancer.{
  Balancer, Handler, Survey, assigned_limit, base_limit, is_active, survey_connector,
  survey_connectors, survey_points,
}
use evsys.Power.Balancer.Pass.{survey_of}
use evsys.Power.Balancer.Slots.{assigned_limit_highest_free}

-- The limits of the connectors with a session.
unfoldable pub session_limits_of : List Connector → List ℤ
unfolding is_active
session_limits_of [] = []
session_limits_of (c ∷ cs) =
    let rest = session_limits_of cs in if is_active c then c.current_power_limit ∷ rest else rest

-- The limits of the sessions of a location's charge points with smart charging.
unfoldable pub session_limits : List ChargePoint → List ℤ
unfolding session_limits_of
session_limits [] = []
session_limits (p ∷ ps) =
    let rest = session_limits ps in
    if p.smart_charging then session_limits_of p.connectors ++ rest else rest

-- Every element of the first list is in the second one.
abbrev Within : List ℤ → List ℤ → Type 0
Within xs ys = All (λ x. elem x ys ≡ true) xs

-- Nothing that is in use is dropped.
abbrev Grows : Survey → Survey → Type 0
Grows v w = (x : ℤ) → elem x v.used ≡ true → elem x w.used ≡ true

All-append : (P : ℤ → Type 0) (xs ys : List ℤ) → All P xs → All P ys → All P (xs ++ ys)
All-append P [] ys h k = k
All-append P (x ∷ xs) ys (p, h) k = (p, All-append P xs ys h k)

true_ne_false : true ≢ false
true_ne_false e = ground arith

module _ (h : Handler) where
  survey_connector-Grows : (c : Connector) (v : Survey) → Grows v (survey_connector h c v).1
  unfolding survey_connector
  survey_connector-Grows c v x there = ground arith

  survey_connector_uses :
      (c : Connector) (v : Survey)
      → is_active c ≡ true
      → elem c.current_power_limit (survey_connector h c v).1.used ≡ true
  unfolding survey_connector
  survey_connector_uses c v active =
      ap (λ (r : Connector × Survey). elem c.current_power_limit r.1.used) (if_true _ _ active)
      ∙ ap (λ b. b || elem c.current_power_limit v.used) (eq_self c.current_power_limit)

  survey_connectors_lem :
      (cs : List Connector) (v : Survey)
      → let w = (survey_connectors h cs v).1 in Grows v w × Within (session_limits_of cs) w.used
  unfolding survey_connectors session_limits_of
  survey_connectors_lem [] v = (λ x there. there, tt)
  survey_connectors_lem (c ∷ cs) v =
      let v1 = (survey_connector h c v).1 in
      let (grows, within) = survey_connectors_lem cs v1 in
      (
        λ x there. grows x (survey_connector-Grows c v x there),
        elim (Bool-cases (is_active c)) [
          | inl active ↦
              subst (λ xs. Within xs (survey_connectors h cs v1).1.used) (sym (if_true _ _ active))
                (grows c.current_power_limit (survey_connector_uses c v active), within)
          | inr idle ↦
              subst (λ xs. Within xs (survey_connectors h cs v1).1.used) (sym (if_false _ _ idle))
                within
        ],
      )

  point_step :
      (flag : Bool) (cs : List Connector) (rest : List ℤ) (v w : Survey)
      → let v1 = (if flag then survey_connectors h cs v else (cs, v)).1 in
        Grows v1 w
        → Within rest w.used
        → Grows v w × Within (if flag then session_limits_of cs ++ rest else rest) w.used
  point_step true cs rest v w grows within =
      let (here, used) = survey_connectors_lem cs v in
      (
        λ x there. grows x (here x there),
        All-append (λ x. elem x w.used ≡ true) (session_limits_of cs) rest
            (All-map (session_limits_of cs) grows used) within,
      )
  point_step false cs rest v w grows within = (grows, within)

  survey_points_lem :
      (ps : List ChargePoint) (v : Survey)
      → let w = (survey_points h ps v).1 in Grows v w × Within (session_limits ps) w.used
  unfolding survey_points session_limits
  survey_points_lem [] v = (λ x there. there, tt)
  survey_points_lem (p ∷ ps) v =
      let (cs, v1) =
        if p.smart_charging then survey_connectors h p.connectors v else (p.connectors, v) in
      let (grows, within) = survey_points_lem ps v1 in
      point_step p.smart_charging p.connectors (session_limits ps) v (survey_points h ps v1).1 grows
        within

  -- The limit that a pass gives to new sessions is either the base limit or one that no session at the
  -- location's charge points with smart charging holds; the sessions at the others are not looked at.
  pub assigned_limit_unheld :
      (evses : List ChargePoint) (b : Balancer)
      → let limit = assigned_limit (survey_of h evses b).used in
        (limit ≡ base_limit) ⊎ All (λ held. held ≢ limit) (session_limits evses)
  assigned_limit_unheld evses b =
      let used = (survey_of h evses b).used in
      let (_, within) = survey_points_lem evses record { used = []; active = 0; balancer = b } in
      elim (assigned_limit_highest_free used) [
        | inl first ↦ inr (
            All-map (session_limits evses)
              (λ held there same.
                true_ne_false (sym (ap (λ x. elem x used) (sym same) ∙ there) ∙ first.free))
              within)
        | inr (base, all) ↦ inl base
      ]
