-- ===== src/Power/Balancer/Pass.antt =====
-- What a pass of the balancer does to each connector of a location.
use evsys.Common.{
  Bool, Bool-cases, List, [], ap, arith, false, if_false, if_ind, if_true, if◌then◌else◌, inl, inr,
  int_eq_iff, int_has_eq, nat_has_eq, not, pos, refl, string_has_eq, subst, sym, true, ℤ, ◌&&◌,
  ◌==◌, ◌||◌, ◌∙◌, ◌∷◌, ◌≡◌,
}
use evsys.Entity.{ChargePoint, Connector}
use evsys.Power.Balancer.{
  Balancer, Handler, Profile, Survey, assign_connector, assign_connectors, assign_points,
  assigned_limit, balance, has_limit, is_active, limit_stored, send_transaction_profile,
  stack_level_retries, survey_connector, survey_connectors, survey_points, transaction_profile,
  update_connector_power, with_limit, write,
}
use evsys.Power.Capabilities.{
  CapabilityStore, get_capabilities, stack_level_for, tx_profile_stack_level,
}

-- The two lists, element by element.
pub data Pointwise {A : Type 0} (R : A → A → Type 0) : List A → List A → Type 0 where
  both_empty : Pointwise R [] []
  both_with : {x y : A} {xs ys : List A} → R x y → Pointwise R xs ys → Pointwise R (x ∷ xs) (y ∷ ys)

-- The profile that a pass sends for a session.
abbrev pub session_profile : CapabilityStore → ℤ → Connector → Profile
session_profile store limit c = record {
  connector = c;
  transaction_id = c.current_transaction_id;
  limit = limit;
  stack_level = stack_level_for tx_profile_stack_level (get_capabilities c.charge_point_id store);
  retries_left = stack_level_retries;
}

-- It can be sent: the charge point takes amperes, as far as it is known, and the server queues the
-- request.
abbrev pub is_sendable : Handler → CapabilityStore → ℤ → Connector → Bool
is_sendable h store limit c =
    let limits = get_capabilities c.charge_point_id store in
    (not limits.known || limits.allows_current)
    && h.send (transaction_profile (session_profile store limit c))

-- A connector through a pass that assigns `limit`: a session with a limit keeps it, one without gets
-- `limit` exactly where its profile can be sent; a connector without a session loses its limit.
pub data Balanced (h : Handler) (store : CapabilityStore) (limit : ℤ)
    : Connector → Connector → Type 0 where
  keeps_limit :
      {c : Connector} → is_active c ≡ true → has_limit c ≡ true → Balanced h store limit c c
  loses_limit :
      {c : Connector} → is_active c ≡ false → Balanced h store limit c (with_limit (pos 0) c)
  gets_limit :
      {c : Connector}
      → is_active c ≡ true
      → has_limit c ≡ false
      → is_sendable h store limit c ≡ true
      → Balanced h store limit c (with_limit limit c)
  unsent :
      {c : Connector}
      → is_active c ≡ true
      → has_limit c ≡ false
      → is_sendable h store limit c ≡ false
      → Balanced h store limit c c

-- A charge point through the pass: only its connectors change, and only with smart charging.
pub data BalancedPoint (h : Handler) (store : CapabilityStore) (limit : ℤ)
    : ChargePoint → ChargePoint → Type 0 where
  smart :
      {p : ChargePoint} {cs : List Connector}
      → p.smart_charging ≡ true
      → Pointwise (Balanced h store limit) p.connectors cs
      → BalancedPoint h store limit p (record p { connectors = cs })
  plain : {p : ChargePoint} → p.smart_charging ≡ false → BalancedPoint h store limit p p

-- The first loop at one connector.
data Surveyed : Connector → Connector → Type 0 where
  surveyed_active : {c : Connector} → is_active c ≡ true → Surveyed c c
  surveyed_idle : {c : Connector} → is_active c ≡ false → Surveyed c (with_limit (pos 0) c)
  surveyed_negative : {c : Connector} → is_active c ≡ false → has_limit c ≡ false → Surveyed c c

both_true :
    (c : Connector) → is_active c ≡ true → has_limit c ≡ true → (is_active c && has_limit c) ≡ true
both_true c active limited = ground arith

both_false : (c : Connector) → has_limit c ≡ false → (is_active c && has_limit c) ≡ false
both_false c free = ground arith

module _ (h : Handler) where
  update_idle :
      (limit : ℤ) (c : Connector) (b : Balancer)
      → is_active c ≡ false
      → (update_connector_power h limit c b).0 ≡ with_limit (pos 0) c
  unfolding update_connector_power with_limit
  update_idle limit c b idle =
      let none_set = not (is_active c) && c.current_power_limit == pos 0 in
      elim (Bool-cases none_set) [
        | inl unset ↦
            ap (λ (r : Connector × Balancer). r.0) (if_true _ _ unset)
            ∙ ap (λ l. with_limit l c) (ground (arith, int_eq_iff c.current_power_limit (pos 0)))
        | inr set ↦ ap (λ (r : Connector × Balancer). r.0) (if_false _ _ set ∙ if_false _ _ idle)
      ]

  -- Sending a profile leaves the capabilities alone.
  update_capabilities :
      (limit : ℤ) (c : Connector) (b : Balancer)
      → (update_connector_power h limit c b).1.capabilities ≡ b.capabilities
  unfolding update_connector_power send_transaction_profile limit_stored write
  update_capabilities limit c b = ground arith

  send_outcome :
      (limit : ℤ) (c : Connector) (b : Balancer)
      → (limit_stored limit c (send_transaction_profile h c limit stack_level_retries b)).0
        ≡ (if is_sendable h b.capabilities limit c then with_limit limit c else c)
  unfolding send_transaction_profile limit_stored
  send_outcome limit c b =
      let limits = get_capabilities c.charge_point_id b.capabilities in
      elim (Bool-cases (limits.known && not limits.allows_current)) [
        | inl unfit ↦ ground arith
        | inr fit ↦ ground arith
      ]

  update_active :
      (limit : ℤ) (c : Connector) (b : Balancer)
      → is_active c ≡ true
      → (update_connector_power h limit c b).0
        ≡ (if is_sendable h b.capabilities limit c then with_limit limit c else c)
  unfolding update_connector_power
  update_active limit c b active =
      let sent = send_transaction_profile h c limit stack_level_retries b in
      let session : (not (is_active c) && c.current_power_limit == pos 0) ≡ false = ground arith in
      let here : update_connector_power h limit c b ≡ limit_stored limit c sent =
        if_false _ _ session ∙ if_true _ _ active in
      ap (λ (r : Connector × Balancer). r.0) here ∙ send_outcome limit c b

  survey_connector_lem : (c : Connector) (v : Survey) → Surveyed c (survey_connector h c v).0
  unfolding survey_connector
  survey_connector_lem c v = elim (Bool-cases (is_active c)) [
    | inl active ↦
        subst (λ (r : Connector × Survey). Surveyed c r.0) (sym (if_true _ _ active))
          (surveyed_active active)
    | inr idle ↦
        subst (λ (r : Connector × Survey). Surveyed c r.0) (sym (if_false _ _ idle))
          (elim (Bool-cases (has_limit c)) [
            | inl limited ↦
                subst (λ (r : Connector × Survey). Surveyed c r.0) (sym (if_true _ (c, v) limited))
                  (subst (Surveyed c) (sym (update_idle (pos 0) c v.balancer idle))
                    (surveyed_idle idle))
            | inr free ↦
                subst (λ (r : Connector × Survey). Surveyed c r.0) (sym (if_false _ (c, v) free))
                  (surveyed_negative idle free)
          ])
  ]

  assign_idle :
      (limit : ℤ) (c : Connector) (b : Balancer)
      → is_active c ≡ false
      → (assign_connector h limit c b).0 ≡ with_limit (pos 0) c
  unfolding assign_connector
  assign_idle limit c b idle =
      let both : (is_active c && has_limit c) ≡ false = ground arith in
      ap (λ (r : Connector × Balancer). r.0)
        (if_false (c, b) (update_connector_power h limit c b) both)
      ∙ update_idle limit c b idle

  assign_active :
      (limit : ℤ) (c : Connector) (b : Balancer)
      → is_active c ≡ true
      → Balanced h b.capabilities limit c (assign_connector h limit c b).0
  unfolding assign_connector
  assign_active limit c b active = elim (Bool-cases (has_limit c)) [
    | inl limited ↦
        subst (λ (r : Connector × Balancer). Balanced h b.capabilities limit c r.0)
          (sym (if_true (c, b) (update_connector_power h limit c b) (both_true c active limited)))
          (keeps_limit active limited)
    | inr free ↦
        subst (λ (r : Connector × Balancer). Balanced h b.capabilities limit c r.0)
          (sym (if_false (c, b) (update_connector_power h limit c b) (both_false c free)))
          (elim (Bool-cases (is_sendable h b.capabilities limit c)) [
            | inl fits ↦
                subst (Balanced h b.capabilities limit c)
                  (sym (update_active limit c b active ∙ if_true _ _ fits))
                  (gets_limit active free fits)
            | inr unfit ↦
                subst (Balanced h b.capabilities limit c)
                  (sym (update_active limit c b active ∙ if_false _ _ unfit))
                  (unsent active free unfit)
          ])
  ]

  -- The two loops at one connector.
  assign-Surveyed :
      (limit : ℤ) (c c1 : Connector) (b : Balancer)
      → Surveyed c c1
      → Balanced h b.capabilities limit c (assign_connector h limit c1 b).0
  unfolding with_limit is_active
  assign-Surveyed limit c _ b (surveyed_active active) = assign_active limit c b active
  assign-Surveyed limit c _ b (surveyed_idle idle) =
      subst (Balanced h b.capabilities limit c)
        (sym (assign_idle limit (with_limit (pos 0) c) b idle)) (loses_limit idle)
  assign-Surveyed limit c _ b (surveyed_negative idle free) =
      subst (Balanced h b.capabilities limit c) (sym (assign_idle limit c b idle))
        (loses_limit idle)

  assign_capabilities :
      (limit : ℤ) (c : Connector) (b : Balancer)
      → (assign_connector h limit c b).1.capabilities ≡ b.capabilities
  unfolding assign_connector
  assign_capabilities limit c b = ground (arith, update_capabilities limit c b)

  assign_all_capabilities :
      (limit : ℤ) (cs : List Connector) (b : Balancer)
      → (assign_connectors h limit cs b).1.capabilities ≡ b.capabilities
  unfolding assign_connectors
  assign_all_capabilities limit [] b = refl
  assign_all_capabilities limit (c ∷ cs) b =
      assign_all_capabilities limit cs (assign_connector h limit c b).1
      ∙ assign_capabilities limit c b

  survey_capabilities :
      (c : Connector) (v : Survey)
      → (survey_connector h c v).1.balancer.capabilities ≡ v.balancer.capabilities
  unfolding survey_connector
  survey_capabilities c v = ground (arith, update_capabilities (pos 0) c v.balancer)

  survey_all_capabilities :
      (cs : List Connector) (v : Survey)
      → (survey_connectors h cs v).1.balancer.capabilities ≡ v.balancer.capabilities
  unfolding survey_connectors
  survey_all_capabilities [] v = refl
  survey_all_capabilities (c ∷ cs) v =
      survey_all_capabilities cs (survey_connector h c v).1 ∙ survey_capabilities c v

  survey_points_capabilities :
      (ps : List ChargePoint) (v : Survey)
      → (survey_points h ps v).1.balancer.capabilities ≡ v.balancer.capabilities
  unfolding survey_points
  survey_points_capabilities [] v = refl
  survey_points_capabilities (p ∷ ps) v =
      let r = if p.smart_charging then survey_connectors h p.connectors v else (p.connectors, v) in
      survey_points_capabilities ps r.1
      ∙ if_ind
          (λ (r : List Connector × Survey). r.1.balancer.capabilities ≡ v.balancer.capabilities)
          p.smart_charging (survey_connectors h p.connectors v) (p.connectors, v)
          (survey_all_capabilities p.connectors v) refl

  connectors_lem :
      (store : CapabilityStore) (limit : ℤ) (cs : List Connector) (v : Survey) (b : Balancer)
      → b.capabilities ≡ store
      → Pointwise
          (Balanced h store limit)
          cs
          (assign_connectors h limit (survey_connectors h cs v).0 b).0
  unfolding survey_connectors assign_connectors
  connectors_lem store limit [] v b same = both_empty
  connectors_lem store limit (c ∷ cs) v b same =
      let (c1, v1) = survey_connector h c v in
      both_with
        (subst (λ st. Balanced h st limit c (assign_connector h limit c1 b).0) same
          (assign-Surveyed limit c c1 b (survey_connector_lem c v)))
        (connectors_lem store limit cs v1 (assign_connector h limit c1 b).1
          (assign_capabilities limit c1 b ∙ same))

  point_lem :
      (store : CapabilityStore) (limit : ℤ) (p : ChargePoint) (v : Survey) (b : Balancer)
      (flag : Bool)
      → b.capabilities ≡ store
      → p.smart_charging ≡ flag
      → let cs = (if flag then survey_connectors h p.connectors v else (p.connectors, v)).0 in
        BalancedPoint h store limit p
          (record p { connectors = (if flag then assign_connectors h limit cs b else (cs, b)).0 })
  point_lem store limit p v b true same e =
      smart e (connectors_lem store limit p.connectors v b same)
  point_lem store limit p v b false same e = plain e

  points_lem :
      (store : CapabilityStore) (limit : ℤ) (ps : List ChargePoint) (v : Survey) (b : Balancer)
      → b.capabilities ≡ store
      → Pointwise
          (BalancedPoint h store limit)
          ps
          (assign_points h limit (survey_points h ps v).0 b).0
  unfolding survey_points assign_points
  points_lem store limit [] v b same = both_empty
  points_lem store limit (p ∷ ps) v b same =
      let (cs, v1) =
        if p.smart_charging then survey_connectors h p.connectors v else (p.connectors, v) in
      let r = if p.smart_charging then assign_connectors h limit cs b else (cs, b) in
      let kept =
        if_ind (λ (r : List Connector × Balancer). r.1.capabilities ≡ b.capabilities)
          p.smart_charging (assign_connectors h limit cs b) (cs, b)
          (assign_all_capabilities limit cs b) refl in
      both_with (point_lem store limit p v b p.smart_charging same refl)
        (points_lem store limit ps v1 r.1 (kept ∙ same))

  -- The survey that a pass starts with.
  abbrev pub survey_of : List ChargePoint → Balancer → Survey
  survey_of evses b = (survey_points h evses record { used = []; active = 0; balancer = b }).1

  -- A pass at a location with a session assigns one limit. Every session that has a limit keeps it,
  -- every session without one gets that limit where its profile can be sent, and stays without where it
  -- cannot, every other
  -- connector of a charge point with smart charging has no limit left, and nothing else changes.
  pub balance_connectors :
      (evses : List ChargePoint) (b : Balancer)
      → ((survey_of evses b).active == 0) ≡ false
      → Pointwise
          (BalancedPoint h b.capabilities (assigned_limit (survey_of evses b).used))
          evses
          (balance h evses b).0
  unfolding balance
  balance_connectors evses b active =
      let v0 : Survey = record { used = []; active = 0; balancer = b } in
      let (evses', v) = survey_points h evses v0 in
      subst
        (λ (r : List ChargePoint × Balancer).
          Pointwise (BalancedPoint h b.capabilities (assigned_limit v.used)) evses r.0)
        (sym (if_false (evses', v.balancer) _ active))
        (points_lem b.capabilities (assigned_limit v.used) evses v0 v.balancer
          (survey_points_capabilities evses v0))
