-- ===== src/System/Authorize.antt =====
-- Whether a card may charge: `authorizeIdTag` and `authorize` of server/system_handler.go.
use Prim.Native.String.{◌++◌ as str_append}
use evsys.Common.{
  Bool, Bool-cases, Option, String, ap, arith, eq_self, false, get, if_false, if_ind, if_true,
  if◌then◌else◌, inl, inr, int_has_eq, nat_has_eq, none, refl, some, string_has_eq, sym, true, ℕ,
  ◌==◌, ◌↔◌, ◌∙◌, ◌≡◌, ◌≢◌, ◌⊎◌,
}
use evsys.Entity.{ChargePoint, UserTag}
use evsys.System.Lookup.{get_charge_point, get_user_tag}
use evsys.System.Lookup.Known.{get_charge_point_known}
use evsys.System.Start.{authorization_accepted, authorization_blocked}
use evsys.System.State.{
  AuthResult, ChargePointState, Outcome, Services, System, authorize_notice, notify, panicked,
  returned,
}

abbrev pub authorization_expired : String
authorization_expired = "Expired"

abbrev pub authorization_invalid : String
authorization_invalid = "Invalid"

-- The EVSE of connector 1, as `EvseId` names it.
unfoldable pub first_evse : ChargePoint → String
first_evse p = str_append p.id "*1"

-- What the answer of the authorization service makes of a card that is not enabled.
unfoldable pub status_from_service : AuthResult → String
status_from_service r =
    if r.allowed
    then authorization_accepted
    else if r.expired
    then authorization_expired
    else if r.blocked
    then authorization_blocked
    else authorization_invalid

-- May the card charge: is it enabled, or does the service allow it?
abbrev pub IsAllowed : Services → ChargePoint → UserTag → Type 0
IsAllowed sv p tag =
    (tag.is_enabled ≡ true)
    ⊎ ((sv.has_auth ≡ true)
        × ((sv.authorize p.location_id (first_evse p) tag.id_tag).allowed ≡ true))

not_both : {b : Bool} → b ≡ true → b ≡ false → ⊥
not_both t f = ground arith

-- A text that the test tells from "Accepted" is another one.
not_accepted : (s : String) → (s == authorization_accepted) ≡ false → s ≢ authorization_accepted
not_accepted s differs_ e =
    not_both (ap (λ t. t == authorization_accepted) e ∙ eq_self authorization_accepted) differs_

pub invalid_accepted : authorization_invalid ≢ authorization_accepted
invalid_accepted = not_accepted authorization_invalid refl

pub blocked_accepted : authorization_blocked ≢ authorization_accepted
blocked_accepted = not_accepted authorization_blocked refl

pub expired_accepted : authorization_expired ≢ authorization_accepted
expired_accepted = not_accepted authorization_expired refl

status_from_service_lem :
    (r : AuthResult) → (status_from_service r ≡ authorization_accepted) ↔ (r.allowed ≡ true)
unfolding status_from_service
status_from_service_lem r = (
  λ e. elim (Bool-cases r.allowed) [
    | inl yes_ ↦ yes_
    | inr refused_ ↦ absurd (
        if_ind (λ s. s ≢ authorization_accepted) r.expired authorization_expired
          (if r.blocked then authorization_blocked else authorization_invalid) expired_accepted
          (if_ind (λ s. s ≢ authorization_accepted) r.blocked authorization_blocked
            authorization_invalid blocked_accepted invalid_accepted)
          (sym (if_false authorization_accepted _ refused_) ∙ e))
  ],
  λ allowed. if_true authorization_accepted _ allowed,
)

module _ {sv : Services} where
  told : String → UserTag → System sv → Outcome (String × System sv)
  unfolding notify
  told status tag s = returned (status, notify (authorize_notice tag.id_tag status) s)

  -- The card is written back where the service decided.
  decided : AuthResult → UserTag → System sv → Outcome (String × System sv)
  unfolding status_from_service told
  decided r tag s =
      let status = status_from_service r in
      if status == authorization_invalid
      then told status tag s
      else if sv.has_database
      then (let tag' = record tag { source = "OCPI"; note = r.info } in
          told status tag' (record s { store = (sv.update_tag s.store tag').0 }))
      else panicked

  authorize_tag : ChargePointState → UserTag × System sv → Outcome (String × System sv)
  unfolding told decided first_evse
  authorize_tag st (tag, s) =
      if tag.is_enabled
      then told authorization_accepted tag s
      else if sv.has_auth
      then decided (sv.authorize st.model.location_id (first_evse st.model) tag.id_tag) tag s
      else told authorization_invalid tag s

  authorize_at : Option ChargePointState × System sv → String → ℕ → Outcome (String × System sv)
  unfolding authorize_tag get_user_tag
  authorize_at (none, s) id_tag now = returned (authorization_blocked, s)
  authorize_at (some st, s) id_tag now =
      if st.model.is_enabled
      then authorize_tag st (get_user_tag id_tag now s)
      else returned (authorization_blocked, s)

  unfoldable pub authorize_id_tag : String → String → ℕ → System sv → Outcome (String × System sv)
  unfolding authorize_at get_charge_point
  authorize_id_tag cp id_tag now s = authorize_at (get_charge_point cp s) id_tag now

  -- An outcome with a status that is `Accepted` exactly where `P` holds.
  abbrev pub AcceptedIff : Type 0 → Outcome (String × System sv) → Type 0
  AcceptedIff P o =
      (status : String) × (s' : System sv) × (o ≡ returned (status, s'))
      × ((status ≡ authorization_accepted) ↔ P)

  decided_lem :
      (r : AuthResult) (tag : UserTag) (s : System sv)
      → sv.has_database ≡ true
      → AcceptedIff (r.allowed ≡ true) (decided r tag s)
  unfolding decided told
  decided_lem r tag s set =
      let status = status_from_service r in
      let tag' = record tag { source = "OCPI"; note = r.info } in
      let s1 = record s { store = (sv.update_tag s.store tag').0 } in
      let exact = status_from_service_lem r in
      if_ind (AcceptedIff (r.allowed ≡ true)) (status == authorization_invalid) (told status tag s)
        (if sv.has_database then told status tag' s1 else panicked)
        (status, notify (authorize_notice tag.id_tag status) s, refl, exact)
        (
          status,
          notify (authorize_notice tag'.id_tag status) s1,
          if_true (told status tag' s1) panicked set,
          exact,
        )

  service_lem :
      (st : ChargePointState) (tag : UserTag) (s : System sv)
      → sv.has_database ≡ true
      → tag.is_enabled ≡ false
      → sv.has_auth ≡ true
      → AcceptedIff
          (IsAllowed sv st.model tag)
          (decided (sv.authorize st.model.location_id (first_evse st.model) tag.id_tag) tag s)
  service_lem st tag s set disabled auth =
      let r = sv.authorize st.model.location_id (first_evse st.model) tag.id_tag in
      let (status, s', done, exact) = decided_lem r tag s set in
      (
        status,
        s',
        done,
        (
          λ e. inr (auth, exact.0 e),
          elim [ inl on ↦ absurd (not_both on disabled) | inr (_, allowed) ↦ exact.1 allowed ],
        ),
      )

  authorize_tag_lem :
      (st : ChargePointState) (tag : UserTag) (s : System sv)
      → sv.has_database ≡ true
      → AcceptedIff (IsAllowed sv st.model tag) (authorize_tag st (tag, s))
  unfolding authorize_tag told
  authorize_tag_lem st tag s set = elim (Bool-cases tag.is_enabled) [
    | inl on ↦ (
      authorization_accepted,
      notify (authorize_notice tag.id_tag authorization_accepted) s,
      if_true _ _ on,
      (λ e. inl on, λ e. refl),
    )
    | inr disabled ↦ elim (Bool-cases sv.has_auth) [
      | inl auth ↦
          let (status, s', done, exact) = service_lem st tag s set disabled auth in
          (status, s', if_false _ _ disabled ∙ if_true _ _ auth ∙ done, exact)
      | inr no_auth ↦ (
        authorization_invalid,
        notify (authorize_notice tag.id_tag authorization_invalid) s,
        if_false _ _ disabled ∙ if_false _ _ no_auth,
        (
          λ e. absurd (invalid_accepted e),
          elim [
            | inl on ↦ absurd (not_both on disabled)
            | inr (auth, _) ↦ absurd (not_both auth no_auth)
          ],
        ),
      )
    ]
  ]

  authorize_at-some :
      (st : ChargePointState) (s : System sv) (id_tag : String) (now : ℕ)
      → authorize_at (some st, s) id_tag now ≡ (
          if st.model.is_enabled
          then authorize_tag st (get_user_tag id_tag now s)
          else returned (authorization_blocked, s))
  unfolding authorize_at
  authorize_at-some st s id_tag now = refl

  authorize_known :
      (cp id_tag : String) (now : ℕ) (s : System sv) {st : ChargePointState}
      → get cp s.charge_points ≡ some st
      → authorize_id_tag cp id_tag now s ≡ authorize_at (some st, s) id_tag now
  unfolding authorize_id_tag
  authorize_known cp id_tag now s present =
      ap (λ (r : Option ChargePointState × System sv). authorize_at r id_tag now)
        (get_charge_point_known cp s present)

  -- With a database set, a card is accepted at a charge point in memory exactly if the charge point
  -- is enabled and the card is enabled, or else the authorization service, if there is one, allows it;
  -- the handler always returns.
  pub authorize_accepted_iff :
      (cp id_tag : String) (now : ℕ) (s : System sv) {st : ChargePointState}
      → get cp s.charge_points ≡ some st
      → sv.has_database ≡ true
      → let tag = (get_user_tag id_tag now s).0 in
        (status : String) × (s' : System sv) × (authorize_id_tag cp id_tag now s
          ≡ returned (status, s'))
        × ((status ≡ authorization_accepted)
            ↔ ((st.model.is_enabled ≡ true) × IsAllowed sv st.model tag))
  authorize_accepted_iff cp id_tag now s {st = st} present set =
      let (tag, s1) = get_user_tag id_tag now s in
      let here = authorize_known cp id_tag now s present ∙ authorize_at-some st s id_tag now in
      elim (Bool-cases st.model.is_enabled) [
        | inl on ↦
            let (status, s', done, exact) = authorize_tag_lem st tag s1 set in
            (
              status,
              s',
              here ∙ if_true _ _ on ∙ done,
              (λ e. (on, exact.0 e), λ (_, allowed). exact.1 allowed),
            )
        | inr disabled ↦ (
          authorization_blocked,
          s,
          here ∙ if_false _ _ disabled,
          (λ e. absurd (blocked_accepted e), λ (on, _). absurd (not_both on disabled)),
        )
      ]
