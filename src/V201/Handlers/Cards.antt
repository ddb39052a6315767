-- ===== src/V201/Handlers/Cards.antt =====
-- Which cards OCPP 2.0.1 accepts: `OnAuthorize` of server/v201_handlers.go.
use evsys.Common.{
  Bool, Bool-cases, String, ap, arith, false, get, if_false, if_true, if◌then◌else◌, inl, inr,
  int_has_eq, nat_has_eq, not, refl, some, string_has_eq, sym, true, ℕ, ◌&&◌, ◌||◌, ◌↔◌, ◌∙◌, ◌≡◌,
  ◌⊎◌,
}
use evsys.System.Authorize.{blocked_accepted, expired_accepted, invalid_accepted}
use evsys.System.Lookup.{get_user_tag}
use evsys.System.Lookup.Known.{get_charge_point_known, get_user_tag_points}
use evsys.System.State.{AuthResult, ChargePointState, Services, System}
use evsys.V201.Handlers.{on_authorize201, service_status, status_of_service}
use evsys.V201.Types.{
  IdToken, authorization_status_accepted, authorization_status_blocked,
  authorization_status_expired, authorization_status_invalid,
}

-- The service lets the card charge.
abbrev pub Allows : AuthResult → Type 0
Allows r = (r.allowed ≡ true) × (r.expired ≡ false) × (r.blocked ≡ false)

status_of_service_lem :
    (r : AuthResult) → (status_of_service r ≡ authorization_status_accepted) ↔ Allows r
unfolding status_of_service
status_of_service_lem r = (accepted_lem, λ h. rw (h.2, h.1, h.0) refl)
  where
    accepted_lem : status_of_service r ≡ authorization_status_accepted → Allows r
    accepted_lem e = elim (Bool-cases r.blocked) [
      | inl b ↦ absurd (blocked_accepted (sym (if_true authorization_status_blocked _ b) ∙ e))
      | inr not_b ↦
          let e1 = sym (if_false authorization_status_blocked _ not_b) ∙ e in
          elim (Bool-cases r.expired) [
            | inl x ↦
                absurd (expired_accepted (sym (if_true authorization_status_expired _ x) ∙ e1))
            | inr not_x ↦
                let e2 = sym (if_false authorization_status_expired _ not_x) ∙ e1 in
                elim (Bool-cases r.allowed) [
                  | inl a ↦ (a, not_x, not_b)
                  | inr not_a ↦ absurd (
                      invalid_accepted
                        (sym (if_true authorization_status_invalid _ (ap not not_a)) ∙ e2))
                ]
          ]
    ]

service_status_lem :
    (sv : Services) (location tag : String)
    → (service_status sv location tag ≡ authorization_status_accepted)
      ↔ ((sv.has_auth ≡ false) ⊎ Allows (sv.authorize location "" tag))
unfolding service_status
service_status_lem sv location tag = elim (Bool-cases sv.has_auth) [
  | inl set ↦ (
    λ e. inr ((status_of_service_lem (sv.authorize location "" tag)).0 (sym (if_true _ _ set) ∙ e)),
    λ h. elim h [
      | inl unset ↦ if_false _ authorization_status_accepted unset
      | inr a ↦ if_true _ _ set ∙ (status_of_service_lem (sv.authorize location "" tag)).1 a
    ],
  )
  | inr unset ↦ (λ e. inl unset, λ h. if_false _ authorization_status_accepted unset)
]

module _ {sv : Services} where
  -- A charge point of OCPP 2.0.1 in memory is told that a card is accepted exactly if the card is
  -- enabled, or the system accepts unknown ones, and the authorization service, where there is one,
  -- lets it charge at the location.
  pub authorize201_accepted_iff :
      (cp : String) (token : IdToken) (now : ℕ) (s : System sv) {st : ChargePointState}
      → get cp s.charge_points ≡ some st
      → ((on_authorize201 cp token now s).0 ≡ authorization_status_accepted) ↔ (
          ((get_user_tag token.id_token now s).0.is_enabled || sv.accept_tags ≡ true)
          × ((sv.has_auth ≡ false) ⊎ Allows (sv.authorize st.model.location_id "" token.id_token)))
  unfolding on_authorize201
  authorize201_accepted_iff cp token now s {st = st} present =
      let user = (get_user_tag token.id_token now s).0 in
      let s1 = (get_user_tag token.id_token now s).1 in
      let known =
        get_charge_point_known cp s1
          (ap (λ d. get cp d) (get_user_tag_points token.id_token now s) ∙ present) in
      rw known (enabled_and user.is_enabled sv.accept_tags s1)
    where
      enabled_and :
          (b c : Bool) (u : System sv)
          → let reply : String × System sv =
              if not b && not c
              then (authorization_status_invalid, u)
              else (service_status sv st.model.location_id token.id_token, u) in
            (reply.0 ≡ authorization_status_accepted) ↔ (
              (b || c ≡ true)
              × ((sv.has_auth ≡ false)
                  ⊎ Allows (sv.authorize st.model.location_id "" token.id_token)))
      enabled_and true c u =
          let l = service_status_lem sv st.model.location_id token.id_token in
          (λ e. (refl, l.0 e), λ h. l.1 h.1)
      enabled_and false true u =
          let l = service_status_lem sv st.model.location_id token.id_token in
          (λ e. (refl, l.0 e), λ h. l.1 h.1)
      enabled_and false false u = (λ e. absurd (invalid_accepted e), λ h. ground arith)
