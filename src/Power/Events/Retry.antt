-- ===== src/Power/Events/Retry.antt =====
-- How a refused profile is sent again.
use evsys.Common.{
  Bool, Bool-cases, List, String, arith, eq_self, if_true, if◌then◌else◌, inl, inr, int_has_eq,
  leb_ℤ, ltb, ltb_ℤ, nat_has_eq, not, pos, put, refl, string_has_eq, subst, sym, true, ℕ, ℤ, ◌&&◌,
  ◌-ℤ◌, ◌-◌, ◌<ℤ◌, ◌==◌, ◌||◌, ◌∙◌, ◌∷◌, ◌≡◌, ◌≤ℤ◌,
}
use evsys.Entity.{ProfileVerdict}
use evsys.Power.Balancer.{
  Balancer, Handler, Profile, Request, profile_verdict, send_transaction_profile,
  transaction_profile, write,
}
use evsys.Power.Capabilities.{
  Capabilities, CapabilityStore, get_capabilities, get_capabilities-put, lower_stack_level,
  stack_level_for, tx_profile_stack_level,
}
use evsys.Power.Events.{is_retryable, on_verdict, retried}

-- The profile one level lower, with one retry less.
unfoldable pub stepped_down : Profile → Profile
stepped_down p = record p {
  transaction_id = p.connector.current_transaction_id;
  stack_level = p.stack_level -ℤ pos 1;
  retries_left = p.retries_left - 1;
}

stack_level_lowered :
    (level : ℤ) (c : Capabilities)
    → pos 0 <ℤ level
    → level ≤ℤ tx_profile_stack_level
    → c.stack_level_known ≡ true
    → c.max_stack_level ≡ level -ℤ pos 1
    → stack_level_for tx_profile_stack_level c ≡ level -ℤ pos 1
unfolding stack_level_for ◌-ℤ◌
stack_level_lowered level c low high known lowered = ground arith

-- Is the answer an outright refusal?
abbrev pub is_refusal : String → Bool
is_refusal status = status == "Rejected" || status == "NotSupported"

-- The charge point is not known to take nothing above the next lower level.
abbrev pub can_step_down : Profile → CapabilityStore → Bool
can_step_down p store =
    let c = get_capabilities p.connector.charge_point_id store in
    not (c.stack_level_known && leb_ℤ c.max_stack_level (p.stack_level -ℤ pos 1))

-- The profile can be sent: the charge point takes amperes, as far as it is known, and the server
-- queues the request.
abbrev pub can_send : Handler → Profile → CapabilityStore → Bool
can_send h p store =
    let c = get_capabilities p.connector.charge_point_id store in
    (not c.known || c.allows_current) && h.send (transaction_profile p)

-- Everything that a retry needs.
abbrev pub is_sent_again : Handler → Profile → String → CapabilityStore → Bool
is_sent_again h p status store =
    (is_refusal status && ltb 0 p.retries_left && ltb_ℤ (pos 0) p.stack_level)
    && can_step_down p store
    && p.connector.current_transaction_id == p.transaction_id
    && can_send h (stepped_down p) store

retryable_lem :
    (p : Profile) (status : String)
    → is_retryable p status
      ≡ (is_refusal status && ltb 0 p.retries_left && ltb_ℤ (pos 0) p.stack_level)
unfolding is_retryable
retryable_lem p status = elim (Bool-cases (status == "Rejected")) [
  | inl rejected ↦
      subst
        (λ st.
          is_retryable p st
          ≡ (is_refusal st && ltb 0 p.retries_left && ltb_ℤ (pos 0) p.stack_level))
        (sym ((string_has_eq.beq_iff status "Rejected").0 rejected)) (ground arith)
  | inr other ↦ elim (Bool-cases (status == "NotSupported")) [
    | inl unsupported ↦
        subst
          (λ st.
            is_retryable p st
            ≡ (is_refusal st && ltb 0 p.retries_left && ltb_ℤ (pos 0) p.stack_level))
          (sym ((string_has_eq.beq_iff status "NotSupported").0 unsupported)) (ground arith)
    | inr neither ↦ ground arith
  ]
]

module _ (h : Handler) where
  -- The latest request is there or not.
  abbrev sent_if : Bool → Profile → Balancer → List Request
  sent_if again p b = if again then transaction_profile (stepped_down p) ∷ b.sent else b.sent

  resent :
      (p : Profile) (b : Balancer) (c : Capabilities)
      → get_capabilities p.connector.charge_point_id b.capabilities ≡ c
      → stack_level_for tx_profile_stack_level c ≡ p.stack_level -ℤ pos 1
      → (send_transaction_profile h p.connector p.limit (p.retries_left - 1) b).1.sent
        ≡ sent_if
            ((not c.known || c.allows_current) && h.send (transaction_profile (stepped_down p)))
            p
            b
  unfolding send_transaction_profile stepped_down
  resent p b c there level =
      rw (there, level)
        (elim (Bool-cases (c.known && not c.allows_current)) [
          | inl unfit ↦ ground arith
          | inr fit ↦ ground arith
        ])

  retried_lem :
      (p : Profile) (b : Balancer)
      → pos 0 <ℤ p.stack_level
      → p.stack_level ≤ℤ tx_profile_stack_level
      → let r =
          lower_stack_level p.connector.charge_point_id (p.stack_level -ℤ pos 1) b.capabilities in
        (retried h p (r.0, record b { capabilities = r.1 })).sent
        ≡ sent_if
            (can_step_down p b.capabilities
              && p.connector.current_transaction_id == p.transaction_id
              && can_send h (stepped_down p) b.capabilities)
            p
            b
  unfolding retried lower_stack_level stepped_down
  retried_lem p b low high =
      let cp = p.connector.charge_point_id in
      let entry = get_capabilities cp b.capabilities in
      let lowered = record entry {
        stack_level_known = true;
        max_stack_level = p.stack_level -ℤ pos 1;
      } in
      let b' = record b { capabilities = put cp lowered b.capabilities } in
      let stored : get_capabilities cp b'.capabilities ≡ lowered =
        get_capabilities-put cp cp lowered b.capabilities ∙ if_true lowered entry (eq_self cp) in
      let sent =
        resent p b' lowered stored (stack_level_lowered p.stack_level lowered low high refl refl) in
      elim (Bool-cases
        (entry.stack_level_known && leb_ℤ entry.max_stack_level (p.stack_level -ℤ pos 1))) [
          | inl old ↦ rw old refl
          | inr new ↦
              rw new (elim (Bool-cases (p.connector.current_transaction_id == p.transaction_id)) [
                | inl same ↦ rw same sent
                | inr gone ↦ rw gone refl
              ])
        ]

  pub verdict_steps_down :
      (p : Profile) (status : String) (now : ℕ) (b : Balancer)
      → p.stack_level ≤ℤ tx_profile_stack_level
      → (on_verdict h p status now b).sent ≡ (
          if is_sent_again h p status b.capabilities
          then transaction_profile (stepped_down p) ∷ b.sent
          else b.sent)
  unfolding on_verdict write
  verdict_steps_down p status now b high =
      let v : ProfileVerdict = record {
        status = status;
        limit = p.limit;
        stack_level = p.stack_level;
        time = now;
      } in
      let b' = write (profile_verdict p.connector.charge_point_id p.connector.id v) b in
      let asked = is_refusal status && ltb 0 p.retries_left && ltb_ℤ (pos 0) p.stack_level in
      elim (Bool-cases asked) [
        | inl again ↦ rw (retryable_lem p status, again) (retried_lem p b' (ground arith) high)
        | inr other ↦ rw (retryable_lem p status, other) refl
      ]
