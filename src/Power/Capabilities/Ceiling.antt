-- ===== src/Power/Capabilities/Ceiling.antt =====
-- The ceiling of the stack levels of a charge point through the operations on the store.
use evsys.Common.{
  Bool, Bool-cases, String, arith, if_false, if_true, inl, inr, int_has_eq, leb_ℤ, nat_has_eq, put,
  some, string_has_eq, subst, sym, true, ℕ, ℤ, ◌&&◌, ◌==◌, ◌∙◌, ◌≡◌, ◌≤ℤ◌,
}
use evsys.Power.Capabilities.{
  Capabilities, CapabilityStore, begin_discovery, get_capabilities, get_capabilities-put,
  lower_stack_level, record_capabilities,
}

-- One operation on the store; a reported configuration has a ceiling, as `parseCapabilities` gives it.
pub data Step : CapabilityStore → CapabilityStore → Type 0 where
  recorded :
      {store : CapabilityStore} (cp : String) (reported : Capabilities)
      → reported.stack_level_known ≡ true
      → Step store (record_capabilities cp reported store).1
  attempted :
      {store : CapabilityStore} (cp : String) (now interval : ℕ)
      → Step store (begin_discovery cp now interval store).1
  refused :
      {store : CapabilityStore} (cp : String) (level : ℤ)
      → Step store (lower_stack_level cp level store).1

pub data Steps : CapabilityStore → CapabilityStore → Type 0 where
  no_step : {store : CapabilityStore} → Steps store store
  steps_after : {a b c : CapabilityStore} → Step a b → Steps b c → Steps a c

-- Does the charge point have a ceiling of at most `m`?
abbrev pub HasCeiling : String → ℤ → CapabilityStore → Type 0
HasCeiling cp m store =
    ((get_capabilities cp store).stack_level_known ≡ true)
    × ((get_capabilities cp store).max_stack_level ≤ℤ m)

-- Does the entry have a ceiling of at most `m`?
abbrev Bounded : ℤ → Capabilities → Type 0
Bounded m c = (c.stack_level_known ≡ true) × (c.max_stack_level ≤ℤ m)

put-HasCeiling :
    (cp j : String) (m : ℤ) (c : Capabilities) (store : CapabilityStore)
    → HasCeiling cp m store
    → (HasCeiling j m store → Bounded m c)
    → HasCeiling cp m (put j c store)
put-HasCeiling cp j m c store h step = elim (Bool-cases (j == cp)) [
  | inl same ↦
      subst (Bounded m)
        (sym (get_capabilities-put j cp c store ∙ if_true c (get_capabilities cp store) same))
        (step (subst (λ k. HasCeiling k m store) (sym ((string_has_eq.beq_iff j cp).0 same)) h))
  | inr other ↦
      subst (Bounded m)
        (sym (get_capabilities-put j cp c store ∙ if_false c (get_capabilities cp store) other)) h
]

recorded_lem :
    (cp j : String) (m : ℤ) (reported : Capabilities) (store : CapabilityStore)
    → reported.stack_level_known ≡ true
    → HasCeiling cp m store
    → HasCeiling cp m (record_capabilities j reported store).1
unfolding record_capabilities
recorded_lem cp j m reported store known h =
    put-HasCeiling cp j m (record_capabilities j reported store).0 store h (λ bounded. ground arith)

attempted_lem :
    (cp j : String) (m : ℤ) (now interval : ℕ) (store : CapabilityStore)
    → HasCeiling cp m store
    → HasCeiling cp m (begin_discovery j now interval store).1
unfolding begin_discovery
attempted_lem cp j m now interval store h =
    let entry = get_capabilities j store in
    let claimed = record entry { last_attempt = some now } in
    let put_lem = put-HasCeiling cp j m claimed store h (λ bounded. bounded) in ground arith

refused_lem :
    (cp j : String) (m level : ℤ) (store : CapabilityStore)
    → HasCeiling cp m store
    → HasCeiling cp m (lower_stack_level j level store).1
unfolding lower_stack_level
refused_lem cp j m level store h =
    let entry = get_capabilities j store in
    elim (Bool-cases (entry.stack_level_known && leb_ℤ entry.max_stack_level level)) [
      | inl old ↦
          subst (λ (r : Bool × CapabilityStore). HasCeiling cp m r.1) (sym (if_true _ _ old)) h
      | inr taught ↦
          subst (λ (r : Bool × CapabilityStore). HasCeiling cp m r.1) (sym (if_false _ _ taught))
            (put-HasCeiling cp j m
              (record entry { stack_level_known = true; max_stack_level = level }) store h
              (λ bounded. ground arith))
    ]

Step-HasCeiling :
    {a b : CapabilityStore} (cp : String) (m : ℤ) → Step a b → HasCeiling cp m a → HasCeiling cp m b
Step-HasCeiling {a = a} cp m (recorded j reported known) h = recorded_lem cp j m reported a known h
Step-HasCeiling {a = a} cp m (attempted j now interval) h = attempted_lem cp j m now interval a h
Step-HasCeiling {a = a} cp m (refused j level) h = refused_lem cp j m level a h

-- A ceiling that is known is never forgotten and never rises, whatever the charge point reports or
-- refuses afterwards.
pub ceiling_never_rises :
    {a b : CapabilityStore} (cp : String) (m : ℤ)
    → Steps a b
    → HasCeiling cp m a
    → HasCeiling cp m b
ceiling_never_rises cp m no_step h = h
ceiling_never_rises cp m (steps_after step steps) h =
    ceiling_never_rises cp m steps (Step-HasCeiling cp m step h)
