-- ===== src/Power/Capabilities/Discovery.antt =====
-- How often a charge point is asked for its configuration.
use evsys.Common.{
  Bool, Bool-cases, String, ap, arith, eq_self, false, if_false, if_ind, if_true, if◌then◌else◌,
  inl, inr, int_has_eq, leb_ℤ, nat_has_eq, put, refl, some, string_has_eq, subst, sym, true, ℕ, ℤ,
  ◌&&◌, ◌+◌, ◌<◌, ◌==◌, ◌∙◌, ◌≡◌, ◌≤◌, ◌⊎◌,
}
use evsys.Power.Capabilities.{
  Capabilities, CapabilityStore, begin_discovery, get_capabilities, get_capabilities-put, is_recent,
  lower_stack_level, record_capabilities,
}

-- The operations on the store from the time `t` on. A configuration that is read makes the entry known.
pub data Later (t : ℕ) : CapabilityStore → CapabilityStore → Type 0 where
  no_more : {store : CapabilityStore} → Later t store store
  then_recorded :
      {a c : CapabilityStore} (cp : String) (reported : Capabilities)
      → reported.known ≡ true
      → Later t (record_capabilities cp reported a).1 c
      → Later t a c
  then_attempted :
      {a c : CapabilityStore} (cp : String) (now interval : ℕ)
      → t ≤ now
      → Later t (begin_discovery cp now interval a).1 c
      → Later t a c
  then_refused :
      {a c : CapabilityStore} (cp : String) (level : ℤ)
      → Later t (lower_stack_level cp level a).1 c
      → Later t a c

-- Is the configuration known, or was it asked for at `t` or later?
abbrev Asked : ℕ → Capabilities → Type 0
Asked t c = (c.known ≡ true) ⊎ ((last : ℕ) × (c.last_attempt ≡ some last) × (t ≤ last))

put-Asked :
    (cp j : String) (t : ℕ) (c : Capabilities) (store : CapabilityStore)
    → Asked t (get_capabilities cp store)
    → (Asked t (get_capabilities j store) → Asked t c)
    → Asked t (get_capabilities cp (put j c store))
put-Asked cp j t c store h step = elim (Bool-cases (j == cp)) [
  | inl same ↦
      subst (Asked t)
        (sym (get_capabilities-put j cp c store ∙ if_true c (get_capabilities cp store) same))
        (step (
          subst (λ k. Asked t (get_capabilities k store))
            (sym ((string_has_eq.beq_iff j cp).0 same)) h))
  | inr other ↦
      subst (Asked t)
        (sym (get_capabilities-put j cp c store ∙ if_false c (get_capabilities cp store) other)) h
]

recorded-Asked :
    (cp j : String) (t : ℕ) (reported : Capabilities) (store : CapabilityStore)
    → reported.known ≡ true
    → Asked t (get_capabilities cp store)
    → Asked t (get_capabilities cp (record_capabilities j reported store).1)
unfolding record_capabilities
recorded-Asked cp j t reported store known h =
    put-Asked cp j t (record_capabilities j reported store).0 store h (λ _. inl (ground arith))

claimed-Asked :
    (cp j : String) (t now : ℕ) (store : CapabilityStore)
    → t ≤ now
    → Asked t (get_capabilities cp store)
    → Asked t (
        get_capabilities cp
          (put j (record (get_capabilities j store) { last_attempt = some now }) store))
claimed-Asked cp j t now store later h =
    put-Asked cp j t (record (get_capabilities j store) { last_attempt = some now }) store h
      (λ _. inr (now, refl, later))

attempted-Asked :
    (cp j : String) (t now interval : ℕ) (store : CapabilityStore)
    → t ≤ now
    → Asked t (get_capabilities cp store)
    → Asked t (get_capabilities cp (begin_discovery j now interval store).1)
unfolding begin_discovery
attempted-Asked cp j t now interval store later h =
    let entry = get_capabilities j store in
    let claim : Bool × CapabilityStore =
      (true, put j (record entry { last_attempt = some now }) store) in
    let P : Bool × CapabilityStore → Type 0 = λ r. Asked t (get_capabilities cp r.1) in
    let claimed = claimed-Asked cp j t now store later h in
    if_ind P entry.known (false, store)
      (if is_recent entry.last_attempt now interval then (false, store) else claim) h
      (if_ind P (is_recent entry.last_attempt now interval) (false, store) claim h claimed)

refused-Asked :
    (cp j : String) (t : ℕ) (level : ℤ) (store : CapabilityStore)
    → Asked t (get_capabilities cp store)
    → Asked t (get_capabilities cp (lower_stack_level j level store).1)
unfolding lower_stack_level
refused-Asked cp j t level store h =
    let entry = get_capabilities j store in
    let lowered = record entry { stack_level_known = true; max_stack_level = level } in
    if_ind (λ (r : Bool × CapabilityStore). Asked t (get_capabilities cp r.1))
      (entry.stack_level_known && leb_ℤ entry.max_stack_level level) (false, store)
      (true, put j lowered store) h (put-Asked cp j t lowered store h (λ asked. asked))

Later-Asked :
    {t : ℕ} {a c : CapabilityStore} (cp : String)
    → Later t a c
    → Asked t (get_capabilities cp a)
    → Asked t (get_capabilities cp c)
Later-Asked cp no_more h = h
Later-Asked {t = t} {a = a} cp (then_recorded j reported known later) h =
    Later-Asked cp later (recorded-Asked cp j t reported a known h)
Later-Asked {t = t} {a = a} cp (then_attempted j now interval after later) h =
    Later-Asked cp later (attempted-Asked cp j t now interval a after h)
Later-Asked {t = t} {a = a} cp (then_refused j level later) h =
    Later-Asked cp later (refused-Asked cp j t level a h)

claim-Asked :
    (cp : String) (t interval : ℕ) (store : CapabilityStore)
    → (begin_discovery cp t interval store).0 ≡ true
    → Asked t (get_capabilities cp (begin_discovery cp t interval store).1)
unfolding begin_discovery
claim-Asked cp t interval store claimed =
    let entry = get_capabilities cp store in
    let asked = record entry { last_attempt = some t } in
    let claim : Bool × CapabilityStore = (true, put cp asked store) in
    let P : Bool × CapabilityStore → Type 0 = λ r. r.0 ≡ true → Asked t (get_capabilities cp r.1) in
    let no_claim : P (false, store) = λ e. ground arith in
    let stored =
      get_capabilities-put cp cp asked store
      ∙ if_true asked (get_capabilities cp store) (eq_self cp) in
    if_ind P entry.known (false, store)
      (if is_recent entry.last_attempt t interval then (false, store) else claim) no_claim
      (if_ind P (is_recent entry.last_attempt t interval) (false, store) claim no_claim
        (λ _. subst (Asked t) (sym stored) (inr (t, refl, omega arith))))
      claimed

soon_is_recent :
    (now last interval : ℕ) → now < last + interval → is_recent (some last) now interval ≡ true
unfolding is_recent
soon_is_recent now last interval h = ground arith

Asked-begin_discovery :
    (cp : String) (t now interval : ℕ) (store : CapabilityStore)
    → now < t + interval
    → Asked t (get_capabilities cp store)
    → begin_discovery cp now interval store ≡ (false, store)
unfolding begin_discovery is_recent
Asked-begin_discovery cp t now interval store soon (inl known) = if_true _ _ known
Asked-begin_discovery cp t now interval store soon (inr (last, asked, after)) =
    let entry = get_capabilities cp store in
    let claim : Bool × CapabilityStore =
      (true, put cp (record entry { last_attempt = some now }) store) in
    let recent : is_recent entry.last_attempt now interval ≡ true =
      ap (λ o. is_recent o now interval) asked ∙ soon_is_recent now last interval (omega arith) in
    if_ind (λ (r : Bool × CapabilityStore). r ≡ (false, store)) entry.known (false, store)
      (if is_recent entry.last_attempt now interval then (false, store) else claim) refl
      (if_true (false, store) claim recent)

-- Of the sessions that start at a charge point within the interval after one of them claimed the
-- right to ask for its configuration, none gets the right again, whatever else is recorded.
pub begin_discovery_once :
    (cp : String) (t now interval : ℕ) (a : CapabilityStore) {c : CapabilityStore}
    → (begin_discovery cp t interval a).0 ≡ true
    → Later t (begin_discovery cp t interval a).1 c
    → now < t + interval
    → begin_discovery cp now interval c ≡ (false, c)
begin_discovery_once cp t now interval a {c = c} claimed later soon =
    Asked-begin_discovery cp t now interval c soon
      (Later-Asked cp later (claim-Asked cp t interval a claimed))
