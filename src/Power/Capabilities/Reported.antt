-- ===== src/Power/Capabilities/Reported.antt =====
-- The answer of a charge point about its configuration: `parseCapabilities` of power/capabilities.go.
-- An answer that is no JSON of a configuration is `none`.
use evsys.Common.{
  All, Bool, Bool-cases, List, Option, String, [], ap, arith, false, get-put_self, if◌then◌else◌,
  inl, inr, int_has_eq, nat_has_eq, none, pos, refl, some, string_has_eq, sym, true, ℕ, ℤ, ◌++◌,
  ◌==◌, ◌||◌, ◌∙◌, ◌∷◌, ◌≡◌, ◌≤ℤ◌,
}
use evsys.Power.Capabilities.{
  Capabilities, CapabilityStore, entry_of, get_capabilities, record_capabilities, stack_level_for,
  tx_profile_stack_level,
}
use evsys.System.Boot.{ConfigurationKey}
use evsys.Texts.{parse_int, split, to_lower, trim_space}

abbrev pub key_max_stack_level : String
key_max_stack_level = "ChargeProfileMaxStackLevel"

abbrev pub key_allowed_rate_unit : String
key_allowed_rate_unit = "ChargingScheduleAllowedChargingRateUnit"

-- What is taken for granted until a key says otherwise.
abbrev pub fallback_capabilities : Capabilities
fallback_capabilities = record {
  known = true;
  stack_level_known = true;
  max_stack_level = tx_profile_stack_level;
  allows_current = true;
  allowed_units = "Current";
  last_attempt = none;
}

-- Is a unit of the list "Current", in whatever case?
unfoldable pub names_current : List String → Bool
names_current [] = false
names_current (unit ∷ units) = to_lower (trim_space unit) == "current" || names_current units

with_level : Option ℤ → Capabilities → Option Capabilities
with_level none c = none
with_level (some level) c = some (record c { max_stack_level = level })

with_units : String → Capabilities → Capabilities
unfolding names_current
with_units units c = record c {
  allowed_units = units;
  allows_current = names_current (split units);
}

read_value : String → Option String → Capabilities → Option Capabilities
unfolding with_level with_units
read_value key none c = some c
read_value key (some value) c =
    if key == key_max_stack_level
    then with_level (parse_int (trim_space value)) c
    else if key == key_allowed_rate_unit
    then some (with_units value c)
    else some c

unfoldable pub read_keys : List ConfigurationKey → Option Capabilities → Option Capabilities
unfolding read_value
read_keys [] o = o
read_keys (k ∷ ks) none = none
read_keys (k ∷ ks) (some c) = read_keys ks (read_value k.key k.value c)

unfoldable pub parse_capabilities : Option (List ConfigurationKey) → Option Capabilities
unfolding read_keys
parse_capabilities none = none
parse_capabilities (some keys) = read_keys keys (some fallback_capabilities)

-- A key that is not about the level.
abbrev pub IsOther : ConfigurationKey → Type 0
IsOther k = (k.key == key_max_stack_level) ≡ false

-- Capabilities that were read, with a level.
abbrev pub HasLevel : ℤ → Capabilities → Type 0
HasLevel n c = (c.known ≡ true) × (c.stack_level_known ≡ true) × (c.max_stack_level ≡ n)

read_value_other :
    (n : ℤ) (key : String) (value : Option String) (c : Capabilities)
    → (key == key_max_stack_level) ≡ false
    → HasLevel n c
    → (c' : Capabilities) × (read_value key value c ≡ some c') × HasLevel n c'
unfolding read_value with_units
read_value_other n key none c ne h = (c, refl, h)
read_value_other n key (some value) c ne h = elim (Bool-cases (key == key_allowed_rate_unit)) [
  | inl units ↦ (with_units value c, rw (ne, units) refl, h)
  | inr unknown ↦ (c, rw (ne, unknown) refl, h)
]

read_keys_other :
    (n : ℤ) (keys : List ConfigurationKey) (c : Capabilities)
    → All IsOther keys
    → HasLevel n c
    → (c' : Capabilities) × (read_keys keys (some c) ≡ some c') × HasLevel n c'
unfolding read_keys
read_keys_other n [] c others h = (c, refl, h)
read_keys_other n (k ∷ ks) c others h =
    let (c1, reads, h1) = read_value_other n k.key k.value c others.0 h in
    let (c2, rest, h2) = read_keys_other n ks c1 others.1 h1 in
    (c2, ap (read_keys ks) reads ∙ rest, h2)

read_keys-none : (ks : List ConfigurationKey) → read_keys ks none ≡ none
unfolding read_keys
read_keys-none [] = refl
read_keys-none (k ∷ ks) = refl

read_keys_append :
    (xs ys : List ConfigurationKey) (o : Option Capabilities)
    → read_keys (xs ++ ys) o ≡ read_keys ys (read_keys xs o)
unfolding read_keys
read_keys_append [] ys o = refl
read_keys_append (x ∷ xs) ys none = sym (read_keys-none ys)
read_keys_append (x ∷ xs) ys (some c) = read_keys_append xs ys (read_value x.key x.value c)

level_read :
    (m : ℕ) (value : String) (c : Capabilities)
    → parse_int (trim_space value) ≡ some (pos m)
    → read_value key_max_stack_level (some value) c ≡ some (record c { max_stack_level = pos m })
unfolding read_value with_level
level_read m value c reads = ap (λ o. with_level o c) reads

stack_level_bounded :
    (m : ℕ) (c : Capabilities) (desired : ℤ)
    → c.stack_level_known ≡ true
    → c.max_stack_level ≤ℤ pos m
    → stack_level_for desired c ≤ℤ pos m
unfolding stack_level_for
stack_level_bounded m c desired known lower = ground arith

kept_level :
    (m : ℕ) (cp : String) (c : Capabilities) (store : CapabilityStore)
    → HasLevel (pos m) c
    → let k = (record_capabilities cp c store).0 in
      (k.stack_level_known ≡ true) × (k.max_stack_level ≤ℤ pos m)
unfolding record_capabilities
kept_level m cp c store h = ground arith

get_recorded :
    (cp : String) (c : Capabilities) (store : CapabilityStore)
    → get_capabilities cp (record_capabilities cp c store).1 ≡ (record_capabilities cp c store).0
unfolding record_capabilities get_capabilities entry_of
get_recorded cp c store = ap entry_of (get-put_self cp (record_capabilities cp c store).0 store)

abbrev pub level_key : String → ConfigurationKey
level_key value = record { key = key_max_stack_level; value = some value }

-- An answer that gives one highest level, a number that is not negative, among keys about other
-- things is read; once it is recorded, the level that is chosen for the charge point is at most that
-- one, whatever level is wanted and whatever was recorded before.
pub reported_level_respected :
    (earlier later : List ConfigurationKey) (value : String) (m : ℕ)
    → All IsOther earlier
    → All IsOther later
    → parse_int (trim_space value) ≡ some (pos m)
    → (c : Capabilities) × (parse_capabilities (some (earlier ++ level_key value ∷ later)) ≡ some c)
      × ((cp : String) (desired : ℤ) (store : CapabilityStore)
          → stack_level_for desired (get_capabilities cp (record_capabilities cp c store).1)
            ≤ℤ pos m)
unfolding parse_capabilities read_keys
reported_level_respected earlier later value m before after reads =
    let level = level_key value in
    let (c1, first, (known1, level1, _)) =
      read_keys_other tx_profile_stack_level earlier fallback_capabilities before
        (refl, refl, refl) in
    let (c2, rest, h) =
      read_keys_other (pos m) later (record c1 { max_stack_level = pos m }) after
        (known1, level1, refl) in
    (
      c2,
      read_keys_append earlier (level ∷ later) (some fallback_capabilities)
          ∙ ap (read_keys (level ∷ later)) first
          ∙ ap (read_keys later) (level_read m value c1 reads)
          ∙ rest,
      λ cp desired store.
          let (known, lower) = kept_level m cp c2 store h in
          rw (get_recorded cp c2 store)
            (stack_level_bounded m (record_capabilities cp c2 store).0 desired known lower),
    )
