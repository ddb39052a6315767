-- ===== src/Power/Capabilities.antt =====
-- What a charge point accepts of charging profiles: power/capabilities.go. Times are in seconds. The
-- mutex of the store makes each operation one step.
pub mod Ceiling
pub mod Discovery
pub mod Reported
use evsys.Common.{
  Bool, Dict, Option, String, arith, false, get, get-put, if◌then◌else◌, int_has_eq, leb_ℤ, ltb,
  ltb_ℤ, nat_has_eq, none, not, pos, put, some, string_has_eq, true, ℕ, ℤ, ◌&&◌, ◌+◌, ◌==◌, ◌||◌,
  ◌≡◌,
}
use evsys.System.Stop.Close.{entry}

-- TxProfileStackLevel of ocpp/v16/smartcharging/set_charging_profile.go
abbrev pub tx_profile_stack_level : ℤ
tx_profile_stack_level = pos 10

-- discoveryRetryInterval
abbrev pub discovery_retry_interval : ℕ
discovery_retry_interval = 300

pub record Capabilities : Type 0 where
  pub known : Bool
  pub stack_level_known : Bool
  pub max_stack_level : ℤ
  pub allows_current : Bool
  pub allowed_units : String
  pub last_attempt : Option ℕ

-- The zero value.
abbrev pub unknown_capabilities : Capabilities
unknown_capabilities = record {
  known = false;
  stack_level_known = false;
  max_stack_level = pos 0;
  allows_current = false;
  allowed_units = "";
  last_attempt = none;
}

-- The level that is wanted, as far as the charge point accepts it.
unfoldable pub stack_level_for : ℤ → Capabilities → ℤ
stack_level_for desired c =
    if not c.stack_level_known || leb_ℤ desired c.max_stack_level
    then desired
    else if ltb_ℤ c.max_stack_level (pos 0)
    then pos 0
    else c.max_stack_level

abbrev pub CapabilityStore : Type 0
CapabilityStore = Dict String Capabilities

entry_of : Option Capabilities → Capabilities
entry_of none = unknown_capabilities
entry_of (some c) = c

unfoldable pub get_capabilities : String → CapabilityStore → Capabilities
unfolding entry_of
get_capabilities cp store = entry_of (get cp store)

-- A reported configuration, with a lower ceiling kept that a refusal taught.
unfoldable pub record_capabilities :
    String → Capabilities → CapabilityStore → Capabilities × CapabilityStore
unfolding get_capabilities
record_capabilities cp reported store =
    let previous = get_capabilities cp store in
    let kept =
      if previous.stack_level_known && ltb_ℤ previous.max_stack_level reported.max_stack_level
      then record reported { max_stack_level = previous.max_stack_level }
      else reported in
    (kept, put cp kept store)

-- Was the charge point asked less than `interval` ago?
unfoldable pub is_recent : Option ℕ → ℕ → ℕ → Bool
is_recent none now interval = false
is_recent (some last) now interval = ltb now (last + interval)

-- Claims the right to ask the charge point for its configuration.
unfoldable pub begin_discovery : String → ℕ → ℕ → CapabilityStore → Bool × CapabilityStore
unfolding get_capabilities is_recent
begin_discovery cp now interval store =
    let entry = get_capabilities cp store in
    if entry.known
    then (false, store)
    else if is_recent entry.last_attempt now interval
    then (false, store)
    else (true, put cp (record entry { last_attempt = some now }) store)

-- A refusal at the level above `level`: does it teach a lower ceiling?
unfoldable pub lower_stack_level : String → ℤ → CapabilityStore → Bool × CapabilityStore
unfolding get_capabilities
lower_stack_level cp level store =
    let entry = get_capabilities cp store in
    if entry.stack_level_known && leb_ℤ entry.max_stack_level level
    then (false, store)
    else (true, put cp (record entry { stack_level_known = true; max_stack_level = level }) store)

pub get_capabilities-put :
    (cp j : String) (c : Capabilities) (store : CapabilityStore)
    → get_capabilities j (put cp c store) ≡ (if cp == j then c else get_capabilities j store)
unfolding get_capabilities entry_of
get_capabilities-put cp j c store = ground (arith, get-put cp j c store)
