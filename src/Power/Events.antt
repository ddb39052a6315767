-- ===== src/Power/Events.antt =====
-- What starts the load balancer of power/load_balancer.go: a boot, a session, the start of the system
-- and the answer of a charge point to a profile.
pub mod Retry
use evsys.Common.{
  Bool, List, Option, String, [], false, if◌then◌else◌, int_has_eq, ltb, ltb_ℤ, nat_has_eq, none,
  not, pos, some, string_has_eq, true, ℕ, ◌&&◌, ◌-ℤ◌, ◌-◌, ◌==◌, ◌||◌, ◌∷◌,
}
use evsys.Entity.{
  ChargePoint, Connector, Location, ProfileVerdict, profile_status_accepted,
  profile_status_not_supported, profile_status_rejected,
}
use evsys.Power.Balancer.{
  Balancer, Handler, Profile, Write, balance, clear_default_profile, connector_power,
  default_profile, is_active, profile_verdict, send_transaction_profile, write,
}
use evsys.Power.Capabilities.{
  Capabilities, begin_discovery, discovery_retry_interval, lower_stack_level, record_capabilities,
}

-- Does the answer ask for another try at a lower level?
unfoldable pub is_retryable : Profile → String → Bool
is_retryable p status =
    not (status == profile_status_accepted)
    && (ltb 0 p.retries_left && ltb_ℤ (pos 0) p.stack_level)
    && (status == profile_status_rejected || status == profile_status_not_supported)

module _ (h : Handler) where
  located : Option ChargePoint → Option Location
  located none = none
  located (some p) =
      if not p.smart_charging || p.location_id == "" then none else h.get_location_doc p.location_id

  -- The location of a charge point with smart charging.
  unfoldable pub get_location : String → Option Location
  unfolding located
  get_location cp = located (h.get_charge_point_doc cp)

  discovered : Option Capabilities → String → Balancer → Balancer
  unfolding record_capabilities
  discovered none cp b = b
  discovered (some reported) cp b = record b {
    capabilities = (record_capabilities cp reported b.capabilities).1;
  }

  unfoldable pub discover_capabilities : String → Balancer → Balancer
  unfolding discovered
  discover_capabilities cp b = discovered (h.reported cp) cp b

  unfoldable pub ensure_capabilities : String → ℕ → Balancer → Balancer
  unfolding begin_discovery discover_capabilities
  ensure_capabilities cp now b =
      let (claimed, store) = begin_discovery cp now discovery_retry_interval b.capabilities in
      let b' = record b { capabilities = store } in
      if claimed then discover_capabilities cp b' else b'

  checked : Option Location → Balancer → Balancer
  unfolding balance
  checked none b = b
  checked (some l) b = if l.power_limit == pos 0 then b else (balance h l.evses b).1

  unfoldable pub check_power_limit : String → ℕ → Balancer → Balancer
  unfolding ensure_capabilities get_location checked
  check_power_limit cp now b = checked (get_location cp) (ensure_capabilities cp now b)

  booted : Option Location → String → Balancer → Balancer
  unfolding discover_capabilities
  booted none cp b = b
  booted (some l) cp b =
      let b' = discover_capabilities cp b in
      let r =
        if l.default_power_limit == pos 0
        then clear_default_profile cp
        else default_profile cp l.default_power_limit in
      if h.send r then record b' { sent = r ∷ b'.sent } else b'

  -- onChargePointBoot
  unfoldable pub on_charge_point_boot : String → Balancer → Balancer
  unfolding get_location booted
  on_charge_point_boot cp b = booted (get_location cp) cp b

  -- The retry, where the lower level was not tried before.
  retried : Profile → Bool × Balancer → Balancer
  unfolding send_transaction_profile
  retried p (false, b) = b
  retried p (true, b) =
      if p.connector.current_transaction_id == p.transaction_id
      then (send_transaction_profile h p.connector p.limit (p.retries_left - 1) b).1
      else b

  -- The callback of `sendTransactionProfile` once the charge point answered, or did not in time.
  unfoldable pub on_verdict : Profile → String → ℕ → Balancer → Balancer
  unfolding write is_retryable lower_stack_level retried
  on_verdict p status now b =
      let v : ProfileVerdict = record {
        status = status;
        limit = p.limit;
        stack_level = p.stack_level;
        time = now;
      } in
      let b' = write (profile_verdict p.connector.charge_point_id p.connector.id v) b in
      if is_retryable p status
      then (let (lowered, store) =
            lower_stack_level p.connector.charge_point_id (p.stack_level -ℤ pos 1)
              b'.capabilities in
          retried p (lowered, record b' { capabilities = store }))
      else b'

unfoldable pub reset_connectors : List Connector → List Write → List Write
unfolding is_active
reset_connectors [] ws = ws
reset_connectors (c ∷ cs) ws = reset_connectors cs (
    if not (is_active c) && not (c.current_power_limit == pos 0)
    then connector_power c.charge_point_id c.id (pos 0) ∷ ws
    else ws)

unfoldable pub reset_points : List ChargePoint → List Write → List Write
unfolding reset_connectors
reset_points [] ws = ws
reset_points (p ∷ ps) ws =
    reset_points ps (if p.smart_charging then reset_connectors p.connectors ws else ws)

-- OnSystemStart, on the locations that the database lists.
unfoldable pub on_system_start : List Location → List Write → List Write
unfolding reset_points
on_system_start [] ws = ws
on_system_start (l ∷ ls) ws = on_system_start ls (reset_points l.evses ws)
