-- ===== src/Tests/Balancing.antt =====
-- The load balancer, on a location with one charge point.
use evsys.Common.{
  All, List, [], arith, false, get, if◌then◌else◌, int_has_eq, map, nat_has_eq, none, pos, put,
  refl, string_has_eq, true, ℤ, ◌++◌, ◌-ℤ◌, ◌==◌, ◌∷◌, ◌≡◌, ◌≢◌, ◌⊎◌,
}
use evsys.Entity.{ChargePoint, Connector, new_connector}
use evsys.Power.Balancer.{
  Balancer, Handler, Profile, assigned_limit, balance, base_limit, survey_points,
  transaction_profile,
}
use evsys.Power.Balancer.Pass.{BalancedPoint, Pointwise, balance_connectors, survey_of}
use evsys.Power.Balancer.Sessions.{assigned_limit_unheld, session_limits}
use evsys.Power.Capabilities.{
  Capabilities, CapabilityStore, begin_discovery, get_capabilities, lower_stack_level,
  record_capabilities,
}
use evsys.Power.Capabilities.Ceiling.{
  HasCeiling, ceiling_never_rises, no_step, recorded, steps_after,
}
use evsys.Power.Events.{on_verdict}
use evsys.Power.Events.Retry.{is_sent_again, stepped_down, verdict_steps_down}
use evsys.System.Lookup.{new_charge_point}

abbrev pub no_requests : Balancer
no_requests = record { capabilities = []; sent = []; written = [] }

abbrev pub accepting : Handler
accepting = record {
  get_charge_point_doc = λ cp. none;
  get_location_doc = λ id. none;
  reported = λ cp. none;
  send = λ r. true;
}

abbrev smart_point : List Connector → ChargePoint
smart_point cs = record (new_charge_point "CP1") { smart_charging = true; connectors = cs }

abbrev pub new_session : ℤ → Connector
new_session id = record (new_connector id "CP1") { current_transaction_id = id }

-- A session with the highest slot, two new ones, and a connector without a session.
abbrev busy_location : List ChargePoint
busy_location =
    smart_point (
      record (new_session (pos 1)) { current_power_limit = pos 330 }
      ∷ new_session (pos 2)
      ∷ new_session (pos 3)
      ∷ record (new_connector (pos 4) "CP1") { current_power_limit = pos 115 }
      ∷ [])
    ∷ []

abbrev limits_of : List ChargePoint → List ℤ
limits_of [] = []
limits_of (p ∷ ps) = map (λ (c : Connector). c.current_power_limit) p.connectors ++ limits_of ps

-- Both new sessions get the same slot.
new_sessions_limits :
    limits_of (balance accepting busy_location no_requests).0
    ≡ pos 330 ∷ pos 195 ∷ pos 195 ∷ pos 0 ∷ []
unfolding balance new_charge_point new_connector get
new_sessions_limits = refl

busy_location_is_active : ((survey_of accepting busy_location no_requests).active == 0) ≡ false
unfolding survey_points new_charge_point new_connector
busy_location_is_active = refl

balance_connectors_example :
    Pointwise
      (BalancedPoint accepting []
        (assigned_limit (survey_of accepting busy_location no_requests).used))
      busy_location
      (balance accepting busy_location no_requests).0
balance_connectors_example =
    balance_connectors accepting busy_location no_requests busy_location_is_active

assigned_limit_unheld_example :
    let limit = assigned_limit (survey_of accepting busy_location no_requests).used in
    (limit ≡ base_limit) ⊎ All (λ held. held ≢ limit) (session_limits busy_location)
assigned_limit_unheld_example = assigned_limit_unheld accepting busy_location no_requests

abbrev refused_profile : Profile
refused_profile = record {
  connector = new_session (pos 2);
  transaction_id = pos 2;
  limit = pos 195;
  stack_level = pos 10;
  retries_left = 1;
}

verdict_steps_down_example :
    (on_verdict accepting refused_profile "Rejected" 100 no_requests).sent ≡ (
      if is_sent_again accepting refused_profile "Rejected" []
      then transaction_profile (stepped_down refused_profile) ∷ []
      else [])
verdict_steps_down_example =
    verdict_steps_down accepting refused_profile "Rejected" 100 no_requests (omega arith)

-- The refused profile is sent again at level 9.
refused_is_sent_again :
    (on_verdict accepting refused_profile "Rejected" 100 no_requests).sent
    ≡ transaction_profile (record refused_profile { stack_level = pos 9; retries_left = 0 }) ∷ []
unfolding on_verdict new_connector get put ◌-ℤ◌
refused_is_sent_again = refl

abbrev reported_ten : Capabilities
reported_ten = record {
  known = true;
  stack_level_known = true;
  max_stack_level = pos 10;
  allows_current = true;
  allowed_units = "Current";
  last_attempt = none;
}

abbrev after_refusal : CapabilityStore
after_refusal = (lower_stack_level "CP1" (pos 9) []).1

refusal_sets_ceiling : HasCeiling "CP1" (pos 9) after_refusal
unfolding lower_stack_level get put get_capabilities
refusal_sets_ceiling = (refl, omega arith)

ceiling_never_rises_example :
    HasCeiling "CP1" (pos 9) (record_capabilities "CP1" reported_ten after_refusal).1
ceiling_never_rises_example =
    ceiling_never_rises "CP1" (pos 9) (steps_after (recorded "CP1" reported_ten refl) no_step)
      refusal_sets_ceiling

first_claims : (begin_discovery "CP1" 100 300 []).0 ≡ true
unfolding begin_discovery get
first_claims = refl
