-- ===== src/Power/Balancer.antt =====
-- The load balancer of a location: power/load_balancer.go. The lock of the balancer makes a pass one
-- step; the answer to a profile comes later and is a step of its own, `on_verdict`. The connectors that
-- a pass works on are read from the database for that pass, and no other code holds them.
pub mod Slots
pub mod Pass
pub mod Sessions
pub mod Reported
use evsys.Common.{
  Bool, List, Option, String, [], elem, false, if◌then◌else◌, int_has_eq, leb_ℤ, ltb_ℤ, nat_has_eq,
  not, pos, string_has_eq, suc, true, ℕ, ℤ, ◌&&◌, ◌==◌, ◌∷◌,
}
use evsys.Entity.{ChargePoint, Connector, Location, ProfileVerdict}
use evsys.Power.Capabilities.{
  Capabilities, CapabilityStore, get_capabilities, stack_level_for, tx_profile_stack_level,
}

abbrev pub base_limit : ℤ
base_limit = pos 85

-- stackLevelRetries
abbrev pub stack_level_retries : ℕ
stack_level_retries = 1

abbrev pub power_slots : List ℤ
power_slots = pos 330 ∷ pos 195 ∷ pos 145 ∷ pos 115 ∷ []

-- The profile of a session that was sent, with what its callback has captured.
pub record Profile : Type 0 where
  pub connector : Connector
  pub transaction_id : ℤ
  pub limit : ℤ
  pub stack_level : ℤ
  pub retries_left : ℕ

pub data Request : Type 0 where
  transaction_profile : Profile → Request
  default_profile : String → ℤ → Request
  clear_default_profile : String → Request

-- A write to the database; an error of it is only logged.
pub data Write : Type 0 where
  connector_power : String → ℤ → ℤ → Write
  transaction_power : ℤ → ℤ → Write
  profile_verdict : String → ℤ → ProfileVerdict → Write

-- The lists have the latest first.
pub record Balancer : Type 0 where
  pub capabilities : CapabilityStore
  pub sent : List Request
  pub written : List Write

-- What the balancer is built with: the reads of the database, the answer of a charge point to
-- GetConfiguration, if it is readable, and whether the server queues a request.
pub record Handler : Type 0 where
  pub get_charge_point_doc : String → Option ChargePoint
  pub get_location_doc : String → Option Location
  pub reported : String → Option Capabilities
  pub send : Request → Bool

unfoldable pub write : Write → Balancer → Balancer
write w b = record b { written = w ∷ b.written }

unfoldable pub is_active : Connector → Bool
is_active c = leb_ℤ (pos 0) c.current_transaction_id

unfoldable pub has_limit : Connector → Bool
has_limit c = ltb_ℤ (pos 0) c.current_power_limit

unfoldable pub with_limit : ℤ → Connector → Connector
with_limit limit c = record c { current_power_limit = limit }

-- The first loop of a pass: the limits in use, the number of sessions, and no limit left on a
-- connector without a session.
pub record Survey : Type 0 where
  pub used : List ℤ
  pub active : ℕ
  pub balancer : Balancer

first_free : List ℤ → List ℤ → ℤ
first_free [] used = base_limit
first_free (slot ∷ slots) used =
    let rest = first_free slots used in if elem slot used then rest else slot

-- The highest slot that no session uses, or the base limit.
unfoldable pub assigned_limit : List ℤ → ℤ
unfolding first_free
assigned_limit used = first_free power_slots used

limit_stored : ℤ → Connector → Bool × Balancer → Connector × Balancer
unfolding with_limit write
limit_stored limit c (true, b) = (
  with_limit limit c,
  write (connector_power c.charge_point_id c.id limit)
      (write (transaction_power c.current_transaction_id limit) b),
)
limit_stored limit c (false, b) = (c, b)

module _ (h : Handler) where
  unfoldable pub send_transaction_profile : Connector → ℤ → ℕ → Balancer → Bool × Balancer
  unfolding get_capabilities stack_level_for
  send_transaction_profile c limit retries b =
      let limits = get_capabilities c.charge_point_id b.capabilities in
      if limits.known && not limits.allows_current
      then (false, b)
      else let r = transaction_profile record {
        connector = c;
        transaction_id = c.current_transaction_id;
        limit = limit;
        stack_level = stack_level_for tx_profile_stack_level limits;
        retries_left = retries;
      } in
        if h.send r then (true, record b { sent = r ∷ b.sent }) else (false, b)

  -- The error that it returns is only logged by the callers.
  unfoldable pub update_connector_power : ℤ → Connector → Balancer → Connector × Balancer
  unfolding is_active send_transaction_profile limit_stored
  update_connector_power limit c b =
      if not (is_active c) && c.current_power_limit == pos 0
      then (c, b)
      else if is_active c
      then limit_stored limit c (send_transaction_profile c limit stack_level_retries b)
      else (with_limit (pos 0) c, write (connector_power c.charge_point_id c.id (pos 0)) b)

  unfoldable pub survey_connector : Connector → Survey → Connector × Survey
  unfolding is_active has_limit update_connector_power
  survey_connector c v =
      if is_active c
      then (c, record v { used = c.current_power_limit ∷ v.used; active = suc v.active })
      else if has_limit c
      then (let (c', b) = update_connector_power (pos 0) c v.balancer in
          (c', record v { balancer = b }))
      else (c, v)

  unfoldable pub survey_connectors : List Connector → Survey → List Connector × Survey
  unfolding survey_connector
  survey_connectors [] v = ([], v)
  survey_connectors (c ∷ cs) v =
      let (c', v1) = survey_connector c v in
      let (cs', v2) = survey_connectors cs v1 in (c' ∷ cs', v2)

  unfoldable pub survey_points : List ChargePoint → Survey → List ChargePoint × Survey
  unfolding survey_connectors
  survey_points [] v = ([], v)
  survey_points (p ∷ ps) v =
      let (cs, v1) =
        if p.smart_charging then survey_connectors p.connectors v else (p.connectors, v) in
      let (ps', v2) = survey_points ps v1 in ((record p { connectors = cs }) ∷ ps', v2)

  -- The second loop: a limit for the sessions that have none.
  unfoldable pub assign_connector : ℤ → Connector → Balancer → Connector × Balancer
  unfolding is_active has_limit update_connector_power
  assign_connector limit c b =
      if is_active c && has_limit c then (c, b) else update_connector_power limit c b

  unfoldable pub assign_connectors : ℤ → List Connector → Balancer → List Connector × Balancer
  unfolding assign_connector
  assign_connectors limit [] b = ([], b)
  assign_connectors limit (c ∷ cs) b =
      let (c', b1) = assign_connector limit c b in
      let (cs', b2) = assign_connectors limit cs b1 in (c' ∷ cs', b2)

  unfoldable pub assign_points : ℤ → List ChargePoint → Balancer → List ChargePoint × Balancer
  unfolding assign_connectors
  assign_points limit [] b = ([], b)
  assign_points limit (p ∷ ps) b =
      let (cs, b1) =
        if p.smart_charging then assign_connectors limit p.connectors b else (p.connectors, b) in
      let (ps', b2) = assign_points limit ps b1 in ((record p { connectors = cs }) ∷ ps', b2)

  -- A pass over the charge points of a location.
  unfoldable pub balance : List ChargePoint → Balancer → List ChargePoint × Balancer
  unfolding survey_points assigned_limit assign_points
  balance evses b =
      let (evses', v) = survey_points evses record { used = []; active = 0; balancer = b } in
      if v.active == 0
      then (evses', v.balancer)
      else assign_points (assigned_limit v.used) evses' v.balancer
