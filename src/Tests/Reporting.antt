-- ===== src/Tests/Reporting.antt =====
-- Cards, statuses and the online status, on the system in memory.
use evsys.Common.{
  String, [], arith, false, get, int_has_eq, nat_has_eq, none, pos, refl, some, string_has_eq, true,
  ℤ, ◌==◌, ◌↔◌, ◌∷◌, ◌≡◌,
}
use evsys.Entity.{Connector, new_connector}
use evsys.System.Authorize.{IsAllowed, authorize_accepted_iff, authorize_id_tag}
use evsys.System.Lookup.{get_user_tag, new_charge_point, new_charge_point_state}
use evsys.System.Online.{on_online_status_changed}
use evsys.System.Online.Watching.{Unwatched, offline_unwatches_sessions}
use evsys.System.Start.{authorization_accepted}
use evsys.System.State.{ChargePointState, System, returned}
use evsys.System.Status.{StatusNotificationRequest, on_status_notification}
use evsys.System.Status.Sessions.{Reports, status_keeps_sessions}
use evsys.Tests.Memory.{memory, memory_laws}
use evsys.Tests.Sessions.{
  connector-InMemory, connector_with, point, point_state, system_of, taken_over,
}

abbrev idle_system : System memory
idle_system = system_of (connector_with (pos 6)) taken_over

authorize_accepted_iff_example :
    let tag = (get_user_tag "TAG" 100 idle_system).0 in
    (status : String) × (s' : System memory) × (authorize_id_tag "CP1" "TAG" 100 idle_system
      ≡ returned (status, s'))
    × ((status ≡ authorization_accepted) ↔ (
        ((point_state (connector_with (pos 6))).model.is_enabled ≡ true)
        × IsAllowed memory (point_state (connector_with (pos 6))).model tag))
unfolding get
authorize_accepted_iff_example = authorize_accepted_iff "CP1" "TAG" 100 idle_system refl refl

abbrev finishing_request : StatusNotificationRequest
finishing_request = record {
  connector_id = pos 1;
  error_code = "NoError";
  info = "";
  status = "Finishing";
  timestamp = none;
  vendor_id = "";
  vendor_error_code = "";
}

status_keeps_sessions_example :
    (s' : System memory) × (st' : ChargePointState) × (c' : Connector) × (on_status_notification
        "CP1" finishing_request 100 idle_system
      ≡ (finishing_request.status == "Available", s'))
    × (get "CP1" s'.charge_points ≡ some st')
    × (get (pos 1) st'.connectors ≡ some c')
    × Reports finishing_request (connector_with (pos 6)) c'
    × (st'.transactions ≡ (point_state (connector_with (pos 6))).transactions)
    × ((j : ℤ) → memory.get_transaction s'.store j ≡ memory.get_transaction idle_system.store j)
status_keeps_sessions_example =
    status_keeps_sessions memory_laws "CP1" finishing_request 100 idle_system
      (connector-InMemory (pos 6) taken_over) (omega arith)

abbrev watched_state : ChargePointState
watched_state = record (point_state (connector_with (pos 6))) {
  trigger_message = true;
  model = record point { is_online = true };
}

abbrev watched_system : System memory
watched_system = record idle_system {
  charge_points = ("CP1", watched_state) ∷ [];
  trigger = (pos 6, ("CP1", pos 1)) ∷ [];
}

offline_unwatches_sessions_example :
    (s' : System memory) × (st' : ChargePointState) × (on_online_status_changed "CP1" false 100
        watched_system
      ≡ returned s')
    × (get "CP1" s'.charge_points ≡ some st')
    × (st'.model.is_online ≡ false)
    × (st'.connectors ≡ watched_state.connectors)
    × Unwatched watched_state.connectors s'
unfolding get new_charge_point new_charge_point_state new_connector
offline_unwatches_sessions_example =
    offline_unwatches_sessions "CP1" 100 watched_system refl refl refl refl (refl, tt) refl
