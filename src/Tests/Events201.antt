-- ===== src/Tests/Events201.antt =====
-- A charge point of OCPP 2.0.1, on the system in memory.
use evsys.Common.{
  String, [], arith, false, get, if◌then◌else◌, inl, inr, int64, int_has_eq, nat_has_eq, none, pos,
  put, refl, some, string_has_eq, true, ◌==◌, ◌||◌, ◌↔◌, ◌∷◌, ◌≡◌, ◌⊎◌,
}
use evsys.Entity.{Connector, TransactionMeter, new_connector, new_meter}
use evsys.System.Lookup.{get_user_tag, new_charge_point, new_charge_point_state}
use evsys.System.Lookup.Known.{InMemory}
use evsys.System.Start.{held, on_start_transaction, vacant}
use evsys.System.State.{ChargePointState, StartTransactionRequest, System}
use evsys.Tests.Memory.{memory, memory_laws}
use evsys.Tests.Sessions.{
  connector-InMemory, connector_with, free-InMemory, free_connector, point_state, session,
  system_of,
}
use evsys.V201.Adapter.{
  auth_status_to_v16_status, connector_id_to_evse, entity_to_transaction_info, evse_to_connector_id,
  id_tag_to_id_token, id_token_to_id_tag, meter_value_to_transaction_meter, read_sample,
  transaction_event_to_entity, transaction_meter_to_meter_value, v16_status_to_auth_status,
}
use evsys.V201.Adapter.RoundTrips.{
  Survives, identifiers_survive, readings_survive, transaction_info_survives,
}
use evsys.V201.Events.{
  TransactionEventRequest, event_transaction, get_connector_by_evse_and_connector_id,
  on_transaction_event,
}
use evsys.V201.Events.Located.{EvseIsNoted, Locates}
use evsys.V201.Events.Lost.{later_events_lost}
use evsys.V201.Events.Opened.{Opened, event_next, mixed_versions_share_id, started_event_opens}
use evsys.V201.Events.Stored.{AddsEvent, started_event_stores}
use evsys.V201.Handlers.{BootNotificationRequest201, StatusNotificationRequest201, on_authorize201}
use evsys.V201.Handlers.Cards.{Allows, authorize201_accepted_iff}
use evsys.V201.Types.{
  Evse, IdToken, SampledValue201, TransactionInfo, authorization_status_accepted,
  id_token_type_local, measurand_power_active_import, transaction_event_ended,
  transaction_event_started, unit_w,
}

abbrev evse : Evse
evse = record { id = pos 1; connector_id = some (pos 1) }

abbrev info : TransactionInfo
info = record {
  transaction_id = "A1";
  charging_state = "Charging";
  time_spent_charging = none;
  stopped_reason = "EVDisconnected";
  remote_start_id = some (pos 4);
}

abbrev token : IdToken
token = record { id_token = "TAG"; type = id_token_type_local; additional_info = [] }

abbrev event : String → TransactionEventRequest
event type = record {
  event_type = type;
  timestamp = 1000;
  transaction_info = info;
  id_token = some token;
  evse = some evse;
  meter_value = [];
}

abbrev idle : System memory
idle = system_of free_connector []

-- The connector holds the transaction 7 of a session of OCPP 2.0.1.
abbrev charging_system : System memory
charging_system = system_of (connector_with (pos 7)) (session (pos 7) ∷ [])

idle_located :
    (type : String)
    → Locates "CP1" (pos 1) (event type) (point_state free_connector) free_connector idle
unfolding get_connector_by_evse_and_connector_id event_transaction new_connector get
    new_charge_point_state new_charge_point
idle_located type = record { memory = free-InMemory []; found_there = refl }

charging_located :
    (type : String)
    → Locates "CP1"
        (pos 1)
        (event type)
        (point_state (connector_with (pos 7)))
        (connector_with (pos 7))
        charging_system
unfolding get_connector_by_evse_and_connector_id event_transaction new_connector get
    new_charge_point_state new_charge_point
charging_located type = record {
  memory = connector-InMemory (pos 7) (session (pos 7) ∷ []);
  found_there = refl;
}

identifiers_survive_example :
    (id_token_to_id_tag (id_tag_to_id_token "TAG") ≡ "TAG")
    × (evse_to_connector_id (some (connector_id_to_evse (pos 2) (some (pos 1)))) ≡ pos 2)
    × (auth_status_to_v16_status (v16_status_to_auth_status "Blocked") ≡ "Blocked")
identifiers_survive_example =
    identifiers_survive "TAG" (pos 2) (some (pos 1)) "Blocked" (inr (inl refl))

transaction_info_survives_example :
    entity_to_transaction_info
      (transaction_event_to_entity "Ended" info (some token) (some evse) [] 1000 "CP1")
    ≡ record info {
      time_spent_charging = none;
      stopped_reason = if "Ended" == transaction_event_ended then info.stopped_reason else "";
    }
transaction_info_survives_example =
    transaction_info_survives "Ended" info (some token) (some evse) [] 1000 "CP1"

abbrev meter : TransactionMeter
meter = record (new_meter (pos 7) (pos 1) "" 1000) { value = pos 500; power_active = pos 11000 }

meter_fields :
    (meter.value ≡ pos 500) × (meter.power_active ≡ pos 11000) × (meter.battery_level ≡ pos 0)
unfolding new_meter
meter_fields = (refl, refl, refl)

readings_survive_example :
    Survives meter
      (meter_value_to_transaction_meter (transaction_meter_to_meter_value meter) meter.id)
readings_survive_example =
    readings_survive meter 500 11000 0 meter_fields.0 meter_fields.1 meter_fields.2 (omega arith)
      (omega arith) (omega arith)

-- 11 kW, as a number of kilowatts.
abbrev power_sample : SampledValue201
power_sample = record {
  value = pos 11;
  context = "";
  measurand = measurand_power_active_import;
  phase = "";
  location = "";
  unit_of_measure = some record { unit = unit_w; multiplier = some (pos 3) };
}

-- 500 Wh are read as 500 kWh.
energy_of_the_meter : (read_sample power_sample meter).value ≡ pos 500000
unfolding read_sample new_meter int64
energy_of_the_meter = refl

started_event_opens_example :
    (s' : System memory) × (on_transaction_event "CP1" (event transaction_event_started) 1000 idle
      ≡ (true, s'))
    × Opened "CP1" (pos 1) (event_next idle) s'
    × (s'.next_transaction_id ≡ event_next idle)
started_event_opens_example =
    started_event_opens memory_laws "CP1" (event transaction_event_started) 1000 idle
      (idle_located transaction_event_started) refl

started_event_stores_example :
    AddsEvent memory_laws "CP1"
      (event transaction_event_started)
      (event_next idle)
      idle.store
      (on_transaction_event "CP1" (event transaction_event_started) 1000 idle).1.store
started_event_stores_example =
    started_event_stores memory_laws "CP1" (event transaction_event_started) 1000 idle
      (idle_located transaction_event_started) refl refl (λ db t. refl) refl

later_events_lost_example :
    (c' : Connector) × (st' : ChargePointState) × (s' : System memory) × (on_transaction_event "CP1"
        (event transaction_event_ended)
        2000
        charging_system
      ≡ (true, s'))
    × EvseIsNoted "CP1"
        (pos 1)
        (point_state (connector_with (pos 7)))
        (connector_with (pos 7))
        charging_system
        c'
        st'
        s'
later_events_lost_example =
    later_events_lost memory_laws "CP1" (event transaction_event_ended) 2000 charging_system
      (charging_located transaction_event_ended) (inr refl) refl

-- A second charge point, of OCPP 1.6.
abbrev old_point : ChargePointState
old_point = record (new_charge_point_state (new_charge_point "CP2")) {
  connectors = (pos 1, new_connector (pos 1) "CP2") ∷ [];
}

abbrev two_points : System memory
two_points = record idle {
  charge_points = ("CP1", point_state free_connector) ∷ ("CP2", old_point) ∷ [];
}

abbrev start_request : StartTransactionRequest
start_request = record {
  connector_id = pos 1;
  id_tag = "TAG";
  meter_start = pos 0;
  reservation_id = none;
  timestamp = none;
}

first_located :
    Locates "CP1"
      (pos 1)
      (event transaction_event_started)
      (point_state free_connector)
      free_connector
      two_points
unfolding get_connector_by_evse_and_connector_id event_transaction new_connector get
    new_charge_point_state new_charge_point
first_located = record {
  memory = record { present = refl; named = refl; connected = refl; owned = refl };
  found_there = refl;
}

abbrev after_event : System memory
after_event = (on_transaction_event "CP1" (event transaction_event_started) 1000 two_points).1

old_point_is_there : InMemory "CP2" (pos 1) old_point (new_connector (pos 1) "CP2") after_event
unfolding on_transaction_event new_connector get put new_charge_point_state new_charge_point
old_point_is_there = record { present = refl; named = refl; connected = refl; owned = refl }

old_point_is_free : held (new_connector (pos 1) "CP2") after_event ≡ vacant
unfolding held new_connector
old_point_is_free = refl

mixed_versions_share_id_example :
    Opened "CP1" (pos 1) (event_next two_points) after_event
    × ((on_start_transaction "CP2" start_request 1000 after_event).0.transaction_id
        ≡ event_next two_points)
mixed_versions_share_id_example =
    mixed_versions_share_id memory_laws "CP1" (event transaction_event_started) 1000 two_points
      "CP2" start_request 1000 first_located refl old_point_is_there old_point_is_free

point_is_there : (c : Connector) → get "CP1" (system_of c []).charge_points ≡ some (point_state c)
unfolding get
point_is_there c = refl

authorize201_accepted_iff_example :
    ((on_authorize201 "CP1" token 1000 idle).0 ≡ authorization_status_accepted) ↔ (
      ((get_user_tag "TAG" 1000 idle).0.is_enabled || memory.accept_tags ≡ true)
      × ((memory.has_auth ≡ false)
          ⊎ Allows (memory.authorize (point_state free_connector).model.location_id "" "TAG")))
authorize201_accepted_iff_example =
    authorize201_accepted_iff "CP1" token 1000 idle (point_is_there free_connector)

abbrev boot_request : BootNotificationRequest201
boot_request = record {
  charging_station = record {
    model = "M";
    vendor_name = "V";
    serial_number = "1";
    firmware_version = "2";
  };
  reason = "PowerUp";
}

point_is_named : (point_state (connector_with (pos 7))).model.id ≡ "CP1"
unfolding new_charge_point_state new_charge_point
point_is_named = refl

abbrev status_request : StatusNotificationRequest201
status_request = record {
  timestamp = 3000;
  connector_status = "Occupied";
  evse_id = pos 1;
  connector_id = pos 1;
}
