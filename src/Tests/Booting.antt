-- ===== src/Tests/Booting.antt =====
-- Boots and commands of a charge point of OCPP 1.6, on the system in memory.
use evsys.Common.{
  All, IsInt64, List, String, [], arith, false, get, int_has_eq, nat_has_eq, none, pos, refl, some,
  string_has_eq, true, ◌∷◌, ◌≡◌,
}
use evsys.Entity.{new_connector}
use evsys.Power.Balancer.{send_transaction_profile}
use evsys.Power.Balancer.Reported.{SendsWithin, after_report, sessions_within_reported}
use evsys.Power.Capabilities.{Capabilities}
use evsys.Power.Capabilities.Reported.{key_allowed_rate_unit, level_key, parse_capabilities}
use evsys.System.Boot.{
  BootNotificationRequest, ChangeConfigurationRequest, ConfigurationKey, enforce_meter_measurands,
  interval_task, lower_names, measurands_task, merge_measurands, meter_measurands_key,
  on_boot_notification, reconcile_task, registration_status_accepted,
}
use evsys.System.Boot.Enforce.{answered_with, boot_keeps_sessions, measurands_written_once}
use evsys.System.Boot.Measurands.{Extends, IsSeen, merge_settles}
use evsys.System.Commands.{
  PayloadDecoder, get_composite_schedule_request, on_get_composite_schedule_payload,
}
use evsys.System.Lookup.{new_charge_point, new_charge_point_state}
use evsys.System.Lookup.Documents.{SameDocuments}
use evsys.System.State.{ChargePointState, System}
use evsys.Tests.Balancing.{accepting, new_session, no_requests}
use evsys.Tests.Memory.{memory, memory_laws}
use evsys.Tests.Sessions.{connector_with, point_state, system_of}
use evsys.Texts.{parse_int, split, trim_space, trimmed_items}
use evsys.Texts.Split.{IsName, NoComma}

abbrev required : List String
required = "Power.Active.Import" ∷ "SoC" ∷ []

required-NoComma : All NoComma required
required-NoComma = search

merge_settles_example :
    let (merged, changed) = merge_measurands "Voltage, soc" required in
    Extends (trimmed_items (split "Voltage, soc")) (trimmed_items (split merged))
    × All (IsSeen (lower_names (trimmed_items (split merged)))) required
    × (merge_measurands merged required ≡ (merged, false))
merge_settles_example = merge_settles "Voltage, soc" required required-NoComma

-- The charge point names a measurand in another case.
merged_list : merge_measurands "Voltage, soc" required ≡ ("Voltage,soc,Power.Active.Import", true)
unfolding merge_measurands
merged_list = refl

abbrev written : ChangeConfigurationRequest
written = record { key = meter_measurands_key; value = "Voltage,soc,Power.Active.Import" }

first_write :
    enforce_meter_measurands true required (some (answered_with "Voltage, soc")) ≡ some written
unfolding enforce_meter_measurands
first_write = refl

measurands_written_once_example :
    (written.key ≡ meter_measurands_key)
    × (enforce_meter_measurands true required (some (answered_with written.value)) ≡ none)
measurands_written_once_example =
    measurands_written_once "Power.Active.Import" ("SoC" ∷ []) (answered_with "Voltage, soc")
      written required-NoComma first_write

abbrev boot_request : BootNotificationRequest
boot_request = record {
  charge_point_serial_number = "1";
  firmware_version = "2";
  charge_point_model = "M";
  charge_point_vendor = "V";
}

abbrev booting : ChargePointState
booting = point_state (connector_with (pos 7))

abbrev boot_system : System memory
boot_system = system_of (connector_with (pos 7)) []

booting_is_there : get "CP1" boot_system.charge_points ≡ some booting
unfolding get
booting_is_there = refl

booting_is_named : booting.model.id ≡ "CP1"
unfolding new_charge_point_state new_charge_point
booting_is_named = refl

boot_keeps_sessions_example :
    let (reply, s') = on_boot_notification "CP1" boot_request boot_system in
    (reply ≡ record {
      status = registration_status_accepted;
      tasks = reconcile_task ∷ interval_task booting.trigger_message ∷ measurands_task ∷ [];
    })
    × ((st' : ChargePointState) × (get "CP1" s'.charge_points ≡ some st')
        × (st'.connectors ≡ booting.connectors)
        × (st'.transactions ≡ booting.transactions))
    × SameDocuments boot_system s'
boot_keeps_sessions_example =
    boot_keeps_sessions memory_laws "CP1" boot_request boot_system booting_is_there booting_is_named

seven-IsInt64 : IsInt64 (pos 7)
seven-IsInt64 = ground arith

abbrev asked : List String
asked = "HeartbeatInterval" ∷ "ConnectionTimeOut" ∷ []

asked-IsName : All IsName asked
unfolding trim_space
asked-IsName = search

-- A bare number is not checked to be positive.
bare_duration :
    (json : PayloadDecoder)
    → on_get_composite_schedule_payload json (pos 1) "0"
      ≡ some (get_composite_schedule_request (pos 1) (pos 0) "")
unfolding on_get_composite_schedule_payload parse_int trim_space
bare_duration json = refl

abbrev unit_key : ConfigurationKey
unit_key = record { key = key_allowed_rate_unit; value = some "power, current" }

five_read : parse_int (trim_space " 5") ≡ some (pos 5)
unfolding parse_int trim_space
five_read = refl

sessions_within_reported_example :
    (reported : Capabilities) × (parse_capabilities (some (unit_key ∷ level_key " 5" ∷ []))
      ≡ some reported)
    × (let b' = after_report "CP1" reported no_requests in
        SendsWithin 5
          (new_session (pos 2))
          b'
          (send_transaction_profile accepting (new_session (pos 2)) (pos 195) 1 b').1)
unfolding new_connector
sessions_within_reported_example =
    sessions_within_reported accepting (new_session (pos 2)) (pos 195) 1 no_requests (unit_key ∷ [])
      [] " 5" 5 (refl, tt) tt five_read
