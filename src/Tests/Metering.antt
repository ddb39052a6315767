-- ===== src/Tests/Metering.antt =====
-- Meter values, on the system in memory.
use evsys.Common.{[], none, pos, refl, some, ◌∷◌, ◌≡◌}
use evsys.System.Meters.{MeterValuesRequest, metered_transaction, on_meter_values}
use evsys.System.Meters.Recording.{Records, meter_values_only_record}
use evsys.System.State.{System, returned}
use evsys.Tests.Memory.{memory, memory_laws}
use evsys.Tests.Sessions.{connector-InMemory, connector_with, session, system_of, taken_over}

abbrev idle_system : System memory
idle_system = system_of (connector_with (pos 6)) taken_over

abbrev energy_request : MeterValuesRequest
energy_request = record {
  connector_id = pos 1;
  transaction_id = none;
  meter_value =
      record {
        timestamp = some 1500;
        sampled_value =
            record {
              number = pos 700;
              context = "Sample.Periodic";
              measurand = "Energy.Active.Import.Register";
              location = "";
              unit = "Wh";
            }
            ∷ [];
      }
      ∷ [];
}

session_is_metered : metered_transaction energy_request (connector_with (pos 6)) ≡ some (pos 6)
unfolding metered_transaction
session_is_metered = refl

meter_values_only_record_example :
    (s' : System memory) × (on_meter_values "CP1" energy_request 100 idle_system ≡ returned s')
    × Records (session (pos 6)) idle_system s'
meter_values_only_record_example =
    meter_values_only_record memory_laws "CP1" energy_request 100 idle_system
      (connector-InMemory (pos 6) taken_over) refl refl session_is_metered refl
