-- ===== src/Central.antt =====
-- The routing of requests to their handlers: the switches of server/central_system.go, and the
-- handlers of server/system_handler.go that only note a status: `OnHeartbeat`, `OnDataTransfer`,
-- `OnDiagnosticsStatusNotification` and `OnFirmwareStatusNotification`.
use evsys.Common.{
  Bool, List, Option, String, [], false, if◌then◌else◌, int_has_eq, nat_has_eq, none, some,
  string_has_eq, true, ℕ, ◌==◌, ◌∷◌,
}
use evsys.Entity.{DeviceReport}
use evsys.System.Authorize.{authorize_id_tag}
use evsys.System.Boot.{BootNotificationRequest, BootTask, on_boot_notification}
use evsys.System.Lookup.{get_charge_point}
use evsys.System.Meters.{MeterValuesRequest, on_meter_values}
use evsys.System.Start.{StartTransactionResponse, on_start_transaction}
use evsys.System.State.{
  ChargePointState, Outcome, Services, StartTransactionRequest, StopTransactionRequest, System,
  panicked, returned, save, ◌>>=◌,
}
use evsys.System.Status.{StatusNotificationRequest, on_status_notification}
use evsys.System.Stop.{on_stop_transaction}
use evsys.V201.Events.{TransactionEventRequest}
use evsys.V201.Handlers.{
  BootNotificationRequest201, BootNotificationResponse201, StatusNotificationRequest201,
}
use evsys.V201.Types.{IdToken}
-- A request that was decoded, by its Go type; fields that no handler reads are left out.
pub mod Routes
pub mod Incoming
pub mod Api

pub data Request : Type 0 where
  boot_notification : BootNotificationRequest → Request
  authorize_card : String → Request
  heartbeat : Request
  start_transaction : StartTransactionRequest → Request
  stop_transaction : StopTransactionRequest → Request
  meter_values : MeterValuesRequest → Request
  status_notification : StatusNotificationRequest → Request
  data_transfer : Request
  diagnostics_status_notification firmware_status_notification : String → Request
  boot_notification201 : BootNotificationRequest201 → Request
  heartbeat201 cleared_charging_limit : Request
  notify_report : DeviceReport → Request
  authorize201 : IdToken → Request
  transaction_event : TransactionEventRequest → Request
  status_notification201 : StatusNotificationRequest201 → Request

-- GetFeatureName
unfoldable pub feature_name : Request → String
feature_name (boot_notification r) = "BootNotification"
feature_name (authorize_card tag) = "Authorize"
feature_name heartbeat = "Heartbeat"
feature_name (start_transaction r) = "StartTransaction"
feature_name (stop_transaction r) = "StopTransaction"
feature_name (meter_values r) = "MeterValues"
feature_name (status_notification r) = "StatusNotification"
feature_name data_transfer = "DataTransfer"
feature_name (diagnostics_status_notification status) = "DiagnosticsStatusNotification"
feature_name (firmware_status_notification status) = "FirmwareStatusNotification"
feature_name (boot_notification201 r) = "BootNotification"
feature_name heartbeat201 = "Heartbeat"
feature_name cleared_charging_limit = "ClearedChargingLimit"
feature_name (notify_report r) = "NotifyReport"
feature_name (authorize201 token) = "Authorize"
feature_name (transaction_event r) = "TransactionEvent"
feature_name (status_notification201 r) = "StatusNotification"

pub data Response : Type 0 where
  boot_response authorize_response : String → Response
  start_response : StartTransactionResponse → Response
  -- Was the data accepted?
  data_transfer_response : Bool → Response
  boot_response201 : BootNotificationResponse201 → Response
  authorize_response201 : String → Response
  -- The time, or nothing.
  heartbeat_response empty_response : Response

-- What goes on in its own goroutine afterwards.
pub data Task : Type 0 where
  boot_task : String → BootTask → Task
  sweep_task : Task
  check_power_limit_task charge_point_boot_task : String → Task

-- What a router returns; a response that is `none` is an error.
pub record Routed (sv : Services) : Type 0 where
  pub response : Option Response
  pub tasks : List Task
  pub system : System sv

abbrev boot_tasks : String → List BootTask → List Task
boot_tasks cp [] = []
boot_tasks cp (t ∷ ts) = boot_task cp t ∷ boot_tasks cp ts

module _ {sv : Services} where
  unfoldable pub on_heartbeat : String → System sv → System sv
  unfolding get_charge_point
  on_heartbeat cp s = (get_charge_point cp s).1

  is_there : Option ChargePointState × System sv → Bool × System sv
  is_there (none, s) = (false, s)
  is_there (some st, s) = (true, s)

  -- Is the data accepted?
  unfoldable pub on_data_transfer : String → System sv → Bool × System sv
  unfolding get_charge_point is_there
  on_data_transfer cp s = is_there (get_charge_point cp s)

  noted : (ChargePointState → ChargePointState) → Option ChargePointState × System sv → System sv
  unfolding save
  noted change (none, s) = s
  noted change (some st, s) = save (change st) s

  unfoldable pub on_diagnostics_status_notification : String → String → System sv → System sv
  unfolding get_charge_point noted
  on_diagnostics_status_notification cp status s =
      noted (λ st. record st { diagnostics_status = status }) (get_charge_point cp s)

  unfoldable pub on_firmware_status_notification : String → String → System sv → System sv
  unfolding get_charge_point noted
  on_firmware_status_notification cp status s =
      noted (λ st. record st { firmware_status = status }) (get_charge_point cp s)

  -- A response without tasks.
  abbrev pub responded : Response → System sv → Outcome (Routed sv)
  responded r s = returned record { response = some r; tasks = []; system = s }

  abbrev pub not_supported : System sv → Outcome (Routed sv)
  not_supported s = returned record { response = none; tasks = []; system = s }

  -- The cases of the switch. A request of another Go type fails the type assertion.
  boot_case : String → Request → System sv → Outcome (Routed sv)
  unfolding on_boot_notification
  boot_case cp (boot_notification r) s =
      let (reply, s') = on_boot_notification cp r s in
      returned record {
        response = some (boot_response reply.status);
        tasks = boot_tasks cp reply.tasks;
        system = s';
      }
  boot_case cp r s = panicked

  authorize_case : String → Request → ℕ → System sv → Outcome (Routed sv)
  unfolding authorize_id_tag
  authorize_case cp (authorize_card tag) now s =
      authorize_id_tag cp tag now s >>= λ (a : String × System sv).
      responded (authorize_response a.0) a.1
  authorize_case cp r now s = panicked

  heartbeat_case : String → Request → System sv → Outcome (Routed sv)
  unfolding on_heartbeat
  heartbeat_case cp heartbeat s = responded heartbeat_response (on_heartbeat cp s)
  heartbeat_case cp r s = panicked

  start_case : String → Request → ℕ → System sv → Outcome (Routed sv)
  unfolding on_start_transaction
  start_case cp (start_transaction r) now s =
      let (reply, s') = on_start_transaction cp r now s in responded (start_response reply) s'
  start_case cp r now s = panicked

  stop_case : String → Request → ℕ → System sv → Outcome (Routed sv)
  unfolding on_stop_transaction
  stop_case cp (stop_transaction r) now s =
      on_stop_transaction cp r now s >>= responded empty_response
  stop_case cp r now s = panicked

  meter_case : String → Request → ℕ → System sv → Outcome (Routed sv)
  unfolding on_meter_values
  meter_case cp (meter_values r) now s = on_meter_values cp r now s >>= responded empty_response
  meter_case cp r now s = panicked

  status_case : String → Request → ℕ → System sv → Outcome (Routed sv)
  unfolding on_status_notification
  status_case cp (status_notification r) now s =
      let (sweeps, s') = on_status_notification cp r now s in
      returned record {
        response = some empty_response;
        tasks = if sweeps then sweep_task ∷ [] else [];
        system = s';
      }
  status_case cp r now s = panicked

  data_case : String → Request → System sv → Outcome (Routed sv)
  unfolding on_data_transfer
  data_case cp data_transfer s =
      let (ok, s') = on_data_transfer cp s in responded (data_transfer_response ok) s'
  data_case cp r s = panicked

  diagnostics_case : String → Request → System sv → Outcome (Routed sv)
  unfolding on_diagnostics_status_notification
  diagnostics_case cp (diagnostics_status_notification status) s =
      responded empty_response (on_diagnostics_status_notification cp status s)
  diagnostics_case cp r s = panicked

  firmware_case : String → Request → System sv → Outcome (Routed sv)
  unfolding on_firmware_status_notification
  firmware_case cp (firmware_status_notification status) s =
      responded empty_response (on_firmware_status_notification cp status s)
  firmware_case cp r s = panicked

  unfoldable pub route_ocpp16_request :
      String → String → Request → ℕ → System sv → Outcome (Routed sv)
  unfolding boot_case authorize_case heartbeat_case start_case stop_case meter_case status_case
      data_case diagnostics_case firmware_case
  route_ocpp16_request cp action r now s =
      if action == "BootNotification"
      then boot_case cp r s
      else if action == "Authorize"
      then authorize_case cp r now s
      else if action == "Heartbeat"
      then heartbeat_case cp r s
      else if action == "StartTransaction"
      then start_case cp r now s
      else if action == "StopTransaction"
      then stop_case cp r now s
      else if action == "MeterValues"
      then meter_case cp r now s
      else if action == "StatusNotification"
      then status_case cp r now s
      else if action == "DataTransfer"
      then data_case cp r s
      else if action == "DiagnosticsStatusNotification"
      then diagnostics_case cp r s
      else if action == "FirmwareStatusNotification"
      then firmware_case cp r s
      else not_supported s
