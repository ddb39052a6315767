-- ===== src/Central/Incoming/Types.antt =====
-- The Go types of the requests, as `ParseRequest` of server/message.go asks for them.
-- The Go type of a request.
use evsys.Central.{
  Request, authorize201, authorize_card, boot_notification, boot_notification201,
  cleared_charging_limit, data_transfer, diagnostics_status_notification, feature_name,
  firmware_status_notification, heartbeat, heartbeat201, meter_values, notify_report,
  start_transaction, status_notification, status_notification201, stop_transaction,
  transaction_event,
}
use evsys.Central.Incoming.{Json}
use evsys.Common.{
  All, Dict, Option, String, [], arith, get, get-All, int_has_eq, nat_has_eq, refl, some,
  string_has_eq, ◌∷◌, ◌≡◌,
}
use evsys.Server.Message.{Field, get_message_type, message_types}

unfoldable pub type_name : Request → String
type_name (boot_notification r) = "core.BootNotificationRequest"
type_name (authorize_card tag) = "core.AuthorizeRequest"
type_name heartbeat = "core.HeartbeatRequest"
type_name (start_transaction r) = "core.StartTransactionRequest"
type_name (stop_transaction r) = "core.StopTransactionRequest"
type_name (meter_values r) = "core.MeterValuesRequest"
type_name (status_notification r) = "core.StatusNotificationRequest"
type_name data_transfer = "core.DataTransferRequest"
type_name (diagnostics_status_notification status) = "firmware.DiagnosticsStatusNotificationRequest"
type_name (firmware_status_notification status) = "firmware.StatusNotificationRequest"
type_name (boot_notification201 r) = "provisioning.BootNotificationRequest"
type_name heartbeat201 = "provisioning.HeartbeatRequest"
type_name cleared_charging_limit = "authorization.ClearedChargingLimitRequest"
type_name (notify_report r) = "provisioning.NotifyReportRequest"
type_name (authorize201 token) = "authorization.AuthorizeRequest"
type_name (transaction_event r) = "transactions.TransactionEventRequest"
type_name (status_notification201 r) = "availability.StatusNotificationRequest"

-- `reflect.New` and `json.Unmarshal` give a value of the type that is asked for.
abbrev pub DecodesTypes : Json → Type 0
DecodesTypes json =
    (t : String) (f : Field) (r : Request) → json.decode t f ≡ some r → type_name r ≡ t

-- The action of a Go type.
abbrev pub actions_of_types : Dict String String
actions_of_types =
    ("core.BootNotificationRequest", "BootNotification")
    ∷ ("core.AuthorizeRequest", "Authorize")
    ∷ ("core.HeartbeatRequest", "Heartbeat")
    ∷ ("core.StartTransactionRequest", "StartTransaction")
    ∷ ("core.StopTransactionRequest", "StopTransaction")
    ∷ ("core.MeterValuesRequest", "MeterValues")
    ∷ ("core.StatusNotificationRequest", "StatusNotification")
    ∷ ("core.DataTransferRequest", "DataTransfer")
    ∷ ("firmware.DiagnosticsStatusNotificationRequest", "DiagnosticsStatusNotification")
    ∷ ("firmware.StatusNotificationRequest", "FirmwareStatusNotification")
    ∷ []

unfoldable pub action_of_type : String → Option String
action_of_type t = get t actions_of_types

types_name_actions : All (λ (p : String × String). action_of_type p.1 ≡ some p.0) message_types
unfolding action_of_type get
types_name_actions =
    (refl, (refl, (refl, (refl, (refl, (refl, (refl, (refl, (refl, (refl, tt))))))))))

pub action_of_known :
    {action t : String} → get_message_type action ≡ some t → action_of_type t ≡ some action
unfolding get_message_type
action_of_known known =
    get-All (λ a t. action_of_type t ≡ some a) message_types types_name_actions known

-- A request of OCPP 1.6 is called as its type says.
pub type_names_feature :
    (r : Request) {action : String}
    → action_of_type (type_name r) ≡ some action
    → feature_name r ≡ action
unfolding action_of_type type_name feature_name get
type_names_feature (boot_notification r) h = ground arith
type_names_feature (authorize_card tag) h = ground arith
type_names_feature heartbeat h = ground arith
type_names_feature (start_transaction r) h = ground arith
type_names_feature (stop_transaction r) h = ground arith
type_names_feature (meter_values r) h = ground arith
type_names_feature (status_notification r) h = ground arith
type_names_feature data_transfer h = ground arith
type_names_feature (diagnostics_status_notification status) h = ground arith
type_names_feature (firmware_status_notification status) h = ground arith
type_names_feature (boot_notification201 r) h = ground arith
type_names_feature heartbeat201 h = ground arith
type_names_feature cleared_charging_limit h = ground arith
type_names_feature (notify_report r) h = ground arith
type_names_feature (authorize201 token) h = ground arith
type_names_feature (transaction_event r) h = ground arith
type_names_feature (status_notification201 r) h = ground arith
