-- ===== src/Server/Message.antt =====
-- The messages of OCPP-J: server/message.go. A message is the list of the fields of its JSON array;
-- `CallType(rawTypeId)` of a number is that number. `encoding/json` and the validation of a payload are
-- the parameter `decode`.
pub mod Parsing
use evsys.Common.{
  Dict, List, Option, String, [], get, if◌then◌else◌, int_has_eq, nat_has_eq, none, pos, some,
  string_has_eq, ℤ, ◌==◌, ◌∷◌,
}
use evsys.Server.Registry.{FeatureTypes, Registry, get_types}

pub data Field : Type 0 where
  number : ℤ → Field
  text : String → Field
  -- Another JSON value, as its text; `null` is one.
  raw_json : String → Field

pub data CallType : Type 0 where
  call_type_request call_type_result call_type_error : CallType

-- A result of the parser; `stopped` is a failed type assertion, which panics.
pub data Parsed (A : Type 0) : Type 0 where
  parsed : A → Parsed A
  invalid stopped : Parsed A

pub record CallRequest (R : Type 0) : Type 0 where
  pub unique_id : String
  pub feature : String
  pub payload : R

pub record CallResult : Type 0 where
  pub unique_id : String
  pub payload : Field

unfoldable pub call_type_of : Field → Option CallType
call_type_of (number n) =
    if n == pos 2
    then some call_type_request
    else if n == pos 3
    then some call_type_result
    else if n == pos 4
    then some call_type_error
    else none
call_type_of (text s) = none
call_type_of (raw_json s) = none

-- MessageType
unfoldable pub message_type : List Field → Option CallType
unfolding call_type_of
message_type [] = none
message_type (f ∷ fs) = call_type_of f

-- The ten actions of `getMessageType`, with the Go type of each one's request.
abbrev pub message_types : Dict String String
message_types =
    ("BootNotification", "core.BootNotificationRequest")
    ∷ ("Authorize", "core.AuthorizeRequest")
    ∷ ("Heartbeat", "core.HeartbeatRequest")
    ∷ ("StartTransaction", "core.StartTransactionRequest")
    ∷ ("StopTransaction", "core.StopTransactionRequest")
    ∷ ("MeterValues", "core.MeterValuesRequest")
    ∷ ("StatusNotification", "core.StatusNotificationRequest")
    ∷ ("DataTransfer", "core.DataTransferRequest")
    ∷ ("DiagnosticsStatusNotification", "firmware.DiagnosticsStatusNotificationRequest")
    ∷ ("FirmwareStatusNotification", "firmware.StatusNotificationRequest")
    ∷ []

unfoldable pub get_message_type : String → Option String
get_message_type action = get action message_types

request_type_of : Option FeatureTypes → Option String
request_type_of none = none
request_type_of (some types) = some types.request_type

module _ {R : Type 0} (decode : String → Field → Option R) where
  payload_of : Option R → String → String → Parsed (CallRequest R)
  payload_of none id action = invalid
  payload_of (some payload) id action =
      parsed record { unique_id = id; feature = action; payload = payload }

  typed_payload : Option String → String → String → Field → Parsed (CallRequest R)
  unfolding payload_of
  typed_payload none id action f = invalid
  typed_payload (some t) id action f = payload_of (decode t f) id action

  -- The assertion `data[2].(string)` is unchecked.
  action_fields : Field → Field → Field → Parsed (CallRequest R)
  unfolding get_message_type typed_payload
  action_fields (text id) (text action) f = typed_payload (get_message_type action) id action f
  action_fields (text id) (number n) f = stopped
  action_fields (text id) (raw_json s) f = stopped
  action_fields (number n) a f = invalid
  action_fields (raw_json s) a f = invalid

  request_fields : Option CallType → List Field → Parsed (CallRequest R)
  unfolding action_fields
  request_fields (some call_type_request) (t ∷ id ∷ action ∷ f ∷ []) = action_fields id action f
  request_fields (some call_type_request) fs = invalid
  request_fields (some call_type_result) fs = invalid
  request_fields (some call_type_error) fs = invalid
  request_fields none fs = invalid

  unfoldable pub parse_request : List Field → Parsed (CallRequest R)
  unfolding message_type request_fields
  parse_request fs = request_fields (message_type fs) fs

  versioned_fields : String → Registry → Field → Field → Field → Parsed (CallRequest R)
  unfolding get_types typed_payload request_type_of
  versioned_fields version registry (text id) (text action) f =
      typed_payload (request_type_of (get_types version action registry)) id action f
  versioned_fields version registry (text id) (number n) f = invalid
  versioned_fields version registry (text id) (raw_json s) f = invalid
  versioned_fields version registry (number n) a f = invalid
  versioned_fields version registry (raw_json s) a f = invalid

  versioned_request_fields :
      String → Registry → Option CallType → List Field → Parsed (CallRequest R)
  unfolding versioned_fields
  versioned_request_fields version registry (some call_type_request) (t ∷ id ∷ action ∷ f ∷ []) =
      versioned_fields version registry id action f
  versioned_request_fields version registry (some call_type_request) fs = invalid
  versioned_request_fields version registry (some call_type_result) fs = invalid
  versioned_request_fields version registry (some call_type_error) fs = invalid
  versioned_request_fields version registry none fs = invalid

  unfoldable pub parse_request_version_aware :
      List Field → String → Registry → Parsed (CallRequest R)
  unfolding message_type versioned_request_fields
  parse_request_version_aware fs version registry =
      versioned_request_fields version registry (message_type fs) fs

result_fields : Option CallType → List Field → Parsed CallResult
result_fields (some call_type_result) (t ∷ text id ∷ f ∷ []) =
    parsed record { unique_id = id; payload = f }
result_fields o fs = invalid

-- ParseResultUnchecked; the payload of a message that was parsed can be written again.
unfoldable pub parse_result_unchecked : List Field → Parsed CallResult
unfolding message_type result_fields
parse_result_unchecked fs = result_fields (message_type fs) fs
