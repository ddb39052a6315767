-- ===== src/Tests/Routing.antt =====
-- Messages of charge points and commands of the API, on the system in memory.
use evsys.Central.{start_transaction}
use evsys.Central.Api.{CentralSystemCommand, Decoders, handle_api_request, versioned_command}
use evsys.Central.Incoming.{
  Central, Json, Router, WebSocket, handle_incoming_message, handled, respond, track_connection,
}
use evsys.Central.Incoming.Answered.{ocpp201_requests_refused, own_handler, request_reaches_handler}
use evsys.Central.Incoming.Results.{answer_handled}
use evsys.Central.Incoming.Tracked.{command_follows_connection}
use evsys.Central.Incoming.Types.{DecodesTypes, type_name}
use evsys.Common.{
  Bool-cases, List, String, [], arith, false, get, if◌then◌else◌, inl, inr, int_has_eq, ltb,
  nat_has_eq, none, pos, refl, some, string_has_eq, true, ◌&&◌, ◌==◌, ◌∷◌, ◌≡◌,
}
use evsys.Server.Message.{
  Field, call_type_request, get_message_type, message_type, number, raw_json, text,
}
use evsys.Server.Message.Parsing.{ocpp16_registry}
use evsys.Server.Pending.{Requests, receive, register_pending}
use evsys.Server.Pending.Sync.{
  first_answer_to, not_sent, send_request_sync, sync_request_outcomes, waits_for_pool,
}
use evsys.Server.Protocol.{ProtocolVersion, ocpp16, ocpp201}
use evsys.System.State.{StartTransactionRequest}
use evsys.Tests.Memory.{memory}
use evsys.Tests.Sessions.{free_connector, system_of}

abbrev start_request : StartTransactionRequest
start_request = record {
  connector_id = pos 1;
  id_tag = "TAG";
  meter_start = pos 0;
  reservation_id = none;
  timestamp = none;
}

abbrev start_type : String
start_type = "core.StartTransactionRequest"

-- Every payload is the same start of a transaction.
abbrev json : Json
json = record {
  decode = λ t f. if t == start_type then some (start_transaction start_request) else none;
  encode = λ f. "{}";
}

json-DecodesTypes : DecodesTypes json
unfolding type_name
json-DecodesTypes t f r decoded = elim (Bool-cases (t == start_type)) [
  | inl same ↦ ground (arith, decoded, (string_has_eq.beq_iff t start_type).0 same)
  | inr other ↦ ground (arith, decoded)
]

abbrev router : Router
router = record {
  routing_enabled = true;
  has_registry = true;
  registry = ocpp16_registry;
  has_v201_handlers = true;
}

abbrev socket : ProtocolVersion → WebSocket
socket v = record { id = "CP1"; protocol = v; is_closed = false }

abbrev central : Central memory
central = record {
  connections = [];
  system = system_of free_connector [];
  requests = register_pending "m1" (record { pending = []; fire_and_forget = [] });
  sent = [];
  tasks = [];
}

abbrev payload : Field
payload = raw_json "{}"

abbrev start_message : List Field
start_message = number (pos 2) ∷ text "m1" ∷ text "StartTransaction" ∷ payload ∷ []

start_known : get_message_type "StartTransaction" ≡ some start_type
unfolding get_message_type get
start_known = refl

request_reaches_handler_example :
    handle_incoming_message router json (socket ocpp16) (some start_message) 1000 central
    ≡ respond
        (socket ocpp16)
        "m1"
        "StartTransaction"
        (own_handler "CP1" (start_transaction start_request) 1000 central.system)
        (track_connection (socket ocpp16) central)
request_reaches_handler_example =
    request_reaches_handler router json (socket ocpp16) "m1" payload "StartTransaction"
      (start_transaction start_request) 1000 central json-DecodesTypes refl refl start_known refl

start_is_request : message_type start_message ≡ some call_type_request
unfolding message_type
start_is_request = refl

ocpp201_requests_refused_example :
    handle_incoming_message router json (socket ocpp201) (some start_message) 1000 central
    ≡ handled false (track_connection (socket ocpp201) central)
ocpp201_requests_refused_example =
    ocpp201_requests_refused router json (socket ocpp201) start_message 1000 central refl refl refl
      start_is_request

abbrev decoders : Decoders
decoders = record {
  payloads = record {
    change_configuration = λ s. none;
    charging_profile = λ s. none;
    clear_charging_profile = λ s. none;
    composite_schedule_query = λ s. none;
  };
  variables = record {
    token_data = λ s. none;
    get_variable_data = λ s. none;
    set_variable_data = λ s. none;
  };
}

abbrev command : CentralSystemCommand
command = record {
  charge_point_id = "CP1";
  connector_id = pos 1;
  feature_name = "Reset";
  payload = "Soft";
  protocol_version = "";
}

-- The command after the refused request is one of OCPP 2.0.1.
command_follows_connection_example :
    handle_api_request router decoders command 1001 (track_connection (socket ocpp201) central)
    ≡ versioned_command ocpp201 true decoders command 1001
        (track_connection (socket ocpp201) central).system
command_follows_connection_example =
    command_follows_connection router json (socket ocpp201) (some start_message) 1000 central
      (track_connection (socket ocpp201) central) false decoders command 1001
      (ocpp201_requests_refused router json (socket ocpp201) start_message 1000 central refl refl
        refl start_is_request)
      refl refl refl refl

answer_handled_example :
    (r1 r2 : Requests) × (handle_incoming_message router json
        (socket ocpp16)
        (some (number (pos 3) ∷ text "m1" ∷ payload ∷ []))
        1000
        central
      ≡ handled true (record (track_connection (socket ocpp16) central) { requests = r1 }))
    × (receive "m1" r1 ≡ (some "{}", r2))
unfolding get
answer_handled_example =
    answer_handled router json (socket ocpp16) "m1" payload 1000 central
      (record { pending = []; fire_and_forget = [] }) refl refl

-- An answer to another request comes first, and a second answer too late.
abbrev arrivals : List (String × String)
arrivals = ("m0", "{0}") ∷ ("m2", "{2}") ∷ ("m2", "{3}") ∷ []

sync_request_outcomes_example :
    let (result, r') = send_request_sync true true 3 "m2" arrivals central.requests in
    (result ≡ (
      if true && true
      then (if ltb 3 256 then first_answer_to "m2" arrivals else waits_for_pool)
      else not_sent))
    × (get "m2" r'.pending ≡ (
        if true && true
        then (if ltb 3 256 then none else some [])
        else get "m2" central.requests.pending))
sync_request_outcomes_example = sync_request_outcomes true true 3 "m2" arrivals central.requests
