-- ===== src/Central/Incoming.antt =====
-- A message of a charge point comes in: `handleIncomingMessage` of server/central_system.go. A message
-- is the list of the fields of its JSON array, or nothing where it is none. The channel of the pool is
-- taken to have room for the response; on a full one the handler would wait.
pub mod Types
pub mod Answered
pub mod Tracked
pub mod Results
use evsys.Central.{
  Request, Response, Routed, Task, charge_point_boot_task, check_power_limit_task, feature_name,
  not_supported, route_ocpp16_request,
}
use evsys.Central.Routes.{route_ocpp201_request}
use evsys.Common.{
  Bool, Dict, List, Option, String, [], false, if◌then◌else◌, int_has_eq, nat_has_eq, none, put,
  some, string_has_eq, true, ℕ, ◌&&◌, ◌++◌, ◌==◌, ◌||◌, ◌∷◌,
}
use evsys.Server.Message.{
  CallRequest, CallResult, CallType, Field, Parsed, call_type_error, call_type_request,
  call_type_result, invalid, message_type, parse_request, parse_request_version_aware,
  parse_result_unchecked, parsed, stopped,
}
use evsys.Server.Pending.{Requests, Resolution, resolve_response, resolved, waiting}
use evsys.Server.Protocol.{ProtocolVersion, ocpp16, ocpp201, ocpp21, unknown_version, version_name}
use evsys.Server.Registry.{Registry}
use evsys.System.State.{Outcome, Services, System, panicked, returned}

pub record Json : Type 0 where
  pub decode : String → Field → Option Request
  pub encode : Field → String

-- The settings of CentralSystem.
pub record Router : Type 0 where
  pub routing_enabled : Bool
  pub has_registry : Bool
  pub registry : Registry
  pub has_v201_handlers : Bool

-- A connection; `is_closed` is what is found once the response is there.
pub record WebSocket : Type 0 where
  pub id : String
  pub protocol : ProtocolVersion
  pub is_closed : Bool

pub record Sent : Type 0 where
  pub recipient : String
  pub unique_id : String
  pub response : Response

-- What a message may change: the protocols of the connections, the state of SystemHandler, the
-- requests of the server, the responses sent and the goroutines started.
pub record Central (sv : Services) : Type 0 where
  pub connections : Dict String ProtocolVersion
  pub system : System sv
  pub requests : Requests
  pub sent : List Sent
  pub tasks : List Task

-- Whether the handler returns no error, and the state; `blocked` waits on a full channel.
pub data Handling (sv : Services) : Type 0 where
  handled : Bool → Central sv → Handling sv
  crashed blocked : Handling sv

-- What the power manager is told.
unfoldable pub power_tasks : String → String → List Task
power_tasks cp action =
    if action == "StartTransaction" || action == "StopTransaction"
    then check_power_limit_task cp ∷ []
    else if action == "BootNotification"
    then charge_point_boot_task cp ∷ []
    else []

module _ {sv : Services} where
  unfoldable pub track_connection : WebSocket → Central sv → Central sv
  track_connection ws k = record k { connections = put ws.id ws.protocol k.connections }

  finished : WebSocket → String → String → Option Response → Central sv → Handling sv
  unfolding power_tasks
  finished ws id action none k = handled false k
  finished ws id action (some response) k =
      if ws.is_closed
      then handled true k
      else handled true (record k {
        sent = record { recipient = ws.id; unique_id = id; response = response } ∷ k.sent;
        tasks = k.tasks ++ power_tasks ws.id action;
      })

  -- After the handler of a request.
  unfoldable pub respond :
      WebSocket → String → String → Outcome (Routed sv) → Central sv → Handling sv
  unfolding finished
  respond ws id action panicked k = crashed
  respond ws id action (returned r) k =
      finished ws id action r.response (record k { system = r.system; tasks = k.tasks ++ r.tasks })

  with_call :
      WebSocket
      → (Request → Outcome (Routed sv))
      → Parsed (CallRequest Request)
      → Central sv
      → Handling sv
  unfolding feature_name respond
  with_call ws route invalid k = handled false k
  with_call ws route stopped k = crashed
  with_call ws route (parsed call) k =
      respond ws call.unique_id (feature_name call.payload) (route call.payload) k

  -- The switch of handleIncomingMessage has the cases of routeOCPP16Request.
  unfoldable pub legacy_request : Json → WebSocket → List Field → ℕ → Central sv → Handling sv
  unfolding with_call parse_request route_ocpp16_request feature_name
  legacy_request json ws fs now k =
      with_call ws (λ r. route_ocpp16_request ws.id (feature_name r) r now k.system)
        (parse_request json.decode fs) k

  routed_by : Router → ProtocolVersion → String → ℕ → System sv → Request → Outcome (Routed sv)
  unfolding route_ocpp16_request route_ocpp201_request feature_name
  routed_by rt ocpp16 cp now s r = route_ocpp16_request cp (feature_name r) r now s
  routed_by rt ocpp201 cp now s r =
      route_ocpp201_request rt.has_v201_handlers cp (feature_name r) r now s
  routed_by rt ocpp21 cp now s r = not_supported s
  routed_by rt unknown_version cp now s r = not_supported s

  unfoldable pub version_aware_request :
      Router → Json → WebSocket → List Field → ℕ → Central sv → Handling sv
  unfolding with_call parse_request_version_aware version_name routed_by
  version_aware_request rt json ws fs now k =
      with_call ws (routed_by rt ws.protocol ws.id now k.system)
        (parse_request_version_aware json.decode fs (version_name ws.protocol) rt.registry) k

  resolution : Resolution → Central sv → Handling sv
  resolution (resolved known r) k = handled true (record k { requests = r })
  resolution waiting k = blocked

  with_result : Json → Parsed CallResult → Central sv → Handling sv
  unfolding resolve_response resolution
  with_result json invalid k = handled true k
  with_result json stopped k = crashed
  with_result json (parsed r) k =
      resolution (resolve_response r.unique_id (json.encode r.payload) k.requests) k

  with_type :
      Router → Json → WebSocket → Option CallType → List Field → ℕ → Central sv → Handling sv
  unfolding legacy_request version_aware_request with_result parse_result_unchecked
  with_type rt json ws none fs now k = handled false k
  with_type rt json ws (some call_type_error) fs now k = handled true k
  with_type rt json ws (some call_type_result) fs now k =
      with_result json (parse_result_unchecked fs) k
  with_type rt json ws (some call_type_request) fs now k =
      if rt.routing_enabled && rt.has_registry
      then version_aware_request rt json ws fs now k
      else legacy_request json ws fs now k

  message_of : Router → Json → WebSocket → Option (List Field) → ℕ → Central sv → Handling sv
  unfolding with_type message_type
  message_of rt json ws none now k = handled false k
  message_of rt json ws (some fs) now k = with_type rt json ws (message_type fs) fs now k

  unfoldable pub handle_incoming_message :
      Router → Json → WebSocket → Option (List Field) → ℕ → Central sv → Handling sv
  unfolding track_connection message_of
  handle_incoming_message rt json ws message now k =
      message_of rt json ws message now (track_connection ws k)
