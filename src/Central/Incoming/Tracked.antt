-- ===== src/Central/Incoming/Tracked.antt =====
-- The protocols of the connections: `handleIncomingMessage`, `GetProtocolVersion` and
-- `resolveProtocolVersion` of server/central_system.go.
use evsys.Central.{Request, Response, Routed, feature_name, route_ocpp16_request}
use evsys.Central.Api.{CentralSystemCommand, Decoders, handle_api_request, versioned_command}
use evsys.Central.Incoming.{
  Central, Handling, Json, Router, WebSocket, blocked, crashed, finished, handle_incoming_message,
  handled, legacy_request, message_of, power_tasks, resolution, respond, routed_by,
  track_connection, version_aware_request, with_call, with_result, with_type,
}
use evsys.Common.{
  Bool, Dict, List, Option, String, ap, false, get, get-put_self, if_ind, int_has_eq, nat_has_eq,
  none, put, refl, some, string_has_eq, subst, true, ℕ, ◌&&◌, ◌++◌, ◌==◌, ◌∙◌, ◌∷◌, ◌≡◌,
}
use evsys.Server.Message.{
  CallRequest, CallResult, CallType, Field, Parsed, call_type_error, call_type_request,
  call_type_result, invalid, message_type, parse_request, parse_request_version_aware,
  parse_result_unchecked, parsed, stopped,
}
use evsys.Server.Pending.{Resolution, resolve_response, resolved, waiting}
use evsys.Server.Protocol.{
  ProtocolVersion, ocpp16, ocpp201, ocpp21, or_ocpp16, resolved_connection, unknown_version,
  version_name,
}
use evsys.System.State.{Outcome, Services, System, panicked, returned}

module _ {sv : Services} where
  -- The connections are as before.
  abbrev Tracks : Dict String ProtocolVersion → Handling sv → Type 0
  Tracks d (handled ok k) = k.connections ≡ d
  Tracks d crashed = Unit {0}
  Tracks d blocked = Unit {0}

  finished-Tracks :
      (ws : WebSocket) (id action : String) (o : Option Response) (k : Central sv)
      → Tracks k.connections (finished ws id action o k)
  unfolding finished
  finished-Tracks ws id action none k = refl
  finished-Tracks ws id action (some response) k =
      if_ind (Tracks k.connections) ws.is_closed (handled true k)
        (handled true (record k {
          sent = record { recipient = ws.id; unique_id = id; response = response } ∷ k.sent;
          tasks = k.tasks ++ power_tasks ws.id action;
        }))
        refl refl

  respond-Tracks :
      (ws : WebSocket) (id action : String) (o : Outcome (Routed sv)) (k : Central sv)
      → Tracks k.connections (respond ws id action o k)
  unfolding respond
  respond-Tracks ws id action panicked k = tt
  respond-Tracks ws id action (returned r) k =
      finished-Tracks ws id action r.response
        (record k { system = r.system; tasks = k.tasks ++ r.tasks })

  with_call-Tracks :
      (ws : WebSocket) (route : Request → Outcome (Routed sv)) (p : Parsed (CallRequest Request))
      (k : Central sv)
      → Tracks k.connections (with_call ws route p k)
  unfolding with_call
  with_call-Tracks ws route invalid k = refl
  with_call-Tracks ws route stopped k = tt
  with_call-Tracks ws route (parsed call) k =
      respond-Tracks ws call.unique_id (feature_name call.payload) (route call.payload) k

  resolution-Tracks : (o : Resolution) (k : Central sv) → Tracks k.connections (resolution o k)
  unfolding resolution
  resolution-Tracks (resolved known r) k = refl
  resolution-Tracks waiting k = tt

  with_result-Tracks :
      (json : Json) (p : Parsed CallResult) (k : Central sv)
      → Tracks k.connections (with_result json p k)
  unfolding with_result
  with_result-Tracks json invalid k = refl
  with_result-Tracks json stopped k = tt
  with_result-Tracks json (parsed r) k =
      resolution-Tracks (resolve_response r.unique_id (json.encode r.payload) k.requests) k

  with_type-Tracks :
      (rt : Router) (json : Json) (ws : WebSocket) (o : Option CallType) (fs : List Field) (now : ℕ)
      (k : Central sv)
      → Tracks k.connections (with_type rt json ws o fs now k)
  unfolding with_type legacy_request version_aware_request
  with_type-Tracks rt json ws none fs now k = refl
  with_type-Tracks rt json ws (some call_type_error) fs now k = refl
  with_type-Tracks rt json ws (some call_type_result) fs now k =
      with_result-Tracks json (parse_result_unchecked fs) k
  with_type-Tracks rt json ws (some call_type_request) fs now k =
      if_ind (Tracks k.connections) (rt.routing_enabled && rt.has_registry)
        (version_aware_request rt json ws fs now k) (legacy_request json ws fs now k)
        (with_call-Tracks ws (routed_by rt ws.protocol ws.id now k.system)
          (parse_request_version_aware json.decode fs (version_name ws.protocol) rt.registry) k)
        (with_call-Tracks ws (λ r. route_ocpp16_request ws.id (feature_name r) r now k.system)
          (parse_request json.decode fs) k)

  message-Tracks :
      (rt : Router) (json : Json) (ws : WebSocket) (message : Option (List Field)) (now : ℕ)
      (k : Central sv)
      → Tracks
          (put ws.id ws.protocol k.connections)
          (handle_incoming_message rt json ws message now k)
  unfolding handle_incoming_message message_of track_connection
  message-Tracks rt json ws none now k = refl
  message-Tracks rt json ws (some fs) now k =
      with_type-Tracks rt json ws (message_type fs) fs now (track_connection ws k)

  versioned_or_ocpp16 :
      (v : ProtocolVersion) (has_handlers : Bool) (ds : Decoders) (command : CentralSystemCommand)
      (now : ℕ) (s : System sv)
      → versioned_command (or_ocpp16 v) has_handlers ds command now s
        ≡ versioned_command v has_handlers ds command now s
  unfolding versioned_command
  versioned_or_ocpp16 ocpp16 has_handlers ds command now s = refl
  versioned_or_ocpp16 ocpp201 has_handlers ds command now s = refl
  versioned_or_ocpp16 ocpp21 has_handlers ds command now s = refl
  versioned_or_ocpp16 unknown_version has_handlers ds command now s = refl

  -- After a message that was handled, with or without an error, a command of the API that names no
  -- version and is for that charge point is handled by the version of its connection.
  pub command_follows_connection :
      (rt : Router) (json : Json) (ws : WebSocket) (message : Option (List Field)) (now : ℕ)
      (k k' : Central sv) (ok : Bool) (ds : Decoders) (command : CentralSystemCommand) (later : ℕ)
      → handle_incoming_message rt json ws message now k ≡ handled ok k'
      → command.charge_point_id ≡ ws.id
      → command.protocol_version ≡ ""
      → (command.feature_name == "") ≡ false
      → (command.feature_name == "GetServerStatus") ≡ false
      → handle_api_request rt ds command later k'
        ≡ versioned_command ws.protocol rt.has_v201_handlers ds command later k'.system
  unfolding handle_api_request
  command_follows_connection rt json ws message now k k' ok ds command later is_handled same_point
        no_version named not_status =
      let tracked =
        subst (Tracks (put ws.id ws.protocol k.connections)) is_handled
          (message-Tracks rt json ws message now k) in
      rw
        (
          named,
          not_status,
          no_version,
          same_point,
          resolved_connection ws.id ws.protocol k'.connections
              (ap (get ws.id) tracked ∙ get-put_self ws.id ws.protocol k.connections),
        )
        (versioned_or_ocpp16 ws.protocol rt.has_v201_handlers ds
          (record command { charge_point_id = ws.id; protocol_version = "" }) later k'.system)
