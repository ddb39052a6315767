-- ===== src/Central/Incoming/Answered.antt =====
-- A request of a charge point reaches its own handler: `handleIncomingMessage` of
-- server/central_system.go, with the decoder of server/message.go.
use evsys.Central.{
  Request, Routed, authorize201, authorize_card, authorize_response, boot_notification,
  boot_notification201, boot_response, boot_tasks, cleared_charging_limit, data_transfer,
  data_transfer_response, diagnostics_status_notification, empty_response, feature_name,
  firmware_status_notification, heartbeat, heartbeat201, heartbeat_response, meter_values,
  not_supported, notify_report, on_data_transfer, on_diagnostics_status_notification,
  on_firmware_status_notification, on_heartbeat, responded, route_ocpp16_request, start_response,
  start_transaction, status_notification, status_notification201, stop_transaction, sweep_task,
  transaction_event,
}
use evsys.Central.Incoming.{
  Central, Json, Router, WebSocket, handle_incoming_message, handled, legacy_request, message_of,
  respond, routed_by, track_connection, version_aware_request, with_call, with_type,
}
use evsys.Central.Incoming.Types.{
  DecodesTypes, action_of_known, action_of_type, type_name, type_names_feature,
}
use evsys.Common.{
  Bool-cases, List, String, [], ap, arith, false, get, if◌then◌else◌, inl, inr, int_has_eq,
  nat_has_eq, pos, refl, some, string_has_eq, true, ℕ, ◌&&◌, ◌∙◌, ◌∷◌, ◌≡◌,
}
use evsys.Server.Message.{Field, call_type_request, get_message_type, message_type, number, text}
use evsys.Server.Message.Parsing.{
  ocpp16_registry, ocpp201_unregistered, parse_request-decoded, parsers_agree, unregistered_version,
}
use evsys.Server.Protocol.{ocpp16, ocpp201, version_name}
use evsys.System.Authorize.{authorize_id_tag}
use evsys.System.Boot.{on_boot_notification}
use evsys.System.Meters.{on_meter_values}
use evsys.System.Start.{on_start_transaction}
use evsys.System.State.{Outcome, Services, System, returned, ◌>>=◌}
use evsys.System.Status.{on_status_notification}
use evsys.System.Stop.{on_stop_transaction}

module _ {sv : Services} where
  -- What the handler of a request of OCPP 1.6 does.
  abbrev pub own_handler : String → Request → ℕ → System sv → Outcome (Routed sv)
  own_handler cp (boot_notification r) now s =
      let (reply, s') = on_boot_notification cp r s in
      returned record {
        response = some (boot_response reply.status);
        tasks = boot_tasks cp reply.tasks;
        system = s';
      }
  own_handler cp (authorize_card tag) now s =
      authorize_id_tag cp tag now s >>= λ (a : String × System sv).
      responded (authorize_response a.0) a.1
  own_handler cp heartbeat now s = responded heartbeat_response (on_heartbeat cp s)
  own_handler cp (start_transaction r) now s =
      let (reply, s') = on_start_transaction cp r now s in responded (start_response reply) s'
  own_handler cp (stop_transaction r) now s =
      on_stop_transaction cp r now s >>= responded empty_response
  own_handler cp (meter_values r) now s = on_meter_values cp r now s >>= responded empty_response
  own_handler cp (status_notification r) now s =
      let (sweeps, s') = on_status_notification cp r now s in
      returned record {
        response = some empty_response;
        tasks = if sweeps then sweep_task ∷ [] else [];
        system = s';
      }
  own_handler cp data_transfer now s =
      let (ok, s') = on_data_transfer cp s in responded (data_transfer_response ok) s'
  own_handler cp (diagnostics_status_notification status) now s =
      responded empty_response (on_diagnostics_status_notification cp status s)
  own_handler cp (firmware_status_notification status) now s =
      responded empty_response (on_firmware_status_notification cp status s)
  own_handler cp r now s = not_supported s

  routed_own :
      (cp : String) (r : Request) (now : ℕ) (s : System sv) {action : String}
      → action_of_type (type_name r) ≡ some action
      → route_ocpp16_request cp (feature_name r) r now s ≡ own_handler cp r now s
  unfolding action_of_type type_name feature_name get route_ocpp16_request
  routed_own cp (boot_notification r) now s h = refl
  routed_own cp (authorize_card tag) now s h = refl
  routed_own cp heartbeat now s h = refl
  routed_own cp (start_transaction r) now s h = refl
  routed_own cp (stop_transaction r) now s h = refl
  routed_own cp (meter_values r) now s h = refl
  routed_own cp (status_notification r) now s h = refl
  routed_own cp data_transfer now s h = refl
  routed_own cp (diagnostics_status_notification status) now s h = refl
  routed_own cp (firmware_status_notification status) now s h = refl
  routed_own cp (boot_notification201 r) now s h = ground arith
  routed_own cp heartbeat201 now s h = ground arith
  routed_own cp cleared_charging_limit now s h = ground arith
  routed_own cp (notify_report r) now s h = ground arith
  routed_own cp (authorize201 token) now s h = ground arith
  routed_own cp (transaction_event r) now s h = ground arith
  routed_own cp (status_notification201 r) now s h = ground arith

  -- The two ways to handle a request of OCPP 1.6 agree.
  paths_agree :
      (rt : Router) (json : Json) (ws : WebSocket) (kind id f : Field) (rest : List Field)
      (action : String) (now : ℕ) (k : Central sv) {t : String}
      → get_message_type action ≡ some t
      → ws.protocol ≡ ocpp16
      → rt.registry ≡ ocpp16_registry
      → version_aware_request rt json ws (kind ∷ id ∷ text action ∷ f ∷ rest) now k
        ≡ legacy_request json ws (kind ∷ id ∷ text action ∷ f ∷ rest) now k
  unfolding version_aware_request legacy_request routed_by version_name
  paths_agree rt json ws kind id f rest action now k known is_16 same_registry =
      rw (is_16, same_registry, parsers_agree json.decode kind id f rest action known) refl

  legacy_answered :
      (json : Json) (ws : WebSocket) (id : String) (f : Field) (action : String) (r : Request)
      (now : ℕ) (k : Central sv) {t : String}
      → DecodesTypes json
      → get_message_type action ≡ some t
      → json.decode t f ≡ some r
      → legacy_request json ws (number (pos 2) ∷ text id ∷ text action ∷ f ∷ []) now k
        ≡ respond ws id action (own_handler ws.id r now k.system) k
  unfolding legacy_request with_call
  legacy_answered json ws id f action r now k {t = t} typed known decoded =
      let known_type : action_of_type (type_name r) ≡ some action =
        ap action_of_type (typed t f r decoded) ∙ action_of_known known in
      rw
        (
          parse_request-decoded json.decode id action f r known decoded,
          routed_own ws.id r now k.system known_type,
          type_names_feature r known_type,
        )
        refl

  -- On a connection of OCPP 1.6, a request whose action is one of the ten and whose payload is decoded
  -- is answered by its own handler, with its id; no type assertion fails, whether the registry of
  -- the features of OCPP 1.6 is used or not.
  pub request_reaches_handler :
      (rt : Router) (json : Json) (ws : WebSocket) (id : String) (f : Field) (action : String)
      (r : Request) (now : ℕ) (k : Central sv) {t : String}
      → DecodesTypes json
      → ws.protocol ≡ ocpp16
      → rt.registry ≡ ocpp16_registry
      → get_message_type action ≡ some t
      → json.decode t f ≡ some r
      → handle_incoming_message rt json ws
          (some (number (pos 2) ∷ text id ∷ text action ∷ f ∷ []))
          now
          k
        ≡ respond ws id action (own_handler ws.id r now k.system) (track_connection ws k)
  unfolding handle_incoming_message message_of with_type track_connection message_type
  request_reaches_handler rt json ws id f action r now k typed is_16 same_registry known decoded =
      let k1 = track_connection ws k in
      let fs = number (pos 2) ∷ text id ∷ text action ∷ f ∷ [] in
      let legacy = legacy_answered json ws id f action r now k1 typed known decoded in
      elim (Bool-cases (rt.routing_enabled && rt.has_registry)) [
        | inl aware ↦ rw aware (
            paths_agree rt json ws (number (pos 2)) (text id) f [] action now k1 known is_16
              same_registry
            ∙ legacy)
        | inr old ↦ rw old legacy
      ]

  -- With the features of OCPP 1.6 alone in the registry, as the program starts, every request on a
  -- connection of OCPP 2.0.1 is refused: nothing is answered, and no handler runs.
  pub ocpp201_requests_refused :
      (rt : Router) (json : Json) (ws : WebSocket) (fs : List Field) (now : ℕ) (k : Central sv)
      → (rt.routing_enabled && rt.has_registry) ≡ true
      → rt.registry ≡ ocpp16_registry
      → ws.protocol ≡ ocpp201
      → message_type fs ≡ some call_type_request
      → handle_incoming_message rt json ws (some fs) now k ≡ handled false (track_connection ws k)
  unfolding handle_incoming_message message_of with_type version_aware_request with_call
      version_name
  ocpp201_requests_refused rt json ws fs now k aware same_registry is_201 is_request =
      rw
        (
          is_request,
          aware,
          same_registry,
          is_201,
          unregistered_version json.decode "ocpp2.0.1" ocpp16_registry fs ocpp201_unregistered,
        )
        refl
