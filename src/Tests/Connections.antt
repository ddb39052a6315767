-- ===== src/Tests/Connections.antt =====
-- The connections and the messages on them.
use evsys.Common.{
  List, Option, String, [], arith, get, int_has_eq, nat_has_eq, pos, put, refl, remove, some,
  string_has_eq, ◌∷◌, ◌≡◌, ◌≢◌,
}
use evsys.Server.Message.{
  Field, get_message_type, number, parse_request, parse_request_version_aware, parsed, raw_json,
  text,
}
use evsys.Server.Message.Parsing.{ocpp16_name, ocpp16_registry, parsers_agree}
use evsys.Server.Pending.{Requests, mark_fire_and_forget}
use evsys.Server.Pending.Bounds.{IsBounded, and_then, at_rest, fire_and_forget-IsBounded, marked}
use evsys.Server.Pool.{socket_has_eq, Pool, Socket, connect, deliver, queued, running}
use evsys.Server.Pool.Filing.{AllOwn, connected, delivery_reaches_no_other, moves, stays}
use evsys.Server.Registry.{FeatureTypes}

abbrev no_requests : Requests
no_requests = record { pending = []; fire_and_forget = [] }

fire_and_forget-IsBounded_example : IsBounded (mark_fire_and_forget "a" no_requests)
fire_and_forget-IsBounded_example =
    fire_and_forget-IsBounded (and_then (marked "a") at_rest) (omega arith)

abbrev old_socket : Socket
old_socket = record { id = "CP1"; serial = 1 }

abbrev new_socket : Socket
new_socket = record { id = "CP1"; serial = 2 }

abbrev other_socket : Socket
other_socket = record { id = "CP2"; serial = 1 }

abbrev pool : Pool
pool = record {
  clients = ("CP1", old_socket) ∷ ("CP2", other_socket) ∷ [];
  queues = (old_socket, queued ("a" ∷ [])) ∷ (other_socket, queued []) ∷ [];
}

abbrev connected_pool : Pool
connected_pool = connect new_socket pool

connected_queue :
    deliver "CP1" "b" connected_pool
    ≡ running record {
      clients = ("CP2", other_socket) ∷ ("CP1", new_socket) ∷ [];
      queues =
          (old_socket, queued ("a" ∷ []))
          ∷ (other_socket, queued [])
          ∷ (new_socket, queued ("b" ∷ []))
          ∷ [];
    }
unfolding connect deliver get put remove
connected_queue = refl

delivery_reaches_no_other_example :
    (get other_socket (
        (old_socket, queued ("a" ∷ []))
        ∷ (other_socket, queued [])
        ∷ (new_socket, queued ("b" ∷ []))
        ∷ [])
      ≡ get other_socket connected_pool.queues)
    × AllOwn (("CP2", other_socket) ∷ ("CP1", new_socket) ∷ [])
delivery_reaches_no_other_example =
    delivery_reaches_no_other "CP1" "b" other_socket (moves (connected new_socket) stays)
      (refl, (refl, tt)) connected_queue
      (λ e. ground (arith, (string_has_eq.beq_iff "CP1" "CP2").1 e))

abbrev heartbeat_types : FeatureTypes
heartbeat_types = record { request_type = "HeartbeatRequest"; response_type = "HeartbeatResponse" }

-- A decoder that keeps the name of the type.
abbrev keep_type : String → Field → Option String
keep_type t f = some t

abbrev heartbeat_call : List Field
heartbeat_call = number (pos 2) ∷ text "19" ∷ text "Heartbeat" ∷ raw_json "{}" ∷ []

parsers_agree_example :
    parse_request_version_aware keep_type heartbeat_call ocpp16_name ocpp16_registry
    ≡ parse_request keep_type heartbeat_call
unfolding get_message_type get
parsers_agree_example =
    parsers_agree keep_type (number (pos 2)) (text "19") (raw_json "{}") [] "Heartbeat" refl

heartbeat_is_parsed :
    parse_request keep_type heartbeat_call
    ≡ parsed record { unique_id = "19"; feature = "Heartbeat"; payload = "core.HeartbeatRequest" }
unfolding parse_request get
heartbeat_is_parsed = refl

number_is_no_text : (s : String) → number (pos 7) ≢ text s
number_is_no_text s e = ground arith
