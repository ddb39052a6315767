-- ===== src/Central/Incoming/Results.antt =====
-- The answers of charge points: `handleIncomingMessage` of server/central_system.go with
-- `ResolveResponse` of server/server.go.
use evsys.Central.Incoming.{
  Central, Json, Router, WebSocket, handle_incoming_message, handled, message_of, resolution,
  track_connection, with_result, with_type,
}
use evsys.Common.{
  String, [], false, int_has_eq, member, nat_has_eq, pos, refl, some, string_has_eq, true, ℕ, ◌∷◌,
  ◌≡◌,
}
use evsys.Server.Message.{Field, message_type, number, parse_result_unchecked, text}
use evsys.Server.Pending.{Requests, receive, register_pending}
use evsys.Server.Pending.Answers.{answer_reaches_caller}
use evsys.System.State.{Services}

module _ {sv : Services} where
  -- The answer of a charge point to a request that is registered, and not one without a caller, is
  -- handled: its payload, as text, is what the caller receives. Apart from the requests and the
  -- connection's protocol nothing changes.
  pub answer_handled :
      (rt : Router) (json : Json) (ws : WebSocket) (id : String) (f : Field) (now : ℕ)
      (k : Central sv) (r : Requests)
      → member id r.fire_and_forget ≡ false
      → k.requests ≡ register_pending id r
      → (r1 r2 : Requests) × (handle_incoming_message rt json ws
            (some (number (pos 3) ∷ text id ∷ f ∷ []))
            now
            k
          ≡ handled true (record (track_connection ws k) { requests = r1 }))
        × (receive id r1 ≡ (some (json.encode f), r2))
  unfolding handle_incoming_message message_of with_type track_connection with_result resolution
      message_type parse_result_unchecked
  answer_handled rt json ws id f now k r absent is_registered =
      let (r1, r2, resolves, receives, _, _) =
        answer_reaches_caller id (json.encode f) "" r absent in
      (r1, r2, rw (is_registered, resolves) refl, receives)
