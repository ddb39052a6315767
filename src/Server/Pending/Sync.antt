-- ===== src/Server/Pending/Sync.antt =====
-- Requests to a charge point: `SendRequest`, `SendRequestWithResponse` and `SendRequestSync` of
-- server/server.go. A request goes to the pool over a channel with room for 256 envelopes; how many are
-- waiting there is an argument, and a send on the full channel waits without a deadline. The answers that charge points give until the deadline are a list; which of two
-- ready cases a `select` takes is not fixed, and here it is the answer.
use evsys.Common.{
  Bool, Bool-cases, List, Option, Option-cases, String, [], ap, arith, false, get, get-put_ne,
  get-put_self, get-remove_self, if◌then◌else◌, inl, inr, int_has_eq, ltb, nat_has_eq, none, put,
  refl, some, string_has_eq, subst, sym, true, ℕ, ◌&&◌, ◌++◌, ◌==◌, ◌∙◌, ◌∷◌, ◌≡◌, ◌≢◌,
}
use evsys.Server.Pending.{
  Requests, Resolution, mark_fire_and_forget, receive, received_from, register_pending,
  release_pending, resolve_response, resolved, resolved_at, waiting,
}
use evsys.V16.Status.{available}

abbrev pub pool_capacity : ℕ
pool_capacity = 256

pub data SyncResult : Type 0 where
  payload_received : String → SyncResult
  -- `waits_for_pool`: the call has not come back.
  response_timeout not_sent waits_for_pool : SyncResult

-- What becomes of a request, and the requests then.
pub data Sending : Type 0 where
  unavailable_recipient on_channel full_channel : Requests → Sending

-- Can the request be made? The charge point is connected and the request is written as JSON.
abbrev can_queue : Bool → Bool → Bool
can_queue available created = available && created

-- s.pool.send <- env
unfoldable pub send_to_pool : ℕ → Requests → Sending
send_to_pool in_channel r = if ltb in_channel pool_capacity then on_channel r else full_channel r

unfoldable pub send_request : Bool → Bool → ℕ → String → Requests → Sending
unfolding mark_fire_and_forget send_to_pool
send_request available created in_channel id r =
    if can_queue available created
    then send_to_pool in_channel (mark_fire_and_forget id r)
    else unavailable_recipient r

unfoldable pub send_request_with_response : Bool → Bool → ℕ → String → Requests → Sending
unfolding register_pending send_to_pool
send_request_with_response available created in_channel id r =
    if can_queue available created
    then send_to_pool in_channel (register_pending id r)
    else unavailable_recipient r

-- A read pump that waits on a full channel changes nothing.
after_resolution : Resolution → Requests → Requests
after_resolution (resolved known r') r = r'
after_resolution waiting r = r

-- An answer of some charge point comes in.
unfoldable pub answer_arrives : String → String → Requests → Requests
unfolding resolve_response after_resolution
answer_arrives id payload r = after_resolution (resolve_response id payload r) r

-- Goes on with what is found on the channel.
received_or : String → SyncResult × Requests → Option String × Requests → SyncResult × Requests
unfolding release_pending
received_or id rest (none, r) = rest
received_or id rest (some payload, r) = (payload_received payload, release_pending id r)

unfoldable pub await_answer : String → List (String × String) → Requests → SyncResult × Requests
unfolding answer_arrives receive received_or release_pending
await_answer id [] r = (response_timeout, release_pending id r)
await_answer id ((from, payload) ∷ answers) r =
    let r' = answer_arrives from payload r in
    let rest = await_answer id answers r' in received_or id rest (receive id r')

-- The deadline runs from where the request is on the channel.
sync_from : String → List (String × String) → Sending → SyncResult × Requests
unfolding await_answer
sync_from id answers (unavailable_recipient r) = (not_sent, r)
sync_from id answers (full_channel r) = (waits_for_pool, r)
sync_from id answers (on_channel r) = await_answer id answers r

unfoldable pub send_request_sync :
    Bool → Bool → ℕ → String → List (String × String) → Requests → SyncResult × Requests
unfolding send_request_with_response sync_from
send_request_sync available created in_channel id answers r =
    sync_from id answers (send_request_with_response available created in_channel id r)

-- The first answer to the request, if there is one in time.
abbrev pub first_answer_to : String → List (String × String) → SyncResult
first_answer_to id [] = response_timeout
first_answer_to id ((from, payload) ∷ answers) =
    let rest = first_answer_to id answers in if from == id then payload_received payload else rest

-- The caller of the request is there, and its channel is empty.
abbrev Awaits : String → Requests → Type 0
Awaits id r = get id r.pending ≡ some []

own_answer :
    (id payload : String) (r : Requests)
    → Awaits id r
    → answer_arrives id payload r ≡ record r { pending = put id (payload ∷ []) r.pending }
unfolding answer_arrives resolve_response after_resolution resolved_at
own_answer id payload r awaits = rw awaits refl

other_answer :
    (id from payload : String) (r : Requests)
    → from ≢ id
    → get id (answer_arrives from payload r).pending ≡ get id r.pending
unfolding answer_arrives resolve_response after_resolution resolved_at
other_answer id from payload r ne = elim (Option-cases (get from r.pending)) [
  | inl absent ↦ rw absent (ground arith)
  | inr (channel, there) ↦
      rw there (ground (arith, get-put_ne from id (channel ++ payload ∷ []) r.pending ne))
]

empty_received :
    (id : String) (rest : SyncResult × Requests) (r : Requests)
    → Awaits id r
    → received_or id rest (receive id r) ≡ rest
unfolding receive received_from received_or
empty_received id rest r awaits = rw awaits refl

own_received :
    (id payload : String) (rest : SyncResult × Requests) (r : Requests)
    → get id r.pending ≡ some (payload ∷ [])
    → received_or id rest (receive id r)
      ≡ (payload_received payload, release_pending id (record r { pending = put id [] r.pending }))
unfolding receive received_from received_or
own_received id payload rest r there = rw there refl

-- The result, with the request no longer registered.
abbrev Settles : String → SyncResult → SyncResult × Requests → Type 0
Settles id result p = (p.0 ≡ result) × (get id p.1.pending ≡ none)

released_lem :
    (id : String) (result : SyncResult) (r : Requests)
    → Settles id result (result, release_pending id r)
unfolding release_pending
released_lem id result r = (refl, get-remove_self id r.pending)

own_there :
    (id from payload : String) (r : Requests)
    → Awaits id r
    → from ≡ id
    → get id (answer_arrives from payload r).pending ≡ some (payload ∷ [])
own_there id from payload r awaits same =
    subst (λ f. get id (answer_arrives f payload r).pending ≡ some (payload ∷ [])) (sym same)
      (ap (λ (q : Requests). get id q.pending) (own_answer id payload r awaits)
        ∙ get-put_self id (payload ∷ []) r.pending)

await_answer-Settles :
    (id : String) (answers : List (String × String)) (r : Requests)
    → Awaits id r
    → Settles id (first_answer_to id answers) (await_answer id answers r)
unfolding await_answer
await_answer-Settles id [] r awaits = released_lem id response_timeout r
await_answer-Settles id ((from, payload) ∷ answers) r awaits =
    let r' = answer_arrives from payload r in
    let rest = await_answer id answers r' in
    elim (Bool-cases (from == id)) [
      | inl same ↦
          rw
            (
              same,
              own_received id payload rest r'
                  (own_there id from payload r awaits ((string_has_eq.beq_iff from id).0 same)),
            )
            (released_lem id (payload_received payload)
              (record r' { pending = put id [] r'.pending }))
      | inr other ↦
          let there =
            other_answer id from payload r
              (λ e. ground (arith, other, (string_has_eq.beq_iff from id).1 e))
            ∙ awaits in
          rw (other, empty_received id rest r' there) (await_answer-Settles id answers r' there)
    ]

-- A synchronous request that finds room on the pool's channel comes back with the first answer to it
-- that arrives before its deadline, whatever else arrives, or else with a timeout, and is not
-- registered any more. On a full channel it waits, without a deadline, and stays registered; one that
-- cannot be made comes back at once, and its registration is as it was.
pub sync_request_outcomes :
    (available created : Bool) (in_channel : ℕ) (id : String) (answers : List (String × String))
    (r : Requests)
    → let (result, r') = send_request_sync available created in_channel id answers r in
      (result ≡ (
        if available && created
        then (if ltb in_channel 256 then first_answer_to id answers else waits_for_pool)
        else not_sent))
      × (get id r'.pending ≡ (
          if available && created
          then (if ltb in_channel 256 then none else some [])
          else get id r.pending))
unfolding send_request_sync send_request_with_response sync_from register_pending send_to_pool
sync_request_outcomes true true in_channel id answers r =
    let registered_at = get-put_self id [] r.pending in
    let settles =
      await_answer-Settles id answers (record r { pending = put id [] r.pending }) registered_at in
    elim (Bool-cases (ltb in_channel 256)) [
      | inl room ↦ rw room settles
      | inr full ↦ rw full (refl, registered_at)
    ]
sync_request_outcomes true false in_channel id answers r = (refl, refl)
sync_request_outcomes false created in_channel id answers r = (refl, refl)
