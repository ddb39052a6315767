-- ===== src/Server/Pending/Bounds.antt =====
-- The number of the requests without a waiting caller.
use evsys.Common.{
  Dict, Option, String, [], arith, false, get, if_ind, if◌then◌else◌, int_has_eq, leb, length, ltb,
  member, nat_has_eq, none, put, refl, remove, size, some, string_has_eq, subst, suc, sym, true,
  ◌++◌, ◌<◌, ◌∷◌, ◌≡◌, ◌≤◌,
}
use evsys.Server.Pending.{
  Channel, Requests, Resolution, channel_capacity, evicted, mark_fire_and_forget,
  max_fire_and_forget, receive, received_from, register_pending, release_pending, resolve_response,
  resolved, resolved_at, waiting,
}
use evsys.System.Stop.Close.{entry}

length-put : (id : String) (d : Dict String (Unit {0})) → length (put id tt d) ≤ suc (length d)
unfolding put
length-put id [] = omega arith
length-put id (x ∷ d) = ground (arith, length-put id d)

length-remove : (id : String) (d : Dict String (Unit {0})) → length (remove id d) ≤ length d
unfolding remove
length-remove id [] = omega arith
length-remove id (x ∷ d) = ground (arith, length-remove id d)

-- The requests after an answer; while its send waits, they are as they were.
abbrev pub requests_after : Resolution → Requests → Requests
requests_after (resolved expected r') r = r'
requests_after waiting r = r

-- The operations of the server on its requests.
pub data Step : Requests → Requests → Type 0 where
  registered : {r : Requests} (id : String) → Step r (register_pending id r)
  dropped : {r : Requests} (id : String) → Step r (release_pending id r)
  marked : {r : Requests} (id : String) → Step r (mark_fire_and_forget id r)
  taken : {r : Requests} (id : String) → Step r (receive id r).1
  answered :
      {r : Requests} (id payload : String)
      → Step r (requests_after (resolve_response id payload r) r)

pub data Steps : Requests → Requests → Type 0 where
  at_rest : {r : Requests} → Steps r r
  and_then : {a b c : Requests} → Step a b → Steps b c → Steps a c

abbrev pub IsBounded : Requests → Type 0
IsBounded r = size r.fire_and_forget ≤ max_fire_and_forget

room_lem :
    (d : Dict String (Unit {0}))
    → length d ≤ max_fire_and_forget
    → length (if leb max_fire_and_forget (length d) then evicted d else d) < max_fire_and_forget
unfolding evicted
room_lem [] h = ground arith
room_lem (entry ∷ rest) h = ground arith

marked_lem : (id : String) (r : Requests) → IsBounded r → IsBounded (mark_fire_and_forget id r)
unfolding mark_fire_and_forget
marked_lem id r h =
    let d = r.fire_and_forget in
    let room = if leb max_fire_and_forget (length d) then evicted d else d in
    omega (arith, length-put id room, room_lem d h)

received_lem :
    (o : Option Channel) (id : String) (r : Requests)
    → (received_from o id r).1.fire_and_forget ≡ r.fire_and_forget
unfolding received_from
received_lem none id r = refl
received_lem (some []) id r = refl
received_lem (some (payload ∷ rest)) id r = refl

taken_lem : (id : String) (r : Requests) → IsBounded r → IsBounded (receive id r).1
unfolding receive
taken_lem id r h =
    subst (λ (d : Dict String (Unit {0})). length d ≤ max_fire_and_forget)
      (sym (received_lem (get id r.pending) id r)) h

answered_lem :
    (o : Option Channel) (id payload : String) (r : Requests)
    → IsBounded r
    → IsBounded (requests_after (resolved_at o id payload r) r)
unfolding resolved_at
answered_lem none id payload r h =
    if_ind (λ o. IsBounded (requests_after o r)) (member id r.fire_and_forget)
      (resolved true (record r { fire_and_forget = remove id r.fire_and_forget }))
      (resolved false r) (omega (arith, length-remove id r.fire_and_forget)) h
answered_lem (some channel) id payload r h =
    if_ind (λ o. IsBounded (requests_after o r)) (ltb (length channel) channel_capacity)
      (resolved true (record r { pending = put id (channel ++ payload ∷ []) r.pending })) waiting h
      h

Step-IsBounded : {a b : Requests} → Step a b → IsBounded a → IsBounded b
unfolding register_pending release_pending resolve_response
Step-IsBounded (registered id) h = h
Step-IsBounded (dropped id) h = h
Step-IsBounded {a = a} (marked id) h = marked_lem id a h
Step-IsBounded {a = a} (taken id) h = taken_lem id a h
Step-IsBounded {a = a} (answered id payload) h = answered_lem (get id a.pending) id payload a h

-- The set of requests without a waiting caller never holds more than 1024 ids, however many of them
-- are never answered.
pub fire_and_forget-IsBounded : {a b : Requests} → Steps a b → IsBounded a → IsBounded b
fire_and_forget-IsBounded at_rest h = h
fire_and_forget-IsBounded (and_then first steps) h =
    fire_and_forget-IsBounded steps (Step-IsBounded first h)
