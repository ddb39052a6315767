-- ===== src/Server/Pending.antt =====
-- The requests that wait for an answer: `pending` and `fireAndForget` of server/server.go. The mutex
-- makes each operation one step.
pub mod Answers
pub mod Bounds
pub mod Sync
use evsys.Common.{
  Bool, Dict, List, Option, String, [], false, get, if◌then◌else◌, int_has_eq, leb, length, ltb,
  member, nat_has_eq, none, put, remove, size, some, string_has_eq, true, ℕ, ◌++◌, ◌∷◌,
}
use evsys.System.Stop.Close.{entry}

-- maxFireAndForget
abbrev pub max_fire_and_forget : ℕ
max_fire_and_forget = 1024

-- The channel of a caller: what was sent on it and not received yet. Its capacity is 1.
abbrev pub Channel : Type 0
Channel = List String

abbrev pub channel_capacity : ℕ
channel_capacity = 1

pub record Requests : Type 0 where
  pub pending : Dict String Channel
  pub fire_and_forget : Dict String (Unit {0})

-- What `ResolveResponse` does: it returns whether the answer was expected, or its send on a full
-- channel waits for the receiver.
pub data Resolution : Type 0 where
  resolved : Bool → Requests → Resolution
  waiting : Resolution

unfoldable pub register_pending : String → Requests → Requests
register_pending id r = record r { pending = put id [] r.pending }

unfoldable pub release_pending : String → Requests → Requests
release_pending id r = record r { pending = remove id r.pending }

-- The caller takes the answer off its channel.
received_from : Option Channel → String → Requests → Option String × Requests
received_from none id r = (none, r)
received_from (some []) id r = (none, r)
received_from (some (payload ∷ rest)) id r =
    (some payload, record r { pending = put id rest r.pending })

unfoldable pub receive : String → Requests → Option String × Requests
unfolding received_from
receive id r = received_from (get id r.pending) id r

resolved_at : Option Channel → String → String → Requests → Resolution
resolved_at none id payload r =
    if member id r.fire_and_forget
    then resolved true (record r { fire_and_forget = remove id r.fire_and_forget })
    else resolved false r
resolved_at (some channel) id payload r =
    if ltb (length channel) channel_capacity
    then resolved true (record r { pending = put id (channel ++ payload ∷ []) r.pending })
    else waiting

-- The entry stays: the caller removes it when it stops listening.
unfoldable pub resolve_response : String → String → Requests → Resolution
unfolding resolved_at
resolve_response id payload r = resolved_at (get id r.pending) id payload r

-- Drops the first entry; the map's own order is arbitrary.
evicted : Dict String (Unit {0}) → Dict String (Unit {0})
evicted [] = []
evicted (entry ∷ rest) = rest

unfoldable pub mark_fire_and_forget : String → Requests → Requests
unfolding evicted
mark_fire_and_forget id r =
    let room =
      if leb max_fire_and_forget (size r.fire_and_forget)
      then evicted r.fire_and_forget
      else r.fire_and_forget in
    record r { fire_and_forget = put id tt room }
