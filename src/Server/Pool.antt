-- ===== src/Server/Pool.antt =====
-- The pool of the connections: `Pool` and `WebSocket` of server/server.go. The goroutine of the pool
-- handles one channel at a time, so each operation is one step; the text of a message is kept, the
-- socket below is not modelled.
pub mod Filing
pub mod Faults
use evsys.Common.{
  Bool, Dict, Eq, List, Option, String, [], arith, eq_self, false, get, if◌then◌else◌, int_has_eq,
  length, ltb, nat_has_eq, none, put, refl, remove, some, string_has_eq, subst, true, ℕ, ◌&&◌, ◌++◌,
  ◌==◌, ◌||◌, ◌↔◌, ◌∷◌, ◌≡◌,
}

-- The capacity of the channel `send` of a connection.
abbrev pub send_capacity : ℕ
send_capacity = 256

-- A connection; two connections of one charge point differ in `serial`.
pub record Socket : Type 0 where
  pub id : String
  pub serial : ℕ

same_socket : (a b : Socket) → a.id ≡ b.id → a.serial ≡ b.serial → a ≡ b
same_socket a b same_id same_serial = λ i. record { id = same_id i; serial = same_serial i }

pub both_same : (a b : Socket) → ((a.id == b.id && a.serial == b.serial) ≡ true) ↔ (a ≡ b)
both_same a b = (
  λ h.
      same_socket a b ((string_has_eq.beq_iff a.id b.id).0 (ground arith))
        ((nat_has_eq.beq_iff a.serial b.serial).0 (ground arith)),
  λ e.
      subst (λ c. (a.id == c.id && a.serial == c.serial) ≡ true) e
        (rw (eq_self a.id, eq_self a.serial) refl),
)

-- A connection is a pointer: it is itself and no other.
instance abbrev pub socket_has_eq : Eq Socket
socket_has_eq = record { beq = λ a b. a.id == b.id && a.serial == b.serial; beq_iff = both_same }

-- The channel `send`: what waits to be written, until it is closed.
pub data SendQueue : Type 0 where
  queued : List String → SendQueue
  closed_queue : SendQueue

pub record Pool : Type 0 where
  pub clients : Dict String Socket
  pub queues : Dict Socket SendQueue

-- `crashed` is a send on a closed channel, or a second close of it: it ends the process.
pub data PoolOutcome : Type 0 where
  running : Pool → PoolOutcome
  crashed : PoolOutcome

unfoldable pub any_id : String → Dict String Socket → Bool
any_id id [] = false
any_id id ((k, c) ∷ d) = c.id == id || any_id id d

unfoldable pub recipient_available : String → Pool → Bool
unfolding any_id
recipient_available id p = any_id id p.clients

-- Also run for every message that the connection reads.
unfoldable pub check_add_client : Socket → Pool → Pool
unfolding recipient_available
check_add_client c p =
    if recipient_available c.id p then p else record p { clients = put c.id c p.clients }

unfoldable pub delete_client : Socket → Pool → Pool
delete_client c p = record p { clients = remove c.id p.clients }

pushed : Option SendQueue → Socket → String → Pool → PoolOutcome
pushed none c message p = running p
pushed (some closed_queue) c message p = crashed
pushed (some (queued waiting_data)) c message p =
    if ltb (length waiting_data) send_capacity
    then running (record p { queues = put c (queued (waiting_data ++ message ∷ [])) p.queues })
    else running record { clients = remove c.id p.clients; queues = put c closed_queue p.queues }

deliver_to : Option Socket → String → Pool → PoolOutcome
unfolding pushed
deliver_to none message p = running p
deliver_to (some c) message p = pushed (get c p.queues) c message p

-- The case `env := <-pool.send` of the pool's loop.
unfoldable pub deliver : String → String → Pool → PoolOutcome
unfolding deliver_to
deliver recipient message p = deliver_to (get recipient p.clients) message p

unfoldable pub unregister_all : String → Dict String Socket → Pool → Pool
unfolding delete_client
unregister_all id [] p = p
unregister_all id ((k, c) ∷ d) p = unregister_all id d (if c.id == id then delete_client c p else p)

-- `handleWsRequest`, once the connection is upgraded: the connections of the charge point that the
-- pool holds are unregistered, and the new one is registered.
unfoldable pub connect : Socket → Pool → Pool
unfolding unregister_all check_add_client
connect c p =
    let p' = unregister_all c.id p.clients p in
    check_add_client c (record p' { queues = put c (queued []) p'.queues })
