-- ===== src/Server/Pool/Filing.antt =====
-- Each connection of the pool is filed under the id of its charge point.
use evsys.Common.{
  All, Dict, Option, String, [], ap, arith, get, get-All, get-put_ne, if_ind, if◌then◌else◌,
  int_has_eq, length, ltb, member, nat_has_eq, none, put, refl, remove, some, string_has_eq, subst,
  sym, ◌++◌, ◌==◌, ◌∙◌, ◌∷◌, ◌≡◌, ◌≢◌,
}
use evsys.Server.Pool.{
  socket_has_eq, Pool, PoolOutcome, SendQueue, Socket, any_id, check_add_client, closed_queue,
  connect, crashed, delete_client, deliver, deliver_to, pushed, queued, recipient_available,
  running, send_capacity, unregister_all,
}

abbrev pub AllOwn : Dict String Socket → Type 0
AllOwn d = All (λ (e : String × Socket). e.1.id ≡ e.0) d

-- The steps of the pool.
pub data Step : Pool → Pool → Type 0 where
  connected : {p : Pool} (c : Socket) → Step p (connect c p)
  message_read : {p : Pool} (c : Socket) → Step p (check_add_client c p)
  socket_closed : {p : Pool} (c : Socket) → Step p (delete_client c p)
  delivered :
      {p p' : Pool} (recipient message : String)
      → deliver recipient message p ≡ running p'
      → Step p p'

pub data Steps : Pool → Pool → Type 0 where
  stays : {p : Pool} → Steps p p
  moves : {a b c : Pool} → Step a b → Steps b c → Steps a c

put-AllOwn : (c : Socket) (d : Dict String Socket) → AllOwn d → AllOwn (put c.id c d)
unfolding put
put-AllOwn c [] h = (refl, tt)
put-AllOwn c ((k, v) ∷ d) (own, h) =
    if_ind AllOwn (k == c.id) ((c.id, c) ∷ d) ((k, v) ∷ put c.id c d) (refl, h)
      (own, put-AllOwn c d h)

pub remove-AllOwn : (id : String) (d : Dict String Socket) → AllOwn d → AllOwn (remove id d)
unfolding remove
remove-AllOwn id [] h = tt
remove-AllOwn id ((k, v) ∷ d) (own, h) =
    if_ind AllOwn (k == id) (remove id d) ((k, v) ∷ remove id d) (remove-AllOwn id d h)
      (own, remove-AllOwn id d h)

add-AllOwn : (c : Socket) (p : Pool) → AllOwn p.clients → AllOwn (check_add_client c p).clients
unfolding check_add_client
add-AllOwn c p h =
    if_ind (λ (q : Pool). AllOwn q.clients) (recipient_available c.id p) p
      (record p { clients = put c.id c p.clients }) h (put-AllOwn c p.clients h)

delete-AllOwn : (c : Socket) (p : Pool) → AllOwn p.clients → AllOwn (delete_client c p).clients
unfolding delete_client
delete-AllOwn c p h = remove-AllOwn c.id p.clients h

unregister_all-AllOwn :
    (id : String) (d : Dict String Socket) (p : Pool)
    → AllOwn p.clients
    → AllOwn (unregister_all id d p).clients
unfolding unregister_all
unregister_all-AllOwn id [] p h = h
unregister_all-AllOwn id ((k, c) ∷ d) p h =
    unregister_all-AllOwn id d (if c.id == id then delete_client c p else p) (
      if_ind (λ (q : Pool). AllOwn q.clients) (c.id == id) (delete_client c p) p
        (delete-AllOwn c p h) h)

connect-AllOwn : (c : Socket) (p : Pool) → AllOwn p.clients → AllOwn (connect c p).clients
unfolding connect
connect-AllOwn c p h =
    let p' = unregister_all c.id p.clients p in
    add-AllOwn c (record p' { queues = put c (queued []) p'.queues })
      (unregister_all-AllOwn c.id p.clients p h)

-- A running outcome satisfies the predicate.
abbrev Running : (Pool → Type 0) → PoolOutcome → Type 0
Running P (running p) = P p
Running P crashed = Unit

pushed-AllOwn :
    (o : Option SendQueue) (c : Socket) (message : String) (p : Pool)
    → AllOwn p.clients
    → Running (λ q. AllOwn q.clients) (pushed o c message p)
unfolding pushed
pushed-AllOwn none c message p h = h
pushed-AllOwn (some closed_queue) c message p h = tt
pushed-AllOwn (some (queued xs)) c message p h =
    if_ind (Running (λ q. AllOwn q.clients)) (ltb (length xs) send_capacity)
      (running (record p { queues = put c (queued (xs ++ message ∷ [])) p.queues }))
      (running record { clients = remove c.id p.clients; queues = put c closed_queue p.queues }) h
      (remove-AllOwn c.id p.clients h)

deliver_to-AllOwn :
    (o : Option Socket) (message : String) (p : Pool)
    → AllOwn p.clients
    → Running (λ q. AllOwn q.clients) (deliver_to o message p)
unfolding deliver_to
deliver_to-AllOwn none message p h = h
deliver_to-AllOwn (some c) message p h = pushed-AllOwn (get c p.queues) c message p h

Step-AllOwn : {a b : Pool} → Step a b → AllOwn a.clients → AllOwn b.clients
unfolding deliver
Step-AllOwn {a = a} (connected c) h = connect-AllOwn c a h
Step-AllOwn {a = a} (message_read c) h = add-AllOwn c a h
Step-AllOwn {a = a} (socket_closed c) h = delete-AllOwn c a h
Step-AllOwn {a = a} (delivered recipient message e) h =
    subst (Running (λ q. AllOwn q.clients)) e
      (deliver_to-AllOwn (get recipient a.clients) message a h)

Steps-AllOwn : {a b : Pool} → Steps a b → AllOwn a.clients → AllOwn b.clients
Steps-AllOwn stays h = h
Steps-AllOwn (moves first steps) h = Steps-AllOwn steps (Step-AllOwn first h)

-- A delivery through `c` changes only the queue of `c`.
pushed_elsewhere :
    (o : Option SendQueue) (c d : Socket) (message : String) (p : Pool)
    → c ≢ d
    → Running (λ q. get d q.queues ≡ get d p.queues) (pushed o c message p)
unfolding pushed
pushed_elsewhere none c d message p ne = refl
pushed_elsewhere (some closed_queue) c d message p ne = tt
pushed_elsewhere (some (queued xs)) c d message p ne =
    if_ind (Running (λ q. get d q.queues ≡ get d p.queues)) (ltb (length xs) send_capacity)
      (running (record p { queues = put c (queued (xs ++ message ∷ [])) p.queues }))
      (running record { clients = remove c.id p.clients; queues = put c closed_queue p.queues })
      (get-put_ne c d (queued (xs ++ message ∷ [])) p.queues ne)
      (get-put_ne c d closed_queue p.queues ne)

delivered_elsewhere :
    (o : Option Socket) (recipient message : String) (d : Socket) (p : Pool)
    → ((c : Socket) → o ≡ some c → c.id ≡ recipient)
    → recipient ≢ d.id
    → Running (λ q. get d q.queues ≡ get d p.queues) (deliver_to o message p)
unfolding deliver_to
delivered_elsewhere none recipient message d p own ne = refl
delivered_elsewhere (some c) recipient message d p own ne =
    pushed_elsewhere (get c p.queues) c d message p
      (λ e. ne (sym (own c refl) ∙ ap (λ (x : Socket). x.id) e))

-- Whatever connected, sent, closed and was delivered before, a message for a charge point is put on
-- no connection of another one: their queues are as they were, whether or not the message found its
-- recipient. The connections stay filed under the ids of their own charge points.
pub delivery_reaches_no_other :
    {a b b' : Pool} (recipient message : String) (d : Socket)
    → Steps a b
    → AllOwn a.clients
    → deliver recipient message b ≡ running b'
    → recipient ≢ d.id
    → (get d b'.queues ≡ get d b.queues) × AllOwn b'.clients
unfolding deliver
delivery_reaches_no_other {b = b} recipient message d steps own result ne =
    let filed = Steps-AllOwn steps own in
    let at : (c : Socket) → get recipient b.clients ≡ some c → c.id ≡ recipient =
      λ c there. get-All (λ k (v : Socket). v.id ≡ k) b.clients filed there in
    (
      subst (Running (λ q. get d q.queues ≡ get d b.queues)) result
          (delivered_elsewhere (get recipient b.clients) recipient message d b at ne),
      Step-AllOwn (delivered recipient message result) filed,
    )

-- The search for a recipient by id finds exactly what is filed under it.
pub any_id-member : (id : String) (d : Dict String Socket) → AllOwn d → any_id id d ≡ member id d
unfolding any_id get
any_id-member id [] h = refl
any_id-member id ((k, c) ∷ d) (own, h) = ground (arith, any_id-member id d h, ap (λ j. j == id) own)
