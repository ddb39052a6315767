-- ===== src/Server/Pool/Faults.antt =====
-- What a connection that is closed late, or that does not read, does to the pool.
use evsys.Common.{
  Bool, List, Option, String, [], ap, arith, false, get, get-put_self, get-remove_self, if_false,
  int_has_eq, length, ltb, nat_has_eq, none, put, remove, some, string_has_eq, true, ◌++◌, ◌∙◌, ◌∷◌,
  ◌≡◌, ◌≤◌,
}
use evsys.Server.Pool.{
  socket_has_eq, Pool, Socket, check_add_client, closed_queue, crashed, delete_client, deliver,
  deliver_to, pushed, queued, recipient_available, running, send_capacity,
}
use evsys.Server.Pool.Filing.{AllOwn, any_id-member, remove-AllOwn}

abbrev present : Option Socket → Bool
present none = false
present (some c) = true

-- The end of an old connection takes the newer connection of the same charge point out of the pool,
-- so the charge point is not available although it is connected.
pub late_close_unregisters_successor :
    (p : Pool) (old new : Socket)
    → AllOwn p.clients
    → old.id ≡ new.id
    → get new.id p.clients ≡ some new
    → (recipient_available new.id p ≡ true)
      × (recipient_available new.id (delete_client old p) ≡ false)
unfolding recipient_available delete_client
late_close_unregisters_successor p old new own same there = (
  any_id-member new.id p.clients own ∙ ap present there,
  any_id-member new.id (remove old.id p.clients) (remove-AllOwn old.id p.clients own)
      ∙ ap present
          (ap (λ k. get new.id (remove k p.clients)) same ∙ get-remove_self new.id p.clients),
)

-- A charge point that does not read its messages while it still sends crashes the central system:
-- the message that finds its queue full closes the queue, the next message that it sends files the
-- connection again, and the next answer to it is a send on a closed channel.
pub full_queue_crashes :
    (p : Pool) (c : Socket) (xs : List String) (first second : String)
    → AllOwn p.clients
    → get c.id p.clients ≡ some c
    → get c p.queues ≡ some (queued xs)
    → send_capacity ≤ length xs
    → (p' : Pool) × (deliver c.id first p ≡ running p')
      × (deliver c.id second (check_add_client c p') ≡ crashed)
unfolding deliver check_add_client recipient_available deliver_to pushed
full_queue_crashes p c xs first second own there queue full =
    let p1 : Pool = record {
      clients = remove c.id p.clients;
      queues = put c closed_queue p.queues;
    } in
    let p2 = record p1 { clients = put c.id c p1.clients } in
    let no_room : ltb (length xs) send_capacity ≡ false = ground arith in
    let filed_again : check_add_client c p1 ≡ p2 = if_false p1 p2 (
      any_id-member c.id p1.clients (remove-AllOwn c.id p.clients own)
      ∙ ap present (get-remove_self c.id p.clients)) in
    (
      p1,
      ap (λ o. deliver_to o first p) there
          ∙ ap (λ o. pushed o c first p) queue
          ∙ if_false (running (record p { queues = put c (queued (xs ++ first ∷ [])) p.queues }))
              (running p1) no_room,
      ap (deliver c.id second) filed_again
          ∙ ap (λ o. deliver_to o second p2) (get-put_self c.id c p1.clients)
          ∙ ap (λ o. pushed o c second p2) (get-put_self c closed_queue p.queues),
    )
