-- ===== src/V201/Events/Stored.antt =====
-- What a Started event writes to the transactions in the database: `OnTransactionEvent` of
-- server/v201_handlers.go.
use evsys.Common.{
  String, ap, arith, if_ind, int64, int_has_eq, nat_has_eq, pos, refl, some, string_has_eq, subst,
  sym, true, ℕ, ℤ, ◌+ℤ◌, ◌==◌, ◌∙◌, ◌≡◌, ◌≢◌,
}
use evsys.Entity.{Connector, Transaction}
use evsys.System.Laws.{Laws}
use evsys.System.Lookup.{get_user_tag}
use evsys.System.Lookup.Documents.{SameDocuments, get_user_tag_keeps}
use evsys.System.Start.Stored.{Inserts}
use evsys.System.State.{
  ChargePointState, Services, System, found, not_found, register_transaction, save, set_connector,
}
use evsys.V201.Events.{
  TransactionEventRequest, event_started, event_transaction, on_transaction_event, priced_start,
  protocol_version_of, store_new, with_user_tag,
}
use evsys.V201.Events.Located.{Locates, on_event_located, store_if_documents}
use evsys.V201.Events.Opened.{event_next, handle_started, priced_id, tagged_next}
use evsys.V201.Types.{transaction_event_started}

-- The fields of the document of the session.
pub record IsEventSession (req : TransactionEventRequest) (cp : String) (id : ℤ) (t : Transaction)
    : Type 0 where
  pub numbered : t.id ≡ id
  pub at_point : t.charge_point_id ≡ cp
  pub named : t.session_id ≡ req.transaction_info.transaction_id
  pub began : t.time_start ≡ req.timestamp

-- What an event's transaction keeps on its way to the database.
abbrev IsOfEvent : String → TransactionEventRequest → Transaction → Type 0
IsOfEvent cp req t =
    (t.charge_point_id ≡ cp)
    × (t.session_id ≡ req.transaction_info.transaction_id)
    × (t.time_start ≡ req.timestamp)

event_named :
    (cp : String) (req : TransactionEventRequest) → IsOfEvent cp req (event_transaction cp req)
unfolding event_transaction
event_named cp req = (refl, refl, refl)

module _ {sv : Services} (laws : Laws sv) where
  tagged_keeps :
      (now : ℕ) (t : Transaction) (s : System sv) → SameDocuments s (with_user_tag now t s).1
  unfolding with_user_tag
  tagged_keeps now t s j =
      if_ind
        (λ (r : Transaction × System sv).
          sv.get_transaction r.1.store j ≡ sv.get_transaction s.store j)
        (t.id_tag == "") (t, s)
        (let (tag, s') = get_user_tag t.id_tag now s in
          (record t { user_tag = some tag; username = tag.username }, s'))
        refl (get_user_tag_keeps laws t.id_tag now s j)

  tagged-IsOfEvent :
      (cp : String) (req : TransactionEventRequest) (now : ℕ) (t : Transaction) (s : System sv)
      → IsOfEvent cp req t
      → IsOfEvent cp req (with_user_tag now t s).0
  unfolding with_user_tag
  tagged-IsOfEvent cp req now t s h =
      if_ind (λ (r : Transaction × System sv). IsOfEvent cp req r.0) (t.id_tag == "") (t, s)
        (let (tag, s') = get_user_tag t.id_tag now s in
          (record t { user_tag = some tag; username = tag.username }, s'))
        h h

  priced-IsOfEvent :
      (cp : String) (req : TransactionEventRequest) (t : Transaction)
      → IsOfEvent cp req t
      → IsOfEvent cp req (priced_start sv t)
  unfolding priced_start
  priced-IsOfEvent cp req t h = ground (arith, laws.billing_start t)

  store_new_store :
      (t : Transaction) (s : System sv)
      → sv.has_database ≡ true
      → (store_new t s).store ≡ (sv.add_transaction s.store t).0
  unfolding store_new
  store_new_store t s set = ground arith

  -- What the event's session is in the database, and that the others are as they were.
  abbrev pub AddsEvent : String → TransactionEventRequest → ℤ → sv.Store → sv.Store → Type 0
  AddsEvent cp req id db db' =
      ((t : Transaction) × (sv.get_transaction db' id ≡ found t) × IsEventSession req cp id t)
      × ((j : ℤ) → id ≢ j → sv.get_transaction db' j ≡ sv.get_transaction db j)

  started-Adds :
      (cp : String) (req : TransactionEventRequest) (now : ℕ) (event : Transaction) (key : ℤ)
      (c : Connector) (st : ChargePointState) (s : System sv)
      → IsOfEvent cp req event
      → sv.has_database ≡ true
      → Inserts laws
      → sv.get_transaction s.store (event_next s) ≡ not_found
      → AddsEvent cp req (event_next s) s.store (event_started now event key c st s).store
  unfolding event_started
  started-Adds cp req now event key c st s of_event set ins free =
      let first = record event { protocol_version = protocol_version_of st.model } in
      let (t, s1) = with_user_tag now first s in
      let id = int64 (s1.next_transaction_id +ℤ pos 1) in
      let numbered = record t { id = id } in
      let t' = priced_start sv numbered in
      let s1' = record s1 { next_transaction_id = id } in
      let c' = record c { current_transaction_id = t'.id } in
      let st' = register_transaction t'.id (set_connector key c' st) in
      let same : t'.id ≡ event_next s =
        priced_id laws numbered ∙ ap (λ n. int64 (n +ℤ pos 1)) (tagged_next now first s) in
      let keeps = tagged_keeps now first s in
      let free' : sv.get_transaction s1.store t'.id ≡ not_found =
        keeps t'.id ∙ ap (sv.get_transaction s.store) same ∙ free in
      let (point, name, time) =
        priced-IsOfEvent cp req numbered (tagged-IsOfEvent cp req now first s of_event) in
      let stored : (j : ℤ)
          → sv.get_transaction (event_started now event key c st s).store j
            ≡ sv.get_transaction (sv.add_transaction s1.store t').0 j =
        λ j.
          store_if_documents laws c' (save st' (store_new t' s1')) j
          ∙ ap (λ db. sv.get_transaction db j) (store_new_store t' s1' set) in
      (
        (
          t',
          stored (event_next s)
              ∙ ap (sv.get_transaction (sv.add_transaction s1.store t').0) (sym same)
              ∙ laws.added s1.store t' free' (ins s1.store t'),
          record { numbered = same; at_point = point; named = name; began = time },
        ),
        λ j ne. stored j ∙ laws.added_other s1.store t' j (λ e. ne (sym same ∙ e)) ∙ keeps j,
      )

  -- With a database set, inserts that succeed and the id after the counter not in use, a Started event
  -- on a connector in memory stores its session under that id, with the charge point, the id that the
  -- charge point gave it and its time; no other transaction in the database changes.
  pub started_event_stores :
      (cp : String) (req : TransactionEventRequest) (now : ℕ) (s : System sv) {key : ℤ}
      {st : ChargePointState} {c : Connector}
      → Locates cp key req st c s
      → req.event_type ≡ transaction_event_started
      → sv.has_database ≡ true
      → Inserts laws
      → sv.get_transaction s.store (event_next s) ≡ not_found
      → AddsEvent cp req (event_next s) s.store (on_transaction_event cp req now s).1.store
  started_event_stores cp req now s {key = key} l started set ins free =
      let (c1, st1, s1, noted, eq) = on_event_located laws cp req now s l in
      let event = event_transaction cp req in
      let next : event_next s1 ≡ event_next s = ap (λ n. int64 (n +ℤ pos 1)) noted.same_next in
      let free1 : sv.get_transaction s1.store (event_next s1) ≡ not_found =
        noted.same_documents (event_next s1) ∙ ap (sv.get_transaction s.store) next ∙ free in
      let (new, old) =
        started-Adds cp req now event key c1 st1 s1 (event_named cp req) set ins free1 in
      rw (eq, handle_started now req event key c1 st1 s1 started)
        (
          subst
              (λ i.
                (t : Transaction) × (sv.get_transaction
                    (event_started now event key c1 st1 s1).store i
                  ≡ found t)
                × IsEventSession req cp i t)
              next new,
          λ j ne. old j (λ e. ne (sym next ∙ e)) ∙ noted.same_documents j,
        )
