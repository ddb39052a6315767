-- ===== src/System/Start/Stored.antt =====
-- What `OnStartTransaction` writes to the transactions in the database.
use evsys.Common.{
  String, ap, arith, false, if◌then◌else◌, inl, inr, int64, pos, subst, sym, true, ℕ, ℤ, ◌+ℤ◌, ◌∙◌,
  ◌≡◌, ◌≢◌, ◌⊎◌,
}
use evsys.Entity.{ChargePoint, Connector, Transaction, UserTag}
use evsys.System.Laws.{Laws}
use evsys.System.Lookup.{get_user_tag, released}
use evsys.System.Lookup.Documents.{get_user_tag_keeps}
use evsys.System.Lookup.Known.{InMemory, get_user_tag_frame}
use evsys.System.Start.{
  begin, begin_after_stale, held, new_transaction, on_start_transaction, stale, store_transaction,
  vacant,
}
use evsys.System.Start.Fresh.{
  answer_start_stale, answer_start_vacant, begin-Holds, begin_after_stale_lem, begin_next,
  on_start_known, store_of_listen,
}
use evsys.System.State.{
  ChargePointState, Services, StartTransactionRequest, System, found, not_found,
  register_transaction, save, set_connector,
}

-- The fields that identify a new session.
pub record IsNewSession (cp : String) (req : StartTransactionRequest) (id : ℤ) (t : Transaction)
    : Type 0 where
  pub numbered : t.id ≡ id
  pub open_ : t.is_finished ≡ false
  pub at_point : t.charge_point_id ≡ cp
  pub at_connector : t.connector_id ≡ req.connector_id
  pub metered : t.meter_start ≡ req.meter_start

new_transaction-IsNewSession :
    (cp : String) (req : StartTransactionRequest) (tag : UserTag) (now : ℕ) {id : ℤ}
    → IsNewSession cp req id (new_transaction cp req tag now id)
unfolding new_transaction
new_transaction-IsNewSession cp req tag now = ground arith

module _ {sv : Services} (laws : Laws sv) where
  billed : Transaction → Transaction
  billed t = if sv.has_billing then (sv.on_billing_start t).0 else t

  billed-IsNewSession :
      {cp : String} {req : StartTransactionRequest} {id : ℤ} (t : Transaction)
      → IsNewSession cp req id t
      → IsNewSession cp req id (billed t)
  unfolding billed
  billed-IsNewSession t h = ground (arith, laws.billing_start t)

  store_transaction_store :
      (t : Transaction) (tag : UserTag) (c : Connector) (s : System sv)
      → sv.has_database ≡ true
      → (store_transaction t tag c s).store
        ≡ (sv.update_connector
            (sv.add_transaction (sv.update_tag_last_seen s.store tag).0 (billed t)).0
            c).0
  unfolding store_transaction billed
  store_transaction_store t tag c s h = ground arith

  store_transaction_other :
      (t : Transaction) (tag : UserTag) (c : Connector) (s : System sv) (id : ℤ)
      → sv.has_database ≡ true
      → (billed t).id ≢ id
      → sv.get_transaction (store_transaction t tag c s).store id ≡ sv.get_transaction s.store id
  store_transaction_other t tag c s id set ne = rw (
    store_transaction_store t tag c s set,
    laws.after_update_connector,
    laws.added_other (sv.update_tag_last_seen s.store tag).0 (billed t) id ne,
    laws.after_update_tag_last_seen,
  )

  begin_other :
      (cp : String) (req : StartTransactionRequest) (now : ℕ) (c : Connector)
      (st : ChargePointState) (s : System sv) (id : ℤ)
      → sv.has_database ≡ true
      → s.next_transaction_id ≢ id
      → sv.get_transaction (begin cp req now c st s).2.store id ≡ sv.get_transaction s.store id
  unfolding begin
  begin_other cp req now c st s id set ne =
      let (tag, s1) = get_user_tag req.id_tag now s in
      let t = new_transaction cp req tag now s1.next_transaction_id in
      let c' = record c { current_transaction_id = t.id; current_power_limit = pos 0 } in
      let st' = register_transaction t.id (set_connector req.connector_id c' st) in
      let s2 =
        save st' (record s1 { next_transaction_id = int64 (s1.next_transaction_id +ℤ pos 1) }) in
      let numbered =
        (billed-IsNewSession t (new_transaction-IsNewSession cp req tag now)).numbered
        ∙ get_user_tag_frame req.id_tag now s in
      store_transaction_other t tag c' s2 id set (λ e. ne (sym numbered ∙ e))
      ∙ get_user_tag_keeps laws req.id_tag now s id

  -- The document of the session `id` is new in `db'`, and every other transaction is as in `db`.
  abbrev pub Adds : String → StartTransactionRequest → ℤ → sv.Store → sv.Store → Type 0
  Adds cp req id db db' =
      ((t : Transaction) × (sv.get_transaction db' id ≡ found t) × IsNewSession cp req id t)
      × ((j : ℤ) → id ≢ j → sv.get_transaction db' j ≡ sv.get_transaction db j)

  -- Every insert succeeds.
  abbrev pub Inserts : Type 0
  Inserts = (db : sv.Store) (t : Transaction) → (sv.add_transaction db t).1 ≡ true

  store_transaction_new :
      (t : Transaction) (tag : UserTag) (c : Connector) (s : System sv) {id : ℤ}
      → sv.has_database ≡ true
      → Inserts
      → (billed t).id ≡ id
      → sv.get_transaction s.store id ≡ not_found
      → sv.get_transaction (store_transaction t tag c s).store id ≡ found (billed t)
  store_transaction_new t tag c s set ins same free =
      let touched = (sv.update_tag_last_seen s.store tag).0 in
      let free' : sv.get_transaction touched (billed t).id ≡ not_found =
        laws.after_update_tag_last_seen s.store tag (billed t).id
        ∙ ap (sv.get_transaction s.store) same
        ∙ free in
      rw (store_transaction_store t tag c s set, laws.after_update_connector, ← same)
        (laws.added touched (billed t) free' (ins touched (billed t)))

  begin-Adds :
      (cp : String) (req : StartTransactionRequest) (now : ℕ) (c : Connector)
      (st : ChargePointState) (s : System sv)
      → sv.has_database ≡ true
      → Inserts
      → sv.get_transaction s.store s.next_transaction_id ≡ not_found
      → Adds cp req s.next_transaction_id s.store (begin cp req now c st s).2.store
  unfolding begin
  begin-Adds cp req now c st s set ins free =
      let (tag, s1) = get_user_tag req.id_tag now s in
      let t = new_transaction cp req tag now s1.next_transaction_id in
      let c' = record c { current_transaction_id = t.id; current_power_limit = pos 0 } in
      let st' = register_transaction t.id (set_connector req.connector_id c' st) in
      let s2 =
        save st' (record s1 { next_transaction_id = int64 (s1.next_transaction_id +ℤ pos 1) }) in
      let session = billed-IsNewSession t (new_transaction-IsNewSession cp req tag now) in
      let next = get_user_tag_frame req.id_tag now s in
      (
        (
          billed t,
          store_transaction_new t tag c' s2 set ins (session.numbered ∙ next)
              (get_user_tag_keeps laws req.id_tag now s s.next_transaction_id ∙ free),
          subst (λ i. IsNewSession cp req i (billed t)) next session,
        ),
        λ j ne. begin_other cp req now c st s j set ne,
      )

  Adds-after_stale :
      (cp : String) (req : StartTransactionRequest) (now : ℕ) (c : Connector)
      (st : ChargePointState) (s : System sv)
      → sv.has_database ≡ true
      → Inserts
      → sv.get_transaction s.store s.next_transaction_id ≡ not_found
      → Adds cp req s.next_transaction_id s.store (begin_after_stale cp req now c st s).2.store
  Adds-after_stale cp req now c st s set ins free =
      let (st', s', same, _, next, stored) = begin_after_stale_lem cp req now c st s in
      let keeps : (j : ℤ) → sv.get_transaction s'.store j ≡ sv.get_transaction s.store j =
        λ j. rw stored (laws.after_update_connector s.store (released c) j) in
      let n = s.next_transaction_id in
      let free' : sv.get_transaction s'.store s'.next_transaction_id ≡ not_found =
        rw next (keeps n ∙ free) in
      let (new, old) = begin-Adds cp req now (released c) st' s' set ins free' in
      rw same (
        subst
            (λ i.
              (t : Transaction) × (sv.get_transaction (begin cp req now (released c) st' s').2.store
                  i
                ≡ found t)
              × IsNewSession cp req i t)
            next new,
        λ j ne. old j (λ e. ne (sym next ∙ e)) ∙ keeps j,
      )

  -- With a database set, inserts that succeed and the next id not in use, a session that begins on a
  -- connector in memory is stored as an open transaction under the next
  -- free id, with the charge point, connector and meter reading of the request; no other transaction
  -- in the database changes.
  pub start_stores_session :
      (cp : String) (req : StartTransactionRequest) (now : ℕ) (s : System sv)
      {st : ChargePointState} {c : Connector}
      → InMemory cp req.connector_id st c s
      → sv.has_database ≡ true
      → (held c s ≡ vacant) ⊎ (held c s ≡ stale)
      → Inserts
      → sv.get_transaction s.store s.next_transaction_id ≡ not_found
      → Adds cp req s.next_transaction_id s.store (on_start_transaction cp req now s).1.store
  start_stores_session cp req now s {st = st} {c = c} m set (inl e) ins free =
      let (_, _, own, _) = begin_next cp req now c st s in
      let h = begin-Holds cp req now c st s m.named in
      rw
        (
          on_start_known cp req now s m,
          e,
          answer_start_vacant,
          store_of_listen (begin cp req now c st s).1 st.model.is_online h (own ∙ m.owned),
        )
        (begin-Adds cp req now c st s set ins free)
  start_stores_session cp req now s {st = st} {c = c} m set (inr e) ins free =
      let (st', s', same, model, _, _) = begin_after_stale_lem cp req now c st s in
      let (_, _, own, _) = begin_next cp req now (released c) st' s' in
      let named = ap (λ (p : ChargePoint). p.id) model ∙ m.named in
      let h = begin-Holds cp req now (released c) st' s' named in
      let freed : (released c).charge_point_id ≡ cp = unfold released in m.owned in
      let mine = own ∙ freed in
      rw
        (
          on_start_known cp req now s m,
          e,
          answer_start_stale,
          same,
          store_of_listen (begin cp req now (released c) st' s').1 st.model.is_online h mine,
          ← same,
        )
        (Adds-after_stale cp req now c st s set ins free)
