-- ===== src/V201/Events/Opened.antt =====
-- A session of OCPP 2.0.1 begins: `OnTransactionEvent` of server/v201_handlers.go with the type
-- Started, and the ids that it gives out.
use evsys.Common.{
  String, ap, arith, get, get-put_self, if_ind, inl, int64, int_has_eq, nat_has_eq, pos, refl, some,
  string_has_eq, subst, sym, true, ℕ, ℤ, ◌+ℤ◌, ◌==◌, ◌∙◌, ◌≡◌,
}
use evsys.Entity.{ChargePoint, Connector, Transaction}
use evsys.System.Laws.{Laws}
use evsys.System.Lookup.{get_user_tag}
use evsys.System.Lookup.Known.{InMemory, get-save, get-set_connector, get_user_tag_frame}
use evsys.System.Start.{held, on_start_transaction, vacant}
use evsys.System.Start.Fresh.{start_on_free_connector}
use evsys.System.State.{
  ChargePointState, Services, StartTransactionRequest, System, register_transaction, save,
  set_connector,
}
use evsys.V201.Events.{
  TransactionEventRequest, event_started, event_transaction, handle_event, on_transaction_event,
  priced_start, protocol_version_of, store_new, with_user_tag,
}
use evsys.V201.Events.Located.{Locates, on_event_located, store_if_next, store_if_points}
use evsys.V201.Types.{transaction_event_started}

-- The session `id` is running on the connector `key`.
pub record Opened {sv : Services} (cp : String) (key id : ℤ) (s : System sv) : Type 0 where
  pub state : ChargePointState
  pub connector : Connector
  pub present : get cp s.charge_points ≡ some state
  pub connected : get key state.connectors ≡ some connector
  pub pointing : connector.current_transaction_id ≡ id
  pub registered : get id state.transactions ≡ some id

module _ {sv : Services} where
  -- The id of the next session of OCPP 2.0.1: one more than the counter.
  abbrev pub event_next : System sv → ℤ
  event_next s = int64 (s.next_transaction_id +ℤ pos 1)

  pub tagged_next :
      (now : ℕ) (t : Transaction) (s : System sv)
      → (with_user_tag now t s).1.next_transaction_id ≡ s.next_transaction_id
  unfolding with_user_tag
  tagged_next now t s =
      if_ind (λ (r : Transaction × System sv). r.1.next_transaction_id ≡ s.next_transaction_id)
        (t.id_tag == "") (t, s)
        (let (tag, s') = get_user_tag t.id_tag now s in
          (record t { user_tag = some tag; username = tag.username }, s'))
        refl (get_user_tag_frame t.id_tag now s)

  pub handle_started :
      (now : ℕ) (req : TransactionEventRequest) (event : Transaction) (key : ℤ) (c : Connector)
      (st : ChargePointState) (s : System sv)
      → req.event_type ≡ transaction_event_started
      → handle_event now req event key c st s ≡ event_started now event key c st s
  unfolding handle_event
  handle_started now req event key c st s e = rw e refl

  pub priced_id : (laws : Laws sv) (t : Transaction) → (priced_start sv t).id ≡ t.id
  unfolding priced_start
  priced_id laws t = ground (arith, laws.billing_start t)

  store_new_next :
      (t : Transaction) (s : System sv)
      → (store_new t s).next_transaction_id ≡ s.next_transaction_id
  unfolding store_new
  store_new_next t s = ground arith

  started-Opened :
      (laws : Laws sv) (now : ℕ) (event : Transaction) (key : ℤ) (c : Connector)
      (st : ChargePointState) (s : System sv) {cp : String}
      → st.model.id ≡ cp
      → let s' = event_started now event key c st s in
        Opened cp key (event_next s) s' × (s'.next_transaction_id ≡ event_next s)
  unfolding event_started
  started-Opened laws now event key c st s {cp = cp} named =
      let first = record event { protocol_version = protocol_version_of st.model } in
      let (t, s1) = with_user_tag now first s in
      let id = int64 (s1.next_transaction_id +ℤ pos 1) in
      let t' = priced_start sv (record t { id = id }) in
      let s2 = store_new t' (record s1 { next_transaction_id = id }) in
      let c' = record c { current_transaction_id = t'.id } in
      let st' = register_transaction t'.id (set_connector key c' st) in
      let same_id : id ≡ event_next s = ap (λ n. int64 (n +ℤ pos 1)) (tagged_next now first s) in
      let s' = event_started now event key c st s in
      (
        subst (λ i. Opened cp key i s') (priced_id laws (record t { id = id }) ∙ same_id)
            (record {
              state = st';
              connector = c';
              present =
                  ap (λ d. get cp d) (store_if_points c' (save st' s2)) ∙ get-save st' s2 named;
              connected = get-set_connector key c' st;
              pointing = refl;
              registered = get-put_self t'.id t'.id st.transactions;
            }),
        store_if_next c' (save st' s2)
            ∙ store_new_next t' (record s1 { next_transaction_id = id })
            ∙ same_id,
      )

  -- A Started event, on a connector that the handler finds in memory, is answered and opens a session
  -- whatever the connector holds: the connector and the charge point hold the id after the one that
  -- the counter shows, and the counter shows that id.
  pub started_event_opens :
      (laws : Laws sv) (cp : String) (req : TransactionEventRequest) (now : ℕ) (s : System sv)
      {key : ℤ} {st : ChargePointState} {c : Connector}
      → Locates cp key req st c s
      → req.event_type ≡ transaction_event_started
      → (s' : System sv) × (on_transaction_event cp req now s ≡ (true, s'))
        × Opened cp key (event_next s) s'
        × (s'.next_transaction_id ≡ event_next s)
  started_event_opens laws cp req now s {key = key} l started =
      let (c1, st1, s1, noted, eq) = on_event_located laws cp req now s l in
      let event = event_transaction cp req in
      let named : st1.model.id ≡ cp =
        ap (λ (p : ChargePoint). p.id) noted.same_model ∙ l.memory.named in
      let (opened, next) = started-Opened laws now event key c1 st1 s1 named in
      let same : event_next s1 ≡ event_next s = ap (λ n. int64 (n +ℤ pos 1)) noted.same_next in
      let s' = event_started now event key c1 st1 s1 in
      (
        s',
        eq ∙ ap (λ u. (true, u)) (handle_started now req event key c1 st1 s1 started),
        subst (λ i. Opened cp key i s') same opened,
        next ∙ same,
      )

  -- After a session of OCPP 2.0.1 began with an id, the next session of OCPP 1.6, on a connector in
  -- memory that is free, is given the same id.
  pub mixed_versions_share_id :
      (laws : Laws sv) (cp : String) (req : TransactionEventRequest) (now : ℕ) (s : System sv)
      {key : ℤ} {st : ChargePointState} {c : Connector} (cp2 : String)
      (req2 : StartTransactionRequest) (now2 : ℕ) {st2 : ChargePointState} {c2 : Connector}
      → Locates cp key req st c s
      → req.event_type ≡ transaction_event_started
      → InMemory cp2 req2.connector_id st2 c2 (on_transaction_event cp req now s).1
      → held c2 (on_transaction_event cp req now s).1 ≡ vacant
      → let s' = (on_transaction_event cp req now s).1 in
        Opened cp key (event_next s) s'
        × ((on_start_transaction cp2 req2 now2 s').0.transaction_id ≡ event_next s)
  mixed_versions_share_id laws cp req now s {key = key} cp2 req2 now2 l started m free =
      let (s', eq, opened, next) = started_event_opens laws cp req now s l started in
      let same : s' ≡ (on_transaction_event cp req now s).1 = ap (λ r. r.1) (sym eq) in
      let (_, id, _, _) =
        start_on_free_connector cp2 req2 now2 (on_transaction_event cp req now s).1 m (inl free) in
      (
        subst (λ u. Opened cp key (event_next s) u) same opened,
        id ∙ ap (λ (u : System sv). u.next_transaction_id) (sym same) ∙ next,
      )
