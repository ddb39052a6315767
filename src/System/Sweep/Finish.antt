-- ===== src/System/Sweep/Finish.antt =====
-- `finishAbandonedTransaction` on a charge point and a connector that are in memory.
use evsys.Common.{
  Bool, Option, String, ap, false, get, get-remove_self, if_true, if◌then◌else◌, int_has_eq,
  nat_has_eq, none, refl, some, string_has_eq, subst, sym, true, ℤ, ◌∙◌, ◌≡◌, ◌≢◌,
}
use evsys.Entity.{ChargePoint, Connector, Transaction, TransactionMeter}
use evsys.System.Laws.{Laws}
use evsys.System.Lookup.Known.{InMemory, get-save}
use evsys.System.State.{
  ChargePointState, Notice, Services, System, billing_alert, found, notify, panicked, returned,
  save, trigger_unregister, unregister_transaction,
}
use evsys.System.Stop.Outcomes.{Updates, unregister_model, unregistered}
use evsys.System.Sweep.{
  bill_and_settle, closed_by_system, finish_abandoned_transaction, release_connector, settle,
}
use evsys.System.Sweep.Release.{
  IsReleased, IsSwept, billed_IsSwept, closed_by_system-IsSwept, release_connector-IsReleased,
  release_connector_store, settle_known, settled, settled-IsReleased, settled_store,
  swept_connector, updated_state,
}

unregistered_connected :
    (t : Transaction) (st : ChargePointState) {c : Connector}
    → get t.connector_id st.connectors ≡ some c
    → get t.connector_id (unregister_transaction t.id st).connectors ≡ some c
unfolding unregister_transaction
unregistered_connected t st h = h

module _ {sv : Services} where
  -- What one abandoned transaction, `old`, becomes: `IsSwept` in the database, where no other
  -- document changes, and `IsReleased` in memory.
  pub record IsClosed (old : Transaction) (c : Connector) (last : Option TransactionMeter)
      (db : sv.Store) (s : System sv) : Type 0 where
    pub document : Transaction
    pub stored : sv.get_transaction s.store old.id ≡ found document
    pub swept : IsSwept last old document
    pub others : (j : ℤ) → old.id ≢ j → sv.get_transaction s.store j ≡ sv.get_transaction db j
    pub released_in_memory :
        IsReleased old.charge_point_id old.connector_id old.id (swept_connector old.id c) s

  settle_store :
      (laws : Laws sv) (t : Transaction) (st : ChargePointState) (c : Connector) (s : System sv)
      (j : ℤ)
      → sv.get_transaction
          (settled t
            (release_connector t.id t.connector_id c st (save st (updated_state t s)))).store
          j
        ≡ sv.get_transaction (sv.update_transaction s.store t).0 j
  unfolding updated_state save
  settle_store laws t st c s j =
      let s1 = save st (updated_state t s) in
      settled_store laws t (release_connector t.id t.connector_id c st s1) j
      ∙ release_connector_store laws t.id t.connector_id c st s1 j

  -- The places that `IsReleased` names, from the closed transaction's to the old one's.
  moved :
      (c : Connector) (s : System sv) (old t : Transaction)
      → t.id ≡ old.id
      → t.connector_id ≡ old.connector_id
      → IsReleased old.charge_point_id t.connector_id t.id (swept_connector t.id c) s
      → IsReleased old.charge_point_id old.connector_id old.id (swept_connector old.id c) s
  moved c s old t same_id same_connector h =
      subst (λ k. IsReleased old.charge_point_id k old.id (swept_connector old.id c) s)
        same_connector
        (subst (λ i. IsReleased old.charge_point_id t.connector_id i (swept_connector i c) s)
          same_id h)

  unwatched_by :
      (t : Transaction) (s : System sv) (st : ChargePointState)
      → get t.id s.trigger ≡ none
      → get t.id (save st (updated_state t s)).trigger ≡ none
  unfolding save updated_state
  unwatched_by t s st h = h

  settle_closes :
      (laws : Laws sv) (old t : Transaction) (s : System sv) {st : ChargePointState} {c : Connector}
      {stale : Transaction} {last : Option TransactionMeter}
      → InMemory old.charge_point_id old.connector_id st c s
      → Updates sv
      → sv.get_transaction s.store old.id ≡ found stale
      → get old.id s.trigger ≡ none
      → IsSwept last old t
      → IsClosed old c last s.store (settle t s)
  settle_closes laws old t s {st = st} {c = c} m ups read unwatched swept =
      let id_back = sym swept.same_id in
      let st' = unregister_transaction t.id st in
      let s1 = save st' (updated_state t s) in
      let s2 = release_connector t.id t.connector_id c st' s1 in
      let s' = settled t s2 in
      let m' : InMemory old.charge_point_id t.connector_id st c s =
        subst (λ k. InMemory old.charge_point_id k st c s) (sym swept.same_connector) m in
      let named = ap (λ (p : ChargePoint). p.id) (unregister_model t.id st) ∙ m.named in
      let there : sv.get_transaction s.store t.id ≡ found _ =
        ap (sv.get_transaction s.store) swept.same_id ∙ read in
      let released_at : IsReleased old.charge_point_id t.connector_id t.id (swept_connector t.id c)
          s' =
        settled-IsReleased t s2 (
          release_connector-IsReleased t.id t.connector_id c st' s1 named
            (unregistered_connected t st m'.connected) (unregistered t.id st)
            (unwatched_by t s st' (ap (λ i. get i s.trigger) swept.same_id ∙ unwatched))
            (get-save st' (updated_state t s) named)) in
      subst (IsClosed old c _ s.store) (sym (settle_known t s m' swept.same_charge_point)) record {
        document = t;
        stored =
            settle_store laws t st' c s old.id
            ∙ ap (sv.get_transaction (sv.update_transaction s.store t).0) id_back
            ∙ laws.updated s.store t there (ups s.store t);
        swept = swept;
        others = λ j ne.
            settle_store laws t st' c s j ∙ laws.updated_other s.store t j (λ e. ne (id_back ∙ e));
        released_in_memory = moved c s' old t swept.same_id swept.same_connector released_at;
      }

  told_InMemory :
      {cp : String} {key : ℤ} {st : ChargePointState} {c : Connector} (n : Notice) (s : System sv)
      → InMemory cp key st c s
      → InMemory cp key st c (notify n s)
  unfolding notify
  told_InMemory n s m = record {
    present = m.present;
    named = m.named;
    connected = m.connected;
    owned = m.owned;
  }

  unwatched_InMemory :
      {cp : String} {key : ℤ} {st : ChargePointState} {c : Connector} (id : ℤ) (s : System sv)
      → InMemory cp key st c s
      → InMemory cp key st c (trigger_unregister id s)
  unfolding trigger_unregister
  unwatched_InMemory id s m = record {
    present = m.present;
    named = m.named;
    connected = m.connected;
    owned = m.owned;
  }

  billed_closes :
      (laws : Laws sv) (v : TransactionMeter) (old t : Transaction) (s : System sv) (b : Bool)
      {st : ChargePointState} {c : Connector} {stale : Transaction}
      → InMemory old.charge_point_id old.connector_id st c s
      → Updates sv
      → sv.get_transaction s.store old.id ≡ found stale
      → get old.id s.trigger ≡ none
      → IsSwept (some v) old t
      → IsClosed old c
          (some v)
          s.store
          (settle (sv.on_billing_finished t).0 (if b then s else notify (billing_alert t.id) s))
  unfolding notify
  billed_closes laws v old t s true m ups read unwatched swept =
      settle_closes laws old (sv.on_billing_finished t).0 s m ups read unwatched
        (billed_IsSwept laws (some v) old t swept)
  billed_closes laws v old t s false m ups read unwatched swept =
      let n = billing_alert t.id in
      settle_closes laws old (sv.on_billing_finished t).0 (notify n s) (told_InMemory n s m) ups
        read unwatched (billed_IsSwept laws (some v) old t swept)

  bill_and_settle_closes :
      (laws : Laws sv) (last : Option TransactionMeter) (old t : Transaction) (s : System sv)
      {st : ChargePointState} {c : Connector} {stale : Transaction}
      → InMemory old.charge_point_id old.connector_id st c s
      → sv.has_billing ≡ true
      → Updates sv
      → sv.get_transaction s.store old.id ≡ found stale
      → get old.id s.trigger ≡ none
      → IsSwept last old t
      → (s' : System sv) × (bill_and_settle last t s ≡ returned s') × IsClosed old c last s.store s'
  unfolding bill_and_settle notify
  bill_and_settle_closes laws none old t s m billing ups read unwatched swept =
      (settle t s, refl, settle_closes laws old t s m ups read unwatched swept)
  bill_and_settle_closes laws (some v) old t s {c = c} m billing ups read unwatched swept =
      let t' = (sv.on_billing_finished t).0 in
      let b = (sv.on_billing_finished t).1 in
      (
        settle t' (if b then s else notify (billing_alert t.id) s),
        if_true _ panicked billing,
        billed_closes laws v old t s b m ups read unwatched swept,
      )

  -- With billing set and updates that succeed, the sweep closes a stored transaction whose charge point
  -- and connector are in memory, whatever billing answers: its document is finished
  -- with the sweep's reason and the last reading's figures, no other document changes, and nothing
  -- of it is watched in memory. Its connector is freed if it still holds the transaction; a connector
  -- that holds another one is left exactly as it was.
  pub finish_abandoned_closes :
      (laws : Laws sv) (t : Transaction) (s : System sv) {st : ChargePointState} {c : Connector}
      {stale : Transaction}
      → InMemory t.charge_point_id t.connector_id st c s
      → sv.has_billing ≡ true
      → Updates sv
      → sv.get_transaction s.store t.id ≡ found stale
      → (s' : System sv) × (finish_abandoned_transaction t s ≡ returned s')
        × IsClosed t c (sv.read_transaction_meter_value s.store t.id) s.store s'
  unfolding finish_abandoned_transaction
  finish_abandoned_closes laws t s {c = c} m billing ups read =
      let last = sv.read_transaction_meter_value s.store t.id in
      let all = sv.read_all_transaction_meter_values s.store t.id in
      let s1 = trigger_unregister t.id s in
      let (s', done, closed) =
        bill_and_settle_closes laws last t (closed_by_system last all t) s1
          (unwatched_InMemory t.id s m) billing ups read (get-remove_self t.id s.trigger)
          (closed_by_system-IsSwept last all t) in
      (s', done, closed)
