-- ===== src/System/Stop/Outcomes.antt =====
-- The outcomes of `OnStopTransaction` on a charge point and a connector that are in memory.
use evsys.Common.{
  String, ap, arith, false, get, get-remove_self, if_false, if_true, if◌then◌else◌, int_has_eq,
  nat_has_eq, none, refl, string_has_eq, subst, sym, true, ℕ, ℤ, ◌∙◌, ◌≡◌, ◌≢◌,
}
use evsys.Entity.{ChargePoint, Connector, Transaction}
use evsys.System.Laws.{Laws}
use evsys.System.Lookup.{released}
use evsys.System.Lookup.Known.{InMemory}
use evsys.System.State.{
  ChargePointState, Notice, Services, StopTransactionRequest, System, billing_alert, finished_alert,
  found, notify, panicked, returned, transaction_stop, unregister_transaction,
}
use evsys.System.Stop.{
  close_transaction, closed_by_request, consumed_power, force_release, is_repeated,
  on_stop_transaction, store_finished, with_meter_values,
}
use evsys.System.Stop.Close.{
  IsGone, entry, entry_frame, entry_store, force_release-IsGone, forget_store, on_stop_known,
}
use evsys.System.Stop.Finished.{
  IsStopped, billed_IsStopped, connector-with_meter_values, is_repeated-with_meter_values,
}

-- Every update of a transaction succeeds.
abbrev pub Updates : Services → Type 0
Updates sv = (db : sv.Store) (t : Transaction) → (sv.update_transaction db t).1 ≡ true

pub unregistered :
    (id : ℤ) (st : ChargePointState) → get id (unregister_transaction id st).transactions ≡ none
unfolding unregister_transaction
unregistered id st = get-remove_self id st.transactions

pub unregister_model :
    (id : ℤ) (st : ChargePointState) → (unregister_transaction id st).model ≡ st.model
unfolding unregister_transaction
unregister_model id st = refl

module _ {sv : Services} where
  pub close_repeated :
      (req : StopTransactionRequest) (now : ℕ) (t : Transaction) (c : Connector)
      (st : ChargePointState) (s : System sv)
      → is_repeated req t ≡ true
      → close_transaction req now t c st s
        ≡ returned (notify (finished_alert t.id) (force_release t.connector_id c st s))
  unfolding close_transaction
  close_repeated req now t c st s h = if_true _ _ h

  -- Billing's refusal is told to the listeners and changes nothing else.
  after_billing : Transaction → Transaction → System sv → System sv
  after_billing u t s = if (sv.on_billing_finished u).1 then s else notify (billing_alert t.id) s

  close_done :
      (req : StopTransactionRequest) (now : ℕ) (t : Transaction) (c : Connector)
      (st : ChargePointState) (s : System sv)
      → is_repeated req t ≡ false
      → sv.has_billing ≡ true
      → let u = closed_by_request req now t in
        let t' = (sv.on_billing_finished u).0 in
        close_transaction req now t c st s
        ≡ returned (
            notify
              (transaction_stop t'.id (consumed_power t'))
              (force_release t.connector_id c st (store_finished t' (after_billing u t s))))
  unfolding close_transaction after_billing
  close_done req now t c st s fresh set = if_false _ _ fresh ∙ if_true _ panicked set

  after_billing_frame :
      (u t : Transaction) (s : System sv)
      → let s' = after_billing u t s in
        (s'.store ≡ s.store) × (s'.trigger ≡ s.trigger) × (s'.last_meter ≡ s.last_meter)
  unfolding after_billing notify
  after_billing_frame u t s = ground arith

  store_finished_store :
      (t : Transaction) (s : System sv)
      → (sv.update_transaction s.store t).1 ≡ true
      → (store_finished t s).store
        ≡ (sv.delete_transaction_meter_values (sv.update_transaction s.store t).0 t.id).0
  unfolding store_finished
  store_finished_store t s h = ground arith

  store_finished_frame :
      (t : Transaction) (s : System sv)
      → ((store_finished t s).trigger ≡ s.trigger)
        × ((store_finished t s).last_meter ≡ s.last_meter)
  unfolding store_finished
  store_finished_frame t s = (refl, refl)

  pub force_release_store :
      (n : Notice) (key : ℤ) (c : Connector) (st : ChargePointState) (s : System sv)
      → (notify n (force_release key c st s)).store ≡ (sv.update_connector s.store (released c)).0
  unfolding force_release notify
  force_release_store n key c st s = refl

  -- With a database and billing set and updates that succeed, a stop that is not a repetition, for a
  -- stored transaction whose charge point and connector are in memory, closes the transaction: its
  -- document is finished with the figures of the request, every other document stays, and nothing of
  -- it is left in memory.
  pub stop_closes_transaction :
      (laws : Laws sv) (cp : String) (req : StopTransactionRequest) (now : ℕ) (s : System sv)
      {st : ChargePointState} {c : Connector} {t : Transaction}
      → InMemory cp t.connector_id st c s
      → sv.has_database ≡ true
      → sv.has_billing ≡ true
      → Updates sv
      → sv.get_transaction s.store req.transaction_id ≡ found t
      → is_repeated req t ≡ false
      → (s' : System sv) × (t' : Transaction) × (on_stop_transaction cp req now s ≡ returned s')
        × (sv.get_transaction s'.store req.transaction_id ≡ found t')
        × IsStopped req now t t'
        × ((j : ℤ)
            → req.transaction_id ≢ j
            → sv.get_transaction s'.store j ≡ sv.get_transaction s.store j)
        × IsGone cp t.connector_id req.transaction_id s'
  stop_closes_transaction laws cp req now s {st = st} {c = c} {t = t} m set billing ups read fresh =
      let id = req.transaction_id in
      let values = sv.read_all_transaction_meter_values s.store id in
      let v = with_meter_values values t in
      let u = closed_by_request req now v in
      let t' = (sv.on_billing_finished u).0 in
      let st' = unregister_transaction id st in
      let s1 = entry req t st s in
      let s2 = after_billing u v s1 in
      let s3 = store_finished t' s2 in
      let n = transaction_stop t'.id (consumed_power t') in
      let s' = notify n (force_release v.connector_id c st' s3) in
      let fresh' = is_repeated-with_meter_values req values t ∙ fresh in
      let stopped = billed_IsStopped laws req now values t in
      let numbered = stopped.same_id ∙ laws.own_id s.store id t read in
      let (same_store, same_trigger, same_meter) = after_billing_frame u v s1 in
      let (unwatched, unmetered) = entry_frame req t st s in
      let reads : (j : ℤ) → sv.get_transaction s2.store j ≡ sv.get_transaction s.store j =
        λ j. rw (same_store, entry_store req t st s) (forget_store laws req s j) in
      let written : (j : ℤ)
          → sv.get_transaction s'.store j
            ≡ sv.get_transaction (sv.update_transaction s2.store t').0 j =
        λ j. rw (
          force_release_store n v.connector_id c st' s3,
          laws.after_update_connector,
          store_finished_store t' s2 (ups s2.store t'),
          laws.after_delete_meter_values,
        ) in
      let there : sv.get_transaction s2.store t'.id ≡ found t =
        ap (sv.get_transaction s2.store) numbered ∙ reads id ∙ read in
      (
        s',
        t',
        on_stop_known laws cp req now s m set read ∙ close_done req now v c st' s1 fresh' billing,
        written id
            ∙ ap (λ j. sv.get_transaction (sv.update_transaction s2.store t').0 j) (sym numbered)
            ∙ laws.updated s2.store t' there (ups s2.store t'),
        stopped,
        λ j ne. written j ∙ laws.updated_other s2.store t' j (λ e. ne (sym numbered ∙ e)) ∙ reads j,
        subst (λ k. IsGone cp k id s') (connector-with_meter_values values t)
            (force_release-IsGone v.connector_id id n c st' s3
              (ap (λ (p : ChargePoint). p.id) (unregister_model id st) ∙ m.named)
              (unregistered id st) (rw ((store_finished_frame t' s2).0, same_trigger) unwatched)
              (rw ((store_finished_frame t' s2).1, same_meter) unmetered)),
      )
