-- ===== src/System/Stop/Repeated.antt =====
-- `OnStopTransaction` on a transaction that is finished with a reading at least as high.
use evsys.Common.{String, ap, subst, true, ℕ, ℤ, ◌∙◌, ◌≡◌}
use evsys.Entity.{ChargePoint, Connector, Transaction}
use evsys.System.Laws.{Laws}
use evsys.System.Lookup.{released}
use evsys.System.Lookup.Known.{InMemory}
use evsys.System.State.{
  ChargePointState, Services, StopTransactionRequest, System, finished_alert, found, notify,
  returned, unregister_transaction,
}
use evsys.System.Stop.{force_release, is_repeated, on_stop_transaction, with_meter_values}
use evsys.System.Stop.Close.{
  IsGone, entry, entry_frame, entry_store, force_release-IsGone, forget_store, on_stop_known,
}
use evsys.System.Stop.Finished.{connector-with_meter_values, is_repeated-with_meter_values}
use evsys.System.Stop.Outcomes.{close_repeated, force_release_store, unregister_model, unregistered}

module _ {sv : Services} where
  -- With a database set, a repeated stop on a charge point and a connector in memory changes no
  -- transaction document, whatever the request carries, and still leaves nothing of the transaction in
  -- memory: the connector of the transaction is freed.
  pub stop_repeated :
      (laws : Laws sv) (cp : String) (req : StopTransactionRequest) (now : ℕ) (s : System sv)
      {st : ChargePointState} {c : Connector} {t : Transaction}
      → InMemory cp t.connector_id st c s
      → sv.has_database ≡ true
      → sv.get_transaction s.store req.transaction_id ≡ found t
      → is_repeated req t ≡ true
      → (s' : System sv) × (on_stop_transaction cp req now s ≡ returned s')
        × ((j : ℤ) → sv.get_transaction s'.store j ≡ sv.get_transaction s.store j)
        × IsGone cp t.connector_id req.transaction_id s'
  stop_repeated laws cp req now s {st = st} {c = c} {t = t} m set read again =
      let id = req.transaction_id in
      let values = sv.read_all_transaction_meter_values s.store id in
      let v = with_meter_values values t in
      let st' = unregister_transaction id st in
      let s1 = entry req t st s in
      let n = finished_alert v.id in
      let s' = notify n (force_release v.connector_id c st' s1) in
      let (unwatched, unmetered) = entry_frame req t st s in
      (
        s',
        on_stop_known laws cp req now s m set read
            ∙ close_repeated req now v c st' s1
                (is_repeated-with_meter_values req values t ∙ again),
        λ j.
            ap (λ db. sv.get_transaction db j) (force_release_store n v.connector_id c st' s1)
            ∙ laws.after_update_connector s1.store (released c) j
            ∙ ap (λ db. sv.get_transaction db j) (entry_store req t st s)
            ∙ forget_store laws req s j,
        subst (λ k. IsGone cp k id s') (connector-with_meter_values values t)
            (force_release-IsGone v.connector_id id n c st' s1
              (ap (λ (p : ChargePoint). p.id) (unregister_model id st) ∙ m.named)
              (unregistered id st) unwatched unmetered),
      )
