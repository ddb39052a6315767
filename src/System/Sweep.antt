-- ===== src/System/Sweep.antt =====
-- How the central system closes transactions that no charge point stops: `checkAndFinishTransactions`,
-- `reconcileChargePointTransactions`, `finishAbandonedTransaction` and `releaseConnector` of
-- server/system_handler.go. Times are in seconds; the counters and the log are left out.
pub mod Release
pub mod Finish
pub mod Reconcile
pub mod Reporting
use evsys.Common.{
  Bool, List, Option, String, [], false, if◌then◌else◌, int_has_eq, ltb, nat_has_eq, none, some,
  string_has_eq, true, ℕ, ℤ, ◌+◌, ◌-◌, ◌==◌, ◌||◌, ◌∷◌,
}
use evsys.Entity.{Connector, Transaction, TransactionMeter}
use evsys.System.Lookup.{get_charge_point, get_connector}
use evsys.System.State.{
  ChargePointState, Outcome, Services, System, billing_alert, notify, panicked, returned, save,
  swept_alert, trigger_unregister, unregister_transaction, ◌>>=◌,
}
use evsys.System.Stop.{aborted_by_system, force_release, stopped_by_system, with_meter_values}
use evsys.V16.Status.{charging, suspended_ev, suspended_evse}

-- transactionStaleAfter and transactionReleaseGrace
abbrev pub transaction_stale_after : ℕ
transaction_stale_after = 1200

abbrev pub transaction_release_grace : ℕ
transaction_release_grace = 120

unfoldable pub is_active_charging_status : String → Bool
is_active_charging_status s = s == charging || s == suspended_ev || s == suspended_evse

-- The transaction as the sweep closes it, from the last reading and all the readings.
unfoldable pub closed_by_system :
    Option TransactionMeter → Option (List TransactionMeter) → Transaction → Transaction
unfolding with_meter_values
closed_by_system (some m) values t = with_meter_values values (record t {
  is_finished = true;
  meter_stop = m.value;
  time_stop = m.time;
  reason = stopped_by_system;
})
closed_by_system none values t = record t {
  is_finished = true;
  time_stop = t.time_start;
  reason = aborted_by_system;
}

module _ {sv : Services} where
  -- The connector is freed only if it still holds the transaction.
  unfoldable pub release_connector : ℤ → ℤ → Connector → ChargePointState → System sv → System sv
  unfolding force_release
  release_connector id key c st s =
      if c.current_transaction_id == id then force_release key c st s else s

  release_at : Option ChargePointState × System sv → Transaction → System sv
  unfolding unregister_transaction save get_connector release_connector
  release_at (none, s) t = s
  release_at (some st, s) t =
      let st1 = unregister_transaction t.id st in
      let (c, st2, s2) = get_connector t.connector_id st1 (save st1 s) in
      release_connector t.id t.connector_id c st2 s2

  -- From the transaction with its final figures on.
  unfoldable pub settle : Transaction → System sv → System sv
  unfolding get_charge_point release_at notify
  settle t s =
      let s1 = record s { store = (sv.update_transaction s.store t).0 } in
      let s2 = release_at (get_charge_point t.charge_point_id s1) t in
      let s3 = record s2 { store = (sv.delete_transaction_meter_values s2.store t.id).0 } in
      notify (swept_alert t.id) s3

  -- Billing is called only if a meter value arrived.
  bill_and_settle : Option TransactionMeter → Transaction → System sv → Outcome (System sv)
  unfolding settle notify
  bill_and_settle none t s = returned (settle t s)
  bill_and_settle (some m) t s =
      if sv.has_billing
      then (let (t', billed) = sv.on_billing_finished t in
          returned (settle t' (if billed then s else notify (billing_alert t.id) s)))
      else panicked

  unfoldable pub finish_abandoned_transaction : Transaction → System sv → Outcome (System sv)
  unfolding trigger_unregister closed_by_system bill_and_settle
  finish_abandoned_transaction t s =
      let last = sv.read_transaction_meter_value s.store t.id in
      let all = sv.read_all_transaction_meter_values s.store t.id in
      bill_and_settle last (closed_by_system last all t) (trigger_unregister t.id s)

  unfoldable pub finish_all : List Transaction → System sv → Outcome (System sv)
  unfolding finish_abandoned_transaction
  finish_all [] s = returned s
  finish_all (t ∷ ts) s = finish_abandoned_transaction t s >>= finish_all ts

  finish_unfinished : Option (List Transaction) → System sv → Outcome (System sv)
  unfolding finish_all
  finish_unfinished none s = returned s
  finish_unfinished (some ts) s = finish_all ts s

  unfoldable pub check_and_finish_transactions : ℕ → System sv → Outcome (System sv)
  unfolding finish_unfinished
  check_and_finish_transactions now s =
      if sv.has_database
      then finish_unfinished
          (sv.get_unfinished_transactions s.store (now - transaction_stale_after)
            (now - transaction_release_grace))
          s
      else returned s

  -- Did the charge point report a reading of the transaction within the grace period?
  unfoldable pub is_reporting : ℕ → Transaction → System sv → Bool
  is_reporting now t s = elim (sv.read_transaction_meter_value s.store t.id) [
    | none ↦ false
    | some m ↦ ltb now (m.time + transaction_release_grace)
  ]

  unfoldable pub reconcile_all : ℕ → List Transaction → System sv → Outcome (System sv)
  unfolding is_reporting finish_abandoned_transaction
  reconcile_all now [] s = returned s
  reconcile_all now (t ∷ ts) s =
      (if is_reporting now t s then returned s else finish_abandoned_transaction t s)
      >>= reconcile_all now ts

  reconcile_unfinished : Option (List Transaction) → ℕ → System sv → Outcome (System sv)
  unfolding reconcile_all
  reconcile_unfinished none now s = returned s
  reconcile_unfinished (some ts) now s = reconcile_all now ts s

  unfoldable pub reconcile_charge_point_transactions : String → ℕ → System sv → Outcome (System sv)
  unfolding reconcile_unfinished
  reconcile_charge_point_transactions cp now s =
      if sv.has_database
      then reconcile_unfinished (sv.get_unfinished_transactions_of s.store cp) now s
      else returned s
