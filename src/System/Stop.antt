-- ===== src/System/Stop.antt =====
-- `OnStopTransaction` of server/system_handler.go: a charge point reports that a session ended.
pub mod Close
pub mod Finished
pub mod Outcomes
pub mod Repeated
use evsys.Common.{
  Bool, List, Option, String, [], if◌then◌else◌, int64, int_has_eq, leb_ℤ, ltb_ℤ, nat_has_eq, none,
  pos, remove, some, string_has_eq, true, ℕ, ℤ, ◌&&◌, ◌-ℤ◌, ◌==◌, ◌||◌, ◌∷◌,
}
use evsys.Entity.{Connector, MeterValue, SampledValue, Transaction, TransactionMeter}
use evsys.System.Lookup.{get_charge_point, get_connector, released, store_connector}
use evsys.System.State.{
  ChargePointState, Lookup, Outcome, Services, StopTransactionRequest, System, billing_alert,
  failed, finished_alert, found, late_stop_alert, not_found, notify, panicked, returned, save,
  set_connector, transaction_stop, trigger_unregister, unregister_transaction,
}

abbrev pub stopped_by_system : String
stopped_by_system = "stopped by system"

abbrev pub aborted_by_system : String
aborted_by_system = "aborted by system"

-- Was the reason written by the sweep?
unfoldable pub is_system_closed_reason : String → Bool
is_system_closed_reason reason = reason == stopped_by_system || reason == aborted_by_system

-- One sample of the request's data. `time` is the time of its meter value.
unfoldable pub apply_sample : ℕ → Transaction → SampledValue → Transaction
apply_sample time t v =
    let t' =
      if v.context == "Transaction.Begin"
      then record t { meter_start = v.number; time_start = time }
      else t in
    if v.context == "Transaction.End"
    then record t' { meter_stop = v.number; time_stop = time }
    else t'

unfoldable pub apply_samples : ℕ → Transaction → List SampledValue → Transaction
unfolding apply_sample
apply_samples time t [] = t
apply_samples time t (v ∷ vs) = apply_samples time (apply_sample time t v) vs

unfoldable pub timestamp_or : ℕ → Option ℕ → ℕ
timestamp_or now none = now
timestamp_or now (some t) = t

unfoldable pub apply_data : ℕ → Transaction → List MeterValue → Transaction
unfolding apply_samples timestamp_or
apply_data now t [] = t
apply_data now t (m ∷ ms) =
    apply_data now (apply_samples (timestamp_or now m.timestamp) t m.sampled_value) ms

-- The transaction as the request closes it, with the readings that the request carries.
unfoldable pub closed_by_request : StopTransactionRequest → ℕ → Transaction → Transaction
unfolding apply_data timestamp_or
closed_by_request req now t =
    apply_data now
      (record t {
        is_finished = true;
        time_stop = timestamp_or now req.timestamp;
        meter_stop = req.meter_stop;
        reason = req.reason;
      })
      req.transaction_data

-- The energy of a finished session, never below 0.
unfoldable pub consumed_power : Transaction → ℤ
consumed_power t =
    let d = int64 (t.meter_stop -ℤ t.meter_start) in if ltb_ℤ d (pos 0) then pos 0 else d

unfoldable pub with_meter_values : Option (List TransactionMeter) → Transaction → Transaction
with_meter_values none t = t
with_meter_values (some values) t = record t { meter_values = values }

-- A stop of a transaction that is finished with a reading at least as high.
unfoldable pub is_repeated : StopTransactionRequest → Transaction → Bool
is_repeated req t = t.is_finished && leb_ℤ req.meter_stop t.meter_stop

module _ {sv : Services} where
  -- h.database.UpdateTransaction(transaction), and the samples are dropped once it succeeded
  unfoldable pub store_finished : Transaction → System sv → System sv
  store_finished t s =
      let (written, ok) = sv.update_transaction s.store t in
      record s {
        store = if ok then (sv.delete_transaction_meter_values written t.id).0 else written;
      }

  -- The closure `releaseConnector` of the handler.
  unfoldable pub force_release : ℤ → Connector → ChargePointState → System sv → System sv
  unfolding released set_connector save store_connector
  force_release key c st s =
      store_connector (released c) (save (set_connector key (released c) st) s)

  -- The handler on a transaction that is read, from its connector on.
  unfoldable pub close_transaction :
      StopTransactionRequest
      → ℕ
      → Transaction
      → Connector
      → ChargePointState
      → System sv
      → Outcome (System sv)
  unfolding closed_by_request store_finished force_release is_repeated consumed_power notify
  close_transaction req now t c st s =
      if is_repeated req t
      then returned (notify (finished_alert t.id) (force_release t.connector_id c st s))
      else if sv.has_billing
      then (let (t', billed) = sv.on_billing_finished (closed_by_request req now t) in
          let s1 = if billed then s else notify (billing_alert t.id) s in
          let s2 = force_release t.connector_id c st (store_finished t' s1) in
          returned (notify (transaction_stop t'.id (consumed_power t')) s2))
      else panicked

  stop_found :
      Lookup Transaction
      → StopTransactionRequest
      → ℕ
      → Option (List TransactionMeter)
      → ChargePointState
      → System sv
      → Outcome (System sv)
  unfolding is_system_closed_reason with_meter_values get_connector close_transaction notify
  stop_found (found t) req now values st s =
      let s1 =
        if t.is_finished && is_system_closed_reason t.reason
        then notify (late_stop_alert req.transaction_id) s
        else s in
      let (c, st', s2) = get_connector t.connector_id st s1 in
      close_transaction req now (with_meter_values values t) c st' s2
  stop_found not_found req now values st s = returned s
  stop_found failed req now values st s = returned s

  stop_from :
      Option ChargePointState × System sv
      → StopTransactionRequest
      → ℕ
      → Option (List TransactionMeter)
      → Outcome (System sv)
  unfolding stop_found unregister_transaction save
  stop_from (none, s) req now values = returned s
  stop_from (some st, s) req now values =
      let st' = unregister_transaction req.transaction_id st in
      let s' = save st' s in
      stop_found (sv.get_transaction s'.store req.transaction_id) req now values st' s'

  save_request : List MeterValue → StopTransactionRequest → System sv → System sv
  save_request [] req s = s
  save_request (m ∷ ms) req s = record s {
    store = (sv.save_stop_transaction_request s.store req).0;
  }

  -- What the handler does before it looks for the charge point.
  unfoldable pub forget_transaction : StopTransactionRequest → System sv → System sv
  unfolding save_request trigger_unregister
  forget_transaction req s =
      let s1 = save_request req.transaction_data req s in
      let s2 = trigger_unregister req.transaction_id s1 in
      record s2 { last_meter = remove req.transaction_id s2.last_meter }

  -- The first statement reads the meter values through `h.database`, before any check of it.
  unfoldable pub on_stop_transaction :
      String → StopTransactionRequest → ℕ → System sv → Outcome (System sv)
  unfolding forget_transaction get_charge_point stop_from
  on_stop_transaction cp req now s =
      if sv.has_database
      then (let values = sv.read_all_transaction_meter_values s.store req.transaction_id in
          stop_from (get_charge_point cp (forget_transaction req s)) req now values)
      else panicked
