-- ===== src/System/Stop/Close.antt =====
-- What `OnStopTransaction` does on a charge point and a connector that are in memory.
use evsys.Common.{
  List, Option, String, [], ap, arith, get, get-remove_self, if_ind, if_true, if◌then◌else◌,
  int_has_eq, nat_has_eq, none, pos, refl, some, string_has_eq, true, ℕ, ℤ, ◌&&◌, ◌∙◌, ◌∷◌, ◌≡◌,
}
use evsys.Entity.{Connector, MeterValue, Transaction, TransactionMeter, no_transaction}
use evsys.System.Laws.{Laws}
use evsys.System.Lookup.{get_charge_point, released}
use evsys.System.Lookup.Known.{
  InMemory, get-save, get-set_connector, get_charge_point_known, get_connector_known,
}
use evsys.System.State.{
  ChargePointState, Lookup, Notice, Services, StopTransactionRequest, System, found,
  late_stop_alert, notify, panicked, save, set_connector, unregister_transaction,
}
use evsys.System.Stop.{
  close_transaction, force_release, forget_transaction, is_system_closed_reason,
  on_stop_transaction, save_request, stop_found, stop_from, with_meter_values,
}

-- Where nothing is left of the transaction `id` in memory: the connector is free and has no limit, the
-- charge point does not count the transaction, and no reading of it is asked for or kept.
pub record IsGone {sv : Services} (cp : String) (key id : ℤ) (s : System sv) : Type 0 where
  pub state : ChargePointState
  pub connector : Connector
  pub present : get cp s.charge_points ≡ some state
  pub connected : get key state.connectors ≡ some connector
  pub vacated : connector.current_transaction_id ≡ no_transaction
  pub unlimited : connector.current_power_limit ≡ pos 0
  pub unregistered : get id state.transactions ≡ none
  pub unwatched : get id s.trigger ≡ none
  pub unmetered : get id s.last_meter ≡ none

module _ {sv : Services} where
  -- The state in which the handler closes the transaction.
  pub entry : StopTransactionRequest → Transaction → ChargePointState → System sv → System sv
  entry req t st s =
      let s' = save (unregister_transaction req.transaction_id st) (forget_transaction req s) in
      if t.is_finished && is_system_closed_reason t.reason
      then notify (late_stop_alert req.transaction_id) s'
      else s'

  pub entry_store :
      (req : StopTransactionRequest) (t : Transaction) (st : ChargePointState) (s : System sv)
      → (entry req t st s).store ≡ (forget_transaction req s).store
  unfolding entry save notify
  entry_store req t st s = ground arith

  save_request_store :
      (laws : Laws sv) (ms : List MeterValue) (req : StopTransactionRequest) (s : System sv)
      (id : ℤ)
      → sv.get_transaction (save_request ms req s).store id ≡ sv.get_transaction s.store id
  unfolding save_request
  save_request_store laws [] req s id = refl
  save_request_store laws (m ∷ ms) req s id = laws.after_save_stop s.store req id

  pub forget_store :
      (laws : Laws sv) (req : StopTransactionRequest) (s : System sv) (id : ℤ)
      → sv.get_transaction (forget_transaction req s).store id ≡ sv.get_transaction s.store id
  unfolding forget_transaction
  forget_store laws req s id = save_request_store laws req.transaction_data req s id

  save_request_points :
      (ms : List MeterValue) (req : StopTransactionRequest) (s : System sv)
      → (save_request ms req s).charge_points ≡ s.charge_points
  unfolding save_request
  save_request_points [] req s = refl
  save_request_points (m ∷ ms) req s = refl

  forget_points :
      (req : StopTransactionRequest) (s : System sv)
      → (forget_transaction req s).charge_points ≡ s.charge_points
  unfolding forget_transaction
  forget_points req s = save_request_points req.transaction_data req s

  stop_found_known :
      (req : StopTransactionRequest) (now : ℕ) (values : Option (List TransactionMeter))
      (st : ChargePointState) (s : System sv) {c : Connector} (t : Transaction)
      → get t.connector_id st.connectors ≡ some c
      → let st' = unregister_transaction req.transaction_id st in
        stop_found (found t) req now values st' (save st' (forget_transaction req s))
        ≡ close_transaction req now (with_meter_values values t) c st' (entry req t st s)
  unfolding stop_found entry unregister_transaction
  stop_found_known req now values st s t h =
      let st' = unregister_transaction req.transaction_id st in
      ap
        (λ (r : Connector × ChargePointState × System sv).
          close_transaction req now (with_meter_values values t) r.0 r.1 r.2)
        (get_connector_known t.connector_id st' (entry req t st s) h)

  on_stop_set :
      (cp : String) (req : StopTransactionRequest) (now : ℕ) (s : System sv)
      → sv.has_database ≡ true
      → on_stop_transaction cp req now s
        ≡ stop_from
            (get_charge_point cp (forget_transaction req s))
            req
            now
            (sv.read_all_transaction_meter_values s.store req.transaction_id)
  unfolding on_stop_transaction
  on_stop_set cp req now s set = if_true _ panicked set

  stop_from-some :
      (st : ChargePointState) (s : System sv) (req : StopTransactionRequest) (now : ℕ)
      (values : Option (List TransactionMeter))
      → let st' = unregister_transaction req.transaction_id st in
        stop_from (some st, s) req now values
        ≡ stop_found (sv.get_transaction s.store req.transaction_id) req now values st' (save st' s)
  unfolding stop_from
  stop_from-some st s req now values = refl

  pub on_stop_known :
      (laws : Laws sv) (cp : String) (req : StopTransactionRequest) (now : ℕ) (s : System sv)
      {st : ChargePointState} {c : Connector} {t : Transaction}
      → InMemory cp t.connector_id st c s
      → sv.has_database ≡ true
      → sv.get_transaction s.store req.transaction_id ≡ found t
      → let values = sv.read_all_transaction_meter_values s.store req.transaction_id in
        on_stop_transaction cp req now s
        ≡ close_transaction req now
            (with_meter_values values t)
            c
            (unregister_transaction req.transaction_id st)
            (entry req t st s)
  on_stop_known laws cp req now s {st = st} {c = c} {t = t} m set read =
      let values = sv.read_all_transaction_meter_values s.store req.transaction_id in
      let s0 = forget_transaction req s in
      let st' = unregister_transaction req.transaction_id st in
      on_stop_set cp req now s set
      ∙ ap (λ (r : Option ChargePointState × System sv). stop_from r req now values)
          (get_charge_point_known cp s0 (rw (forget_points req s) m.present))
      ∙ stop_from-some st s0 req now values
      ∙ ap (λ (a : Lookup Transaction). stop_found a req now values st' (save st' s0))
          (forget_store laws req s req.transaction_id ∙ read)
      ∙ stop_found_known req now values st s t m.connected

  pub force_release-IsGone :
      {cp : String} (key id : ℤ) (n : Notice) (c : Connector) (st : ChargePointState)
      (s : System sv)
      → st.model.id ≡ cp
      → get id st.transactions ≡ none
      → get id s.trigger ≡ none
      → get id s.last_meter ≡ none
      → IsGone cp key id (notify n (force_release key c st s))
  unfolding force_release notify
  force_release-IsGone key id n c st s named gone unwatched unmetered = record {
    state = set_connector key (released c) st;
    connector = released c;
    present = get-save (set_connector key (released c) st) s named;
    connected = get-set_connector key (released c) st;
    vacated = refl;
    unlimited = refl;
    unregistered = gone;
    unwatched = unwatched;
    unmetered = unmetered;
  }

  pub entry_frame :
      (req : StopTransactionRequest) (t : Transaction) (st : ChargePointState) (s : System sv)
      → let s' = entry req t st s in
        (get req.transaction_id s'.trigger ≡ none) × (get req.transaction_id s'.last_meter ≡ none)
  unfolding entry forget_transaction save notify
  entry_frame req t st s =
      let s' = save (unregister_transaction req.transaction_id st) (forget_transaction req s) in
      let gone : (get req.transaction_id s'.trigger ≡ none)
          × (get req.transaction_id s'.last_meter ≡ none) =
        (
          get-remove_self req.transaction_id (save_request req.transaction_data req s).trigger,
          get-remove_self req.transaction_id (save_request req.transaction_data req s).last_meter,
        ) in
      if_ind
        (λ (u : System sv).
          (get req.transaction_id u.trigger ≡ none) × (get req.transaction_id u.last_meter ≡ none))
        (t.is_finished && is_system_closed_reason t.reason)
        (notify (late_stop_alert req.transaction_id) s') s' gone gone
