-- ===== src/V201/Events.antt =====
-- `OnTransactionEvent` of server/v201_handlers.go: a charge point of OCPP 2.0.1 reports that a session
-- began, goes on or ended. The first part of the answer says whether there is one, or an error.
pub mod Located
pub mod Opened
pub mod Stored
pub mod Lost
use evsys.Common.{
  Bool, Dict, List, Option, String, [], false, if◌then◌else◌, int64, int_has_eq, nat_has_eq, none,
  pos, some, string_has_eq, true, ℕ, ℤ, ◌&&◌, ◌+ℤ◌, ◌==◌, ◌∷◌,
}
use evsys.Entity.{ChargePoint, Connector, Transaction, no_transaction}
use evsys.System.Lookup.{get_charge_point, get_connector, get_user_tag, store_connector}
use evsys.System.State.{
  ChargePointState, Lookup, Services, System, failed, found, not_found, notify,
  register_transaction, save, set_connector, transaction_start, transaction_stop,
  unregister_transaction,
}
use evsys.V201.Adapter.{meter_value_to_transaction_meter, transaction_event_to_entity}
use evsys.V201.Types.{
  Evse, IdToken, MeterValue201, TransactionInfo, transaction_event_ended, transaction_event_started,
  transaction_event_updated,
}

pub record TransactionEventRequest : Type 0 where
  pub event_type : String
  pub timestamp : ℕ
  pub transaction_info : TransactionInfo
  pub id_token : Option IdToken
  pub evse : Option Evse
  pub meter_value : List MeterValue201

unfoldable pub event_transaction : String → TransactionEventRequest → Transaction
unfolding transaction_event_to_entity
event_transaction cp req =
    transaction_event_to_entity req.event_type req.transaction_info req.id_token req.evse
      req.meter_value req.timestamp cp

abbrev pub evse_id_of : Option Evse → Option ℤ
evse_id_of none = none
evse_id_of (some evse) = some evse.id

abbrev pub is_id : Option ℤ → ℤ → Bool
is_id none id = false
is_id (some j) id = j == id

-- The loop over the connectors, each with its key; the order of the map is not fixed, but the ids are
-- those of different connectors.
unfoldable pub find_by_evse : ℤ → ℤ → Dict ℤ Connector → Option (ℤ × Connector)
find_by_evse evse_id connector_id [] = none
find_by_evse evse_id connector_id ((key, c) ∷ d) =
    let rest = find_by_evse evse_id connector_id d in
    if is_id c.evse_id evse_id && c.id == connector_id then some (key, c) else rest

unfoldable pub by_evse : Option ℤ → ℤ → Dict ℤ Connector → Option (ℤ × Connector)
unfolding find_by_evse
by_evse none connector_id d = none
by_evse (some evse_id) connector_id d = find_by_evse evse_id connector_id d

unfoldable pub protocol_version_of : ChargePoint → String
protocol_version_of p = if p.protocol_version == "" then "ocpp1.6" else p.protocol_version

unfoldable pub ended_by_event : Transaction → Transaction → Transaction
ended_by_event event t = record t {
  is_finished = true;
  time_stop = event.time_stop;
  meter_stop = event.meter_stop;
  reason = event.reason;
}

unfoldable pub priced_start : Services → Transaction → Transaction
priced_start sv t = if sv.has_billing then (sv.on_billing_start t).0 else t

module _ {sv : Services} where
  -- h.database.UpdateConnector(connector), where there is a database
  unfoldable pub store_connector_if : Connector → System sv → System sv
  unfolding store_connector
  store_connector_if c s = if sv.has_database then store_connector c s else s

  or_get_connector :
      Option (ℤ × Connector)
      → ℤ
      → ChargePointState
      → System sv
      → ℤ × Connector × ChargePointState × System sv
  unfolding get_connector
  or_get_connector (some (key, c)) connector_id st s = (key, c, st, s)
  or_get_connector none connector_id st s =
      let (c, st', s') = get_connector connector_id st s in (connector_id, c, st', s')

  -- The connector, with its key among the charge point's connectors.
  unfoldable pub get_connector_by_evse_and_connector_id :
      Option ℤ → ℤ → ChargePointState → System sv → ℤ × Connector × ChargePointState × System sv
  unfolding by_evse or_get_connector
  get_connector_by_evse_and_connector_id evse_id connector_id st s =
      or_get_connector (by_evse evse_id connector_id st.connectors) connector_id st s

  set_evse :
      Option ℤ
      → Option ℤ
      → ℤ
      → Connector
      → ChargePointState
      → System sv
      → Connector × ChargePointState × System sv
  unfolding set_connector save store_connector_if
  set_evse (some old) evse_id key c st s = (c, st, s)
  set_evse none none key c st s = (c, st, s)
  set_evse none (some evse_id) key c st s =
      let c' = record c { evse_id = some evse_id } in
      let st' = set_connector key c' st in (c', st', store_connector_if c' (save st' s))

  unfoldable pub update_connector_evse_id :
      Option ℤ
      → ℤ
      → Connector
      → ChargePointState
      → System sv
      → Connector × ChargePointState × System sv
  unfolding set_evse
  update_connector_evse_id evse_id key c st s = set_evse c.evse_id evse_id key c st s

  unfoldable pub with_user_tag : ℕ → Transaction → System sv → Transaction × System sv
  unfolding get_user_tag
  with_user_tag now t s =
      if t.id_tag == ""
      then (t, s)
      else let (tag, s') = get_user_tag t.id_tag now s in
        (record t { user_tag = some tag; username = tag.username }, s')

  unfoldable pub store_new : Transaction → System sv → System sv
  store_new t s =
      if sv.has_database then record s { store = (sv.add_transaction s.store t).0 } else s

  -- `newTransactionId++`, and the id is the new value.
  unfoldable pub event_started :
      ℕ → Transaction → ℤ → Connector → ChargePointState → System sv → System sv
  unfolding with_user_tag priced_start store_new set_connector register_transaction save notify
      store_connector_if protocol_version_of
  event_started now event key c st s =
      let (t, s1) =
        with_user_tag now (record event { protocol_version = protocol_version_of st.model }) s in
      let id = int64 (s1.next_transaction_id +ℤ pos 1) in
      let t' = priced_start sv (record t { id = id }) in
      let s2 = store_new t' (record s1 { next_transaction_id = id }) in
      let c' = record c { current_transaction_id = t'.id } in
      let st' = register_transaction t'.id (set_connector key c' st) in
      notify (transaction_start t'.id) (store_connector_if c' (save st' s2))

  record_meter_values : Transaction → List MeterValue201 → System sv → System sv
  unfolding meter_value_to_transaction_meter
  record_meter_values t [] s = s
  record_meter_values t (m ∷ ms) s =
      let tm = meter_value_to_transaction_meter m t.id in
      let priced = if sv.has_billing then (sv.on_billing_meter t tm).0 else tm in
      record_meter_values t ms
        (record s { store = (sv.add_transaction_meter_value s.store priced).0 })

  updated_answer : Lookup Transaction → List MeterValue201 → System sv → System sv
  unfolding record_meter_values
  updated_answer (found t) ms s = record_meter_values t ms s
  updated_answer not_found ms s = s
  updated_answer failed ms s = s

  unfoldable pub event_updated : Transaction → List MeterValue201 → System sv → System sv
  unfolding updated_answer
  event_updated event ms s =
      if sv.has_database then updated_answer (sv.get_transaction s.store event.id) ms s else s

  ended_answer :
      Lookup Transaction → Transaction → ℤ → Connector → ChargePointState → System sv → System sv
  unfolding ended_by_event set_connector unregister_transaction save notify store_connector
  ended_answer not_found event key c st s = s
  ended_answer failed event key c st s = s
  ended_answer (found old) event key c st s =
      let t = ended_by_event event old in
      let t' = if sv.has_billing then (sv.on_billing_finished t).0 else t in
      let s1 = record s { store = (sv.update_transaction s.store t').0 } in
      let c' = record c { current_transaction_id = no_transaction } in
      let st' = unregister_transaction t'.id (set_connector key c' st) in
      notify (transaction_stop t'.id (pos 0)) (store_connector c' (save st' s1))

  unfoldable pub event_ended :
      Transaction → ℤ → Connector → ChargePointState → System sv → System sv
  unfolding ended_answer
  event_ended event key c st s =
      if sv.has_database
      then ended_answer (sv.get_transaction s.store event.id) event key c st s
      else s

  unfoldable pub handle_event :
      ℕ
      → TransactionEventRequest
      → Transaction
      → ℤ
      → Connector
      → ChargePointState
      → System sv
      → System sv
  unfolding event_started event_updated event_ended
  handle_event now req event key c st s =
      if req.event_type == transaction_event_started
      then event_started now event key c st s
      else if req.event_type == transaction_event_updated
      then event_updated event req.meter_value s
      else if req.event_type == transaction_event_ended
      then event_ended event key c st s
      else s

  event_at : String → TransactionEventRequest → ℕ → ChargePointState → System sv → System sv
  unfolding get_connector_by_evse_and_connector_id update_connector_evse_id handle_event
      event_transaction
  event_at cp req now st s =
      let event = event_transaction cp req in
      let evse_id = evse_id_of req.evse in
      let (key, c, st1, s1) =
        get_connector_by_evse_and_connector_id evse_id event.connector_id st s in
      let (c', st2, s2) = update_connector_evse_id evse_id key c st1 s1 in
      handle_event now req event key c' st2 s2

  event_from :
      Option ChargePointState × System sv → String → TransactionEventRequest → ℕ → Bool × System sv
  unfolding event_at
  event_from (none, s) cp req now = (false, s)
  event_from (some st, s) cp req now = (true, event_at cp req now st s)

  unfoldable pub on_transaction_event :
      String → TransactionEventRequest → ℕ → System sv → Bool × System sv
  unfolding event_from get_charge_point
  on_transaction_event cp req now s = event_from (get_charge_point cp s) cp req now
