-- ===== src/System/Startup.antt =====
-- The start of the handler: `OnStart` of server/system_handler.go. The loops over the maps run over
-- their contents as they are when the loop is entered. What is told to the listeners about the start is
-- left out.
pub mod Ids
use evsys.Common.{
  Bool, Dict, List, Option, String, [], false, if◌then◌else◌, int64, int_has_eq, nat_has_eq, none,
  pos, put, some, string_has_eq, true, ℤ, ◌+ℤ◌, ◌∷◌,
}
use evsys.Entity.{ChargePoint, Connector, Transaction, TransactionMeter}
use evsys.System.Listen.{check_listen_transaction}
use evsys.System.Lookup.{initialize_charge_point_state}
use evsys.System.State.{ChargePointState, Services, System}

-- The operations of the database that only the start calls; a read whose error leaves nothing is
-- `none`.
pub record StartReads (sv : Services) : Type 0 where
  pub reset_online_status : sv.Store → sv.Store × Bool
  pub get_charge_points : sv.Store → Option (List ChargePoint)
  pub get_last_transaction : sv.Store → Option Transaction
  pub read_last_meter_values : sv.Store → Option (List TransactionMeter)

abbrev meters_of_list : Option (List TransactionMeter) → List TransactionMeter
meters_of_list none = []
meters_of_list (some ms) = ms

unfoldable pub add_last_meters :
    List TransactionMeter → Dict ℤ TransactionMeter → Dict ℤ TransactionMeter
add_last_meters [] d = d
add_last_meters (m ∷ ms) d = add_last_meters ms (put m.id m d)

module _ {sv : Services} where
  unfoldable pub load_charge_points : List ChargePoint → System sv → System sv
  unfolding initialize_charge_point_state
  load_charge_points [] s = s
  load_charge_points (p ∷ ps) s = load_charge_points ps (initialize_charge_point_state p s).1

  unfoldable pub continue_ids : Option Transaction → System sv → System sv
  continue_ids none s = s
  continue_ids (some t) s = record s { next_transaction_id = int64 (t.id +ℤ pos 1) }

  with_meters : StartReads sv → System sv → System sv
  unfolding add_last_meters
  with_meters reads s =
      let meters = meters_of_list (reads.read_last_meter_values s.store) in
      record s { last_meter = add_last_meters meters s.last_meter }

  loaded_from : StartReads sv → Option (List ChargePoint) → System sv → Bool × System sv
  unfolding load_charge_points continue_ids with_meters
  loaded_from reads none s = (false, s)
  loaded_from reads (some ps) s =
      let s1 = load_charge_points ps s in
      (true, with_meters reads (continue_ids (reads.get_last_transaction s1.store) s1))

  -- What is loaded from the database.
  unfoldable pub load_from_database : StartReads sv → System sv → Bool × System sv
  unfolding loaded_from
  load_from_database reads s =
      if sv.has_database
      then (let s1 = record s { store = (reads.reset_online_status s.store).0 } in
          loaded_from reads (reads.get_charge_points s1.store) s1)
      else (true, s)

  listen_all : Dict ℤ Connector → Bool → System sv → System sv
  unfolding check_listen_transaction
  listen_all [] is_online s = s
  listen_all ((k, c) ∷ cs) is_online s =
      listen_all cs is_online (check_listen_transaction c is_online s)

  unfoldable pub listen_points : Dict String ChargePointState → System sv → System sv
  unfolding listen_all
  listen_points [] s = s
  listen_points ((id, st) ∷ d) s = listen_points d (listen_all st.connectors st.model.is_online s)

  started_from : Bool → Bool × System sv → Bool × System sv
  unfolding listen_points
  started_from has_trigger (false, s) = (false, s)
  started_from has_trigger (true, s) =
      if has_trigger then (true, listen_points s.charge_points s) else (false, s)

  -- Whether the start succeeds, and the state.
  unfoldable pub on_start : StartReads sv → Bool → System sv → Bool × System sv
  unfolding load_from_database started_from
  on_start reads has_trigger s = started_from has_trigger (load_from_database reads s)
