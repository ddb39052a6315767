-- ===== src/System/Status.antt =====
-- The status of a connector or of a charge point: `OnStatusNotification` and `stateFromStatus` of
-- server/system_handler.go. The error listener is left out.
pub mod Sessions
use evsys.Common.{
  Bool, Option, String, false, if◌then◌else◌, int_has_eq, ltb_ℤ, nat_has_eq, none, pos, some,
  string_has_eq, ℕ, ℤ, ◌==◌, ◌||◌,
}
use evsys.Entity.{ChargePoint, Connector}
use evsys.System.Listen.{check_listen_transaction}
use evsys.System.Lookup.{get_charge_point, get_connector, store_connector}
use evsys.System.State.{
  ChargePointState, Services, System, notify, save, set_connector, status_notice,
}
use evsys.System.Stop.{timestamp_or}
use evsys.V16.Status.{
  available, charging, faulted, finishing, preparing, suspended_ev, suspended_evse, unavailable,
}

pub record StatusNotificationRequest : Type 0 where
  pub connector_id : ℤ
  pub error_code : String
  pub info : String
  pub status : String
  pub timestamp : Option ℕ
  pub vendor_id : String
  pub vendor_error_code : String

unfoldable pub state_from_status : String → String
state_from_status s =
    if s == available
    then "available"
    else if s == preparing
        || s == charging
        || s == suspended_ev
        || s == suspended_evse
        || s == finishing
    then "occupied"
    else if s == unavailable || s == faulted
    then "unavailable"
    else s

-- The connector with what the request reports of it.
unfoldable pub reported_connector : StatusNotificationRequest → ℕ → Connector → Connector
unfolding state_from_status timestamp_or
reported_connector req now c = record c {
  status = req.status;
  status_time = timestamp_or now req.timestamp;
  state = state_from_status req.status;
  info = req.info;
  vendor_id = req.vendor_id;
  error_code = req.error_code;
}

unfoldable pub reported_point : StatusNotificationRequest → ℕ → ChargePoint → ChargePoint
unfolding timestamp_or
reported_point req now p = record p {
  status = req.status;
  status_time = timestamp_or now req.timestamp;
  info = req.info;
}

module _ {sv : Services} where
  stored_if_set : Connector → System sv → System sv
  unfolding store_connector
  stored_if_set c s = if sv.has_database then store_connector c s else s

  -- On a connector, as `getConnector` finds it.
  unfoldable pub connector_status :
      StatusNotificationRequest → ℕ → Connector × ChargePointState × System sv → System sv
  unfolding reported_connector set_connector save stored_if_set notify check_listen_transaction
  connector_status req now (c, st, s) =
      let c' = reported_connector req now c in
      let st' = set_connector req.connector_id c' st in
      let s1 = stored_if_set c' (save st' s) in
      check_listen_transaction c' st.model.is_online
        (notify (status_notice req.connector_id req.status) s1)

  unfoldable pub point_status :
      StatusNotificationRequest → ℕ → ChargePointState → System sv → System sv
  unfolding reported_point save notify
  point_status req now st s =
      let p = reported_point req now st.model in
      let s1 = save (record st { status = req.status; model = p }) s in
      let s2 =
        if sv.has_database
        then record s1 { store = (sv.update_charge_point_status s1.store p).0 }
        else s1 in
      notify (status_notice req.connector_id req.status) s2

  status_from :
      StatusNotificationRequest → ℕ → Option ChargePointState × System sv → Bool × System sv
  unfolding connector_status point_status save get_connector
  status_from req now (none, s) = (false, s)
  status_from req now (some st, s) =
      let st' = record st { error_code = req.error_code } in
      let s' = save st' s in
      if ltb_ℤ (pos 0) req.connector_id
      then (
        req.status == available,
        connector_status req now (get_connector req.connector_id st' s'),
      )
      else (false, point_status req now st' s')

  -- Whether a sweep is started, and the state.
  unfoldable pub on_status_notification :
      String → StatusNotificationRequest → ℕ → System sv → Bool × System sv
  unfolding status_from get_charge_point
  on_status_notification cp req now s = status_from req now (get_charge_point cp s)
