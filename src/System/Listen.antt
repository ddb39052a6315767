-- ===== src/System/Listen.antt =====
-- Which connectors are asked for meter values: `checkListenTransaction` of server/system_handler.go
-- and the channels of server/trigger.go.
pub mod Offline
pub mod Frames
use evsys.Common.{
  Bool, Option, if◌then◌else◌, int_has_eq, leb_ℤ, nat_has_eq, none, not, pos, some, string_has_eq,
  ◌&&◌, ◌==◌,
}
use evsys.Entity.{Connector}
use evsys.System.Lookup.{get_charge_point}
use evsys.System.State.{ChargePointState, Services, System, trigger_register, trigger_unregister}
use evsys.V16.Status.{charging}

module _ {sv : Services} where
  listen : Connector → Bool → System sv → System sv
  unfolding trigger_unregister trigger_register
  listen c is_online s =
      if leb_ℤ (pos 0) c.current_transaction_id
      then (if not is_online
          then trigger_unregister c.current_transaction_id s
          else if not (c.status == "") && not (c.status == charging)
          then trigger_unregister c.current_transaction_id s
          else trigger_register c s)
      else trigger_unregister c.current_transaction_id s

  listen_from : Option ChargePointState × System sv → Connector → Bool → System sv
  unfolding listen
  listen_from (some st, s) c is_online = if st.trigger_message then listen c is_online s else s
  listen_from (none, s) c is_online = listen c is_online s

  -- The connector is looked up through its own charge point id.
  unfoldable pub check_listen_transaction : Connector → Bool → System sv → System sv
  unfolding listen_from get_charge_point
  check_listen_transaction c is_online s =
      listen_from (get_charge_point c.charge_point_id s) c is_online
