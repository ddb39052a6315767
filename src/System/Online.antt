-- ===== src/System/Online.antt =====
-- A charge point that connects or disconnects: `OnOnlineStatusChanged` of server/system_handler.go.
pub mod Watching
use evsys.Common.{
  Bool, Dict, Option, String, [], false, if◌then◌else◌, none, not, some, true, ℕ, ℤ, ◌&&◌, ◌∷◌,
}
use evsys.Entity.{Connector}
use evsys.System.Listen.{check_listen_transaction}
use evsys.System.Lookup.{get_charge_point}
use evsys.System.State.{
  ChargePointState, Outcome, Services, System, notify, online_notice, panicked, returned, save,
  status_notice,
}

abbrev differs : Bool → Bool → Bool
differs true b = not b
differs false b = b

module _ {sv : Services} where
  -- The loop over the connectors, in the order of the list.
  unfoldable pub listen_connectors : Dict ℤ Connector → Bool → String → System sv → System sv
  unfolding check_listen_transaction notify
  listen_connectors [] is_online status s = s
  listen_connectors ((k, c) ∷ cs) is_online status s =
      listen_connectors cs is_online status
        (notify (status_notice c.id status) (check_listen_transaction c is_online s))

  changed_online : String → Bool → ChargePointState → System sv → System sv
  unfolding listen_connectors notify
  changed_online id is_online st s =
      listen_connectors st.connectors is_online (if is_online then st.model.status else "Offline")
        (notify (online_notice id is_online) s)

  online_from : Option ChargePointState × System sv → String → Bool → ℕ → Outcome (System sv)
  unfolding changed_online save
  online_from (none, s) id is_online now = returned s
  online_from (some st, s) id is_online now =
      if not is_online && not st.model.is_online
      then returned s
      else let s1 =
          if differs st.model.is_online is_online then changed_online id is_online st s else s in
        let s2 =
          save (record st { model = record st.model { is_online = is_online; event_time = now } })
            s1 in
        if sv.has_database
        then returned (record s2 { store = (sv.update_online_status s2.store id is_online).0 })
        else panicked

  unfoldable pub on_online_status_changed : String → Bool → ℕ → System sv → Outcome (System sv)
  unfolding online_from get_charge_point
  on_online_status_changed id is_online now s = online_from (get_charge_point id s) id is_online now
