-- ===== src/System/Listen/Offline.antt =====
-- A connector of a charge point that is offline is not asked for meter values.
use evsys.Common.{
  Option, ap, arith, false, get, if_true, int_has_eq, nat_has_eq, some, string_has_eq, true, ◌∙◌,
  ◌≡◌,
}
use evsys.Entity.{Connector}
use evsys.System.Listen.{check_listen_transaction, listen, listen_from}
use evsys.System.Lookup.Known.{get_charge_point_known}
use evsys.System.State.{ChargePointState, Services, System, trigger_unregister}

module _ {sv : Services} where
  listen_offline :
      (c : Connector) (s : System sv)
      → listen c false s ≡ trigger_unregister c.current_transaction_id s
  unfolding listen
  listen_offline c s = ground arith

  pub check_offline :
      (c : Connector) (s : System sv) {st : ChargePointState}
      → get c.charge_point_id s.charge_points ≡ some st
      → st.trigger_message ≡ true
      → check_listen_transaction c false s ≡ trigger_unregister c.current_transaction_id s
  unfolding check_listen_transaction listen_from
  check_offline c s present on =
      ap (λ (r : Option ChargePointState × System sv). listen_from r c false)
        (get_charge_point_known c.charge_point_id s present)
      ∙ if_true (listen c false s) s on
      ∙ listen_offline c s
