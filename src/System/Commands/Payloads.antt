-- ===== src/System/Commands/Payloads.antt =====
-- What the commands make of their payloads: server/system_handler.go.
use evsys.Common.{
  All, IsInt64, List, String, get, int_has_eq, nat_has_eq, refl, some, string_has_eq, ℤ, ◌≡◌,
}
use evsys.System.Commands.{
  get_configuration_request, on_get_configuration, on_remote_stop_transaction,
  remote_stop_transaction_request,
}
use evsys.System.Lookup.Known.{get_charge_point_known}
use evsys.System.State.{ChargePointState, Services, System}
use evsys.Texts.{itoa, join}
use evsys.Texts.Decimal.{parse_int-itoa}
use evsys.Texts.Split.{IsName, items_of_join}

module _ {sv : Services} where
  -- A remote stop of a charge point in memory, whose payload is the decimal text of a transaction id
  -- of 64 bits, asks for that transaction to be stopped and changes nothing.
  pub remote_stop_names_transaction :
      (cp : String) (id : ℤ) (s : System sv) {st : ChargePointState}
      → get cp s.charge_points ≡ some st
      → IsInt64 id
      → on_remote_stop_transaction cp (itoa id) s ≡ (some (remote_stop_transaction_request id), s)
  unfolding on_remote_stop_transaction
  remote_stop_names_transaction cp id s present range =
      rw (get_charge_point_known cp s present, parse_int-itoa id range) refl

  -- A request for the configuration of a charge point in memory, whose payload lists names, trimmed,
  -- not empty and without commas, asks for exactly those names, in their order; no name asks for all.
  pub get_configuration_names :
      (cp : String) (names : List String) (s : System sv) {st : ChargePointState}
      → get cp s.charge_points ≡ some st
      → All IsName names
      → on_get_configuration cp (join names) s ≡ (some (get_configuration_request names), s)
  unfolding on_get_configuration
  get_configuration_names cp names s present are_names =
      rw (get_charge_point_known cp s present, items_of_join names are_names) refl
