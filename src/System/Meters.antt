-- ===== src/System/Meters.antt =====
-- Meter values: `OnMeterValues` of server/system_handler.go, and `UnregisterConnector` of
-- server/trigger.go. The readings of voltage and current and the rate for the metrics, which are
-- floating-point numbers, are left out; the power rate is the exact value of the code's expression.
pub mod Recording
use evsys.Common.{
  Bool, Dict, List, Option, String, [], false, get, if◌then◌else◌, int64, int_has_eq, leb_ℤ, ltb,
  ltb_ℤ, nat_has_eq, none, pos, pos_part, put, some, string_has_eq, ℕ, ℤ, ◌&&◌, ◌*◌, ◌-ℤ◌, ◌-◌, ◌/◌,
  ◌==◌, ◌||◌, ◌∷◌,
}
use evsys.Entity.{Connector, MeterValue, SampledValue, Transaction, TransactionMeter, new_meter}
use evsys.Server.Message.{number}
use evsys.System.Lookup.{get_charge_point, get_connector}
use evsys.System.State.{
  ChargePointState, Lookup, Outcome, Services, System, failed, found, not_found, panicked, returned,
  ◌>>=◌,
}
use evsys.System.Stop.{timestamp_or}

pub record MeterValuesRequest : Type 0 where
  pub connector_id : ℤ
  pub transaction_id : Option ℤ
  pub meter_value : List MeterValue

abbrev pub energy_register : String
energy_register = "Energy.Active.Import.Register"

-- `float64(consumed) * (3600 / 1000) / seconds`, times 1000; the constant division gives 3.
unfoldable pub power_rate_of : ℕ → ℕ → ℕ
power_rate_of consumed seconds = consumed * (3600 / 1000) * 1000 / seconds

-- The meter with the rate since the last one, where both grew.
unfoldable pub with_rate : Option TransactionMeter → TransactionMeter → TransactionMeter
unfolding power_rate_of
with_rate none m = m
with_rate (some last) m =
    let consumed = int64 (m.value -ℤ last.value) in
    if ltb_ℤ (pos 0) consumed && ltb last.time m.time
    then record m { power_rate = pos (power_rate_of (pos_part consumed) (m.time - last.time)) }
    else m

unfoldable pub energy_reading :
    Transaction → Option TransactionMeter → SampledValue → TransactionMeter → TransactionMeter
unfolding with_rate
energy_reading t last v m =
    let m1 = record m { value = v.number; unit = v.unit; measurand = v.measurand } in
    let total = int64 (v.number -ℤ t.meter_start) in
    let m2 = if ltb_ℤ (pos 0) total then record m1 { consumed_energy = total } else m1 in
    with_rate last m2

unfoldable pub add_reading :
    Transaction → Option TransactionMeter → TransactionMeter → SampledValue → TransactionMeter
unfolding energy_reading
add_reading t last m v =
    let m1 = if v.measurand == energy_register then energy_reading t last v m else m in
    let m2 = if v.measurand == "SoC" then record m1 { battery_level = v.number } else m1 in
    if v.measurand == "Power.Active.Import" then record m2 { power_active = v.number } else m2

unfoldable pub add_readings :
    Transaction → Option TransactionMeter → TransactionMeter → List SampledValue → TransactionMeter
unfolding add_reading
add_readings t last m [] = m
add_readings t last m (v ∷ vs) = add_readings t last (add_reading t last m v) vs

-- The rate that the charge point reports replaces the calculated one.
unfoldable pub with_reported_power : TransactionMeter → TransactionMeter
with_reported_power m =
    if ltb_ℤ (pos 0) m.power_active then record m { power_rate = m.power_active } else m

abbrev pub is_triggered : List SampledValue → Bool
is_triggered [] = false
is_triggered (v ∷ vs) = v.context == "Trigger" || is_triggered vs

abbrev pub any_triggered : List MeterValue → Bool
any_triggered [] = false
any_triggered (m ∷ ms) = is_triggered m.sampled_value || any_triggered ms

-- The entries of one connector are dropped.
without_connector : String → ℤ → Dict ℤ (String × ℤ) → Dict ℤ (String × ℤ)
without_connector cp id [] = []
without_connector cp id ((k, (p, i)) ∷ d) =
    let rest = without_connector cp id d in if p == cp && i == id then rest else (k, (p, i)) ∷ rest

-- The transaction of the request, or the one that the connector holds.
unfoldable pub metered_transaction : MeterValuesRequest → Connector → Option ℤ
metered_transaction req c = elim req.transaction_id [
  | some id ↦ some id
  | none ↦
      if ltb_ℤ (pos 0) req.connector_id && leb_ℤ (pos 0) c.current_transaction_id
      then some c.current_transaction_id
      else none
]

module _ {sv : Services} where
  -- A meter with a reading is kept as the last one, priced and stored.
  keep_meter : Transaction → TransactionMeter → System sv → Outcome (System sv)
  unfolding with_reported_power
  keep_meter t m s =
      if ltb_ℤ (pos 0) m.value
      then if sv.has_billing
        then (let priced = (sv.on_billing_meter t (with_reported_power m)).0 in
            returned (record s {
              last_meter = put t.id priced s.last_meter;
              store = (sv.add_transaction_meter_value s.store priced).0;
            }))
        else panicked
      else returned s

  record_meter : ℤ → Connector → Transaction → ℕ → MeterValue → System sv → Outcome (System sv)
  unfolding add_readings timestamp_or new_meter keep_meter
  record_meter id c t now mv s =
      let time = timestamp_or now mv.timestamp in
      let m = new_meter id c.id c.status time in
      keep_meter t (add_readings t (get t.id s.last_meter) m mv.sampled_value) s

  unfoldable pub record_meters :
      ℤ → Connector → Transaction → ℕ → List MeterValue → System sv → Outcome (System sv)
  unfolding record_meter
  record_meters id c t now [] s = returned s
  record_meters id c t now (mv ∷ mvs) s =
      record_meter id c t now mv s >>= record_meters id c t now mvs

  metered :
      Lookup Transaction → ℤ → Connector → ℕ → List MeterValue → System sv → Outcome (System sv)
  unfolding record_meters
  metered (found t) id c now mvs s = record_meters id c t now mvs s
  metered not_found id c now mvs s = returned s
  metered failed id c now mvs s = returned s

  meters_of : Option ℤ → MeterValuesRequest → ℕ → Connector → System sv → Outcome (System sv)
  unfolding metered without_connector
  meters_of none req now c s = returned (
      if any_triggered req.meter_value
      then record s { trigger = without_connector c.charge_point_id c.id s.trigger }
      else s)
  meters_of (some id) req now c s =
      if sv.has_database
      then metered (sv.get_transaction s.store id) id c now req.meter_value s
      else returned s

  meters_from : Option ChargePointState × System sv → MeterValuesRequest → ℕ → Outcome (System sv)
  unfolding meters_of metered_transaction get_connector
  meters_from (none, s) req now = returned s
  meters_from (some st, s) req now =
      let (c, st', s') = get_connector req.connector_id st s in
      meters_of (metered_transaction req c) req now c s'

  unfoldable pub on_meter_values : String → MeterValuesRequest → ℕ → System sv → Outcome (System sv)
  unfolding meters_from get_charge_point
  on_meter_values cp req now s = meters_from (get_charge_point cp s) req now
