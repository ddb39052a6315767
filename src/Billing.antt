-- ===== src/Billing.antt =====
-- Prices of a session: `OnTransactionFinished` and `OnMeterValue` of billing/affleck.go. A time is
-- a number of seconds; `int` keeps its wrap-around.
pub mod Clock
pub mod Plans
pub mod Prices
use evsys.Common.{
  if◌then◌else◌, int64, ltb, ltb_ℤ, mul_ℤ, none, pos, quot_ℤ, some, ℕ, ℤ, ◌+ℤ◌, ◌+◌, ◌-ℤ◌, ◌-◌, ◌/◌,
}
use evsys.Entity.{PaymentPlan, Transaction, TransactionMeter}

-- `int(duration)` where it is positive: the whole minutes after the first hour.
unfoldable pub billed_minutes : ℕ → ℕ → ℕ
billed_minutes start stop = (stop - start) / 60 - 60

-- The price of the time, at `hourly` an hour.
unfoldable pub duration_price : ℤ → ℕ → ℕ → ℤ
unfolding billed_minutes
duration_price hourly start stop =
    if ltb (start + 3600) stop
    then quot_ℤ (int64 (mul_ℤ (pos (billed_minutes start stop)) hourly)) 60
    else pos 0

unfoldable pub price_for : PaymentPlan → ℕ → ℕ → ℤ → ℤ
unfolding duration_price
price_for plan start stop consumed =
    let price = duration_price plan.price_per_hour start stop in
    if ltb_ℤ (pos 0) consumed
    then int64 (price +ℤ quot_ℤ (int64 (mul_ℤ consumed plan.price_per_kwh)) 1000)
    else price

unfoldable pub on_transaction_finished : Transaction → Transaction
unfolding price_for
on_transaction_finished t = elim t.plan [
  | none ↦ t
  | some plan ↦ record t {
    payment_amount =
        price_for plan t.time_start t.time_stop (int64 (t.meter_stop -ℤ t.meter_start));
  }
]

unfoldable pub on_meter_value : Transaction → TransactionMeter → TransactionMeter
unfolding price_for
on_meter_value t m = elim t.plan [
  | none ↦ m
  | some plan ↦ record m {
    price = price_for plan t.time_start m.time (int64 (m.value -ℤ t.meter_start));
  }
]
