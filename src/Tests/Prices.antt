-- ===== src/Tests/Prices.antt =====
-- Prices of a session of two and a half hours.
use evsys.Billing.{billed_minutes, on_meter_value, on_transaction_finished}
use evsys.Billing.Prices.{finished_price, running_price_bounded}
use evsys.Common.{arith, pos, refl, some, ◌*◌, ◌+◌, ◌/◌, ◌<◌, ◌≡◌, ◌≤ℤ◌}
use evsys.Entity.{PaymentPlan, Transaction, TransactionMeter, new_meter}
use evsys.Tests.Sessions.{session}

abbrev plan : PaymentPlan
plan = record { price_per_hour = pos 200; price_per_kwh = pos 45; start_time = ""; end_time = "" }

abbrev charged : Transaction
charged = record (session (pos 6)) {
  plan = some plan;
  meter_start = pos 1000;
  meter_stop = pos 21000;
  time_start = 0;
  time_stop = 9000;
}

abbrev halfway : TransactionMeter
halfway = record (new_meter (pos 6) (pos 1) "" 5000) { value = pos 11000 }

fits : billed_minutes 0 9000 * 200 < 9223372036854775808
unfolding billed_minutes
fits = omega arith

value_of_halfway : halfway.value ≡ pos 11000
unfolding new_meter
value_of_halfway = refl

finished_price_example :
    (on_transaction_finished charged).payment_amount ≡ pos (billed_minutes 0 9000 * 200 / 60 + 900)
finished_price_example =
    finished_price charged plan 200 45 1000 21000 refl refl refl (omega arith) (omega arith)
      (refl, refl, fits, omega arith)

running_price_bounded_example :
    (on_meter_value charged halfway).price ≤ℤ (on_transaction_finished charged).payment_amount
unfolding new_meter
running_price_bounded_example =
    running_price_bounded charged halfway plan 200 45 1000 11000 21000 refl refl refl
      value_of_halfway (omega arith) (omega arith) (omega arith) (omega arith)
      (refl, refl, fits, omega arith)
