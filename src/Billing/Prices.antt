-- ===== src/Billing/Prices.antt =====
-- What a session costs, and the running price against the final one: billing/affleck.go.
use evsys.Billing.{
  billed_minutes, duration_price, on_meter_value, on_transaction_finished, price_for,
}
use evsys.Billing.Plans.{has_plan}
use evsys.Common.{
  Bool-cases, ap, arith, false, if◌then◌else◌, inl, inr, int64, int64_of_IsInt64, ltb, ltb_ℤ, mul_ℤ,
  pos, quot_ℤ, refl, some, suc, sym, true, zero, ℕ, ◌*◌, ◌+ℤ◌, ◌+◌, ◌-ℤ◌, ◌-◌, ◌/◌, ◌<◌, ◌≡◌, ◌≤ℤ◌,
  ◌≤◌,
}
use evsys.Entity.{PaymentPlan, Transaction, TransactionMeter}

price_in_range : (n : ℕ) → n < 9223372036854775808 → int64 (pos n) ≡ pos n
price_in_range n h = int64_of_IsInt64 (pos n) (h, omega arith)

sum_of_pos : (a b : ℕ) → pos a +ℤ pos b ≡ pos (a + b)
unfolding ◌+ℤ◌
sum_of_pos a b = ground arith

difference_of_pos : (a c : ℕ) → a ≤ c → pos c -ℤ pos a ≡ pos (c - a)
unfolding ◌-ℤ◌
difference_of_pos a c h = ground arith

times_mono : (a b h : ℕ) → a ≤ b → a * h ≤ b * h
times_mono a b zero le = omega arith
times_mono a b (suc h) le = let rest = times_mono a b h le in omega arith

no_minutes : (h : ℕ) → 0 * h / 60 ≡ 0
no_minutes h = omega arith

no_energy : (k : ℕ) → 0 * k / 1000 ≡ 0
no_energy k = omega arith

none_billed : (start stop : ℕ) → ltb (start + 3600) stop ≡ false → billed_minutes start stop ≡ 0
unfolding billed_minutes
none_billed start stop under = ground arith

duration_price_exact :
    (h start stop : ℕ)
    → billed_minutes start stop * h < 9223372036854775808
    → duration_price (pos h) start stop ≡ pos (billed_minutes start stop * h / 60)
unfolding duration_price
duration_price_exact h start stop low = elim (Bool-cases (ltb (start + 3600) stop)) [
  | inl over ↦ rw (over, price_in_range (billed_minutes start stop * h) low) refl
  | inr under ↦ rw (under, none_billed start stop under) (ap pos (sym (no_minutes h)))
]

some_energy : (c : ℕ) → ltb_ℤ (pos 0) (pos (suc c)) ≡ true
some_energy c = ground arith

-- The price of the energy, added to a price that is in range.
energy_price_exact :
    (price c k : ℕ)
    → price ≤ 153722867280912930
    → c * k < 9223372036854775808
    → (if ltb_ℤ (pos 0) (pos c)
        then int64 (pos price +ℤ quot_ℤ (int64 (mul_ℤ (pos c) (pos k))) 1000)
        else pos price)
      ≡ pos (price + c * k / 1000)
energy_price_exact price zero k low low_k = ap pos (omega arith)
energy_price_exact price (suc c) k low low_k =
    rw
      (
        some_energy c,
        price_in_range (suc c * k) low_k,
        sum_of_pos price (suc c * k / 1000),
        price_in_range (price + suc c * k / 1000) (omega arith),
      )
      refl

price_exact :
    (plan : PaymentPlan) (h k start stop c : ℕ)
    → plan.price_per_hour ≡ pos h
    → plan.price_per_kwh ≡ pos k
    → billed_minutes start stop * h < 9223372036854775808
    → c * k < 9223372036854775808
    → price_for plan start stop (pos c) ≡ pos (billed_minutes start stop * h / 60 + c * k / 1000)
unfolding price_for
price_exact plan h k start stop c is_h is_k low_h low_k =
    rw (is_h, is_k, duration_price_exact h start stop low_h)
      (energy_price_exact (billed_minutes start stop * h / 60) c k (omega arith) low_k)

-- A plan with the prices h and k, where the price of the time from `start` to `stop` and of c
-- units of energy fits into an `int`.
abbrev IsPriced : PaymentPlan → ℕ → ℕ → ℕ → ℕ → ℕ → Type 0
IsPriced plan h k start stop c =
    (plan.price_per_hour ≡ pos h)
    × (plan.price_per_kwh ≡ pos k)
    × (billed_minutes start stop * h < 9223372036854775808)
    × (c * k < 9223372036854775808)

consumed_exact : (a c : ℕ) → a ≤ c → c < 9223372036854775808 → int64 (pos c -ℤ pos a) ≡ pos (c - a)
consumed_exact a c le low = rw (difference_of_pos a c le) (price_in_range (c - a) (omega arith))

-- The final price of a session with a plan whose prices are not negative and a meter that did not
-- run backwards is exact, where the two products fit: whole minutes after the first hour at the
-- price of an hour, rounded down, and the energy at the price of a kWh, rounded down.
pub finished_price :
    (t : Transaction) (plan : PaymentPlan) (h k a b : ℕ)
    → t.plan ≡ some plan
    → t.meter_start ≡ pos a
    → t.meter_stop ≡ pos b
    → a ≤ b
    → b < 9223372036854775808
    → IsPriced plan h k t.time_start t.time_stop (b - a)
    → (on_transaction_finished t).payment_amount
      ≡ pos (billed_minutes t.time_start t.time_stop * h / 60 + (b - a) * k / 1000)
unfolding on_transaction_finished
finished_price t plan h k a b has_plan from to le low priced =
    rw (has_plan, from, to, consumed_exact a b le low)
      (price_exact plan h k t.time_start t.time_stop (b - a) priced.0 priced.1 priced.2 priced.3)

metered_price :
    (t : Transaction) (m : TransactionMeter) (plan : PaymentPlan) (h k a v : ℕ)
    → t.plan ≡ some plan
    → t.meter_start ≡ pos a
    → m.value ≡ pos v
    → a ≤ v
    → v < 9223372036854775808
    → IsPriced plan h k t.time_start m.time (v - a)
    → (on_meter_value t m).price
      ≡ pos (billed_minutes t.time_start m.time * h / 60 + (v - a) * k / 1000)
unfolding on_meter_value
metered_price t m plan h k a v has_plan from to le low priced =
    rw (has_plan, from, to, consumed_exact a v le low)
      (price_exact plan h k t.time_start m.time (v - a) priced.0 priced.1 priced.2 priced.3)

billed_later :
    (start early late : ℕ) → early ≤ late → billed_minutes start early ≤ billed_minutes start late
unfolding billed_minutes
billed_later start early late le = omega arith

priced_sum_mono : (x y u v : ℕ) → x ≤ y → u ≤ v → x / 60 + u / 1000 ≤ y / 60 + v / 1000
priced_sum_mono x y u v low high = omega arith

-- The running price that a user sees is never above the final price: for a meter value taken
-- before the stop, whose value is between the start and the end of the meter, of a session whose
-- plan has no negative price and whose final price fits.
pub running_price_bounded :
    (t : Transaction) (m : TransactionMeter) (plan : PaymentPlan) (h k a v b : ℕ)
    → t.plan ≡ some plan
    → t.meter_start ≡ pos a
    → t.meter_stop ≡ pos b
    → m.value ≡ pos v
    → m.time ≤ t.time_stop
    → a ≤ v
    → v ≤ b
    → b < 9223372036854775808
    → IsPriced plan h k t.time_start t.time_stop (b - a)
    → (on_meter_value t m).price ≤ℤ (on_transaction_finished t).payment_amount
running_price_bounded t m plan h k a v b has_plan from to at early started le low priced =
    let minutes =
      times_mono (billed_minutes t.time_start m.time) (billed_minutes t.time_start t.time_stop) h
        (billed_later t.time_start m.time t.time_stop early) in
    let energy = times_mono (v - a) (b - a) k (omega arith) in
    let shown =
      metered_price t m plan h k a v has_plan from at started (omega arith)
        (priced.0, priced.1, omega arith, omega arith) in
    let final = finished_price t plan h k a b has_plan from to (omega arith) low priced in
    rw (shown, final) (omega arith)
