-- ===== src/Billing/Plans.antt =====
-- The choice of the payment plan: `choosePaymentPlan` of billing/affleck.go, and
-- `IsCurrentTimeRange` of entity/payment_plan.go. `now` is the minute of the day.
pub mod Choice
use evsys.Billing.Clock.{minute_of_day}
use evsys.Common.{
  Bool, Option, String, false, if◌then◌else◌, int_has_eq, leb, nat_has_eq, none, some,
  string_has_eq, true, ℕ, ◌&&◌, ◌==◌, ◌||◌,
}
use evsys.Entity.{PaymentPlan, Transaction}

-- What the database answers; an error comes with no plan.
pub record PlanDatabase : Type 0 where
  pub get_user_payment_plan : String → Option PaymentPlan
  pub get_default_payment_plan : Option PaymentPlan

unfoldable pub in_range : ℕ → ℕ → ℕ → Bool
in_range start end now =
    if leb start end then leb start now && leb now end else leb start now || leb now end

unfoldable pub is_parsed_range : Option ℕ → Option ℕ → ℕ → Bool
unfolding in_range
is_parsed_range (some start) (some end) now = in_range start end now
is_parsed_range (some start) none now = false
is_parsed_range none end now = false

unfoldable pub is_current_time_range : PaymentPlan → ℕ → Bool
unfolding is_parsed_range minute_of_day
is_current_time_range plan now =
    if plan.start_time == "" && plan.end_time == ""
    then true
    else if plan.start_time == "" || plan.end_time == ""
    then false
    else is_parsed_range (minute_of_day plan.start_time) (minute_of_day plan.end_time) now

abbrev pub current_plan : Option PaymentPlan → ℕ → Option PaymentPlan
current_plan none now = none
current_plan (some plan) now = if is_current_time_range plan now then some plan else none

abbrev pub has_plan : Option PaymentPlan → Bool
has_plan none = false
has_plan (some plan) = true

-- The default plan is read once and kept.
abbrev pub default_or_load : Option PaymentPlan → Option PaymentPlan → Option PaymentPlan
default_or_load none loaded = loaded
default_or_load (some plan) loaded = some plan

abbrev pub plan_chosen :
    PlanDatabase
    → Option PaymentPlan
    → Transaction
    → Option PaymentPlan
    → Option PaymentPlan × Transaction × Bool
plan_chosen db default_plan t (some plan) = (default_plan, record t { plan = some plan }, true)
plan_chosen db default_plan t none =
    let fallback = default_or_load default_plan db.get_default_payment_plan in
    (fallback, record t { plan = fallback }, has_plan fallback)

-- The default plan that is kept, the transaction, and whether there is no error.
unfoldable pub choose_payment_plan :
    Option PlanDatabase
    → ℕ
    → Option PaymentPlan
    → Transaction
    → Option PaymentPlan × Transaction × Bool
unfolding is_current_time_range
choose_payment_plan none now default_plan t = (default_plan, t, true)
choose_payment_plan (some db) now default_plan t =
    if t.username == ""
    then (default_plan, t, true)
    else plan_chosen db default_plan t (current_plan (db.get_user_payment_plan t.username) now)
