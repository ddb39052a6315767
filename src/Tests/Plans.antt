-- ===== src/Tests/Plans.antt =====
-- The choice of a plan for a session at noon.
use evsys.Billing.Clock.{minute_of_day}
use evsys.Billing.Plans.{PlanDatabase, choose_payment_plan, current_plan, is_current_time_range}
use evsys.Common.{false, none, pos, refl, some, true, ◌≡◌}
use evsys.Entity.{PaymentPlan, Transaction}
use evsys.Tests.Sessions.{session}

abbrev evening : PaymentPlan
evening = record {
  price_per_hour = pos 100;
  price_per_kwh = pos 30;
  start_time = "20:00";
  end_time = "6:30";
}

abbrev standard : PaymentPlan
standard = record evening { price_per_kwh = pos 45; start_time = ""; end_time = "" }

abbrev plans : PlanDatabase
plans = record {
  get_user_payment_plan = λ name. some evening;
  get_default_payment_plan = some standard;
}

abbrev changed_plans : PlanDatabase
changed_plans = record plans { get_default_payment_plan = none }

abbrev guest : Transaction
guest = record (session (pos 6)) { username = "guest" }

evening_at_midnight : is_current_time_range evening 0 ≡ true
unfolding is_current_time_range
evening_at_midnight = refl

evening_at_noon : is_current_time_range evening 720 ≡ false
unfolding is_current_time_range
evening_at_noon = refl

guest_gets_standard : (choose_payment_plan (some plans) 720 none guest).1.plan ≡ some standard
unfolding choose_payment_plan
guest_gets_standard = refl

no_plan_at_noon : current_plan (some evening) 720 ≡ none
unfolding is_current_time_range
no_plan_at_noon = refl

evening_starts_at : minute_of_day "20:00" ≡ some 1200
unfolding minute_of_day
evening_starts_at = refl
