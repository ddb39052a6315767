-- ===== src/Billing/Plans/Choice.antt =====
-- When a plan applies, and which plan a session gets: billing/affleck.go and
-- entity/payment_plan.go.
use evsys.Billing.Plans.{PlanDatabase, choose_payment_plan, current_plan}
use evsys.Common.{
  Option, false, int_has_eq, nat_has_eq, none, refl, some, string_has_eq, true, ℕ, ◌==◌, ◌≡◌,
}
use evsys.Entity.{PaymentPlan, Transaction}

-- The default plan that one session fell back on is the plan of every later session of a user
-- without a plan that applies, whatever the database holds by then.
pub default_plan_kept :
    (db db2 : PlanDatabase) (now now2 : ℕ) (default_plan : Option PaymentPlan) (t t2 : Transaction)
    (plan : PaymentPlan)
    → (t.username == "") ≡ false
    → (t2.username == "") ≡ false
    → current_plan (db.get_user_payment_plan t.username) now ≡ none
    → current_plan (db2.get_user_payment_plan t2.username) now2 ≡ none
    → (choose_payment_plan (some db) now default_plan t).1.plan ≡ some plan
    → choose_payment_plan (some db2) now2 (choose_payment_plan (some db) now default_plan t).0 t2
      ≡ (some plan, record t2 { plan = some plan }, true)
unfolding choose_payment_plan
default_plan_kept db db2 now now2 default_plan t t2 plan named named2 no_plan no_plan2 fell_back =
    let loaded = rw (named, no_plan) at fell_back in
    rw (named, named2, no_plan, no_plan2, loaded) refl
