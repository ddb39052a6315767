-- ===== src/System/Sweep/Reporting.antt =====
-- Which transactions the reconciliation after a boot closes, whatever is in memory:
-- `reconcileChargePointTransactions` of server/system_handler.go.
use evsys.Common.{
  Bool-cases, List, Option-cases, String, [], ap, arith, false, if_false, if_true, inl, inr, ltb,
  none, refl, some, true, ℕ, ℤ, ◌+◌, ◌<◌, ◌∙◌, ◌∷◌, ◌≡◌, ◌≤◌, ◌⊎◌,
}
use evsys.Entity.{Transaction, TransactionMeter}
use evsys.System.Laws.{Laws}
use evsys.System.State.{Services, System, returned, ◌>>=◌}
use evsys.System.Stop.Outcomes.{Updates}
use evsys.System.Sweep.{
  finish_abandoned_transaction, is_reporting, reconcile_all, reconcile_charge_point_transactions,
  reconcile_unfinished,
}
use evsys.System.Sweep.Reconcile.{Finishes, finish_abandoned_Finishes}

module _ {sv : Services} where
  -- The last reading of the transaction that the database has is less than 120 seconds old.
  abbrev pub Reports : ℕ → System sv → ℤ → Type 0
  Reports now s id =
      (m : TransactionMeter) × (sv.read_transaction_meter_value s.store id ≡ some m)
      × (now < m.time + 120)

  -- There is no reading, or the last one is 120 seconds old or older.
  abbrev pub Silent : ℕ → System sv → ℤ → Type 0
  Silent now s id =
      (sv.read_transaction_meter_value s.store id ≡ none)
      ⊎ ((m : TransactionMeter) × (sv.read_transaction_meter_value s.store id ≡ some m)
          × (m.time + 120 ≤ now))

  -- A run over a list: a transaction whose charge point reports is passed over, and the state stays
  -- exactly as it is; one that is silent is finished.
  pub data Reconciled (now : ℕ) : List Transaction → System sv → System sv → Type 0 where
    all_done : {s : System sv} → Reconciled now [] s s
    spared :
        {t : Transaction} {ts : List Transaction} {s s' : System sv}
        → Reports now s t.id
        → Reconciled now ts s s'
        → Reconciled now (t ∷ ts) s s'
    finished_here :
        {t : Transaction} {ts : List Transaction} {s s1 s' : System sv}
        → Silent now s t.id
        → Finishes t.id s s1
        → Reconciled now ts s1 s'
        → Reconciled now (t ∷ ts) s s'

  is_reporting-Reports :
      (now : ℕ) (t : Transaction) (s : System sv)
      → (Reports now s t.id × (is_reporting now t s ≡ true))
        ⊎ (Silent now s t.id × (is_reporting now t s ≡ false))
  unfolding is_reporting
  is_reporting-Reports now t s =
      elim (Option-cases (sv.read_transaction_meter_value s.store t.id)) [
        | inl absent ↦ inr (inl absent, rw (is_reporting, absent) refl)
        | inr (m, there) ↦ elim (Bool-cases (ltb now (m.time + 120))) [
          | inl recent ↦ inl ((m, there, ground arith), rw (is_reporting, there) recent)
          | inr old ↦ inr (inr (m, there, ground arith), rw (is_reporting, there) old)
        ]
      ]

module _ {sv : Services} (laws : Laws sv) where
  reconcile_all-Reconciled :
      (now : ℕ) (ts : List Transaction) (s : System sv)
      → sv.has_billing ≡ true
      → Updates sv
      → (s' : System sv) × (reconcile_all now ts s ≡ returned s') × Reconciled now ts s s'
  unfolding reconcile_all
  reconcile_all-Reconciled now [] s billing ups = (s, refl, all_done)
  reconcile_all-Reconciled now (t ∷ ts) s billing ups = elim (is_reporting-Reports now t s) [
    | inl (reports, reporting) ↦
        let (s', done, rest) = reconcile_all-Reconciled now ts s billing ups in
        (
          s',
          ap (λ r. r >>= reconcile_all now ts)
                (if_true (returned s) (finish_abandoned_transaction t s) reporting)
              ∙ done,
          spared reports rest,
        )
    | inr (silent, quiet) ↦
        let (s1, done1, first) = finish_abandoned_Finishes laws t s billing ups in
        let (s', done, rest) = reconcile_all-Reconciled now ts s1 billing ups in
        (
          s',
          ap (λ r. r >>= reconcile_all now ts)
                (if_false (returned s) (finish_abandoned_transaction t s) quiet ∙ done1)
              ∙ done,
          finished_here silent first rest,
        )
  ]

  -- With a database and billing set and updates that succeed, the reconciliation of a charge point goes
  -- through its listed open transactions one after the other: one whose last reading is less than
  -- 120 seconds old is passed over and nothing changes, and each other one, with an older reading or
  -- none, is finished, while every document of another transaction stays.
  pub reconcile_finishes_silent :
      (cp : String) (now : ℕ) (s : System sv) {ts : List Transaction}
      → sv.has_database ≡ true
      → sv.has_billing ≡ true
      → Updates sv
      → sv.get_unfinished_transactions_of s.store cp ≡ some ts
      → (s' : System sv) × (reconcile_charge_point_transactions cp now s ≡ returned s')
        × Reconciled now ts s s'
  unfolding reconcile_charge_point_transactions
  reconcile_finishes_silent cp now s {ts = ts} set billing ups listed =
      let (s', done, run) = reconcile_all-Reconciled now ts s billing ups in
      (s', if_true _ (returned s) set ∙ ap (λ o. reconcile_unfinished o now s) listed ∙ done, run)
