-- ===== src/Tests/Sweeping.antt =====
-- The sweep and the reconciliation after a boot, on the database in memory.
use evsys.Common.{[], none, pos, refl, ℕ, ℤ, ◌∷◌, ◌≡◌}
use evsys.Entity.{TransactionMeter, new_meter}
use evsys.System.State.{System, returned}
use evsys.System.Sweep.{
  check_and_finish_transactions, finish_abandoned_transaction, reconcile_charge_point_transactions,
}
use evsys.System.Sweep.Finish.{IsClosed, finish_abandoned_closes}
use evsys.System.Sweep.Reconcile.{FinishesAll, IsFinished, sweep_finishes_listed}
use evsys.System.Sweep.Reporting.{Reconciled, reconcile_finishes_silent}
use evsys.Tests.Memory.{memory, memory_laws}
use evsys.Tests.Sessions.{connector-InMemory, connector_with, session, system_of, taken_over}

abbrev sample : ℤ → ℕ → TransactionMeter
sample id time = record (new_meter id (pos 1) "Charging" time) { value = pos 700 }

abbrev reporting_system : System memory
reporting_system = record (system_of (connector_with (pos 6)) taken_over) {
  store = record { transactions = taken_over; samples = sample (pos 6) 4000 ∷ [] };
}

finish_abandoned_closes_example :
    let s = system_of (connector_with (pos 6)) taken_over in
    (s' : System memory) × (finish_abandoned_transaction (session (pos 6)) s ≡ returned s')
    × IsClosed (session (pos 6)) (connector_with (pos 6)) none s.store s'
finish_abandoned_closes_example =
    finish_abandoned_closes memory_laws (session (pos 6))
      (system_of (connector_with (pos 6)) taken_over) (connector-InMemory (pos 6) taken_over) refl
      (λ db t. refl) refl

sweep_finishes_listed_example :
    let s = system_of (connector_with (pos 6)) taken_over in
    (s' : System memory) × (check_and_finish_transactions 9000 s ≡ returned s')
    × FinishesAll (session (pos 6) ∷ []) s s'
    × ((j : ℤ) → IsFinished s j → IsFinished s' j)
sweep_finishes_listed_example =
    sweep_finishes_listed memory_laws 9000 (system_of (connector_with (pos 6)) taken_over) refl refl
      (λ db t. refl) refl

reconcile_finishes_silent_example :
    (s' : System memory) × (reconcile_charge_point_transactions "CP1" 4050 reporting_system
      ≡ returned s')
    × Reconciled 4050 (session (pos 6) ∷ []) reporting_system s'
reconcile_finishes_silent_example =
    reconcile_finishes_silent memory_laws "CP1" 4050 reporting_system refl refl (λ db t. refl) refl

-- A reading 50 seconds old: nothing changes.
recent_is_spared :
    reconcile_charge_point_transactions "CP1" 4050 reporting_system ≡ returned reporting_system
unfolding reconcile_charge_point_transactions new_meter
recent_is_spared = refl
