-- ===== src/System/Sweep/Reconcile.antt =====
-- Which transactions the sweep closes, whatever is in memory.
use evsys.Common.{
  All, All-map, Bool, List, Option, [], ap, false, if_true, if◌then◌else◌, inl, inr, int-cases,
  none, refl, some, sym, true, ℕ, ℤ, ◌-◌, ◌∙◌, ◌∷◌, ◌≡◌, ◌≢◌,
}
use evsys.Entity.{Connector, Transaction, TransactionMeter}
use evsys.System.Laws.{Laws}
use evsys.System.Lookup.{get_charge_point, get_connector}
use evsys.System.Lookup.Documents.{SameDocuments, get_charge_point_keeps, get_connector_keeps}
use evsys.System.State.{
  ChargePointState, Notice, Services, System, billing_alert, found, notify, panicked, returned,
  save, trigger_unregister, unregister_transaction, ◌>>=◌,
}
use evsys.System.Stop.Outcomes.{Updates}
use evsys.System.Sweep.{
  bill_and_settle, check_and_finish_transactions, closed_by_system, finish_abandoned_transaction,
  finish_all, finish_unfinished, release_at, release_connector, settle, transaction_release_grace,
  transaction_stale_after,
}
use evsys.System.Sweep.Release.{
  IsSwept, billed_IsSwept, closed_by_system-IsSwept, release_connector_store,
}

module _ {sv : Services} where
  -- Is there a document of the transaction?
  abbrev pub IsFiled : System sv → ℤ → Type 0
  IsFiled s id = (t : Transaction) × (sv.get_transaction s.store id ≡ found t)

  -- Is the document of the transaction a finished one?
  abbrev pub IsFinished : System sv → ℤ → Type 0
  IsFinished s id =
      (t : Transaction) × (sv.get_transaction s.store id ≡ found t) × (t.is_finished ≡ true)

  -- `s'` is `s` with one document finished.
  abbrev pub Finishes : ℤ → System sv → System sv → Type 0
  Finishes id s s' =
      ((j : ℤ) → id ≢ j → sv.get_transaction s'.store j ≡ sv.get_transaction s.store j)
      × (IsFiled s id → IsFinished s' id)

  -- `s'` is `s` with the documents of `ts` finished.
  abbrev pub FinishesAll : List Transaction → System sv → System sv → Type 0
  FinishesAll ts s s' =
      ((j : ℤ)
        → All (λ t. t.id ≢ j) ts
        → sv.get_transaction s'.store j ≡ sv.get_transaction s.store j)
      × All (λ t. IsFiled s t.id → IsFinished s' t.id) ts

  Finishes-IsFiled :
      (id : ℤ) (s s' : System sv) → Finishes id s s' → (j : ℤ) → IsFiled s j → IsFiled s' j
  Finishes-IsFiled id s s' (others, this) j (t, read) = elim (int-cases id j) [
    | inl same ↦
        let (t', read', _) = this (t, ap (sv.get_transaction s.store) same ∙ read) in
        (t', ap (sv.get_transaction s'.store) (sym same) ∙ read')
    | inr ne ↦ (t, others j ne ∙ read)
  ]

  Finishes-IsFinished :
      (id : ℤ) (s s' : System sv) → Finishes id s s' → (j : ℤ) → IsFinished s j → IsFinished s' j
  Finishes-IsFinished id s s' (others, this) j (t, read, done) = elim (int-cases id j) [
    | inl same ↦
        let (t', read', done') = this (t, ap (sv.get_transaction s.store) same ∙ read) in
        (t', ap (sv.get_transaction s'.store) (sym same) ∙ read', done')
    | inr ne ↦ (t, others j ne ∙ read, done)
  ]

module _ {sv : Services} (laws : Laws sv) where
  release_connector_keeps :
      (id key : ℤ) (c : Connector) (st : ChargePointState) (s : System sv)
      → SameDocuments s (release_connector id key c st s)
  release_connector_keeps id key c st s j = release_connector_store laws id key c st s j

  release_at_keeps :
      (o : Option ChargePointState) (s : System sv) (t : Transaction)
      → SameDocuments s (release_at (o, s) t)
  unfolding release_at save
  release_at_keeps none s t j = refl
  release_at_keeps (some st) s t j =
      let st1 = unregister_transaction t.id st in
      let (c, st2, s2) = get_connector t.connector_id st1 (save st1 s) in
      release_connector_keeps t.id t.connector_id c st2 s2 j
      ∙ get_connector_keeps laws t.connector_id st1 (save st1 s) j

  -- The documents after `settle` are those after the update.
  settle_documents :
      (t : Transaction) (s : System sv) (j : ℤ)
      → sv.get_transaction (settle t s).store j
        ≡ sv.get_transaction (sv.update_transaction s.store t).0 j
  unfolding settle notify
  settle_documents t s j =
      let s1 = record s { store = (sv.update_transaction s.store t).0 } in
      let (o, s2) = get_charge_point t.charge_point_id s1 in
      let s3 = release_at (o, s2) t in
      laws.after_delete_meter_values s3.store t.id j
      ∙ release_at_keeps o s2 t j
      ∙ get_charge_point_keeps laws t.charge_point_id s1 j

  settle-Finishes :
      {last : Option TransactionMeter} (old t : Transaction) (s : System sv)
      → Updates sv
      → IsSwept last old t
      → Finishes old.id s (settle t s)
  settle-Finishes old t s ups swept = (
    λ j ne.
        settle_documents t s j ∙ laws.updated_other s.store t j (λ e. ne (sym swept.same_id ∙ e)),
    λ (_, read). (
      t,
      settle_documents t s old.id
          ∙ ap (sv.get_transaction (sv.update_transaction s.store t).0) (sym swept.same_id)
          ∙ laws.updated s.store t (ap (sv.get_transaction s.store) swept.same_id ∙ read)
              (ups s.store t),
      swept.finished,
    ),
  )

  told_Finishes :
      {last : Option TransactionMeter} (b : Bool) (n : Notice) (old t : Transaction) (s : System sv)
      → Updates sv
      → IsSwept last old t
      → Finishes old.id s (settle t (if b then s else notify n s))
  unfolding notify
  told_Finishes true n old t s ups swept = settle-Finishes old t s ups swept
  told_Finishes false n old t s ups swept = settle-Finishes old t (notify n s) ups swept

  bill_and_settle-Finishes :
      (last : Option TransactionMeter) (old t : Transaction) (s : System sv)
      → sv.has_billing ≡ true
      → Updates sv
      → IsSwept last old t
      → (s' : System sv) × (bill_and_settle last t s ≡ returned s') × Finishes old.id s s'
  unfolding bill_and_settle notify
  bill_and_settle-Finishes none old t s billing ups swept =
      (settle t s, refl, settle-Finishes old t s ups swept)
  bill_and_settle-Finishes (some v) old t s billing ups swept =
      let t' = (sv.on_billing_finished t).0 in
      let n = billing_alert t.id in
      let swept' = billed_IsSwept laws (some v) old t swept in
      (
        settle t' (if (sv.on_billing_finished t).1 then s else notify n s),
        if_true _ panicked billing,
        told_Finishes (sv.on_billing_finished t).1 n old t' s ups swept',
      )

  pub finish_abandoned_Finishes :
      (t : Transaction) (s : System sv)
      → sv.has_billing ≡ true
      → Updates sv
      → (s' : System sv) × (finish_abandoned_transaction t s ≡ returned s') × Finishes t.id s s'
  unfolding finish_abandoned_transaction trigger_unregister
  finish_abandoned_Finishes t s billing ups =
      let last = sv.read_transaction_meter_value s.store t.id in
      let all = sv.read_all_transaction_meter_values s.store t.id in
      bill_and_settle-Finishes last t (closed_by_system last all t) (trigger_unregister t.id s)
        billing ups (closed_by_system-IsSwept last all t)

  -- A finished document stays finished through the rest of the sweep.
  finish_all-FinishesAll :
      (ts : List Transaction) (s : System sv)
      → sv.has_billing ≡ true
      → Updates sv
      → (s' : System sv) × (finish_all ts s ≡ returned s')
        × FinishesAll ts s s'
        × ((j : ℤ) → IsFinished s j → IsFinished s' j)
  unfolding finish_all
  finish_all-FinishesAll [] s billing ups = (s, refl, (λ j _. refl, tt), λ j h. h)
  finish_all-FinishesAll (t ∷ ts) s billing ups =
      let (s1, done1, first) = finish_abandoned_Finishes t s billing ups in
      let (s', done, (others, these), kept) = finish_all-FinishesAll ts s1 billing ups in
      (
        s',
        ap (λ r. r >>= finish_all ts) done1 ∙ done,
        (
          λ j (ne, nes). others j nes ∙ first.0 j ne,
          (
            λ filed. kept t.id (first.1 filed),
            All-map ts (λ u f filed. f (Finishes-IsFiled t.id s s1 first u.id filed)) these,
          ),
        ),
        λ j h. kept j (Finishes-IsFinished t.id s s1 first j h),
      )

  -- With a database and billing set and updates that succeed, a pass of the sweep goes through,
  -- whatever is in memory. Every transaction that the database
  -- lists and holds is finished afterwards, each document of another transaction is as it was, and
  -- what was finished before stays finished.
  pub sweep_finishes_listed :
      (now : ℕ) (s : System sv) {ts : List Transaction}
      → sv.has_database ≡ true
      → sv.has_billing ≡ true
      → Updates sv
      → sv.get_unfinished_transactions s.store
          (now - transaction_stale_after)
          (now - transaction_release_grace)
        ≡ some ts
      → (s' : System sv) × (check_and_finish_transactions now s ≡ returned s')
        × FinishesAll ts s s'
        × ((j : ℤ) → IsFinished s j → IsFinished s' j)
  unfolding check_and_finish_transactions
  sweep_finishes_listed now s {ts = ts} set billing ups listed =
      let (s', done, all, kept) = finish_all-FinishesAll ts s billing ups in
      (s', if_true _ (returned s) set ∙ ap (λ o. finish_unfinished o s) listed ∙ done, all, kept)
