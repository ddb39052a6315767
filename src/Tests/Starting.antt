-- ===== src/Tests/Starting.antt =====
-- A start of the handler, on the system in memory.
use evsys.Common.{
  Bool-cases, IsInt64, List, Option, [], arith, false, if_false, if◌then◌else◌, inl, inr,
  int_eq_iff, int_has_eq, ltb_ℤ, nat_has_eq, none, pos, refl, some, string_has_eq, subst, sym, true,
  ℤ, ◌+ℤ◌, ◌<ℤ◌, ◌==◌, ◌∙◌, ◌∷◌, ◌≡◌, ◌≤ℤ◌,
}
use evsys.Entity.{ChargePoint, Transaction}
use evsys.System.Lookup.{new_charge_point}
use evsys.System.Lookup.Documents.{SameDocuments}
use evsys.System.Startup.{StartReads, load_charge_points, on_start}
use evsys.System.Startup.Ids.{ReadsLaws, after_points, start_continues_ids}
use evsys.System.State.{System, found}
use evsys.Tests.Memory.{find, memory, memory_laws}
use evsys.Tests.Sessions.{connector_with, session}

abbrev newer : Transaction → Option Transaction → Transaction
newer t none = t
newer t (some u) = if ltb_ℤ u.id t.id then t else u

abbrev last_of : List Transaction → Option Transaction
last_of [] = none
last_of (t ∷ ts) = some (newer t (last_of ts))

-- The transaction that is there, and the id is not above its id.
abbrev Covers : ℤ → Option Transaction → Type 0
Covers id none = true ≡ false
Covers id (some u) = id ≤ℤ u.id

newer-head : (t : Transaction) (o : Option Transaction) → t.id ≤ℤ (newer t o).id
newer-head t none = ground arith
newer-head t (some u) = ground arith

newer-tail :
    (id : ℤ) (t : Transaction) (o : Option Transaction) → Covers id o → id ≤ℤ (newer t o).id
newer-tail id t (some u) h = ground arith
newer-tail id t none h = ground arith

last_of-Covers :
    (id : ℤ) (ts : List Transaction) {t : Transaction}
    → find id ts ≡ found t
    → Covers id (last_of ts)
last_of-Covers id [] h = ground arith
last_of-Covers id (t ∷ ts) {t = u} h = elim (Bool-cases (t.id == id)) [
  | inl same ↦
      subst (λ i. i ≤ℤ (newer t (last_of ts)).id) ((int_eq_iff t.id id).0 same)
        (newer-head t (last_of ts))
  | inr other ↦
      newer-tail id t (last_of ts)
        (last_of-Covers id ts (sym (if_false (found t) (find id ts) other) ∙ h))
]

abbrev point : ChargePoint
point = record (new_charge_point "CP1") { connectors = connector_with (pos 7) ∷ [] }

abbrev reads : StartReads memory
reads = record {
  reset_online_status = λ db. (db, true);
  get_charge_points = λ db. some (point ∷ []);
  get_last_transaction = λ db. last_of db.transactions;
  read_last_meter_values = λ db. none;
}

reads_laws : ReadsLaws reads
reads_laws = record {
  after_reset = λ db id. refl;
  last_is_highest = λ db {last} id {t} is_last there.
      subst (Covers id) is_last (last_of-Covers id db.transactions there);
}

abbrev before : System memory
before = record {
  charge_points = [];
  next_transaction_id = pos 1;
  last_meter = [];
  trigger = [];
  notices = [];
  store = record { transactions = session (pos 3) ∷ session (pos 7) ∷ []; samples = [] };
}

last_is_seven :
    reads.get_last_transaction (after_points reads (point ∷ []) before).store
    ≡ some (session (pos 7))
unfolding load_charge_points new_charge_point
last_is_seven = refl

eight-IsInt64 : IsInt64 (pos 8)
eight-IsInt64 = ground arith

start_continues_ids_example :
    (s' : System memory) × (on_start reads true before ≡ (true, s'))
    × (s'.next_transaction_id ≡ pos 7 +ℤ pos 1)
    × ((id : ℤ) (t : Transaction)
        → memory.get_transaction s'.store id ≡ found t
        → id <ℤ s'.next_transaction_id)
    × SameDocuments before s'
unfolding ◌+ℤ◌
start_continues_ids_example =
    start_continues_ids memory_laws reads reads_laws (point ∷ []) before refl refl last_is_seven
      eight-IsInt64
