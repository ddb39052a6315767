-- ===== src/Tests/Memory.antt =====
-- A database in memory, and the services of a system that uses it.
use evsys.Common.{
  Bool-cases, List, Option, [], ap, arith, eq_self, false, if_false, if_true, if◌then◌else◌, inl,
  inr, int_eq_iff, int_has_eq, nat_has_eq, none, pos, refl, some, string_has_eq, sym, true, ℤ, ◌==◌,
  ◌∙◌, ◌∷◌, ◌≡◌, ◌≢◌,
}
use evsys.Entity.{Transaction, TransactionMeter}
use evsys.System.Laws.{Laws}
use evsys.System.State.{Lookup, Services, failed, found, not_found}

pub record Documents : Type 0 where
  pub transactions : List Transaction
  pub samples : List TransactionMeter

abbrev pub find : ℤ → List Transaction → Lookup Transaction
find id [] = not_found
find id (t ∷ ts) = let rest = find id ts in if t.id == id then found t else rest

abbrev pub replace : Transaction → List Transaction → List Transaction
replace t [] = []
replace t (u ∷ us) = let rest = replace t us in if u.id == t.id then t ∷ us else u ∷ rest

abbrev pub samples_of : ℤ → List TransactionMeter → List TransactionMeter
samples_of id [] = []
samples_of id (m ∷ ms) = let rest = samples_of id ms in if m.id == id then m ∷ rest else rest

abbrev pub samples_without : ℤ → List TransactionMeter → List TransactionMeter
samples_without id [] = []
samples_without id (m ∷ ms) =
    let rest = samples_without id ms in if m.id == id then rest else m ∷ rest

abbrev pub unfinished : List Transaction → List Transaction
unfinished [] = []
unfinished (t ∷ ts) = let rest = unfinished ts in if t.is_finished then rest else t ∷ rest

abbrev pub first_sample : List TransactionMeter → Option TransactionMeter
first_sample [] = none
first_sample (m ∷ ms) = some m

abbrev pub some_samples : List TransactionMeter → Option (List TransactionMeter)
some_samples [] = none
some_samples (m ∷ ms) = some (m ∷ ms)

abbrev pub memory : Services
memory = record {
  Store = Documents;
  has_database = true;
  get_charge_point_doc = λ db id. none;
  add_charge_point_doc = λ db p. (db, true);
  update_charge_point = λ db p. (db, true);
  update_charge_point_status = λ db p. (db, true);
  update_online_status = λ db cp o. (db, true);
  get_connector_doc = λ db id cp. none;
  add_connector_doc = λ db c. (db, true);
  update_connector = λ db c. (db, true);
  get_transaction = λ db id. find id db.transactions;
  add_transaction = λ db t. (record db { transactions = t ∷ db.transactions }, true);
  update_transaction = λ db t. (record db { transactions = replace t db.transactions }, true);
  read_transaction_meter_value = λ db id. first_sample (samples_of id db.samples);
  read_all_transaction_meter_values = λ db id. some_samples (samples_of id db.samples);
  add_transaction_meter_value = λ db m. (record db { samples = m ∷ db.samples }, true);
  delete_transaction_meter_values =
      λ db id. (record db { samples = samples_without id db.samples }, true);
  save_stop_transaction_request = λ db r. (db, true);
  get_unfinished_transactions = λ db a b. some (unfinished db.transactions);
  get_unfinished_transactions_of = λ db cp. some (unfinished db.transactions);
  get_user_tag_doc = λ db id. none;
  add_user_tag = λ db u. (db, true);
  update_tag = λ db u. (db, true);
  update_tag_last_seen = λ db u. (db, true);
  get_active_user_tags = λ db cp v. some [];
  has_billing = true;
  on_billing_start = λ t. (t, true);
  on_billing_finished = λ t. (record t { payment_amount = pos 250 }, true);
  on_billing_meter = λ t m. (record m { price = pos 10 }, true);
  has_auth = false;
  authorize = λ cp tag evse. record { allowed = true; expired = false; blocked = false; info = "" };
  accept_tags = true;
  accept_points = true;
}

found_or : Transaction → Lookup Transaction → Transaction
found_or t (found u) = u
found_or t not_found = t
found_or t failed = t

found_eq : {t u : Transaction} → found t ≡ found u → t ≡ u
unfolding found_or
found_eq {t = t} h = ap (found_or t) h

find_own_id : (id : ℤ) (ts : List Transaction) (t : Transaction) → find id ts ≡ found t → t.id ≡ id
find_own_id id [] t h = ground arith
find_own_id id (u ∷ us) t h = elim (Bool-cases (u.id == id)) [
  | inl same ↦
      ap (λ (v : Transaction). v.id) (found_eq (sym h ∙ if_true (found u) (find id us) same))
      ∙ (int_has_eq.beq_iff u.id id).0 same
  | inr differs ↦ find_own_id id us t (sym (if_false (found u) (find id us) differs) ∙ h)
]

find-replace :
    (t : Transaction) (ts : List Transaction) {old : Transaction}
    → find t.id ts ≡ found old
    → find t.id (replace t ts) ≡ found t
find-replace t [] h = ground arith
find-replace t (u ∷ us) h = elim (Bool-cases (u.id == t.id)) [
  | inl same ↦
      ap (find t.id) (if_true (t ∷ us) (u ∷ replace t us) same)
      ∙ if_true (found t) (find t.id us) (eq_self t.id)
  | inr differs ↦
      ap (find t.id) (if_false (t ∷ us) (u ∷ replace t us) differs)
      ∙ if_false (found u) (find t.id (replace t us)) differs
      ∙ find-replace t us (sym (if_false (found u) (find t.id us) differs) ∙ h)
]

find-replace_other :
    (t : Transaction) (id : ℤ) (ts : List Transaction)
    → t.id ≢ id
    → find id (replace t ts) ≡ find id ts
find-replace_other t id [] ne = refl
find-replace_other t id (u ∷ us) ne = ground (
  arith,
  find-replace_other t id us ne,
  int_eq_iff u.id t.id,
  int_eq_iff u.id id,
  int_eq_iff t.id id,
)

pub memory_laws : Laws memory
memory_laws = record {
  after_update_connector = λ db c id. refl;
  after_update_charge_point = λ db p id. refl;
  after_update_charge_point_status = λ db p id. refl;
  after_update_online_status = λ db cp o id. refl;
  after_update_tag = λ db u id. refl;
  after_add_charge_point = λ db p id. refl;
  after_add_connector = λ db c id. refl;
  after_add_user_tag = λ db u id. refl;
  after_update_tag_last_seen = λ db u id. refl;
  after_save_stop = λ db r id. refl;
  after_add_meter_value = λ db m id. refl;
  after_delete_meter_values = λ db t id. refl;
  added = λ db t fresh ok. if_true (found t) (find t.id db.transactions) (eq_self t.id);
  added_other = λ db t id ne. ground (arith, int_eq_iff t.id id);
  updated = λ db t there ok. find-replace t db.transactions there;
  updated_other = λ db t id ne. find-replace_other t id db.transactions ne;
  own_id = λ db id t there. find_own_id id db.transactions t there;
  billing_start = λ t. refl;
  billing_finished = λ t. refl;
}
