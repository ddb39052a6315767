-- ===== src/System/Start/Refused.antt =====
-- What `OnStartTransaction` does where the connector holds a transaction that is not finished, or
-- that cannot be read.
use evsys.Common.{
  Bool, Bool-cases, String, ap, arith, false, get, if◌then◌else◌, inl, inr, int_eq, int_eq_iff,
  int_has_eq, nat_has_eq, pos, some, string_has_eq, subst, sym, true, ℕ, ℤ, ◌==◌, ◌∙◌, ◌≡◌, ◌≢◌,
  ◌≤ℤ◌,
}
use evsys.Entity.{Connector, Transaction}
use evsys.System.Listen.{check_listen_transaction}
use evsys.System.Lookup.Known.{InMemory, listen_frame}
use evsys.System.Start.{
  Held, StartTransactionResponse, answer_start, authorization_accepted, authorization_blocked,
  authorization_concurrent_tx, busy, classify, held, on_start_transaction, running, stale,
  unreadable, vacant,
}
use evsys.System.Start.Fresh.{on_start_known}
use evsys.System.State.{
  ChargePointState, Lookup, Services, StartTransactionRequest, System, failed, found, not_found,
}

-- What a start leaves alone: everything but the notices and the connectors asked for meter values.
pub record Untouched {sv : Services} (s s' : System sv) : Type 0 where
  pub charge_points : s'.charge_points ≡ s.charge_points
  pub next_transaction_id : s'.next_transaction_id ≡ s.next_transaction_id
  pub last_meter : s'.last_meter ≡ s.last_meter
  pub store : s'.store ≡ s.store

abbrev IsRefusing : Held → Type 0
IsRefusing vacant = ⊥
IsRefusing stale = ⊥
IsRefusing unreadable = Unit
IsRefusing running = Unit
IsRefusing busy = Unit

-- The reply that each finding about the held transaction `id` is to get.
abbrev ReplyTo : Held → ℤ → StartTransactionResponse → Type 0
ReplyTo unreadable id r = (r.status ≡ authorization_blocked) × (r.transaction_id ≡ pos 0)
ReplyTo running id r = (r.status ≡ authorization_accepted) × (r.transaction_id ≡ id)
ReplyTo busy id r = (r.status ≡ authorization_concurrent_tx) × (r.transaction_id ≡ id)
ReplyTo vacant id r = ⊥
ReplyTo stale id r = ⊥

-- The same, said of the answer of the database.
abbrev pub Refusal : Lookup Transaction → Connector → StartTransactionResponse → Type 0
Refusal failed c r = (r.status ≡ authorization_blocked) × (r.transaction_id ≡ pos 0)
Refusal not_found c r = ⊥
Refusal (found t) c r =
    (r.transaction_id ≡ c.current_transaction_id)
    × (t.connector_id ≡ c.id → r.status ≡ authorization_accepted)
    × (t.connector_id ≢ c.id → r.status ≡ authorization_concurrent_tx)

-- The connector may still be running a session: the database failed, or the transaction is open.
abbrev pub MayBeOpen : Lookup Transaction → Type 0
MayBeOpen failed = Unit
MayBeOpen not_found = ⊥
MayBeOpen (found t) = t.is_finished ≡ false

classify_refuses :
    (c : Connector) (a : Lookup Transaction) → MayBeOpen a → IsRefusing (classify c a)
unfolding classify
classify_refuses c failed h = tt
classify_refuses c not_found h = absurd h
classify_refuses c (found t) h = ground arith

classify_found :
    (c : Connector) (t : Transaction)
    → t.is_finished ≡ false
    → classify c (found t) ≡ (if t.connector_id == c.id then running else busy)
unfolding classify
classify_found c t h = ground arith

int_ne_of_eq_false : (a b : ℤ) → int_eq a b ≡ false → a ≢ b
int_ne_of_eq_false a b h e = ground (arith, int_eq_iff a b)

classify_reply :
    (c : Connector) (a : Lookup Transaction) (r : StartTransactionResponse)
    → MayBeOpen a
    → ReplyTo (classify c a) c.current_transaction_id r
    → Refusal a c r
unfolding classify
classify_reply c failed r h q = q
classify_reply c not_found r h q = absurd h
classify_reply c (found t) r h q = elim (Bool-cases (t.connector_id == c.id)) [
  | inl e ↦
      (let p = rw (classify_found c t h, e) at q in
        (p.1, λ _. p.0, λ ne. absurd (ne ((int_eq_iff _ _).0 e))))
  | inr e ↦
      (let p = rw (classify_found c t h, e) at q in
        (p.1, λ same. absurd (int_ne_of_eq_false _ _ e same), λ _. p.0))
]

module _ {sv : Services} where
  held_lem :
      (c : Connector) (s : System sv)
      → sv.has_database ≡ true
      → pos 0 ≤ℤ c.current_transaction_id
      → held c s ≡ classify c (sv.get_transaction s.store c.current_transaction_id)
  unfolding held
  held_lem c s set nonneg = ground arith

  refusing :
      (h : Held) (cp : String) (req : StartTransactionRequest) (now : ℕ) (c : Connector)
      (st : ChargePointState) (s : System sv)
      → IsRefusing h
      → let (r, c', s') = answer_start h cp req now c st s in
        ReplyTo h c.current_transaction_id r × (c' ≡ c) × Untouched s s'
  unfolding answer_start
  refusing vacant cp req now c st s h = absurd h
  refusing stale cp req now c st s h = absurd h
  refusing unreadable cp req now c st s h = ground arith
  refusing running cp req now c st s h = ground arith
  refusing busy cp req now c st s h = ground arith

  Untouched-listen :
      (c : Connector) (o : Bool) (s s' : System sv) {st : ChargePointState}
      → get c.charge_point_id s.charge_points ≡ some st
      → Untouched s s'
      → Untouched s (check_listen_transaction c o s')
  Untouched-listen c o s s' {st = st} h u =
      rw (listen_frame c o s' {st = st} (rw u.charge_points h)) (record {
        charge_points = u.charge_points;
        next_transaction_id = u.next_transaction_id;
        last_meter = u.last_meter;
        store = u.store;
      })

  -- With a database set, a start on a connector in memory whose session may still be open begins
  -- nothing: no charge point, counter
  -- or document changes. A repeated start is accepted under the id that it already has; a transaction
  -- of another connector gets ConcurrentTx; a failed query gets Blocked.
  pub start_on_held_connector :
      (cp : String) (req : StartTransactionRequest) (now : ℕ) (s : System sv)
      {st : ChargePointState} {c : Connector} (a : Lookup Transaction)
      → InMemory cp req.connector_id st c s
      → sv.has_database ≡ true
      → pos 0 ≤ℤ c.current_transaction_id
      → sv.get_transaction s.store c.current_transaction_id ≡ a
      → MayBeOpen a
      → let (r, s') = on_start_transaction cp req now s in Refusal a c r × Untouched s s'
  start_on_held_connector cp req now s {st = st} {c = c} a m set nonneg answer open_ =
      let finding = held_lem c s set nonneg ∙ ap (classify c) answer in
      let refuses = subst IsRefusing (sym finding) (classify_refuses c a open_) in
      let (reply, same, kept) = refusing (held c s) cp req now c st s refuses in
      let (r, c', s') = answer_start (held c s) cp req now c st s in
      rw (on_start_known cp req now s m) (
        classify_reply c a r open_
            (subst (λ h. ReplyTo h c.current_transaction_id r) finding reply),
        Untouched-listen c' st.model.is_online s s' {st = st}
            (rw (ap (λ (k : Connector). k.charge_point_id) same ∙ m.owned) m.present) kept,
      )
