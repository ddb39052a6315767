-- ===== src/System/Stop/Finished.antt =====
-- What a stop writes to the transaction that it closes.
use evsys.Common.{
  List, Option, String, [], ap, arith, if◌then◌else◌, int_has_eq, nat_has_eq, none, refl, some,
  string_has_eq, sym, true, ℕ, ℤ, ◌++◌, ◌==◌, ◌∙◌, ◌∷◌, ◌≡◌,
}
use evsys.Entity.{MeterValue, SampledValue, Transaction, TransactionMeter}
use evsys.System.Laws.{Laws}
use evsys.System.State.{Services, StopTransactionRequest}
use evsys.System.Stop.{
  apply_data, apply_sample, apply_samples, closed_by_request, is_repeated, timestamp_or,
  with_meter_values,
}

-- A sample of a request, with the time of its meter value.
pub record Carried : Type 0 where
  pub context : String
  pub number : ℤ
  pub time : ℕ

abbrev pub carried_samples : ℕ → List SampledValue → List Carried
carried_samples time [] = []
carried_samples time (v ∷ vs) =
    record { context = v.context; number = v.number; time = time } ∷ carried_samples time vs

-- All the samples that a request carries, in their order.
abbrev pub carried : ℕ → List MeterValue → List Carried
carried now [] = []
carried now (m ∷ ms) =
    carried_samples (timestamp_or now m.timestamp) m.sampled_value ++ carried now ms

abbrev pub later_or : Option Carried → Option Carried → Option Carried
later_or (some x) o = some x
later_or none o = o

-- The last sample with the context.
abbrev pub last_with : String → List Carried → Option Carried
last_with context [] = none
last_with context (x ∷ xs) =
    later_or (last_with context xs) (if x.context == context then some x else none)

abbrev pub last_begin : ℕ → StopTransactionRequest → Option Carried
last_begin now req = last_with "Transaction.Begin" (carried now req.transaction_data)

abbrev pub last_end : ℕ → StopTransactionRequest → Option Carried
last_end now req = last_with "Transaction.End" (carried now req.transaction_data)

abbrev pub number_or : ℤ → Option Carried → ℤ
number_or n none = n
number_or n (some x) = x.number

abbrev pub time_or : ℕ → Option Carried → ℕ
time_or n none = n
time_or n (some x) = x.time

-- The document that a stop leaves: finished, with the reason of the request, and with the reading and
-- the time of the request, or of the last sample that it carries for the end of the transaction; its
-- start is that of the last sample for the begin, if there is one.
pub record IsStopped (req : StopTransactionRequest) (now : ℕ) (old t : Transaction) : Type 0 where
  pub same_id : t.id ≡ old.id
  pub same_connector : t.connector_id ≡ old.connector_id
  pub finished : t.is_finished ≡ true
  pub reasoned : t.reason ≡ req.reason
  pub meter_stop : t.meter_stop ≡ number_or req.meter_stop (last_end now req)
  pub time_stop : t.time_stop ≡ time_or (timestamp_or now req.timestamp) (last_end now req)
  pub meter_start : t.meter_start ≡ number_or old.meter_start (last_begin now req)
  pub time_start : t.time_start ≡ time_or old.time_start (last_begin now req)

-- The fields that the request's samples leave alone.
record Keeps (a b : Transaction) : Type 0 where
  same_id : b.id ≡ a.id
  same_connector : b.connector_id ≡ a.connector_id
  same_end : b.is_finished ≡ a.is_finished
  same_reason : b.reason ≡ a.reason

Keeps-sample : (time : ℕ) (t : Transaction) (v : SampledValue) → Keeps t (apply_sample time t v)
unfolding apply_sample
Keeps-sample time t v = ground arith

Keeps-trans : {a b c : Transaction} → Keeps a b → Keeps b c → Keeps a c
Keeps-trans h k = record {
  same_id = k.same_id ∙ h.same_id;
  same_connector = k.same_connector ∙ h.same_connector;
  same_end = k.same_end ∙ h.same_end;
  same_reason = k.same_reason ∙ h.same_reason;
}

Keeps-refl : (a : Transaction) → Keeps a a
Keeps-refl a = record { same_id = refl; same_connector = refl; same_end = refl; same_reason = refl }

Keeps-samples :
    (time : ℕ) (t : Transaction) (vs : List SampledValue) → Keeps t (apply_samples time t vs)
unfolding apply_samples
Keeps-samples time t [] = Keeps-refl t
Keeps-samples time t (v ∷ vs) =
    Keeps-trans (Keeps-sample time t v) (Keeps-samples time (apply_sample time t v) vs)

Keeps-data : (now : ℕ) (t : Transaction) (ms : List MeterValue) → Keeps t (apply_data now t ms)
unfolding apply_data
Keeps-data now t [] = Keeps-refl t
Keeps-data now t (m ∷ ms) =
    let t' = apply_samples (timestamp_or now m.timestamp) t m.sampled_value in
    Keeps-trans (Keeps-samples (timestamp_or now m.timestamp) t m.sampled_value)
      (Keeps-data now t' ms)

-- `u` is `t` with the figures of the samples.
record Reads (t : Transaction) (xs : List Carried) (u : Transaction) : Type 0 where
  meter_stop : u.meter_stop ≡ number_or t.meter_stop (last_with "Transaction.End" xs)
  time_stop : u.time_stop ≡ time_or t.time_stop (last_with "Transaction.End" xs)
  meter_start : u.meter_start ≡ number_or t.meter_start (last_with "Transaction.Begin" xs)
  time_start : u.time_start ≡ time_or t.time_start (last_with "Transaction.Begin" xs)

later_or_assoc : (a b c : Option Carried) → later_or a (later_or b c) ≡ later_or (later_or a b) c
later_or_assoc none b c = refl
later_or_assoc (some x) b c = refl

later_or-none : (o : Option Carried) → o ≡ later_or o none
later_or-none none = refl
later_or-none (some x) = refl

last_with-append :
    (context : String) (xs ys : List Carried)
    → last_with context (xs ++ ys) ≡ later_or (last_with context ys) (last_with context xs)
last_with-append context [] ys = later_or-none (last_with context ys)
last_with-append context (x ∷ xs) ys =
    let here = if x.context == context then some x else none in
    ap (λ o. later_or o here) (last_with-append context xs ys)
    ∙ sym (later_or_assoc (last_with context ys) (last_with context xs) here)

number_or_twice :
    (n : ℤ) (a b : Option Carried) → number_or (number_or n a) b ≡ number_or n (later_or b a)
number_or_twice n a none = refl
number_or_twice n a (some x) = refl

time_or_twice : (n : ℕ) (a b : Option Carried) → time_or (time_or n a) b ≡ time_or n (later_or b a)
time_or_twice n a none = refl
time_or_twice n a (some x) = refl

Reads-append :
    {t u w : Transaction} (xs ys : List Carried)
    → Reads t xs u
    → Reads u ys w
    → Reads t (xs ++ ys) w
Reads-append {t = t} xs ys h k =
    let begin : String = "Transaction.Begin" in
    let end : String = "Transaction.End" in
    record {
      meter_stop =
          k.meter_stop
          ∙ ap (λ n. number_or n (last_with end ys)) h.meter_stop
          ∙ number_or_twice t.meter_stop (last_with end xs) (last_with end ys)
          ∙ ap (number_or t.meter_stop) (sym (last_with-append end xs ys));
      time_stop =
          k.time_stop
          ∙ ap (λ n. time_or n (last_with end ys)) h.time_stop
          ∙ time_or_twice t.time_stop (last_with end xs) (last_with end ys)
          ∙ ap (time_or t.time_stop) (sym (last_with-append end xs ys));
      meter_start =
          k.meter_start
          ∙ ap (λ n. number_or n (last_with begin ys)) h.meter_start
          ∙ number_or_twice t.meter_start (last_with begin xs) (last_with begin ys)
          ∙ ap (number_or t.meter_start) (sym (last_with-append begin xs ys));
      time_start =
          k.time_start
          ∙ ap (λ n. time_or n (last_with begin ys)) h.time_start
          ∙ time_or_twice t.time_start (last_with begin xs) (last_with begin ys)
          ∙ ap (time_or t.time_start) (sym (last_with-append begin xs ys));
    }

Reads-sample :
    (time : ℕ) (t : Transaction) (v : SampledValue)
    → Reads t (carried_samples time (v ∷ [])) (apply_sample time t v)
unfolding apply_sample
Reads-sample time t v = record {
  meter_stop = ground arith;
  time_stop = ground arith;
  meter_start = ground arith;
  time_start = ground arith;
}

Reads-samples :
    (time : ℕ) (t : Transaction) (vs : List SampledValue)
    → Reads t (carried_samples time vs) (apply_samples time t vs)
unfolding apply_samples
Reads-samples time t [] = record {
  meter_stop = refl;
  time_stop = refl;
  meter_start = refl;
  time_start = refl;
}
Reads-samples time t (v ∷ vs) =
    Reads-append (carried_samples time (v ∷ [])) (carried_samples time vs) (Reads-sample time t v)
      (Reads-samples time (apply_sample time t v) vs)

Reads-data :
    (now : ℕ) (t : Transaction) (ms : List MeterValue)
    → Reads t (carried now ms) (apply_data now t ms)
unfolding apply_data
Reads-data now t [] = record {
  meter_stop = refl;
  time_stop = refl;
  meter_start = refl;
  time_start = refl;
}
Reads-data now t (m ∷ ms) =
    let time = timestamp_or now m.timestamp in
    Reads-append (carried_samples time m.sampled_value) (carried now ms)
      (Reads-samples time t m.sampled_value)
      (Reads-data now (apply_samples time t m.sampled_value) ms)

closed_IsStopped :
    (req : StopTransactionRequest) (now : ℕ) (t : Transaction)
    → IsStopped req now t (closed_by_request req now t)
unfolding closed_by_request
closed_IsStopped req now t =
    let base = record t {
      is_finished = true;
      time_stop = timestamp_or now req.timestamp;
      meter_stop = req.meter_stop;
      reason = req.reason;
    } in
    let k = Keeps-data now base req.transaction_data in
    let r = Reads-data now base req.transaction_data in
    record {
      same_id = k.same_id;
      same_connector = k.same_connector;
      finished = k.same_end;
      reasoned = k.same_reason;
      meter_stop = r.meter_stop;
      time_stop = r.time_stop;
      meter_start = r.meter_start;
      time_start = r.time_start;
    }

-- The readings that are added first do not matter to it.
IsStopped-with_meter_values :
    (req : StopTransactionRequest) (now : ℕ) (values : Option (List TransactionMeter))
    (old t : Transaction)
    → IsStopped req now (with_meter_values values old) t
    → IsStopped req now old t
unfolding with_meter_values
IsStopped-with_meter_values req now none old t h = h
IsStopped-with_meter_values req now (some vs) old t h = record {
  same_id = h.same_id;
  same_connector = h.same_connector;
  finished = h.finished;
  reasoned = h.reasoned;
  meter_stop = h.meter_stop;
  time_stop = h.time_stop;
  meter_start = h.meter_start;
  time_start = h.time_start;
}

pub is_repeated-with_meter_values :
    (req : StopTransactionRequest) (values : Option (List TransactionMeter)) (t : Transaction)
    → is_repeated req (with_meter_values values t) ≡ is_repeated req t
unfolding is_repeated with_meter_values
is_repeated-with_meter_values req none t = refl
is_repeated-with_meter_values req (some vs) t = refl

pub connector-with_meter_values :
    (values : Option (List TransactionMeter)) (t : Transaction)
    → (with_meter_values values t).connector_id ≡ t.connector_id
unfolding with_meter_values
connector-with_meter_values none t = refl
connector-with_meter_values (some vs) t = refl

pub id-with_meter_values :
    (values : Option (List TransactionMeter)) (t : Transaction)
    → (with_meter_values values t).id ≡ t.id
unfolding with_meter_values
id-with_meter_values none t = refl
id-with_meter_values (some vs) t = refl

-- The document that is written, after billing.
pub billed_IsStopped :
    {sv : Services} (laws : Laws sv) (req : StopTransactionRequest) (now : ℕ)
    (values : Option (List TransactionMeter)) (t : Transaction)
    → IsStopped req now t
        (sv.on_billing_finished (closed_by_request req now (with_meter_values values t))).0
billed_IsStopped laws req now values t =
    let u = with_meter_values values t in
    let h = IsStopped-with_meter_values req now values t _ (closed_IsStopped req now u) in
    rw laws.billing_finished (record {
      same_id = h.same_id;
      same_connector = h.same_connector;
      finished = h.finished;
      reasoned = h.reasoned;
      meter_stop = h.meter_stop;
      time_stop = h.time_stop;
      meter_start = h.meter_start;
      time_start = h.time_start;
    })
