-- ===== src/V201/Adapter/RoundTrips.antt =====
-- What survives a conversion by the adapter and back: server/protocol_adapter.go.
use evsys.Common.{
  Bool, Bool-cases, Dict, List, Option, String, [], ap, arith, false, get, get-put, if◌then◌else◌,
  inl, inr, int_has_eq, ltb_ℤ, nat_has_eq, none, pos, put, refl, some, string_has_eq, sym, true, ℕ,
  ℤ, ◌<◌, ◌==◌, ◌∙◌, ◌≡◌, ◌⊎◌,
}
use evsys.Entity.{MetaValue, TransactionMeter, meta_number, meta_text, new_meter}
use evsys.V201.Adapter.{
  auth_status_to_v16_status, connector_id_to_evse, entity_to_transaction_info, evse_to_connector_id,
  id_tag_to_id_token, id_token_to_id_tag, meter_value_to_transaction_meter, number_of,
  read_measurand, read_sample, read_samples, sample_if, sample_of, scaled, text_of,
  transaction_event_to_entity, transaction_meter_to_meter_value, v16_status_to_auth_status,
  with_charging_state, with_remote_start,
}
use evsys.V201.Floats.{float64, int_of_float, int_of_float-float64, two_53}
use evsys.V201.Types.{
  Evse, IdToken, MeterValue201, SampledValue201, TransactionInfo,
  measurand_energy_active_import_register, measurand_power_active_import, measurand_soc,
  reading_context_sample_periodic, transaction_event_ended, unit_percent, unit_w, unit_wh,
}

card_survives : (tag : String) → id_token_to_id_tag (id_tag_to_id_token tag) ≡ tag
unfolding id_token_to_id_tag id_tag_to_id_token
card_survives tag = elim (Bool-cases (tag == "")) [
  | inl same ↦ rw same (sym ((string_has_eq.beq_iff tag "").0 same))
  | inr differs_ ↦ rw differs_ refl
]

status_survives :
    (status : String)
    → (status ≡ "Accepted") ⊎ (status ≡ "Blocked") ⊎ (status ≡ "Expired") ⊎ (status ≡ "Invalid")
    → auth_status_to_v16_status (v16_status_to_auth_status status) ≡ status
unfolding auth_status_to_v16_status v16_status_to_auth_status
status_survives status (inl e) = rw e refl
status_survives status (inr (inl e)) = rw e refl
status_survives status (inr (inr (inl e))) = rw e refl
status_survives status (inr (inr (inr e))) = rw e refl

-- A card, a connector and a status survive the way to OCPP 2.0.1 and back: a card's text and a
-- connector's id are unchanged, whatever EVSE it is given, and a status of the four that both
-- versions know is unchanged.
pub identifiers_survive :
    (tag : String) (connector_id : ℤ) (evse_id : Option ℤ) (status : String)
    → (status ≡ "Accepted") ⊎ (status ≡ "Blocked") ⊎ (status ≡ "Expired") ⊎ (status ≡ "Invalid")
    → (id_token_to_id_tag (id_tag_to_id_token tag) ≡ tag)
      × (evse_to_connector_id (some (connector_id_to_evse connector_id evse_id)) ≡ connector_id)
      × (auth_status_to_v16_status (v16_status_to_auth_status status) ≡ status)
unfolding evse_to_connector_id connector_id_to_evse
identifiers_survive tag connector_id evse_id status known =
    (card_survives tag, refl, status_survives status known)

state_of_remote_start :
    (r : Option ℤ) (d : Dict String MetaValue)
    → get "charging_state" (with_remote_start r d) ≡ get "charging_state" d
unfolding with_remote_start
state_of_remote_start none d = refl
state_of_remote_start (some id) d = get-put "remote_start_id" "charging_state" (meta_number id) d

state_is_kept :
    (state transaction_id : String)
    → text_of (
        get "charging_state"
          (with_charging_state state (put "ocpp201_transaction_id" (meta_text transaction_id) [])))
      ≡ state
unfolding with_charging_state get put text_of
state_is_kept state transaction_id = elim (Bool-cases (state == "")) [
  | inl same ↦ rw same (sym ((string_has_eq.beq_iff state "").0 same))
  | inr differs_ ↦ rw differs_ refl
]

remote_start_is_kept :
    (r : Option ℤ) (state transaction_id : String)
    → number_of (
        get "remote_start_id" (
          with_remote_start r (
            with_charging_state state
              (put "ocpp201_transaction_id" (meta_text transaction_id) []))))
      ≡ r
unfolding with_remote_start with_charging_state get put number_of
remote_start_is_kept none state transaction_id = elim (Bool-cases (state == "")) [
  | inl same ↦ rw same refl
  | inr differs_ ↦ rw differs_ refl
]
remote_start_is_kept (some id) state transaction_id = elim (Bool-cases (state == "")) [
  | inl same ↦ rw same refl
  | inr differs_ ↦ rw differs_ refl
]

reason_once :
    (b : Bool) (s : String) → (if b then (if b then s else "") else "") ≡ (if b then s else "")
reason_once true s = refl
reason_once false s = refl

-- The data of a transaction that a charge point reports are found again in the transaction that is
-- kept: its id, its charging state and the id of the remote start, and the reason for its end where
-- the event is the end. The time spent charging is not kept.
pub transaction_info_survives :
    (event : String) (info : TransactionInfo) (token : Option IdToken) (evse : Option Evse)
    (meters : List MeterValue201) (timestamp : ℕ) (cp : String)
    → entity_to_transaction_info
        (transaction_event_to_entity event info token evse meters timestamp cp)
      ≡ record info {
        time_spent_charging = none;
        stopped_reason = if event == transaction_event_ended then info.stopped_reason else "";
      }
unfolding entity_to_transaction_info transaction_event_to_entity
transaction_info_survives event info token evse meters timestamp cp = λ i. record {
  transaction_id = info.transaction_id;
  charging_state =
      (ap text_of (
            state_of_remote_start info.remote_start_id (
              with_charging_state info.charging_state
                (put "ocpp201_transaction_id" (meta_text info.transaction_id) [])))
          ∙ state_is_kept info.charging_state info.transaction_id)
        i;
  time_spent_charging = none;
  stopped_reason = reason_once (event == transaction_event_ended) info.stopped_reason i;
  remote_start_id =
      remote_start_is_kept info.remote_start_id info.charging_state info.transaction_id i;
}

-- A reading of the three is written as it is where it is positive, and left out, as 0, where it is 0.
abbrev pub Survives : TransactionMeter → TransactionMeter → Type 0
Survives tm back =
    (back.id ≡ tm.id)
    × (back.time ≡ tm.time)
    × (back.value ≡ tm.value)
    × (back.power_active ≡ tm.power_active)
    × (back.battery_level ≡ tm.battery_level)

-- The fields of a meter that the way there and back is about.
abbrev Figures : Type 0
Figures = ℤ × ℕ × ℤ × ℤ × ℤ

abbrev figures : TransactionMeter → Figures
figures tm = (tm.id, tm.time, tm.value, tm.power_active, tm.battery_level)

exact_or_zero : (x : ℤ) (n : ℕ) → x ≡ pos n → n < two_53 → int_of_float (float64 x) ≡ x
exact_or_zero x n is_n small =
    ap (λ y. int_of_float (float64 y)) is_n ∙ int_of_float-float64 n small ∙ sym is_n

left_out : (x : ℤ) (n : ℕ) → x ≡ pos n → ltb_ℤ (pos 0) x ≡ false → x ≡ pos 0
left_out x n is_n absent = ground arith

energy_back :
    (x : ℤ) (n : ℕ) (rest : List SampledValue201) (tm : TransactionMeter)
    → x ≡ pos n
    → n < two_53
    → tm.value ≡ pos 0
    → (tm' : TransactionMeter) × (read_samples
          (sample_if
            (ltb_ℤ (pos 0) x)
            (sample_of x reading_context_sample_periodic measurand_energy_active_import_register
              unit_wh)
            rest)
          tm
        ≡ read_samples rest tm')
      × (figures tm' ≡ (tm.id, tm.time, x, tm.power_active, tm.battery_level))
unfolding read_samples read_sample read_measurand scaled sample_if sample_of
energy_back x n rest tm is_n small unset = elim (Bool-cases (ltb_ℤ (pos 0) x)) [
  | inl present ↦ (
    read_sample
        (sample_of x reading_context_sample_periodic measurand_energy_active_import_register
          unit_wh)
        tm,
    rw present refl,
    ap (λ (y : ℤ). (tm.id, tm.time, y, tm.power_active, tm.battery_level))
        (exact_or_zero x n is_n small),
  )
  | inr absent ↦ (
    tm,
    rw absent refl,
    ap (λ (y : ℤ). (tm.id, tm.time, y, tm.power_active, tm.battery_level))
        (unset ∙ sym (left_out x n is_n absent)),
  )
]

power_back :
    (x : ℤ) (n : ℕ) (rest : List SampledValue201) (tm : TransactionMeter)
    → x ≡ pos n
    → n < two_53
    → tm.power_active ≡ pos 0
    → (tm' : TransactionMeter) × (read_samples
          (sample_if (ltb_ℤ (pos 0) x) (sample_of x "" measurand_power_active_import unit_w) rest)
          tm
        ≡ read_samples rest tm')
      × (figures tm' ≡ (tm.id, tm.time, tm.value, x, tm.battery_level))
unfolding read_samples read_sample read_measurand scaled sample_if sample_of
power_back x n rest tm is_n small unset = elim (Bool-cases (ltb_ℤ (pos 0) x)) [
  | inl present ↦ (
    read_sample (sample_of x "" measurand_power_active_import unit_w) tm,
    rw present refl,
    ap (λ (y : ℤ). (tm.id, tm.time, tm.value, y, tm.battery_level)) (exact_or_zero x n is_n small),
  )
  | inr absent ↦ (
    tm,
    rw absent refl,
    ap (λ (y : ℤ). (tm.id, tm.time, tm.value, y, tm.battery_level))
        (unset ∙ sym (left_out x n is_n absent)),
  )
]

battery_back :
    (x : ℤ) (n : ℕ) (rest : List SampledValue201) (tm : TransactionMeter)
    → x ≡ pos n
    → n < two_53
    → tm.battery_level ≡ pos 0
    → (tm' : TransactionMeter) × (read_samples
          (sample_if (ltb_ℤ (pos 0) x) (sample_of x "" measurand_soc unit_percent) rest)
          tm
        ≡ read_samples rest tm')
      × (figures tm' ≡ (tm.id, tm.time, tm.value, tm.power_active, x))
unfolding read_samples read_sample read_measurand scaled sample_if sample_of
battery_back x n rest tm is_n small unset = elim (Bool-cases (ltb_ℤ (pos 0) x)) [
  | inl present ↦ (
    read_sample (sample_of x "" measurand_soc unit_percent) tm,
    rw present refl,
    ap (λ (y : ℤ). (tm.id, tm.time, tm.value, tm.power_active, y)) (exact_or_zero x n is_n small),
  )
  | inr absent ↦ (
    tm,
    rw absent refl,
    ap (λ (y : ℤ). (tm.id, tm.time, tm.value, tm.power_active, y))
        (unset ∙ sym (left_out x n is_n absent)),
  )
]

-- A meter's reading, power and battery level, where each is at least 0 and below 2 ^ 53, and its time
-- survive the way to a meter value of OCPP 2.0.1 and back.
pub readings_survive :
    (tm : TransactionMeter) (v p b : ℕ)
    → tm.value ≡ pos v
    → tm.power_active ≡ pos p
    → tm.battery_level ≡ pos b
    → v < two_53
    → p < two_53
    → b < two_53
    → Survives tm (meter_value_to_transaction_meter (transaction_meter_to_meter_value tm) tm.id)
unfolding meter_value_to_transaction_meter transaction_meter_to_meter_value new_meter read_samples
readings_survive tm v p b is_v is_p is_b small_v small_p small_b =
    let start : TransactionMeter = record (new_meter tm.id (pos 0) "" tm.time) { minute = 0 } in
    let battery =
      sample_if (ltb_ℤ (pos 0) tm.battery_level)
        (sample_of tm.battery_level "" measurand_soc unit_percent) [] in
    let power =
      sample_if (ltb_ℤ (pos 0) tm.power_active)
        (sample_of tm.power_active "" measurand_power_active_import unit_w) battery in
    let (m1, read1, f1) = energy_back tm.value v power start is_v small_v refl in
    let (m2, read2, f2) =
      power_back tm.power_active p battery m1 is_p small_p (ap (λ (f : Figures). f.3) f1) in
    let (m3, read3, f3) = battery_back tm.battery_level b [] m2 is_b small_b (
      ap (λ (f : Figures). f.4)
        (f2 ∙ ap (λ (f : Figures). (f.0, f.1, f.2, tm.power_active, f.4)) f1)) in
    let all : figures m3 ≡ figures tm =
      f3
      ∙ ap (λ (f : Figures). (f.0, f.1, f.2, f.3, tm.battery_level)) f2
      ∙ ap (λ (f : Figures). (f.0, f.1, f.2, tm.power_active, tm.battery_level)) f1 in
    rw (read1, read2, read3)
      (
        ap (λ (f : Figures). f.0) all,
        ap (λ (f : Figures). f.1) all,
        ap (λ (f : Figures). f.2) all,
        ap (λ (f : Figures). f.3) all,
        ap (λ (f : Figures). f.4) all,
      )
