-- ===== src/V201/Adapter.antt =====
-- Between the messages of OCPP 2.0.1 and the documents of the system: server/protocol_adapter.go.
-- A float64 holds every whole number below 2^53 exactly. The readings of voltage and current, which
-- stay floating-point numbers, are left out.
pub mod RoundTrips
use evsys.Common.{
  Bool, Dict, List, Option, String, [], get, if◌then◌else◌, int64, int_has_eq, ltb_ℤ, mul_ℤ,
  nat_has_eq, negsuc, none, pos, put, quot_ℤ, some, string_has_eq, ℕ, ℤ, ◌==◌, ◌||◌, ◌∷◌,
}
use evsys.Entity.{MetaValue, Transaction, TransactionMeter, meta_number, meta_text, new_meter}
use evsys.V201.Floats.{float64, int_of_float}
use evsys.V201.Types.{
  Evse, IdToken, MeterValue201, SampledValue201, TransactionInfo, UnitOfMeasure,
  authorization_status_accepted, authorization_status_blocked, authorization_status_expired,
  authorization_status_invalid, authorization_status_unknown, id_token_type_iso14443,
  measurand_energy_active_import_register, measurand_power_active_import, measurand_soc,
  reading_context_sample_periodic, transaction_event_ended, transaction_event_started, unit_percent,
  unit_w, unit_wh,
}

unfoldable pub id_token_to_id_tag : Option IdToken → String
id_token_to_id_tag none = ""
id_token_to_id_tag (some token) = token.id_token

unfoldable pub id_tag_to_id_token : String → Option IdToken
id_tag_to_id_token tag =
    if tag == ""
    then none
    else some record { id_token = tag; type = id_token_type_iso14443; additional_info = [] }

unfoldable pub auth_status_to_v16_status : String → String
auth_status_to_v16_status status =
    if status == authorization_status_accepted
    then "Accepted"
    else if status == authorization_status_blocked
    then "Blocked"
    else if status == authorization_status_expired
    then "Expired"
    else if status == authorization_status_invalid
    then "Invalid"
    else if status == authorization_status_unknown
    then "Invalid"
    else "Invalid"

unfoldable pub v16_status_to_auth_status : String → String
v16_status_to_auth_status status =
    if status == "Accepted"
    then authorization_status_accepted
    else if status == "Blocked"
    then authorization_status_blocked
    else if status == "Expired"
    then authorization_status_expired
    else if status == "Invalid"
    then authorization_status_invalid
    else authorization_status_invalid

unfoldable pub evse_to_connector_id : Option Evse → ℤ
evse_to_connector_id none = pos 0
evse_to_connector_id (some evse) = elim evse.connector_id [ some id ↦ id | none ↦ evse.id ]

unfoldable pub connector_id_to_evse : ℤ → Option ℤ → Evse
connector_id_to_evse connector_id evse_id = record {
  id = elim evse_id [ some id ↦ id | none ↦ connector_id ];
  connector_id = some connector_id;
}

unfoldable pub validate_protocol_version : String → Bool
validate_protocol_version version =
    version == "ocpp1.6" || version == "ocpp2.0.1" || version == "ocpp2.1"

unfoldable pub is_ocpp201_or_higher : String → Bool
is_ocpp201_or_higher version = version == "ocpp2.0.1" || version == "ocpp2.1"

unfoldable pub is_ocpp16 : String → Bool
is_ocpp16 version = version == "ocpp1.6" || version == ""

-- meterValues[len(meterValues)-1], where there is one
unfoldable pub latest_meter : List MeterValue201 → Option MeterValue201
latest_meter [] = none
latest_meter (m ∷ []) = some m
latest_meter (m ∷ n ∷ ms) = latest_meter (n ∷ ms)

-- The first sample of the energy register, the default measurand.
unfoldable pub energy_sample : List SampledValue201 → Option ℤ
energy_sample [] = none
energy_sample (v ∷ vs) =
    let rest = energy_sample vs in
    if v.measurand == measurand_energy_active_import_register || v.measurand == ""
    then some (int_of_float v.value)
    else rest

unfoldable pub meter_of_event : List MeterValue201 → Option ℤ
unfolding latest_meter energy_sample
meter_of_event ms = elim (latest_meter ms) [ none ↦ none | some m ↦ energy_sample m.sampled_value ]

unfoldable pub with_charging_state : String → Dict String MetaValue → Dict String MetaValue
with_charging_state state d = if state == "" then d else put "charging_state" (meta_text state) d

unfoldable pub with_remote_start : Option ℤ → Dict String MetaValue → Dict String MetaValue
with_remote_start none d = d
with_remote_start (some id) d = put "remote_start_id" (meta_number id) d

unfoldable pub event_metadata : TransactionInfo → Dict String MetaValue
unfolding with_charging_state with_remote_start
event_metadata info = with_remote_start info.remote_start_id (
    with_charging_state info.charging_state
      (put "ocpp201_transaction_id" (meta_text info.transaction_id) []))

-- The transaction that an event tells of. Its `id` stays 0.
unfoldable pub transaction_event_to_entity :
    String
    → TransactionInfo
    → Option IdToken
    → Option Evse
    → List MeterValue201
    → ℕ
    → String
    → Transaction
unfolding id_token_to_id_tag meter_of_event event_metadata
transaction_event_to_entity event info token evse meters timestamp cp =
    let ended = event == transaction_event_ended in
    let reading : ℤ = elim (meter_of_event meters) [ none ↦ pos 0 | some v ↦ v ] in
    record {
      id = pos 0;
      session_id = info.transaction_id;
      is_finished = ended;
      connector_id = elim evse [
        | none ↦ pos 0
        | some e ↦ elim e.connector_id [ none ↦ pos 0 | some id ↦ id ]
      ];
      charge_point_id = cp;
      id_tag = id_token_to_id_tag token;
      reservation_id = none;
      meter_start = if event == transaction_event_started then reading else pos 0;
      meter_stop = if ended then reading else pos 0;
      time_start = timestamp;
      time_stop = if ended then timestamp else 0;
      reason = if ended then info.stopped_reason else "";
      id_tag_note = "";
      username = "";
      payment_amount = pos 0;
      plan = none;
      meter_values = [];
      user_tag = none;
      protocol_version = "ocpp2.0.1";
      evse_id = elim evse [ none ↦ none | some e ↦ some e.id ];
      metadata = event_metadata info;
    }

-- The type assertions on the metadata.
unfoldable pub text_of : Option MetaValue → String
text_of none = ""
text_of (some (meta_text s)) = s
text_of (some (meta_number n)) = ""

unfoldable pub number_of : Option MetaValue → Option ℤ
number_of none = none
number_of (some (meta_text s)) = none
number_of (some (meta_number n)) = some n

unfoldable pub entity_to_transaction_info : Transaction → TransactionInfo
unfolding text_of number_of
entity_to_transaction_info t = record {
  transaction_id = t.session_id;
  charging_state = text_of (get "charging_state" t.metadata);
  time_spent_charging = none;
  stopped_reason = if t.is_finished then t.reason else "";
  remote_start_id = number_of (get "remote_start_id" t.metadata);
}

-- value * 10^multiplier for the multipliers from -3 to 3
unfoldable pub scaled : Option UnitOfMeasure → ℤ → ℤ
scaled none v = v
scaled (some u) v = elim u.multiplier [
  | none ↦ v
  | some k ↦
      if k == negsuc 2
      then quot_ℤ v 1000
      else if k == negsuc 1
      then quot_ℤ v 100
      else if k == negsuc 0
      then quot_ℤ v 10
      else if k == pos 1
      then int64 (mul_ℤ v (pos 10))
      else if k == pos 2
      then int64 (mul_ℤ v (pos 100))
      else if k == pos 3
      then int64 (mul_ℤ v (pos 1000))
      else v
]

unfoldable pub read_measurand : SampledValue201 → TransactionMeter → TransactionMeter
unfolding int_of_float
read_measurand v tm =
    let measurand =
      if v.measurand == "" then measurand_energy_active_import_register else v.measurand in
    if measurand == measurand_energy_active_import_register
    then record tm {
      value = int_of_float v.value;
      measurand = "Energy.Active.Import.Register";
      unit = "Wh";
    }
    else if measurand == measurand_power_active_import
    then record tm { power_active = int_of_float v.value }
    else if measurand == measurand_soc
    then record tm { battery_level = int_of_float v.value }
    else tm

-- The multiplier of each sample scales the value of the meter.
unfoldable pub read_sample : SampledValue201 → TransactionMeter → TransactionMeter
unfolding read_measurand scaled
read_sample v tm =
    let m = read_measurand v tm in record m { value = scaled v.unit_of_measure m.value }

unfoldable pub read_samples : List SampledValue201 → TransactionMeter → TransactionMeter
unfolding read_sample
read_samples [] tm = tm
read_samples (v ∷ vs) tm = read_samples vs (read_sample v tm)

unfoldable pub meter_value_to_transaction_meter : MeterValue201 → ℤ → TransactionMeter
unfolding read_samples new_meter
meter_value_to_transaction_meter m transaction_id =
    read_samples m.sampled_value
      (record (new_meter transaction_id (pos 0) "" m.timestamp) { minute = 0 })

unfoldable pub sample_if : Bool → SampledValue201 → List SampledValue201 → List SampledValue201
sample_if present v vs = if present then v ∷ vs else vs

unfoldable pub sample_of : ℤ → String → String → String → SampledValue201
unfolding float64
sample_of value context measurand unit = record {
  value = float64 value;
  context = context;
  measurand = measurand;
  phase = "";
  location = "";
  unit_of_measure = some record { unit = unit; multiplier = none };
}

unfoldable pub transaction_meter_to_meter_value : TransactionMeter → MeterValue201
unfolding sample_if sample_of
transaction_meter_to_meter_value tm = record {
  timestamp = tm.time;
  sampled_value =
      sample_if (ltb_ℤ (pos 0) tm.value)
        (sample_of tm.value reading_context_sample_periodic measurand_energy_active_import_register
          unit_wh)
        (sample_if (ltb_ℤ (pos 0) tm.power_active)
          (sample_of tm.power_active "" measurand_power_active_import unit_w)
          (sample_if (ltb_ℤ (pos 0) tm.battery_level)
            (sample_of tm.battery_level "" measurand_soc unit_percent) []));
}
