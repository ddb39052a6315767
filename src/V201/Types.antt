-- ===== src/V201/Types.antt =====
-- The data types of OCPP 2.0.1 that the handlers use: ocpp/v201/types.go. The value of a sample is a
-- float64; here it is the whole number that `int` makes of it.
use Prim.Native.String.{len}
use evsys.Common.{
  List, Option, String, if◌then◌else◌, int_has_eq, length, ltb, nat_has_eq, none, some,
  string_has_eq, ℕ, ℤ, ◌==◌, ◌||◌,
}

pub record AdditionalInfo : Type 0 where
  pub additional_id_token : String
  pub type : String

pub record IdToken : Type 0 where
  pub id_token : String
  pub type : String
  pub additional_info : List AdditionalInfo

pub record Evse : Type 0 where
  pub id : ℤ
  pub connector_id : Option ℤ

-- `Transaction` of OCPP 2.0.1.
pub record TransactionInfo : Type 0 where
  pub transaction_id : String
  pub charging_state : String
  pub time_spent_charging : Option ℤ
  pub stopped_reason : String
  pub remote_start_id : Option ℤ

pub record UnitOfMeasure : Type 0 where
  pub unit : String
  pub multiplier : Option ℤ

-- `SampledValue` and `MeterValue` of OCPP 2.0.1.
pub record SampledValue201 : Type 0 where
  pub value : ℤ
  pub context : String
  pub measurand : String
  pub phase : String
  pub location : String
  pub unit_of_measure : Option UnitOfMeasure

pub record MeterValue201 : Type 0 where
  pub timestamp : ℕ
  pub sampled_value : List SampledValue201

pub data TokenError : Type 0 where
  err_invalid_id_token err_invalid_id_token_type err_too_many_additional_info : TokenError

-- `Validate` of a token; `len` counts the bytes of a text.
unfoldable pub validate_token : IdToken → Option TokenError
validate_token t =
    if t.id_token == "" || ltb 36 (len t.id_token)
    then some err_invalid_id_token
    else if t.type == ""
    then some err_invalid_id_token_type
    else if ltb 3 (length t.additional_info)
    then some err_too_many_additional_info
    else none

abbrev pub id_token_type_iso14443 : String
id_token_type_iso14443 = "ISO14443"

abbrev pub id_token_type_local : String
id_token_type_local = "Local"

abbrev pub authorization_status_accepted : String
authorization_status_accepted = "Accepted"

abbrev pub authorization_status_blocked : String
authorization_status_blocked = "Blocked"

abbrev pub authorization_status_expired : String
authorization_status_expired = "Expired"

abbrev pub authorization_status_invalid : String
authorization_status_invalid = "Invalid"

abbrev pub authorization_status_unknown : String
authorization_status_unknown = "Unknown"

abbrev pub transaction_event_started : String
transaction_event_started = "Started"

abbrev pub transaction_event_updated : String
transaction_event_updated = "Updated"

abbrev pub transaction_event_ended : String
transaction_event_ended = "Ended"

abbrev pub measurand_energy_active_import_register : String
measurand_energy_active_import_register = "Energy.Active.Import.Register"

abbrev pub measurand_power_active_import : String
measurand_power_active_import = "Power.Active.Import"

abbrev pub measurand_soc : String
measurand_soc = "SoC"

abbrev pub reading_context_sample_periodic : String
reading_context_sample_periodic = "Sample.Periodic"

abbrev pub unit_wh : String
unit_wh = "Wh"

abbrev pub unit_w : String
unit_w = "W"

abbrev pub unit_percent : String
unit_percent = "Percent"
