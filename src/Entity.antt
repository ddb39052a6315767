-- ===== src/Entity.antt =====
-- The documents that the parts of the central system share: entity/connector.go,
-- entity/charge_point.go, entity/location.go, entity/transaction.go, entity/transaction_meter.go, entity/user_tag.go and
-- the sampled values of types/types.go. A time is a number of seconds, 0 for the zero time. Fields
-- that no modelled code reads or writes are left out, and so are the mutexes.
pub mod IdTag
use evsys.Common.{
  Bool, Dict, List, Option, String, false, int_has_eq, nat_has_eq, negsuc, none, pos, some,
  string_has_eq, true, ℕ, ℤ, ◌/◌, ◌==◌,
}

pub record ProfileVerdict : Type 0 where
  pub status : String
  pub limit : ℤ
  pub stack_level : ℤ
  pub time : ℕ

abbrev pub profile_status_accepted : String
profile_status_accepted = "Accepted"

abbrev pub profile_status_rejected : String
profile_status_rejected = "Rejected"

abbrev pub profile_status_not_supported : String
profile_status_not_supported = "NotSupported"

abbrev pub profile_status_no_response : String
profile_status_no_response = "NoResponse"

abbrev pub profile_status_unreadable : String
profile_status_unreadable = "Unreadable"

unfoldable pub accepted : Option ProfileVerdict → Bool
accepted none = false
accepted (some v) = v.status == profile_status_accepted

pub record Connector : Type 0 where
  pub id : ℤ
  pub charge_point_id : String
  pub is_enabled : Bool
  pub status : String
  pub status_time : ℕ
  pub state : String
  pub info : String
  pub vendor_id : String
  pub error_code : String
  pub current_power_limit : ℤ
  pub current_transaction_id : ℤ
  pub evse_id : Option ℤ
  pub last_profile : Option ProfileVerdict

-- The transaction id of a connector that holds none.
abbrev pub no_transaction : ℤ
no_transaction = negsuc 0

unfoldable pub new_connector : ℤ → String → Connector
new_connector id charge_point_id = record {
  id = id;
  charge_point_id = charge_point_id;
  is_enabled = true;
  status = "";
  status_time = 0;
  state = "";
  info = "";
  vendor_id = "";
  error_code = "";
  current_power_limit = pos 0;
  current_transaction_id = no_transaction;
  evse_id = none;
  last_profile = none;
}

-- The last report of the device model, as a map of the charge point keeps it.
pub record DeviceReport : Type 0 where
  pub request_id : ℤ
  pub seq_no : ℤ
  pub generated_at : ℕ
  pub tbc : Bool

pub record ChargePoint : Type 0 where
  pub id : String
  pub location_id : String
  pub is_enabled : Bool
  pub title : String
  pub model : String
  pub serial_number : String
  pub vendor : String
  pub firmware_version : String
  pub local_auth_version : ℤ
  pub smart_charging : Bool
  pub trigger_message : Bool
  pub status : String
  pub status_time : ℕ
  pub info : String
  pub access_type : String
  pub access_level : ℤ
  pub error_code : String
  pub is_online : Bool
  pub event_time : ℕ
  pub connectors : List Connector
  pub protocol_version : String
  pub device_model : Dict String DeviceReport

pub record TransactionMeter : Type 0 where
  pub id : ℤ
  pub value : ℤ
  pub power_rate : ℤ
  pub power_active : ℤ
  pub price : ℤ
  pub battery_level : ℤ
  pub consumed_energy : ℤ
  pub time : ℕ
  pub minute : ℕ
  pub unit : String
  pub measurand : String
  pub connector_id : ℤ
  pub connector_status : String

unfoldable pub new_meter : ℤ → ℤ → String → ℕ → TransactionMeter
new_meter id connector_id status timestamp = record {
  id = id;
  value = pos 0;
  power_rate = pos 0;
  power_active = pos 0;
  price = pos 0;
  battery_level = pos 0;
  consumed_energy = pos 0;
  time = timestamp;
  minute = timestamp / 60;
  unit = "";
  measurand = "";
  connector_id = connector_id;
  connector_status = status;
}

pub record UserTag : Type 0 where
  pub username : String
  pub user_id : String
  pub id_tag : String
  pub source : String
  pub is_enabled : Bool
  pub local : Bool
  pub note : String
  pub date_registered : ℕ
  pub last_seen : ℕ

pub record PaymentPlan : Type 0 where
  pub price_per_hour : ℤ
  pub price_per_kwh : ℤ
  pub start_time : String
  pub end_time : String

-- A value of the `map[string]interface{}` of a transaction.
pub data MetaValue : Type 0 where
  meta_text : String → MetaValue
  meta_number : ℤ → MetaValue

pub record Transaction : Type 0 where
  pub id : ℤ
  pub session_id : String
  pub is_finished : Bool
  pub connector_id : ℤ
  pub charge_point_id : String
  pub id_tag : String
  pub reservation_id : Option ℤ
  pub meter_start : ℤ
  pub meter_stop : ℤ
  pub time_start : ℕ
  pub time_stop : ℕ
  pub reason : String
  pub id_tag_note : String
  pub username : String
  pub payment_amount : ℤ
  pub plan : Option PaymentPlan
  pub meter_values : List TransactionMeter
  pub user_tag : Option UserTag
  pub protocol_version : String
  pub evse_id : Option ℤ
  pub metadata : Dict String MetaValue

-- One sample of a meter value. `number` is what `utility.ToInt` makes of the text of the value.
pub record SampledValue : Type 0 where
  pub number : ℤ
  pub context : String
  pub measurand : String
  pub location : String
  pub unit : String

-- `timestamp` is none where the charge point sent no time.
pub record MeterValue : Type 0 where
  pub timestamp : Option ℕ
  pub sampled_value : List SampledValue

pub record Location : Type 0 where
  pub id : String
  pub power_limit : ℤ
  pub default_power_limit : ℤ
  pub evses : List ChargePoint
