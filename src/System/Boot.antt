-- ===== src/System/Boot.antt =====
-- A charge point of OCPP 1.6 boots: `OnBootNotification` of server/system_handler.go and what it
-- starts, `enforceMeterValueInterval`, `enforceMeterMeasurands` and `mergeMeasurands`.
pub mod Measurands
pub mod Enforce
use evsys.Common.{
  Bool, List, Option, String, [], elem, false, if◌then◌else◌, int_has_eq, leb_ℤ, nat_has_eq, none,
  not, pos, some, string_has_eq, true, ℤ, ◌&&◌, ◌++◌, ◌==◌, ◌||◌, ◌∷◌,
}
use evsys.Entity.{ChargePoint}
use evsys.System.Lookup.{get_charge_point}
use evsys.System.State.{ChargePointState, Services, System, save}
use evsys.Texts.{itoa, join, split, to_lower, trim_space, trimmed_items}

pub record BootNotificationRequest : Type 0 where
  pub charge_point_serial_number : String
  pub firmware_version : String
  pub charge_point_model : String
  pub charge_point_vendor : String

-- The goroutines that a boot starts.
pub data BootTask : Type 0 where
  reconcile_task measurands_task : BootTask
  interval_task : Bool → BootTask

pub record BootReply : Type 0 where
  pub status : String
  pub tasks : List BootTask

abbrev pub registration_status_accepted : String
registration_status_accepted = "Accepted"

abbrev pub registration_status_rejected : String
registration_status_rejected = "Rejected"

unfoldable pub is_same_device : BootNotificationRequest → ChargePoint → Bool
is_same_device req p =
    p.serial_number == req.charge_point_serial_number && p.firmware_version == req.firmware_version

unfoldable pub described : BootNotificationRequest → ChargePoint → ChargePoint
described req p = record p {
  serial_number = req.charge_point_serial_number;
  firmware_version = req.firmware_version;
  model = req.charge_point_model;
  vendor = req.charge_point_vendor;
}

module _ {sv : Services} where
  unfoldable pub updated_device : BootNotificationRequest → ChargePointState → System sv → System sv
  unfolding is_same_device described save
  updated_device req st s =
      if sv.has_database && not (is_same_device req st.model)
      then (let p = described req st.model in
          let s1 = save (record st { model = p }) s in
          record s1 { store = (sv.update_charge_point s1.store p).0 })
      else s

  boot_from : BootNotificationRequest → Option ChargePointState × System sv → BootReply × System sv
  unfolding updated_device
  boot_from req (none, s) = (record { status = registration_status_rejected; tasks = [] }, s)
  boot_from req (some st, s) = (
    record {
      status = registration_status_accepted;
      tasks = reconcile_task ∷ interval_task st.trigger_message ∷ measurands_task ∷ [];
    },
    updated_device req st s,
  )

  unfoldable pub on_boot_notification :
      String → BootNotificationRequest → System sv → BootReply × System sv
  unfolding boot_from get_charge_point
  on_boot_notification cp req s = boot_from req (get_charge_point cp s)

abbrev pub meter_measurands_key : String
meter_measurands_key = "MeterValuesSampledData"

pub record ChangeConfigurationRequest : Type 0 where
  pub key : String
  pub value : String

-- What is sent, if anything; `has_server` says whether the handler can send.
unfoldable pub enforce_meter_value_interval : Bool → Bool → ℤ → Option ChangeConfigurationRequest
enforce_meter_value_interval has_server trigger_message interval =
    if trigger_message || leb_ℤ interval (pos 0) || not has_server
    then none
    else some record { key = "MeterValueSampleInterval"; value = itoa interval }

-- The names in lower case.
abbrev pub lower_names : List String → List String
lower_names [] = []
lower_names (x ∷ xs) = to_lower x ∷ lower_names xs

-- One required measurand: the list, the set of the names seen, and whether anything was added.
unfoldable pub merge_one :
    String → List String × List String × Bool → List String × List String × Bool
unfolding trim_space to_lower
merge_one required (existing, seen, changed) =
    let name = trim_space required in
    if not (name == "") && not (elem (to_lower name) seen)
    then (existing ++ name ∷ [], to_lower name ∷ seen, true)
    else (existing, seen, changed)

unfoldable pub merge_all :
    List String → List String × List String × Bool → List String × List String × Bool
unfolding merge_one
merge_all [] m = m
merge_all (r ∷ rs) m = merge_all rs (merge_one r m)

unfoldable pub merge_measurands : String → List String → String × Bool
unfolding merge_all split trimmed_items join
merge_measurands current required =
    let existing = trimmed_items (split current) in
    let (merged, seen, changed) = merge_all required (existing, lower_names existing, false) in
    (join merged, changed)

pub record ConfigurationKey : Type 0 where
  pub key : String
  pub value : Option String

-- The value of the last key with the name that has one.
unfoldable pub current_value : List ConfigurationKey → String → String
current_value [] found_before = found_before
current_value (k ∷ ks) found_before = current_value ks (
    if k.key == meter_measurands_key
    then elim k.value [ none ↦ found_before | some v ↦ v ]
    else found_before)

-- What is written after the charge point answered with its configuration, if anything; `none` is an
-- answer that did not come, or that is not one.
unfoldable pub enforce_meter_measurands :
    Bool → List String → Option (List ConfigurationKey) → Option ChangeConfigurationRequest
unfolding merge_measurands current_value
enforce_meter_measurands has_server [] answer = none
enforce_meter_measurands has_server (r ∷ rs) none = none
enforce_meter_measurands has_server (r ∷ rs) (some keys) =
    let (merged, changed) = merge_measurands (current_value keys "") (r ∷ rs) in
    if has_server && changed
    then some record { key = meter_measurands_key; value = merged }
    else none
