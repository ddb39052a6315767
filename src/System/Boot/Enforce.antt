-- ===== src/System/Boot/Enforce.antt =====
-- What a boot of OCPP 1.6 does: `OnBootNotification` and `enforceMeterMeasurands` of
-- server/system_handler.go.
use evsys.Common.{
  All, Bool, List, Option, String, [], ap, arith, false, get, if_ind, if◌then◌else◌, int_has_eq,
  nat_has_eq, none, not, refl, some, string_has_eq, true, ◌&&◌, ◌∙◌, ◌∷◌, ◌≡◌,
}
use evsys.System.Boot.{
  BootNotificationRequest, ChangeConfigurationRequest, ConfigurationKey, current_value, described,
  enforce_meter_measurands, interval_task, is_same_device, measurands_task, merge_measurands,
  meter_measurands_key, on_boot_notification, reconcile_task, registration_status_accepted,
  updated_device,
}
use evsys.System.Boot.Measurands.{merge_settles}
use evsys.System.Laws.{Laws}
use evsys.System.Lookup.Documents.{SameDocuments}
use evsys.System.Lookup.Known.{get-save, get_charge_point_known}
use evsys.System.State.{ChargePointState, Services, System, save}
use evsys.System.Sweep.Release.{settled}
use evsys.Texts.Split.{NoComma}

-- The list that a charge point reports once it took the written value.
abbrev pub answered_with : String → List ConfigurationKey
answered_with value = record { key = meter_measurands_key; value = some value } ∷ []

current_answered : (value : String) → current_value (answered_with value) "" ≡ value
unfolding current_value
current_answered value = refl

write_of : String → Bool → Option ChangeConfigurationRequest
write_of merged changed =
    if true && changed then some record { key = meter_measurands_key; value = merged } else none

changed_write :
    (merged : String) (changed : Bool) (w : ChangeConfigurationRequest)
    → write_of merged changed ≡ some w
    → (w.key ≡ meter_measurands_key) × (w.value ≡ merged)
unfolding write_of
changed_write merged true w h = ground arith
changed_write merged false w h = ground arith

-- A charge point that took the list of measurands which a boot wrote is written nothing at its next
-- boot, where no required measurand has a comma in it.
pub measurands_written_once :
    (required : String) (others : List String) (keys : List ConfigurationKey)
    (w : ChangeConfigurationRequest)
    → All NoComma (required ∷ others)
    → enforce_meter_measurands true (required ∷ others) (some keys) ≡ some w
    → (w.key ≡ meter_measurands_key)
      × (enforce_meter_measurands true (required ∷ others) (some (answered_with w.value)) ≡ none)
unfolding enforce_meter_measurands write_of
measurands_written_once required others keys w no_comma wrote =
    let current = current_value keys "" in
    let (merged, changed) = merge_measurands current (required ∷ others) in
    let (is_key, is_merged) = changed_write merged changed w wrote in
    let (_, _, settled) = merge_settles current (required ∷ others) no_comma in
    (
      is_key,
      ap (λ v. enforce_meter_measurands true (required ∷ others) (some (answered_with v))) is_merged
          ∙ ap (λ (c : String × Bool). write_of c.0 c.1) settled,
    )

module _ {sv : Services} where
  updated_points :
      (req : BootNotificationRequest) (cp : String) (st : ChargePointState) (s : System sv)
      → get cp s.charge_points ≡ some st
      → st.model.id ≡ cp
      → (st' : ChargePointState) × (get cp (updated_device req st s).charge_points ≡ some st')
        × (st'.connectors ≡ st.connectors)
        × (st'.transactions ≡ st.transactions)
  unfolding updated_device
  updated_points req cp st s present named =
      let st' = record st { model = described req st.model } in
      let s1 = save st' s in
      if_ind
        (λ (u : System sv).
          (t : ChargePointState) × (get cp u.charge_points ≡ some t)
          × (t.connectors ≡ st.connectors)
          × (t.transactions ≡ st.transactions))
        (sv.has_database && not (is_same_device req st.model))
        (record s1 { store = (sv.update_charge_point s1.store st'.model).0 }) s
        (st', get-save st' s named, refl, refl) (st, present, refl, refl)

  updated_documents :
      (laws : Laws sv) (req : BootNotificationRequest) (st : ChargePointState) (s : System sv)
      → SameDocuments s (updated_device req st s)
  unfolding updated_device save
  updated_documents laws req st s j =
      ground (arith, laws.after_update_charge_point s.store (described req st.model) j)

  -- A charge point in memory that boots is accepted, and its open transactions, its metering interval
  -- and its measurands are looked at. Until then it keeps its connectors and its transactions, and
  -- every transaction document is as it was.
  pub boot_keeps_sessions :
      (laws : Laws sv) (cp : String) (req : BootNotificationRequest) (s : System sv)
      {st : ChargePointState}
      → get cp s.charge_points ≡ some st
      → st.model.id ≡ cp
      → let (reply, s') = on_boot_notification cp req s in
        (reply ≡ record {
          status = registration_status_accepted;
          tasks = reconcile_task ∷ interval_task st.trigger_message ∷ measurands_task ∷ [];
        })
        × ((st' : ChargePointState) × (get cp s'.charge_points ≡ some st')
            × (st'.connectors ≡ st.connectors)
            × (st'.transactions ≡ st.transactions))
        × SameDocuments s s'
  unfolding on_boot_notification
  boot_keeps_sessions laws cp req s {st = st} present named =
      rw (get_charge_point_known cp s present)
        (refl, updated_points req cp st s present named, λ j. updated_documents laws req st s j)
