-- ===== src/V201/Handlers.antt =====
-- The handlers of OCPP 2.0.1 for boots, reports, cards and statuses: server/v201_handlers.go. The
-- texts for the log are left out.
pub mod Cards
pub mod Reports
use evsys.Common.{
  Bool, Option, String, false, if◌then◌else◌, int_has_eq, nat_has_eq, none, not, pos, put, some,
  string_has_eq, true, ℕ, ℤ, ◌&&◌,
}
use evsys.Entity.{ChargePoint, Connector, DeviceReport, UserTag}
use evsys.System.Lookup.{add_charge_point, get_charge_point, get_user_tag}
use evsys.System.State.{
  AuthResult, ChargePointState, Outcome, Services, System, notify, panicked, returned, save,
  set_connector, status_notice,
}
use evsys.V201.Adapter.{id_token_to_id_tag}
use evsys.V201.Events.{get_connector_by_evse_and_connector_id, store_connector_if}
use evsys.V201.Types.{
  IdToken, authorization_status_accepted, authorization_status_blocked,
  authorization_status_expired, authorization_status_invalid,
}

pub record ChargingStation : Type 0 where
  pub model : String
  pub vendor_name : String
  pub serial_number : String
  pub firmware_version : String

pub record BootNotificationRequest201 : Type 0 where
  pub charging_station : ChargingStation
  pub reason : String

pub record BootNotificationResponse201 : Type 0 where
  pub status : String
  pub interval : ℤ

abbrev pub default_heartbeat_interval : ℤ
default_heartbeat_interval = pos 600

abbrev pub registration_accepted : String
registration_accepted = "Accepted"

abbrev pub registration_rejected : String
registration_rejected = "Rejected"

unfoldable pub booted : ChargingStation → ChargePoint → ChargePoint
booted station p = record p {
  vendor = station.vendor_name;
  model = station.model;
  serial_number = station.serial_number;
  firmware_version = station.firmware_version;
  protocol_version = "ocpp2.0.1";
}

pub record StatusNotificationRequest201 : Type 0 where
  pub timestamp : ℕ
  pub connector_status : String
  pub evse_id : ℤ
  pub connector_id : ℤ

-- What the service's answer makes of a card that is enabled or accepted.
unfoldable pub status_of_service : AuthResult → String
status_of_service r =
    if r.blocked
    then authorization_status_blocked
    else if r.expired
    then authorization_status_expired
    else if not r.allowed
    then authorization_status_invalid
    else authorization_status_accepted

-- `authorize` fails without a service, and then the card is accepted.
service_status : Services → String → String → String
unfolding status_of_service
service_status sv location tag =
    if sv.has_auth
    then status_of_service (sv.authorize location "" tag)
    else authorization_status_accepted

module _ {sv : Services} where
  -- h.database.UpdateChargePoint(state.model), where there is a database
  store_charge_point_if : ChargePoint → System sv → System sv
  store_charge_point_if p s =
      if sv.has_database then record s { store = (sv.update_charge_point s.store p).0 } else s

  boot_at :
      BootNotificationRequest201
      → ChargePointState
      → System sv
      → BootNotificationResponse201 × System sv
  unfolding booted save store_charge_point_if
  boot_at req st s =
      let p = booted req.charging_station st.model in
      (
        record { status = registration_accepted; interval = default_heartbeat_interval },
        store_charge_point_if p (save (record st { model = p }) s),
      )

  -- A charge point that could not be added is a nil state, which the handler dereferences.
  boot_added :
      BootNotificationRequest201
      → Option ChargePointState × System sv
      → Outcome (BootNotificationResponse201 × System sv)
  unfolding boot_at
  boot_added req (some st, s) = returned (boot_at req st s)
  boot_added req (none, s) = panicked

  boot_from :
      String
      → BootNotificationRequest201
      → Option ChargePointState × System sv
      → Outcome (BootNotificationResponse201 × System sv)
  unfolding boot_at boot_added add_charge_point
  boot_from cp req (some st, s) = returned (boot_at req st s)
  boot_from cp req (none, s) =
      if not sv.accept_points
      then returned (record { status = registration_rejected; interval = pos 0 }, s)
      else boot_added req (add_charge_point cp s)

  unfoldable pub on_boot_notification201 :
      String
      → BootNotificationRequest201
      → System sv
      → Outcome (BootNotificationResponse201 × System sv)
  unfolding boot_from get_charge_point
  on_boot_notification201 cp req s = boot_from cp req (get_charge_point cp s)

  report_from : DeviceReport → Option ChargePointState × System sv → System sv
  unfolding save store_charge_point_if
  report_from report (none, s) = s
  report_from report (some st, s) =
      let p = record st.model { device_model = put "last_report" report st.model.device_model } in
      store_charge_point_if p (save (record st { model = p }) s)

  unfoldable pub on_notify_report : String → DeviceReport → System sv → System sv
  unfolding report_from get_charge_point
  on_notify_report cp report s = report_from report (get_charge_point cp s)

  -- The location of the charge point, and the state of the system.
  located_at : Option ChargePointState × System sv → String × System sv
  located_at (none, s) = ("", s)
  located_at (some st, s) = (st.model.location_id, s)

  authorized : String → String → UserTag × System sv → String × System sv
  unfolding located_at service_status get_charge_point
  authorized cp tag (user, s) =
      if not user.is_enabled && not sv.accept_tags
      then (authorization_status_invalid, s)
      else let (location, s') = located_at (get_charge_point cp s) in
        (service_status sv location tag, s')

  unfoldable pub on_authorize201 : String → IdToken → ℕ → System sv → String × System sv
  unfolding authorized get_user_tag id_token_to_id_tag
  on_authorize201 cp token now s =
      let tag = id_token_to_id_tag (some token) in authorized cp tag (get_user_tag tag now s)

  reported_at :
      StatusNotificationRequest201 → ℤ × Connector × ChargePointState × System sv → System sv
  unfolding set_connector save store_connector_if notify
  reported_at req (key, c, st, s) =
      let c' = record c { status = req.connector_status; status_time = req.timestamp } in
      notify (status_notice req.connector_id req.connector_status)
        (store_connector_if c' (save (set_connector key c' st) s))

  reported_from :
      StatusNotificationRequest201 → Option ChargePointState × System sv → Bool × System sv
  unfolding reported_at get_connector_by_evse_and_connector_id
  reported_from req (none, s) = (false, s)
  reported_from req (some st, s) = (
    true,
    reported_at req
        (get_connector_by_evse_and_connector_id (some req.evse_id) req.connector_id st s),
  )

  -- The lookup of the connector makes one where there is none, so the branch that adds a connector is
  -- never taken. The first part of the result tells an answer from an error.
  unfoldable pub on_status_notification201 :
      String → StatusNotificationRequest201 → System sv → Bool × System sv
  unfolding reported_from get_charge_point
  on_status_notification201 cp req s = reported_from req (get_charge_point cp s)
