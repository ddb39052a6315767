-- ===== src/V16/Status.antt =====
-- The statuses and error codes of a charge point, ocpp/v16/core/status_notification.go. Both are
-- texts in the source, and a message may hold any text.
use evsys.Common.{
  Bool, List, String, [], elem, if◌then◌else◌, int_has_eq, nat_has_eq, string_has_eq, ◌∷◌,
}

abbrev pub available : String
available = "Available"

abbrev pub preparing : String
preparing = "Preparing"

abbrev pub charging : String
charging = "Charging"

abbrev pub suspended_evse : String
suspended_evse = "SuspendedEVSE"

abbrev pub suspended_ev : String
suspended_ev = "SuspendedEV"

abbrev pub finishing : String
finishing = "Finishing"

abbrev pub reserved : String
reserved = "Reserved"

abbrev pub unavailable : String
unavailable = "Unavailable"

abbrev pub faulted : String
faulted = "Faulted"

abbrev statuses : List String
statuses =
    available ∷ preparing ∷ charging ∷ suspended_evse ∷ suspended_ev ∷ finishing ∷ reserved
    ∷ unavailable ∷ faulted ∷ []

abbrev pub no_error : String
no_error = "NoError"

abbrev error_codes : List String
error_codes =
    "ConnectorLockFailure" ∷ "EVCommunicationError" ∷ "GroundFailure" ∷ "HighTemperature"
    ∷ "InternalError" ∷ "LocalListConflict" ∷ "NoError" ∷ "OtherError" ∷ "OverCurrentFailure"
    ∷ "OverVoltage" ∷ "PowerMeterFailure" ∷ "PowerSwitchFailure" ∷ "ReaderFailure" ∷ "ResetFailure"
    ∷ "UnderVoltage" ∷ "WeakSignal" ∷ []

-- The `switch` of both functions returns the text that it matched.
unfoldable pub is_valid_status : String → Bool
is_valid_status s = elem s statuses

unfoldable pub is_valid_error_code : String → Bool
is_valid_error_code e = elem e error_codes

unfoldable pub get_status : String → String
get_status s = if elem s statuses then s else available

unfoldable pub get_error_code : String → String
get_error_code e = if elem e error_codes then e else no_error
