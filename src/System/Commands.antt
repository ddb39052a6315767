-- ===== src/System/Commands.antt =====
-- The commands that the API sends to charge points of OCPP 1.6: the handlers from `OnTriggerMessage`
-- to `OnReset` of server/system_handler.go. A request that is `none` is an error. The JSON of a payload
-- is read by the parameter `json`.
pub mod Payloads
use evsys.Common.{
  Bool, List, Option, String, [], if◌then◌else◌, int64, int_has_eq, leb_ℤ, ltb_ℤ, nat_has_eq, none,
  pos, some, string_has_eq, ℤ, ◌+ℤ◌, ◌==◌, ◌||◌, ◌∷◌,
}
use evsys.Entity.{UserTag}
use evsys.System.Boot.{ChangeConfigurationRequest}
use evsys.System.Lookup.{get_charge_point}
use evsys.System.State.{ChargePointState, Services, System}
use evsys.Texts.{parse_int, split, trim_space, trimmed_items}

pub record GetCompositeScheduleQuery : Type 0 where
  pub duration : ℤ
  pub charging_rate_unit : String

-- What `json.Unmarshal` makes of a payload; a profile is kept as its text.
pub record PayloadDecoder : Type 0 where
  pub change_configuration : String → Option ChangeConfigurationRequest
  pub charging_profile : String → Option String
  pub clear_charging_profile : String → Option String
  pub composite_schedule_query : String → Option GetCompositeScheduleQuery

pub data ApiRequest : Type 0 where
  trigger_message_request : String → Option ℤ → ApiRequest
  send_local_list_request : ℤ → List String → ApiRequest
  remote_start_transaction_request : String → Option ℤ → ApiRequest
  remote_stop_transaction_request : ℤ → ApiRequest
  get_configuration_request : List String → ApiRequest
  change_configuration_request : ChangeConfigurationRequest → ApiRequest
  set_charging_profile_request : ℤ → String → ApiRequest
  get_composite_schedule_request : ℤ → ℤ → String → ApiRequest
  clear_charging_profile_request : String → ApiRequest
  get_diagnostics_request : String → ApiRequest
  reset_request : String → ApiRequest

-- parseCompositeScheduleQuery
unfoldable pub checked_query : Option GetCompositeScheduleQuery → Option GetCompositeScheduleQuery
checked_query none = none
checked_query (some q) =
    if leb_ℤ q.duration (pos 0)
    then none
    else if q.charging_rate_unit == "" || q.charging_rate_unit == "A" || q.charging_rate_unit == "W"
    then some q
    else none

unfoldable pub parse_composite_schedule_query :
    PayloadDecoder → String → Option GetCompositeScheduleQuery
unfolding checked_query
parse_composite_schedule_query json payload = elim (parse_int (trim_space payload)) [
  | some duration ↦ some record { duration = duration; charging_rate_unit = "" }
  | none ↦ checked_query (json.composite_schedule_query payload)
]

unfoldable pub connector_if : Bool → ℤ → Option ℤ
connector_if wanted id = if wanted then some id else none

abbrev pub tags_of : Option (List UserTag) → List String
tags_of none = []
tags_of (some []) = []
tags_of (some (tag ∷ tags)) = tag.id_tag ∷ tags_of (some tags)

-- The request for a charge point that is there.
abbrev pub map_option {ℓ κ} : {A : Type ℓ} {B : Type κ} → (A → B) → Option A → Option B
map_option f none = none
map_option f (some a) = some (f a)

unfoldable pub on_remote_stop_payload : String → Option ApiRequest
on_remote_stop_payload id = map_option remote_stop_transaction_request (parse_int id)

unfoldable pub on_get_configuration_payload : String → ApiRequest
on_get_configuration_payload key = get_configuration_request (trimmed_items (split key))

unfoldable pub on_change_configuration_payload : PayloadDecoder → String → Option ApiRequest
on_change_configuration_payload json payload =
    map_option change_configuration_request (json.change_configuration payload)

unfoldable pub on_set_charging_profile_payload : PayloadDecoder → ℤ → String → Option ApiRequest
on_set_charging_profile_payload json connector payload =
    map_option (set_charging_profile_request connector) (json.charging_profile payload)

unfoldable pub on_get_composite_schedule_payload : PayloadDecoder → ℤ → String → Option ApiRequest
unfolding parse_composite_schedule_query
on_get_composite_schedule_payload json connector payload =
    map_option
      (λ (q : GetCompositeScheduleQuery).
        get_composite_schedule_request connector q.duration q.charging_rate_unit)
      (parse_composite_schedule_query json payload)

unfoldable pub on_clear_charging_profile_payload : PayloadDecoder → String → Option ApiRequest
on_clear_charging_profile_payload json payload =
    map_option clear_charging_profile_request (json.clear_charging_profile payload)

unfoldable pub on_get_diagnostics_payload : String → Option ApiRequest
on_get_diagnostics_payload payload =
    if payload == "" then none else some (get_diagnostics_request payload)

module _ {sv : Services} where
  -- Each handler first looks the charge point up.
  for_charge_point :
      (ChargePointState → System sv → Option ApiRequest)
      → Option ChargePointState × System sv
      → Option ApiRequest × System sv
  for_charge_point make (none, s) = (none, s)
  for_charge_point make (some st, s) = (make st s, s)

  unfoldable pub on_trigger_message :
      String → ℤ → String → System sv → Option ApiRequest × System sv
  unfolding for_charge_point get_charge_point connector_if
  on_trigger_message cp connector message s =
      for_charge_point
        (λ st u.
          some (trigger_message_request message (connector_if (leb_ℤ (pos 0) connector) connector)))
        (get_charge_point cp s)

  local_list : String → ChargePointState → System sv → ApiRequest
  local_list cp st s =
      let version = int64 (st.model.local_auth_version +ℤ pos 1) in
      send_local_list_request version
        (if sv.has_database then tags_of (sv.get_active_user_tags s.store cp version) else [])

  unfoldable pub on_send_local_list : String → System sv → Option ApiRequest × System sv
  unfolding for_charge_point get_charge_point local_list
  on_send_local_list cp s =
      for_charge_point (λ st u. some (local_list cp st u)) (get_charge_point cp s)

  unfoldable pub on_remote_start_transaction :
      String → ℤ → String → System sv → Option ApiRequest × System sv
  unfolding for_charge_point get_charge_point connector_if
  on_remote_start_transaction cp connector id_tag s =
      for_charge_point
        (λ st u. some (
          remote_start_transaction_request id_tag
            (connector_if (ltb_ℤ (pos 0) connector) connector)))
        (get_charge_point cp s)

  unfoldable pub on_remote_stop_transaction :
      String → String → System sv → Option ApiRequest × System sv
  unfolding for_charge_point get_charge_point on_remote_stop_payload
  on_remote_stop_transaction cp id s =
      for_charge_point (λ st u. on_remote_stop_payload id) (get_charge_point cp s)

  unfoldable pub on_get_configuration : String → String → System sv → Option ApiRequest × System sv
  unfolding for_charge_point get_charge_point on_get_configuration_payload
  on_get_configuration cp key s =
      for_charge_point (λ st u. some (on_get_configuration_payload key)) (get_charge_point cp s)

  unfoldable pub on_change_configuration :
      PayloadDecoder → String → String → System sv → Option ApiRequest × System sv
  unfolding for_charge_point get_charge_point on_change_configuration_payload
  on_change_configuration json cp payload s =
      for_charge_point (λ st u. on_change_configuration_payload json payload)
        (get_charge_point cp s)

  unfoldable pub on_set_charging_profile :
      PayloadDecoder → String → ℤ → String → System sv → Option ApiRequest × System sv
  unfolding for_charge_point get_charge_point on_set_charging_profile_payload
  on_set_charging_profile json cp connector payload s =
      for_charge_point (λ st u. on_set_charging_profile_payload json connector payload)
        (get_charge_point cp s)

  unfoldable pub on_get_composite_schedule :
      PayloadDecoder → String → ℤ → String → System sv → Option ApiRequest × System sv
  unfolding for_charge_point get_charge_point on_get_composite_schedule_payload
  on_get_composite_schedule json cp connector payload s =
      for_charge_point (λ st u. on_get_composite_schedule_payload json connector payload)
        (get_charge_point cp s)

  unfoldable pub on_clear_charging_profile :
      PayloadDecoder → String → String → System sv → Option ApiRequest × System sv
  unfolding for_charge_point get_charge_point on_clear_charging_profile_payload
  on_clear_charging_profile json cp payload s =
      for_charge_point (λ st u. on_clear_charging_profile_payload json payload)
        (get_charge_point cp s)

  unfoldable pub on_get_diagnostics : String → String → System sv → Option ApiRequest × System sv
  unfolding for_charge_point get_charge_point on_get_diagnostics_payload
  on_get_diagnostics cp payload s =
      for_charge_point (λ st u. on_get_diagnostics_payload payload) (get_charge_point cp s)

  unfoldable pub on_reset : String → String → System sv → Option ApiRequest × System sv
  unfolding for_charge_point get_charge_point
  on_reset cp payload s =
      for_charge_point (λ st u. some (reset_request payload)) (get_charge_point cp s)
