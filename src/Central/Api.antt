-- ===== src/Central/Api.antt =====
-- The commands of the API: `handleApiRequest`, `handleApiRequestV16` and `handleApiRequestV201` of
-- server/central_system.go, up to the request that is sent.
use evsys.Central.Incoming.{Central, Router}
use evsys.Common.{
  Bool, Option, String, if◌then◌else◌, int_has_eq, nat_has_eq, none, not, some, string_has_eq, ℕ, ℤ,
  ◌==◌,
}
use evsys.Server.Protocol.{ProtocolVersion, ocpp201, resolve_protocol_version}
use evsys.System.Commands.{
  ApiRequest, PayloadDecoder, on_change_configuration, on_clear_charging_profile,
  on_get_composite_schedule, on_get_configuration, on_get_diagnostics, on_remote_start_transaction,
  on_remote_stop_transaction, on_reset, on_send_local_list, on_set_charging_profile,
  on_trigger_message,
}
use evsys.System.State.{Services, System}
use evsys.V201.Commands.{
  ApiRequest201, VariableDecoder, on_get_variables, on_request_start_transaction,
  on_request_stop_transaction, on_reset201, on_set_variables, on_trigger_message201,
}

pub record CentralSystemCommand : Type 0 where
  pub charge_point_id : String
  pub connector_id : ℤ
  pub feature_name : String
  pub payload : String
  pub protocol_version : String

pub record Decoders : Type 0 where
  pub payloads : PayloadDecoder
  pub variables : VariableDecoder

-- What becomes of a command; `refused` is an error.
pub data ApiOutcome : Type 0 where
  refused server_status : ApiOutcome
  v16_request : ApiRequest → ApiOutcome
  v201_request : ApiRequest201 → ApiOutcome

abbrev pub v16_outcome : Option ApiRequest → ApiOutcome
v16_outcome none = refused
v16_outcome (some r) = v16_request r

abbrev pub v201_outcome : Option ApiRequest201 → ApiOutcome
v201_outcome none = refused
v201_outcome (some r) = v201_request r

module _ {sv : Services} where
  unfoldable pub handle_api_request_v16 :
      Decoders → CentralSystemCommand → System sv → Option ApiRequest × System sv
  unfolding on_trigger_message on_send_local_list on_remote_start_transaction
      on_remote_stop_transaction on_get_configuration on_change_configuration on_reset
      on_set_charging_profile on_get_composite_schedule on_clear_charging_profile on_get_diagnostics
  handle_api_request_v16 ds command s =
      let cp = command.charge_point_id in
      let feature = command.feature_name in
      let payload = command.payload in
      if feature == "TriggerMessage"
      then on_trigger_message cp command.connector_id payload s
      else if feature == "SendLocalList"
      then on_send_local_list cp s
      else if feature == "RemoteStartTransaction"
      then on_remote_start_transaction cp command.connector_id payload s
      else if feature == "RemoteStopTransaction"
      then on_remote_stop_transaction cp payload s
      else if feature == "GetConfiguration"
      then on_get_configuration cp payload s
      else if feature == "ChangeConfiguration"
      then on_change_configuration ds.payloads cp payload s
      else if feature == "Reset"
      then on_reset cp payload s
      else if feature == "SetChargingProfile"
      then on_set_charging_profile ds.payloads cp command.connector_id payload s
      else if feature == "GetCompositeSchedule"
      then on_get_composite_schedule ds.payloads cp command.connector_id payload s
      else if feature == "ClearChargingProfile"
      then on_clear_charging_profile ds.payloads cp payload s
      else if feature == "GetDiagnostics"
      then on_get_diagnostics cp payload s
      else (none, s)

  unfoldable pub handle_api_request_v201 :
      Bool → Decoders → CentralSystemCommand → ℕ → System sv → Option ApiRequest201 × System sv
  unfolding on_request_start_transaction on_request_stop_transaction on_reset201 on_get_variables
      on_set_variables on_trigger_message201
  handle_api_request_v201 has_handlers ds command now s =
      let feature = command.feature_name in
      let payload = command.payload in
      if not has_handlers
      then (none, s)
      else if feature == "RequestStartTransaction"
      then (some (on_request_start_transaction ds.variables command.connector_id payload now), s)
      else if feature == "RequestStopTransaction"
      then on_request_stop_transaction command.charge_point_id payload s
      else if feature == "Reset"
      then (some (on_reset201 payload), s)
      else if feature == "GetVariables"
      then (on_get_variables ds.variables payload, s)
      else if feature == "SetVariables"
      then (on_set_variables ds.variables payload, s)
      else if feature == "TriggerMessage"
      then (on_trigger_message201 payload, s)
      else (none, s)

  -- By the version of the command; OCPP 2.1 and an unknown version are handled as OCPP 1.6.
  unfoldable pub versioned_command :
      ProtocolVersion
      → Bool
      → Decoders
      → CentralSystemCommand
      → ℕ
      → System sv
      → ApiOutcome × System sv
  unfolding handle_api_request_v16 handle_api_request_v201
  versioned_command ocpp201 has_handlers ds command now s =
      let (request, s') = handle_api_request_v201 has_handlers ds command now s in
      (v201_outcome request, s')
  versioned_command version has_handlers ds command now s =
      let (request, s') = handle_api_request_v16 ds command s in (v16_outcome request, s')

  unfoldable pub handle_api_request :
      Router → Decoders → CentralSystemCommand → ℕ → Central sv → ApiOutcome × System sv
  unfolding versioned_command resolve_protocol_version
  handle_api_request rt ds command now k =
      if command.feature_name == ""
      then (refused, k.system)
      else if command.feature_name == "GetServerStatus"
      then (server_status, k.system)
      else versioned_command
          (resolve_protocol_version command.protocol_version command.charge_point_id k.connections)
          rt.has_v201_handlers ds command now k.system
