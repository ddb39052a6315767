-- ===== src/V201/Commands.antt =====
-- The commands that the API sends to charge points of OCPP 2.0.1: `OnRequestStartTransaction` and the
-- handlers after it in server/v201_handlers.go. A request that is `none` is an error. The JSON of a
-- payload is read by the parameter `json`; the variables in it are kept as their text.
use Prim.Native.Char.{code}
use evsys.Common.{
  Bool, Dict, Option, String, [], false, if◌then◌else◌, int_has_eq, ltb_ℤ, nat_has_eq, none, pos,
  some, string_has_eq, ℕ, ℤ, ◌%◌, ◌==◌, ◌||◌, ◌∷◌,
}
use evsys.System.Commands.{connector_if, map_option}
use evsys.System.Lookup.{get_charge_point}
use evsys.System.State.{ChargePointState, Services, System}
use evsys.Texts.{itoa}
use evsys.V201.Types.{IdToken, id_token_type_local}

pub record TokenData : Type 0 where
  pub id_token : String
  pub type : String

pub record VariableDecoder : Type 0 where
  pub token_data : String → Option TokenData
  pub get_variable_data : String → Option String
  pub set_variable_data : String → Option String

pub record RequestStartTransactionRequest : Type 0 where
  pub id_token : IdToken
  pub remote_start_id : ℕ
  pub evse_id : Option ℤ

-- The variables that a GetVariables request asks for.
pub data VariableRequest : Type 0 where
  -- the component and the variable of a simple payload
  one_variable : String → String → VariableRequest
  json_variables : String → VariableRequest

pub data ApiRequest201 : Type 0 where
  request_start : RequestStartTransactionRequest → ApiRequest201
  request_stop : String → ApiRequest201
  reset_station : String → ApiRequest201
  get_variables : VariableRequest → ApiRequest201
  set_variables : String → ApiRequest201

-- len(payload) > 0 && payload[0] == c, for an ASCII character
abbrev pub starts_with_code : ℕ → String → Bool
starts_with_code n String.[] = false
starts_with_code n (String.◌∷◌ c s) = code c == n

abbrev local_token : String → IdToken
local_token card = record { id_token = card; type = id_token_type_local; additional_info = [] }

unfoldable pub token_of_data : String → Option TokenData → IdToken
token_of_data payload none = local_token payload
token_of_data payload (some d) = record (local_token d.id_token) {
  type = if d.type == "" then id_token_type_local else d.type;
}

unfoldable pub token_of_payload : VariableDecoder → String → IdToken
unfolding token_of_data
token_of_payload json payload =
    if starts_with_code 123 payload
    then token_of_data payload (json.token_data payload)
    else local_token payload

unfoldable pub on_request_start_transaction : VariableDecoder → ℤ → String → ℕ → ApiRequest201
unfolding token_of_payload connector_if
on_request_start_transaction json connector payload now = request_start record {
  id_token = token_of_payload json payload;
  remote_start_id = now % 1000000;
  evse_id = connector_if (ltb_ℤ (pos 0) connector) connector;
}

-- The first transaction of the map; which one that is, is not fixed.
unfoldable pub any_transaction : Dict ℤ ℤ → String
unfolding itoa
any_transaction [] = ""
any_transaction ((id, _) ∷ d) = itoa id

abbrev pub transactions_of : Option ChargePointState → Dict ℤ ℤ
transactions_of none = []
transactions_of (some st) = st.transactions

unfoldable pub stop_of : String → Option ApiRequest201
stop_of id = if id == "" then none else some (request_stop id)

unfoldable pub on_request_stop_transaction :
    {sv : Services} → String → String → System sv → Option ApiRequest201 × System sv
unfolding any_transaction stop_of get_charge_point
on_request_stop_transaction cp payload s =
    if payload == ""
    then (let (o, s') = get_charge_point cp s in
        (stop_of (any_transaction (transactions_of o)), s'))
    else (stop_of payload, s)

unfoldable pub on_reset201 : String → ApiRequest201
on_reset201 payload =
    reset_station (if payload == "Soft" || payload == "OnIdle" then "OnIdle" else "Immediate")

unfoldable pub on_get_variables : VariableDecoder → String → Option ApiRequest201
on_get_variables json payload =
    if starts_with_code 91 payload
    then map_option (λ v. get_variables (json_variables v)) (json.get_variable_data payload)
    else some (get_variables (one_variable "OCPPCommCtrlr" payload))

unfoldable pub on_set_variables : VariableDecoder → String → Option ApiRequest201
on_set_variables json payload = map_option set_variables (json.set_variable_data payload)

unfoldable pub on_trigger_message201 : String → Option ApiRequest201
on_trigger_message201 payload = none
