-- ===== src/Server/Message/Parsing.antt =====
-- The two parsers of a request, with the features of OCPP 1.6 that ocpp/v16/handler.go registers.
use evsys.Common.{
  All, Dict, List, Option, String, [], ap, empty, get, get-All, int_has_eq, nat_has_eq, none, pos,
  put, refl, some, string_has_eq, sym, ◌∙◌, ◌∷◌, ◌≡◌,
}
use evsys.Server.Message.{
  CallType, Field, action_fields, call_type_error, call_type_of, call_type_request,
  call_type_result, get_message_type, invalid, message_type, message_types, number, parse_request,
  parse_request_version_aware, parsed, payload_of, raw_json, request_fields, request_type_of, text,
  typed_payload, versioned_fields, versioned_request_fields,
}
use evsys.Server.Registry.{FeatureTypes, Registry, get_types, register_feature}

abbrev pub feature_entry : String → String → String → String × FeatureTypes
feature_entry action request response =
    (action, record { request_type = request; response_type = response })

-- registerFeatures, in its order.
abbrev pub ocpp16_features : Dict String FeatureTypes
ocpp16_features =
    feature_entry "BootNotification" "core.BootNotificationRequest" "core.BootNotificationResponse"
    ∷ feature_entry "Authorize" "core.AuthorizeRequest" "core.AuthorizeResponse"
    ∷ feature_entry "Heartbeat" "core.HeartbeatRequest" "core.HeartbeatResponse"
    ∷ feature_entry "StartTransaction" "core.StartTransactionRequest"
        "core.StartTransactionResponse"
    ∷ feature_entry "StopTransaction" "core.StopTransactionRequest" "core.StopTransactionResponse"
    ∷ feature_entry "MeterValues" "core.MeterValuesRequest" "core.MeterValuesResponse"
    ∷ feature_entry "StatusNotification" "core.StatusNotificationRequest"
        "core.StatusNotificationResponse"
    ∷ feature_entry "DataTransfer" "core.DataTransferRequest" "core.DataTransferResponse"
    ∷ feature_entry "RemoteStartTransaction" "core.RemoteStartTransactionRequest"
        "core.RemoteStartTransactionResponse"
    ∷ feature_entry "RemoteStopTransaction" "core.RemoteStopTransactionRequest"
        "core.RemoteStopTransactionResponse"
    ∷ feature_entry "GetConfiguration" "core.GetConfigurationRequest"
        "core.GetConfigurationResponse"
    ∷ feature_entry "ChangeConfiguration" "core.ChangeConfigurationRequest"
        "core.ChangeConfigurationResponse"
    ∷ feature_entry "DiagnosticsStatusNotification" "firmware.DiagnosticsStatusNotificationRequest"
        "firmware.DiagnosticsStatusNotificationResponse"
    ∷ feature_entry "FirmwareStatusNotification" "firmware.StatusNotificationRequest"
        "firmware.StatusNotificationResponse"
    ∷ feature_entry "SendLocalList" "localauth.SendLocalListRequest"
        "localauth.SendLocalListResponse"
    ∷ feature_entry "TriggerMessage" "remotetrigger.TriggerMessageRequest"
        "remotetrigger.TriggerMessageResponse"
    ∷ []

abbrev pub ocpp16_name : String
ocpp16_name = "ocpp1.6"

unfoldable pub register_all : Dict String FeatureTypes → Registry → Registry
unfolding register_feature
register_all [] r = r
register_all ((action, types) ∷ fs) r =
    register_all fs (register_feature ocpp16_name action types r)

-- The registry once the handler of OCPP 1.6 is built.
unfoldable pub ocpp16_registry : Registry
unfolding register_all empty
ocpp16_registry = register_all ocpp16_features empty

-- Does the registry name the same request type for the action?
abbrev SameType : String → String → Type 0
SameType action t = request_type_of (get_types ocpp16_name action ocpp16_registry) ≡ some t

registered_types : All (λ (p : String × String). SameType p.0 p.1) message_types
unfolding ocpp16_registry get_types get put request_type_of
registered_types =
    (refl, (refl, (refl, (refl, (refl, (refl, (refl, (refl, (refl, (refl, tt))))))))))

module _ {R : Type 0} (decode : String → Field → Option R) where
  third_fields_agree :
      (id f : Field) (action : String)
      → request_type_of (get_types ocpp16_name action ocpp16_registry) ≡ get_message_type action
      → versioned_fields decode ocpp16_name ocpp16_registry id (text action) f
        ≡ action_fields decode id (text action) f
  unfolding versioned_fields action_fields
  third_fields_agree (text id) f action same = ap (λ o. typed_payload decode o id action f) same
  third_fields_agree (number n) f action same = refl
  third_fields_agree (raw_json s) f action same = refl

  fields_agree :
      (o : Option CallType) (kind id f : Field) (rest : List Field) (action : String)
      → request_type_of (get_types ocpp16_name action ocpp16_registry) ≡ get_message_type action
      → let fs = kind ∷ id ∷ text action ∷ f ∷ rest in
        versioned_request_fields decode ocpp16_name ocpp16_registry o fs
        ≡ request_fields decode o fs
  unfolding versioned_request_fields request_fields
  fields_agree none kind id f rest action same = refl
  fields_agree (some call_type_request) kind id f [] action same =
      third_fields_agree id f action same
  fields_agree (some call_type_request) kind id f (x ∷ xs) action same = refl
  fields_agree (some call_type_result) kind id f rest action same = refl
  fields_agree (some call_type_error) kind id f rest action same = refl

  -- The parser that reads the registry agrees with the older one on every message for OCPP 1.6
  -- whose action is a text that the older one knows: the same request, or both refuse.
  pub parsers_agree :
      (kind id f : Field) (rest : List Field) (action : String) {t : String}
      → get_message_type action ≡ some t
      → parse_request_version_aware decode
          (kind ∷ id ∷ text action ∷ f ∷ rest)
          ocpp16_name
          ocpp16_registry
        ≡ parse_request decode (kind ∷ id ∷ text action ∷ f ∷ rest)
  unfolding parse_request parse_request_version_aware get_message_type message_type
  parsers_agree kind id f rest action known_action =
      fields_agree (call_type_of kind) kind id f rest action
        (get-All SameType message_types registered_types known_action ∙ sym known_action)

  -- A request whose action is known and whose payload is decoded is parsed.
  pub parse_request-decoded :
      (id action : String) (f : Field) (r : R) {t : String}
      → get_message_type action ≡ some t
      → decode t f ≡ some r
      → parse_request decode (number (pos 2) ∷ text id ∷ text action ∷ f ∷ [])
        ≡ parsed record { unique_id = id; feature = action; payload = r }
  unfolding parse_request message_type request_fields action_fields typed_payload payload_of
      get_message_type
  parse_request-decoded id action f r known decoded = rw (known, decoded) refl

  unregistered_fields :
      (version : String) (registry : Registry) (o : Option CallType) (fs : List Field)
      → ((action : String) → get_types version action registry ≡ none)
      → versioned_request_fields decode version registry o fs ≡ invalid
  unfolding versioned_request_fields versioned_fields request_type_of typed_payload get_types
  unregistered_fields version registry none fs h = refl
  unregistered_fields version registry (some call_type_result) fs h = refl
  unregistered_fields version registry (some call_type_error) fs h = refl
  unregistered_fields version registry (some call_type_request) [] h = refl
  unregistered_fields version registry (some call_type_request) (a ∷ []) h = refl
  unregistered_fields version registry (some call_type_request) (a ∷ b ∷ []) h = refl
  unregistered_fields version registry (some call_type_request) (a ∷ b ∷ c ∷ []) h = refl
  unregistered_fields version registry (some call_type_request) (a ∷ b ∷ c ∷ d ∷ e ∷ fs) h = refl
  unregistered_fields version registry (some call_type_request) (a ∷ text id ∷ text action ∷ f ∷ [])
        h =
      ap (λ o. typed_payload decode (request_type_of o) id action f) (h action)
  unregistered_fields version registry (some call_type_request) (a ∷ text id ∷ number n ∷ f ∷ [])
        h =
      refl
  unregistered_fields version registry (some call_type_request) (a ∷ text id ∷ raw_json s ∷ f ∷ [])
        h =
      refl
  unregistered_fields version registry (some call_type_request) (a ∷ number n ∷ c ∷ f ∷ []) h = refl
  unregistered_fields version registry (some call_type_request) (a ∷ raw_json s ∷ c ∷ f ∷ []) h =
      refl

  -- A version without features has no requests.
  pub unregistered_version :
      (version : String) (registry : Registry) (fs : List Field)
      → ((action : String) → get_types version action registry ≡ none)
      → parse_request_version_aware decode fs version registry ≡ invalid
  unfolding parse_request_version_aware
  unregistered_version version registry fs h =
      unregistered_fields version registry (message_type fs) fs h

-- No feature of OCPP 2.0.1 is registered.
pub ocpp201_unregistered : (action : String) → get_types "ocpp2.0.1" action ocpp16_registry ≡ none
unfolding ocpp16_registry get_types get put
ocpp201_unregistered action = refl
