-- ===== src/Server/Protocol.antt =====
-- The protocol of a connection: ocpp/common/protocol.go, `Contains` of utility/slice.go, the
-- negotiation of `handleWsRequest` in server/server.go and `resolveProtocolVersion` of
-- server/central_system.go.
use evsys.Common.{
  Bool, Dict, List, Option, String, [], ap, arith, elem, false, get, if_true, if◌then◌else◌,
  int_has_eq, length, nat_eq, nat_has_eq, none, refl, some, string_has_eq, true, ◌++◌, ◌==◌, ◌||◌,
  ◌∙◌, ◌∷◌, ◌≡◌,
}

pub data ProtocolVersion : Type 0 where
  ocpp16 ocpp201 ocpp21 unknown_version : ProtocolVersion

unfoldable pub parse_protocol_version : String → ProtocolVersion
parse_protocol_version s =
    if s == "ocpp1.6" || s == "1.6"
    then ocpp16
    else if s == "ocpp2.0.1" || s == "2.0.1"
    then ocpp201
    else if s == "ocpp2.1" || s == "2.1"
    then ocpp21
    else unknown_version

-- The name of a version, as a charge point writes it.
unfoldable pub version_name : ProtocolVersion → String
version_name ocpp16 = "ocpp1.6"
version_name ocpp201 = "ocpp2.0.1"
version_name ocpp21 = "ocpp2.1"
version_name unknown_version = ""

unfoldable pub is_valid_version : ProtocolVersion → Bool
is_valid_version ocpp16 = true
is_valid_version ocpp201 = true
is_valid_version ocpp21 = true
is_valid_version unknown_version = false

-- The loop of `Contains`, whose value after the last element is true.
contains_from : List String → String → Bool
contains_from [] s = true
contains_from (v ∷ vs) s = let rest = contains_from vs s in if v == s then true else rest

unfoldable pub contains : List String → String → Bool
unfolding contains_from
contains [] s = false
contains (v ∷ vs) s = contains_from (v ∷ vs) s

-- AddSupportedSupProtocol
unfoldable pub add_subprotocol : String → List String → List String
add_subprotocol proto subs = if elem proto subs then subs else subs ++ proto ∷ []

-- The first of the client's subprotocols that is accepted, or the empty text.
unfoldable pub requested_protocol : List String → List String → String
unfolding contains
requested_protocol supported [] = ""
requested_protocol supported (proto ∷ rest) =
    let later = requested_protocol supported rest in
    if nat_eq (length supported) 0 || contains supported proto then proto else later

or_default : ProtocolVersion → ProtocolVersion
or_default unknown_version = ocpp16
or_default ocpp16 = ocpp16
or_default ocpp201 = ocpp201
or_default ocpp21 = ocpp21

-- The version that a connection is handled with.
unfoldable pub negotiated : List String → List String → ProtocolVersion
unfolding requested_protocol parse_protocol_version or_default
negotiated supported offered =
    or_default (parse_protocol_version (requested_protocol supported offered))

version_of_command : String → Option ProtocolVersion
version_of_command s =
    if s == "ocpp2.0.1" || s == "2.0.1" || s == "201"
    then some ocpp201
    else if s == "ocpp2.1" || s == "2.1" || s == "21"
    then some ocpp21
    else if s == "ocpp1.6" || s == "1.6" || s == "16"
    then some ocpp16
    else none

connected_version : Option ProtocolVersion → ProtocolVersion
connected_version none = ocpp16
connected_version (some unknown_version) = ocpp16
connected_version (some v) = v

-- resolveProtocolVersion: the command's own version, else the connection's, else the default.
unfoldable pub resolve_protocol_version :
    String → String → Dict String ProtocolVersion → ProtocolVersion
unfolding version_of_command connected_version
resolve_protocol_version version cp connections = elim (version_of_command version) [
  | some v ↦ v
  | none ↦ connected_version (get cp connections)
]

contains_from-true : (vs : List String) (s : String) → contains_from vs s ≡ true
unfolding contains_from
contains_from-true [] s = refl
contains_from-true (v ∷ vs) s = ground (arith, contains_from-true vs s)

-- The subprotocols that the server supports do not matter: of the subprotocols that a client offers
-- the first is accepted, whatever it is.
first_subprotocol_accepted :
    (supported : List String) (proto : String) (rest : List String)
    → requested_protocol supported (proto ∷ rest) ≡ proto
unfolding requested_protocol contains
first_subprotocol_accepted [] proto rest = refl
first_subprotocol_accepted (v ∷ vs) proto rest =
    let later = requested_protocol (v ∷ vs) rest in
    let accepts : (nat_eq (length (v ∷ vs)) 0 || contains (v ∷ vs) proto) ≡ true =
      ground (arith, contains_from-true (v ∷ vs) proto) in
    if_true proto later accepts

or_default_valid : (v : ProtocolVersion) → is_valid_version (or_default v) ≡ true
unfolding or_default is_valid_version
or_default_valid ocpp16 = refl
or_default_valid ocpp201 = refl
or_default_valid ocpp21 = refl
or_default_valid unknown_version = refl

parse-version_name :
    (v : ProtocolVersion) → or_default (parse_protocol_version (version_name v)) ≡ or_default v
unfolding or_default parse_protocol_version version_name
parse-version_name ocpp16 = refl
parse-version_name ocpp201 = refl
parse-version_name ocpp21 = refl
parse-version_name unknown_version = refl

or_default_id : (v : ProtocolVersion) → is_valid_version v ≡ true → or_default v ≡ v
unfolding or_default is_valid_version
or_default_id ocpp16 valid = refl
or_default_id ocpp201 valid = refl
or_default_id ocpp21 valid = refl
or_default_id unknown_version valid = ground arith

-- The version that an API command without its own is handled with.
abbrev pub or_ocpp16 : ProtocolVersion → ProtocolVersion
or_ocpp16 unknown_version = ocpp16
or_ocpp16 v = v

connected_or_ocpp16 : (v : ProtocolVersion) → connected_version (some v) ≡ or_ocpp16 v
unfolding connected_version
connected_or_ocpp16 ocpp16 = refl
connected_or_ocpp16 ocpp201 = refl
connected_or_ocpp16 ocpp21 = refl
connected_or_ocpp16 unknown_version = refl

pub resolved_connection :
    (cp : String) (v : ProtocolVersion) (connections : Dict String ProtocolVersion)
    → get cp connections ≡ some v
    → resolve_protocol_version "" cp connections ≡ or_ocpp16 v
unfolding resolve_protocol_version version_of_command
resolved_connection cp v connections there = ap connected_version there ∙ connected_or_ocpp16 v
