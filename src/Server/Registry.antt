-- ===== src/Server/Registry.antt =====
-- The registry of the features of each protocol version: ocpp/common/registry.go, and the features of
-- OCPP 1.6 in ocpp/v16/handler.go. A Go type is named by a text. The lock makes each operation one step.
use evsys.Common.{
  Bool, Bool-cases, Dict, Option, Option-cases, String, [], ap, arith, false, get, get-put,
  get-remove, if◌then◌else◌, inl, inr, int_has_eq, nat_has_eq, none, put, refl, remove, some,
  string_has_eq, true, ◌&&◌, ◌==◌, ◌∙◌, ◌≡◌,
}

pub record FeatureTypes : Type 0 where
  pub request_type : String
  pub response_type : String

abbrev pub Registry : Type 0
Registry = Dict String (Dict String FeatureTypes)

features_of : Option (Dict String FeatureTypes) → Dict String FeatureTypes
features_of none = []
features_of (some features) = features

unfoldable pub register_feature : String → String → FeatureTypes → Registry → Registry
unfolding features_of
register_feature version action types r =
    put version (put action types (features_of (get version r))) r

types_in : Option (Dict String FeatureTypes) → String → Option FeatureTypes
types_in none action = none
types_in (some features) action = get action features

-- GetTypes; none for its two errors.
unfoldable pub get_types : String → String → Registry → Option FeatureTypes
unfolding types_in
get_types version action r = types_in (get version r) action

without : String → Option (Dict String FeatureTypes) → String → Registry → Registry
without version none action r = r
without version (some features) action r = put version (remove action features) r

unfoldable pub unregister_feature : String → String → Registry → Registry
unfolding without
unregister_feature version action r = without version (get version r) action r

types_in_features :
    (o : Option (Dict String FeatureTypes)) (action : String)
    → get action (features_of o) ≡ types_in o action
unfolding features_of types_in get
types_in_features none action = refl
types_in_features (some features) action = refl

in_features :
    (version a : String) (r : Registry)
    → get a (features_of (get version r)) ≡ get_types version a r
unfolding get_types
in_features version a r = types_in_features (get version r) a

in_none : (version a : String) (r : Registry) → get version r ≡ none → get_types version a r ≡ none
unfolding get_types types_in
in_none version a r absent = ap (λ o. types_in o a) absent

in_some :
    (version a : String) (features : Dict String FeatureTypes) (r : Registry)
    → get version r ≡ some features
    → get_types version a r ≡ get a features
unfolding get_types types_in
in_some version a features r there = ap (λ o. types_in o a) there

types_in_if :
    (b : Bool) (x y : Option (Dict String FeatureTypes)) (a : String)
    → types_in (if b then x else y) a ≡ (if b then types_in x a else types_in y a)
types_in_if true x y a = refl
types_in_if false x y a = refl

put_types :
    (version v a : String) (features : Dict String FeatureTypes) (r : Registry)
    → get_types v a (put version features r)
      ≡ (if version == v then get a features else get_types v a r)
unfolding get_types types_in
put_types version v a features r =
    ap (λ o. types_in o a) (get-put version v features r)
    ∙ types_in_if (version == v) (some features) (get v r) a

same_version :
    (version v a : String) (r : Registry)
    → (version == v) ≡ true
    → get_types version a r ≡ get_types v a r
same_version version v a r same =
    ap (λ k. get_types k a r) ((string_has_eq.beq_iff version v).0 same)

get_types-register_feature :
    (version action v a : String) (types : FeatureTypes) (r : Registry)
    → get_types v a (register_feature version action types r)
      ≡ (if version == v && action == a then some types else get_types v a r)
unfolding register_feature
get_types-register_feature version action v a types r =
    let features = features_of (get version r) in
    let at = put_types version v a (put action types features) r in
    let found_in = get-put action a types features in
    let before = in_features version a r in
    elim (Bool-cases (version == v)) [
      | inl same ↦ ground (arith, at, found_in, before, same_version version v a r same)
      | inr other ↦ ground (arith, at)
    ]

get_types-unregister_feature :
    (version action v a : String) (r : Registry)
    → get_types v a (unregister_feature version action r)
      ≡ (if version == v && action == a then none else get_types v a r)
unfolding unregister_feature without
get_types-unregister_feature version action v a r = elim (Option-cases (get version r)) [
  | inl absent ↦
      let before = in_none version a r absent in
      elim (Bool-cases (version == v)) [
        | inl same ↦
            ap (λ o. get_types v a (without version o action r)) absent
            ∙ ground (arith, before, same_version version v a r same)
        | inr other ↦ ap (λ o. get_types v a (without version o action r)) absent ∙ ground arith
      ]
  | inr (features, there) ↦
      let at = put_types version v a (remove action features) r in
      let found_in = get-remove action a features in
      let before = in_some version a features r there in
      ap (λ o. get_types v a (without version o action r)) there
      ∙ elim (Bool-cases (version == v)) [
        | inl same ↦ ground (arith, at, found_in, before, same_version version v a r same)
        | inr other ↦ ground (arith, at)
      ]
]
