-- ===== src/Compatibility.antt =====
-- src/capabilityhub/compatibility.py: the feature handshake and the support of API versions. A
-- date is a number of days; `sorted` is a parameter.
pub mod Handshakes
pub mod Support
mod Tests
use capabilityhub.Base.{
  ℕ, ◌+◌, ◌-◌, String, Bool, true, false, ◌&&◌, ◌||◌, not, Option, none, some, List, [], ◌∷◌, ◌++◌,
  ltb, leb, ◌==◌, if◌then◌else◌, ite, text_dec, length,
}
use capabilityhub.Sets.{has_text, without, common, is_empty}
use capabilityhub.Errors.{value_error}
use capabilityhub.Result.{Result, ok, raise, raise_if, ◌>>=◌, ◌>>◌}

-- `len(values) == len(set(values))`
abbrev pub all_distinct : List String → Bool
all_distinct [] = true
all_distinct (x ∷ xs) = not (has_text x xs) && all_distinct xs

abbrev pub any_empty : List String → Bool
any_empty [] = false
any_empty (x ∷ xs) = ite (text_dec x "") true (any_empty xs)

-- `_unique_non_empty`, of texts.
unfoldable pub unique_non_empty : List String → Bool → Result (Unit {0})
unique_non_empty values allow_empty = do
  raise_if (is_empty values && not allow_empty) value_error
  raise_if (any_empty values) value_error
  raise_if (not (all_distinct values)) value_error

pub record FeatureHandshake : Type 0 where
  pub api_versions : List String
  pub supported_features : List String
  pub required_features : List String

-- `FeatureHandshake.__post_init__`
unfoldable pub create_handshake : FeatureHandshake → Result FeatureHandshake
create_handshake h = do
  unique_non_empty h.api_versions false
  unique_non_empty h.supported_features false
  unique_non_empty h.required_features true
  raise_if (not (is_empty (without h.required_features h.supported_features))) value_error
  ok h

pub data CompatibilityReason : Type 0 where
  no_shared_api_version unsupported_client_feature : CompatibilityReason
  unsupported_server_feature compatible_reason : CompatibilityReason

pub record CompatibilityDecision : Type 0 where
  pub compatible : Bool
  pub selected_api_version : Option String
  pub enabled_features : List String
  pub unsupported_client_required : List String
  pub unsupported_server_required : List String
  pub ignored_client_optional : List String
  pub reason_codes : List CompatibilityReason

-- The first of the texts that stands in the other list.
unfoldable pub first_shared : List String → List String → Option String
first_shared [] ys = none
first_shared (x ∷ xs) ys = let rest = first_shared xs ys in if has_text x ys then some x else rest

abbrev pub is_none : Option String → Bool
is_none none = true
is_none (some x) = false

-- `bool(version)`
abbrev pub is_selected : Option String → Bool
is_selected none = false
is_selected (some x) = ite (text_dec x "") false true

abbrev pub reason_if : Bool → CompatibilityReason → List CompatibilityReason
reason_if c r = if c then r ∷ [] else []

-- `decide_compatibility`
unfoldable pub decide_compatibility :
    (List String → List String) → FeatureHandshake → FeatureHandshake → CompatibilityDecision
decide_compatibility sorted client server =
    let selected = first_shared client.api_versions server.api_versions in
    let unsupported_client = sorted (without client.required_features server.supported_features) in
    let unsupported_server = sorted (without server.required_features client.supported_features) in
    let bad =
      is_none selected || not (is_empty unsupported_client) || not (is_empty unsupported_server) in
    record {
      compatible = not bad;
      selected_api_version = selected;
      enabled_features =
          if is_selected selected
          then sorted (common client.supported_features server.supported_features)
          else [];
      unsupported_client_required = unsupported_client;
      unsupported_server_required = unsupported_server;
      ignored_client_optional = sorted (
          without (without client.supported_features client.required_features)
            server.supported_features);
      reason_codes =
          reason_if (is_none selected) no_shared_api_version
          ++ reason_if (not (is_empty unsupported_client)) unsupported_client_feature
          ++ reason_if (not (is_empty unsupported_server)) unsupported_server_feature
          ++ reason_if (not bad) compatible_reason;
    }

abbrev pub minimum_deprecation_days : ℕ
minimum_deprecation_days = 180

pub record VersionLifecycle : Type 0 where
  pub version : String
  pub introduced_on : ℕ
  pub deprecated_on : Option ℕ
  pub sunset_on : Option ℕ
  pub migration_target : Option String

-- `VersionLifecycle.__post_init__`
unfoldable pub create_lifecycle : VersionLifecycle → Result VersionLifecycle
create_lifecycle v = do
  raise_if (ite (text_dec v.version "") true false) value_error
  elim v.deprecated_on [
    | none ↦ elim v.sunset_on [ none ↦ ok v | some sunset ↦ raise value_error ]
    | some deprecated ↦ elim v.sunset_on [
      | none ↦ raise value_error
      | some sunset ↦ do
        raise_if (ltb deprecated v.introduced_on) value_error
        raise_if (ltb sunset (deprecated + minimum_deprecation_days)) value_error
        raise_if (not (is_selected v.migration_target)) value_error
        ok v
    ]
  ]

pub data SupportReason : Type 0 where
  api_version_unsupported api_version_sunset : SupportReason
  api_version_deprecated api_version_supported : SupportReason

pub record VersionSupportDecision : Type 0 where
  pub version : String
  pub accepted : Bool
  pub deprecated : Bool
  pub sunset : Bool
  pub migration_target : Option String
  pub reason_code : SupportReason

-- `next((item for item in self.versions if item.version == version), None)`
unfoldable pub find_version : String → List VersionLifecycle → Option VersionLifecycle
find_version version [] = none
find_version version (v ∷ vs) =
    let rest = find_version version vs in ite (text_dec v.version version) (some v) rest

-- `date is not None and as_of >= date`
abbrev pub reached : Option ℕ → ℕ → Bool
reached none as_of = false
reached (some day) as_of = leb day as_of

abbrev pub unsupported : String → VersionSupportDecision
unsupported version = record {
  version = version;
  accepted = false;
  deprecated = false;
  sunset = false;
  migration_target = none;
  reason_code = api_version_unsupported;
}

-- `CompatibilityPolicy.assess`
unfoldable pub assess : List VersionLifecycle → String → ℕ → VersionSupportDecision
assess versions version as_of = elim (find_version version versions) [
  | none ↦ unsupported version
  | some v ↦ if ltb as_of v.introduced_on then unsupported version else record {
    version = version;
    accepted = not (reached v.sunset_on as_of);
    deprecated = reached v.deprecated_on as_of;
    sunset = reached v.sunset_on as_of;
    migration_target = v.migration_target;
    reason_code =
        if reached v.sunset_on as_of
        then api_version_sunset
        else if reached v.deprecated_on as_of
        then api_version_deprecated
        else api_version_supported;
  }
]

abbrev pub versions_of : List VersionLifecycle → List String
versions_of [] = []
versions_of (v ∷ vs) = v.version ∷ versions_of vs

-- `CompatibilityPolicy.__post_init__`
unfoldable pub create_compatibility_policy : List VersionLifecycle → Result (List VersionLifecycle)
create_compatibility_policy versions = do
  raise_if (is_empty (versions_of versions) || not (all_distinct (versions_of versions)))
      value_error
  ok versions

abbrev pub v1alpha1 : String
v1alpha1 = "capabilityhub.io/v1alpha1"

abbrev pub v1alpha1_features : List String
v1alpha1_features =
    "manifest.deterministic-json-export" ∷ "manifest.extension-preservation"
    ∷ "manifest.explicit-migration-report" ∷ "security.required-features-fail-closed" ∷ []

-- `tuple(dict.fromkeys(xs))` after the texts that were seen.
unfoldable pub unique_from : List String → List String → List String
unique_from seen [] = []
unique_from seen (x ∷ xs) =
    let known = unique_from seen xs in
    let new = unique_from (x ∷ seen) xs in if has_text x seen then known else x ∷ new

-- `v1alpha1_handshake`
unfoldable pub v1alpha1_handshake : List String → List String → Result FeatureHandshake
v1alpha1_handshake extra_supported extra_required = create_handshake (record {
  api_versions = v1alpha1 ∷ [];
  supported_features = unique_from [] (v1alpha1_features ++ extra_supported ++ extra_required);
  required_features = extra_required;
})
