-- ===== src/Compatibility/Tests.antt =====
-- src/capabilityhub/compatibility.py: two handshakes and a deprecated version, and the theorems at
-- them.
use capabilityhub.Base.{◌≡◌, refl, ◌↔◌, true, some, [], ◌∷◌, text_dec, arith}
use capabilityhub.Result.{ok}
use capabilityhub.Sets.{Within, without, common}
use capabilityhub.Compatibility.{
  FeatureHandshake, decide_compatibility, first_shared, VersionLifecycle, create_lifecycle,
  find_version, assess, is_selected, v1alpha1, v1alpha1_handshake, v1alpha1_features, unique_from,
  create_handshake, unique_non_empty,
}
use capabilityhub.Compatibility.Handshakes.{Shared, compatible_iff, compatible_comm}
use capabilityhub.Compatibility.Support.{deprecated_accepted}

program : Unit {0}
unfolding text_dec without common decide_compatibility first_shared create_lifecycle find_version
    assess v1alpha1_handshake unique_from create_handshake unique_non_empty
program = tt

abbrev client : FeatureHandshake
client = record {
  api_versions = "v2" ∷ "v1" ∷ [];
  supported_features = "export" ∷ "rag" ∷ [];
  required_features = "export" ∷ [];
}

abbrev server : FeatureHandshake
server = record {
  api_versions = "v1" ∷ [];
  supported_features = "export" ∷ [];
  required_features = [];
}

are_compatible : (decide_compatibility (λ xs. xs) client server).compatible ≡ true
unfolding program
are_compatible = refl

compatible_iff_example : ((decide_compatibility (λ xs. xs) client server).compatible ≡ true) ↔ (
    Shared client.api_versions server.api_versions
    × Within client.required_features server.supported_features
    × Within server.required_features client.supported_features)
compatible_iff_example = compatible_iff (λ xs. xs) client server (λ xs x. refl)

compatible_comm_example : (decide_compatibility (λ xs. xs) server client).compatible ≡ true
compatible_comm_example = compatible_comm (λ xs. xs) client server (λ xs x. refl) are_compatible

abbrev old_version : VersionLifecycle
old_version = record {
  version = "v1";
  introduced_on = 100;
  deprecated_on = some 400;
  sunset_on = some 600;
  migration_target = some "v2";
}

deprecated_accepted_example :
    ((assess (old_version ∷ []) "v1" 450).accepted ≡ true)
    × ((assess (old_version ∷ []) "v1" 450).deprecated ≡ true)
    × (is_selected (assess (old_version ∷ []) "v1" 450).migration_target ≡ true)
unfolding program
deprecated_accepted_example =
    deprecated_accepted (old_version ∷ []) "v1" old_version 400 450 refl refl refl (omega arith)
      (omega arith)

published :
    v1alpha1_handshake [] []
    ≡ ok (record {
      api_versions = v1alpha1 ∷ [];
      supported_features = v1alpha1_features;
      required_features = [];
    })
unfolding program
published = refl
