-- ===== src/Profile/Bounded.antt =====
-- report/report/profile.go: how large a plan of CompileTelemetryProfile is.
use rules_stests.Base.{
  ◌≤◌, ◌≡◌, refl, ap, suc, List, [], ◌∷◌, true, map, Text, length, mem, Subset, length-le_of_Subset,
  Option, some, ok, All, Bool-cases, inl, inr, text_eq, text_eq_iff, arith,
}
use mathlib.Core.Path.{subst}
use rules_stests.Receipt.Types.{ProofPlanProof}
use rules_stests.Profile.Types.{RegistryFeature, ProfilePlan}
use rules_stests.Profile.Compile.{compile_telemetry_profile}
use rules_stests.Profile.Claimed.{IsProof}
use rules_stests.Profile.Rules.{Rules}
use rules_stests.Profile.Sourced.{features_of}
use rules_stests.Profile.Ordered.{ids_of}
use rules_stests.Profile.Compiled.{compile_telemetry_profile-IsCompiled}

length-map {ℓ κ} :
    {A : Type ℓ} {B : Type κ} (f : A → B) (xs : List A) → length (map f xs) ≡ length xs
length-map f [] = refl
length-map f (x ∷ xs) = ap suc (length-map f xs)

features-inside :
    (ids shapes : List Text) (sources : List (Text × Text)) (rules : Rules) (scenarios : List Text)
    (proofs : List ProofPlanProof)
    → All (IsProof ids shapes sources rules scenarios) proofs
    → Subset (features_of proofs) ids
unfolding mem
features-inside ids shapes sources rules scenarios [] a k h = cc h
features-inside ids shapes sources rules scenarios (p ∷ proofs) a k h =
    elim (Bool-cases (text_eq p.feature_id k)) [
      | inl here ↦
          subst (λ z. mem z ids ≡ true) ((text_eq_iff p.feature_id k).0 here) a.0.registered_feature
      | inr other ↦ features-inside ids shapes sources rules scenarios proofs a.1 k (ground arith)
    ]

-- A plan that CompileTelemetryProfile returns has no more proofs than the registry has features.
pub compile_telemetry_profile-length_le :
    (decode : Text → Option (List RegistryFeature)) (profile_source : Text)
    (implementation_sources : List Text)
    (registry_json proof_rule_source capture_shape_source : Text) (scenarios : List Text)
    {features : List RegistryFeature} {plan : ProfilePlan}
    → decode registry_json ≡ some features
    → compile_telemetry_profile decode profile_source implementation_sources registry_json
        proof_rule_source capture_shape_source scenarios
      ≡ ok plan
    → length plan.proofs ≤ length features
compile_telemetry_profile-length_le decode profile_source implementation_sources registry_json
      proof_rule_source capture_shape_source scenarios {features = features} {plan = plan} decodes
      h =
    let c =
      compile_telemetry_profile-IsCompiled decode profile_source implementation_sources
        registry_json proof_rule_source capture_shape_source scenarios decodes h in
    let inside =
      features-inside (ids_of features) c.shapes c.sources c.rules scenarios plan.proofs c.proofs in
    ground (
      arith,
      length-le_of_Subset (features_of plan.proofs) (ids_of features) c.distinct inside,
      length-map (λ (p : ProofPlanProof). p.feature_id) plan.proofs,
      length-map (λ (f : RegistryFeature). f.id) features,
    )
