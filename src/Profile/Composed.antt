-- ===== src/Profile/Composed.antt =====
-- report/report/profile.go and report/report/receipt.go: the feature claims that
-- CoveragesFromPlansForProfiles makes from plans that CompileTelemetryProfile returns.
use rules_stests.Base.{
  lookup-present, if-cases, Subset, mem-cons_self, mem-sort_texts, arith, true, ◌≡◌, sym, ◌∙◌, inl,
  inr, List, [], ◌∷◌, Text, mem, lookup, Option, none, some, ok, ok-injective, All, keys,
  sort_texts, text_eq,
}
use mathlib.Core.Path.{subst}
use rules_stests.Receipt.Types.{PlanArtifact, ValidationReceipt}
use rules_stests.Receipt.Validate.{verified}
use rules_stests.Receipt.Coverage.{
  ProfileProofCoverage, entries_of, marked, zero_artifact, artifact_of, claims_of_proofs,
  coverages_for, coverages_from_plans_for_profiles,
}
use rules_stests.Profile.Types.{RegistryFeature, ProfilePlan, receipt_plan}
use rules_stests.Profile.Rules.{parse_known_shapes}
use rules_stests.Profile.Claimed.{IsProof}
use rules_stests.Profile.Sourced.{IsSourced}
use rules_stests.Profile.Ordered.{ids_of}
use rules_stests.Profile.Compile.{compile_telemetry_profile}
use rules_stests.Profile.Compiled.{compile_telemetry_profile-IsCompiled}
use rules_stests.Profile.Warranted.{IsWarranted, claims_of_proofs-IsWarranted}

-- A plan artifact that holds what CompileTelemetryProfile returns for a profile, with the sources,
-- the registry, the rules, the capture shapes and the scenarios that this profile is compiled with.
pub record IsPlanned (decode : Text → Option (List RegistryFeature)) (a : PlanArtifact)
    : Type 0 where
  pub profile_source : Text
  pub implementation_sources : List Text
  pub registry_json : Text
  pub proof_rule_source : Text
  pub capture_shape_source : Text
  pub scenarios : List Text
  pub features : List RegistryFeature
  pub shapes : List Text
  pub plan : ProfilePlan
  pub decodes : decode registry_json ≡ some features
  pub reads : parse_known_shapes capture_shape_source ≡ ok shapes
  pub compiles :
      compile_telemetry_profile decode profile_source implementation_sources registry_json
        proof_rule_source capture_shape_source scenarios
      ≡ ok plan
  pub holds : a.plan ≡ receipt_plan plan

-- The artifact of a profile, as a map holds it.
artifact_of-found :
    (profile : Text) (plans : List (Text × PlanArtifact)) {a : PlanArtifact}
    → lookup profile plans ≡ some a
    → artifact_of profile plans ≡ a
unfolding artifact_of
artifact_of-found profile plans {a = a} e = go (lookup profile plans) e
  where
    go : (o : Option PlanArtifact) → o ≡ some a → elim o [ none ↦ zero_artifact | some x ↦ x ] ≡ a
    go none found = cc found
    go (some x) found = cc found

module _ (decode : Text → Option (List RegistryFeature)) (plans : List (Text × PlanArtifact)) where
  -- Every artifact of the map holds a plan that was compiled, each with inputs of its own.
  abbrev pub ArePlanned : Type 0
  ArePlanned =
      (profile : Text) (a : PlanArtifact) → lookup profile plans ≡ some a → IsPlanned decode a

  -- The claims of a profile, by the registry and the shapes of its own artifact.
  pub record IsWarrantedCoverage (planned : ArePlanned) (c : ProfileProofCoverage) : Type 0 where
    pub artifact : PlanArtifact
    pub held : lookup c.profile plans ≡ some artifact
    pub warranted :
        All
          (IsWarranted
            (ids_of (planned c.profile artifact held).features)
            (planned c.profile artifact held).shapes
            artifact.source)
          c.claims

-- It is enough that each entry of the map is one.
pub All-ArePlanned :
    (decode : Text → Option (List RegistryFeature)) (plans : List (Text × PlanArtifact))
    → All (λ e. IsPlanned decode e.1) plans
    → ArePlanned decode plans
unfolding lookup
All-ArePlanned decode [] w profile a e = cc e
All-ArePlanned decode ((k, b) ∷ plans) w profile a e =
    elim (if-cases (text_eq k profile) (some b) (lookup profile plans) e) [
      | inl (here, found) ↦ let same : b ≡ a = cc found in subst (IsPlanned decode) same w.0
      | inr (other, found) ↦ All-ArePlanned decode plans w.1 profile a found
    ]

claims_of_proofs-planned :
    (decode : Text → Option (List RegistryFeature)) (a : PlanArtifact)
    (declared verified_set : List Text) (w : IsPlanned decode a)
    → All
        (IsWarranted (ids_of w.features) w.shapes a.source)
        (claims_of_proofs a declared verified_set a.plan.proofs)
claims_of_proofs-planned decode a declared verified_set w =
    let c =
      compile_telemetry_profile-IsCompiled decode w.profile_source w.implementation_sources
        w.registry_json w.proof_rule_source w.capture_shape_source w.scenarios w.decodes
        w.compiles in
    let ids = ids_of w.features in
    let same : c.shapes ≡ w.shapes = ok-injective (sym c.shapes_read ∙ w.reads) in
    let proofs =
      subst (λ z. All (IsProof ids z c.sources c.rules w.scenarios) w.plan.proofs) same c.proofs in
    claims_of_proofs-IsWarranted ids w.shapes c.sources c.rules w.scenarios a declared verified_set
      a.plan.proofs
      (subst (λ z. All (IsProof ids w.shapes c.sources c.rules w.scenarios) z.proofs) (sym w.holds)
        proofs)
      (subst (λ z. All (IsSourced c.sources z.sources) z.proofs) (sym w.holds) c.sourced)

coverages_for-IsWarrantedCoverage :
    (decode : Text → Option (List RegistryFeature)) (plans : List (Text × PlanArtifact))
    (planned : ArePlanned decode plans) (verified_map profile_scenarios : List (Text × List Text))
    (profiles : List Text)
    → All (λ p. mem p (keys plans) ≡ true) profiles
    → All
        (IsWarrantedCoverage decode plans planned)
        (coverages_for plans verified_map profile_scenarios profiles)
unfolding coverages_for
coverages_for-IsWarrantedCoverage decode plans planned verified_map profile_scenarios [] k = tt
coverages_for-IsWarrantedCoverage decode plans planned verified_map profile_scenarios (p ∷ ps) k =
    let (a, e) = lookup-present p plans k.0 in
    let w = planned p a e in
    let declared = entries_of p profile_scenarios in
    let verified_set = entries_of p verified_map in
    (
      record {
        artifact = a;
        held = e;
        warranted =
            subst
              (λ z.
                All (IsWarranted (ids_of w.features) w.shapes a.source)
                  (claims_of_proofs z declared verified_set z.plan.proofs))
              (sym (artifact_of-found p plans e))
              (claims_of_proofs-planned decode a declared verified_set w);
      },
      coverages_for-IsWarrantedCoverage decode plans planned verified_map profile_scenarios ps k.1,
    )

All-members : (xs set : List Text) → Subset xs set → All (λ x. mem x set ≡ true) xs
All-members [] set s = tt
All-members (x ∷ xs) set s =
    (s x (mem-cons_self x xs), All-members xs set (λ k h. s k (unfold mem in ground (arith, h))))

-- When every plan artifact holds a plan that CompileTelemetryProfile returned, each from sources, a
-- registry, rules, capture shapes and scenarios of its own, the coverage of a profile has an
-- artifact, and each claim that CoveragesFromPlansForProfiles makes for it is on a feature of this
-- artifact's registry and asserts one of its capture shapes. The evidence of the claim is the
-- artifact's source, then links to immutable sources only: at least one when the claim is
-- corroborated, none when it is observed.
pub coverages_from_plans_for_profiles-IsWarranted :
    (decode : Text → Option (List RegistryFeature)) (plans : List (Text × PlanArtifact))
    (receipts : List ValidationReceipt) (profile_scenarios : List (Text × List Text))
    (planned : ArePlanned decode plans)
    → All
        (IsWarrantedCoverage decode plans planned)
        (coverages_from_plans_for_profiles plans receipts profile_scenarios)
unfolding coverages_from_plans_for_profiles
coverages_from_plans_for_profiles-IsWarranted decode plans receipts profile_scenarios planned =
    coverages_for-IsWarrantedCoverage decode plans planned (marked verified receipts [])
      profile_scenarios (sort_texts (keys plans))
      (All-members (sort_texts (keys plans)) (keys plans)
        (λ k h. sym (mem-sort_texts k (keys plans)) ∙ h))
