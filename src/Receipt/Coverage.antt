-- ===== src/Receipt/Coverage.antt =====
-- report/report/receipt.go: CoveragesFromPlansForProfiles, CoveragesFromPlans and
-- PartitionExercisedProfiles, which derive feature claims from proof plans and receipts.
pub mod Claims
use rules_stests.Base.{
  ℕ, suc, ◌+◌, Bool, true, false, not, ◌&&◌, ◌≡◌, refl, List, [], ◌∷◌, ◌++◌, Option, none, some,
  ◌==◌, if◌then◌else◌, Text, codes, length, is_nil, text_eq, mem, add, lookup, keys, sort_texts,
  decimal,
}
use rules_stests.Receipt.Types.{
  ValidationReceipt, Evidence, ProofPlanProof, NormalizedProfilePlan, PlanArtifact,
}
use rules_stests.Receipt.Validate.{verified, xfail}

-- report/report/model.go.
pub record FeatureClaim : Type 0 where
  pub feature_id : Text
  pub basis : Text
  pub assertion : Text
  pub all_scenarios : Bool
  pub scenarios : List Text
  pub evidence : List Evidence

pub record ProfileProofCoverage : Type 0 where
  pub profile : Text
  pub source : Evidence
  pub claims : List FeatureClaim

-- `m[k]` on a map of lists or sets, where a missing key reads as empty.
unfoldable pub entries_of : Text → List (Text × List Text) → List Text
entries_of k m = elim (lookup k m) [ none ↦ [] | some v ↦ v ]

-- `m[k] = v`.
unfoldable pub assign {ℓ} : {V : Type ℓ} → Text → V → List (Text × V) → List (Text × V)
assign k v [] = (k, v) ∷ []
assign k v ((j, w) ∷ m) = if text_eq j k then (k, v) ∷ m else (j, w) ∷ assign k v m

-- `set[profile][scenario] = true`, the inner set made when it is missing.
unfoldable pub mark : Text → Text → List (Text × List Text) → List (Text × List Text)
unfolding assign entries_of
mark profile scenario m = assign profile (add scenario (entries_of profile m)) m

-- The receipts of one outcome, as a set of scenarios for each profile.
unfoldable pub marked :
    Text → List ValidationReceipt → List (Text × List Text) → List (Text × List Text)
unfolding mark
marked outcome [] m = m
marked outcome (r ∷ rs) m =
    marked outcome rs (if text_eq r.outcome outcome then mark r.profile r.scenario m else m)

abbrev pub zero_evidence : Evidence
zero_evidence = record { label = []; href = []; path = [] }

abbrev pub zero_artifact : PlanArtifact
zero_artifact = record {
  plan = record { profile = []; sources = []; proofs = [] };
  bytes = [];
  source = zero_evidence;
}

unfoldable pub artifact_of : Text → List (Text × PlanArtifact) → PlanArtifact
artifact_of k m = elim (lookup k m) [ none ↦ zero_artifact | some a ↦ a ]

-- `m[k]` on a map of strings.
unfoldable pub text_of : Text → List (Text × Text) → Text
text_of k m = elim (lookup k m) [ none ↦ [] | some t ↦ t ]

unfoldable pub source_evidence : NormalizedProfilePlan → ℕ → List Text → List Evidence
unfolding text_of
source_evidence plan index [] = []
source_evidence plan index (s ∷ ss) =
    record {
      label = codes "immutable source " ++ decimal (index + 1);
      href = text_of s plan.sources;
      path = [];
    }
    ∷ source_evidence plan (index + 1) ss

unfoldable pub claim_of : PlanArtifact → ProofPlanProof → Bool → List Text → FeatureClaim
unfolding source_evidence
claim_of artifact proof all_scenarios scenarios = record {
  feature_id = proof.feature_id;
  basis = proof.basis;
  assertion = proof.assertion;
  all_scenarios = all_scenarios;
  scenarios = scenarios;
  evidence = artifact.source ∷ source_evidence artifact.plan 0 proof.sources;
}

-- The elements that the set holds, in order.
unfoldable pub keep : List Text → List Text → List Text
keep set [] = []
keep set (s ∷ ss) = if mem s set then s ∷ keep set ss else keep set ss

-- The elements that the set does not hold, in order.
unfoldable pub discard : List Text → List Text → List Text
discard set [] = []
discard set (s ∷ ss) = if mem s set then discard set ss else s ∷ discard set ss

-- One planned proof: no claim without a verified scenario, and a claim on all scenarios when the
-- proof names none and every declared one is verified.
unfoldable pub claims_of_proof :
    PlanArtifact → List Text → List Text → ProofPlanProof → List FeatureClaim
unfolding keep claim_of
claims_of_proof artifact declared verified_set proof =
    let scope = if is_nil proof.scenarios then declared else proof.scenarios in
    let scenarios = keep verified_set scope in
    let whole = is_nil proof.scenarios && length scenarios == length declared in
    if is_nil scenarios
    then []
    else claim_of artifact proof whole (if whole then [] else scenarios) ∷ []

unfoldable pub claims_of_proofs :
    PlanArtifact → List Text → List Text → List ProofPlanProof → List FeatureClaim
unfolding claims_of_proof
claims_of_proofs artifact declared verified_set [] = []
claims_of_proofs artifact declared verified_set (p ∷ ps) =
    claims_of_proof artifact declared verified_set p
    ++ claims_of_proofs artifact declared verified_set ps

unfoldable pub coverages_for :
    List (Text × PlanArtifact)
    → List (Text × List Text)
    → List (Text × List Text)
    → List Text
    → List ProfileProofCoverage
unfolding artifact_of entries_of claims_of_proofs
coverages_for plans verified_map profile_scenarios [] = []
coverages_for plans verified_map profile_scenarios (profile ∷ more) =
    let artifact = artifact_of profile plans in
    record {
      profile = profile;
      source = artifact.source;
      claims =
          claims_of_proofs artifact (entries_of profile profile_scenarios)
            (entries_of profile verified_map) artifact.plan.proofs;
    }
    ∷ coverages_for plans verified_map profile_scenarios more

unfoldable pub coverages_from_plans_for_profiles :
    List (Text × PlanArtifact)
    → List ValidationReceipt
    → List (Text × List Text)
    → List ProfileProofCoverage
unfolding coverages_for marked
coverages_from_plans_for_profiles plans receipts profile_scenarios =
    coverages_for plans (marked verified receipts []) profile_scenarios (sort_texts (keys plans))

-- CoveragesFromPlans. A verified scenario is appended once for each of its receipts.
unfoldable pub appended : List ValidationReceipt → List (Text × List Text) → List (Text × List Text)
unfolding assign entries_of
appended [] m = m
appended (r ∷ rs) m = appended rs (
    if text_eq r.outcome verified
    then assign r.profile (entries_of r.profile m ++ r.scenario ∷ []) m
    else m)

-- A claim on all scenarios is narrowed to the verified ones, and one on named scenarios loses
-- those that fail as expected, when the profile has an expected failure.
unfoldable pub claims_of_planned :
    PlanArtifact → List Text → List Text → ProofPlanProof → List FeatureClaim
unfolding discard claim_of
claims_of_planned artifact verified_list xfails proof =
    let all = is_nil proof.scenarios && is_nil xfails in
    let scenarios =
      if is_nil xfails
      then proof.scenarios
      else if is_nil proof.scenarios
      then verified_list
      else discard xfails proof.scenarios in
    if not all && is_nil scenarios then [] else claim_of artifact proof all scenarios ∷ []

unfoldable pub claims_of_plan :
    PlanArtifact → List Text → List Text → List ProofPlanProof → List FeatureClaim
unfolding claims_of_planned
claims_of_plan artifact verified_list xfails [] = []
claims_of_plan artifact verified_list xfails (p ∷ ps) =
    claims_of_planned artifact verified_list xfails p
    ++ claims_of_plan artifact verified_list xfails ps

unfoldable pub coverages_of :
    List (Text × PlanArtifact)
    → List (Text × List Text)
    → List (Text × List Text)
    → List Text
    → List ProfileProofCoverage
unfolding artifact_of entries_of claims_of_plan
coverages_of plans verified_map xfail_map [] = []
coverages_of plans verified_map xfail_map (profile ∷ more) =
    let artifact = artifact_of profile plans in
    record {
      profile = profile;
      source = artifact.source;
      claims =
          claims_of_plan artifact (sort_texts (entries_of profile verified_map))
            (entries_of profile xfail_map) artifact.plan.proofs;
    }
    ∷ coverages_of plans verified_map xfail_map more

unfoldable pub coverages_from_plans :
    List (Text × PlanArtifact) → List ValidationReceipt → List ProfileProofCoverage
unfolding coverages_of appended marked
coverages_from_plans plans receipts =
    coverages_of plans (appended receipts []) (marked xfail receipts []) (sort_texts (keys plans))

abbrev profiles_of : List ValidationReceipt → List Text → List Text
profiles_of [] set = set
profiles_of (r ∷ rs) set = profiles_of rs (add r.profile set)

-- Declared profiles with a receipt, and those with none.
unfoldable pub partition_exercised_profiles :
    List Text → List ValidationReceipt → List Text × List Text
unfolding keep discard
partition_exercised_profiles profiles receipts =
    let with_receipts = profiles_of receipts [] in
    (keep with_receipts profiles, discard with_receipts profiles)
