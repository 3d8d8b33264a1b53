-- ===== src/Receipt/Spec/Defs.antt =====
-- The specification of the receipt sets that a report may be built from.
use rules_stests.Base.{
  true, false, ◌≡◌, ◌≢◌, ◌⊎◌, List, [], ◌∷◌, ◌++◌, map, Option, none, some, if◌then◌else◌, Text,
  All, length, mem, lookup, keys,
}
use rules_stests.Receipt.Types.{
  ValidationReceipt, ProofPlanProof, NormalizedProfilePlan, PlanArtifact, pair_key, receipt_key,
}
use rules_stests.Receipt.Validate.{
  verified, xfail, exact, contract, pass, all_hex, key_of_plan, key_of_proof, applies, Build,
}

-- No key is in `earlier` or repeats one that stands before it.
abbrev pub Fresh : List Text → List Text → Type 0
Fresh earlier [] = Unit
Fresh earlier (k ∷ ks) = (mem k earlier ≡ false) × Fresh (k ∷ earlier) ks

abbrev pub scenario_keys : Text → List Text → List Text
scenario_keys profile [] = []
scenario_keys profile (s ∷ ss) = pair_key profile s ∷ scenario_keys profile ss

-- The keys of all declared profile and scenario pairs.
abbrev pub declared_keys : List (Text × List Text) → List Text
declared_keys [] = []
declared_keys ((profile, ss) ∷ more) = scenario_keys profile ss ++ declared_keys more

-- The keys of the plan's proofs that apply to a scenario.
abbrev pub planned_keys : Text → List ProofPlanProof → List Text
planned_keys scenario [] = []
planned_keys scenario (p ∷ ps) =
    if applies scenario p
    then key_of_plan p ∷ planned_keys scenario ps
    else planned_keys scenario ps

abbrev pub SameMembers : List Text → List Text → Type 0
SameMembers xs ys = (k : Text) → mem k xs ≡ mem k ys

-- An expected failure carries a reason and no proof; a verified receipt carries no reason, and
-- passes each planned proof exactly once, and no other.
abbrev pub FitsOutcome : NormalizedProfilePlan → ValidationReceipt → Type 0
FitsOutcome plan r =
    ((r.outcome ≡ xfail) × (r.xfail_reason ≢ []) × (r.proofs ≡ []))
    ⊎ ((r.outcome ≡ verified)
        × (r.xfail_reason ≡ [])
        × All (λ p. p.result ≡ pass) r.proofs
        × Fresh [] (map key_of_proof r.proofs)
        × SameMembers (map key_of_proof r.proofs) (planned_keys r.scenario plan.proofs))

abbrev pub FitsMode : (Text → Text) → Option Text → ValidationReceipt → Type 0
FitsMode digest (some shape) r =
    (r.validation_mode ≡ exact) × (r.scenario_shape_sha256 ≡ digest shape)
FitsMode digest none r = (r.validation_mode ≡ contract) × (r.scenario_shape_sha256 ≡ [])

-- The receipt is of this revision, and its plan, capture and shape are the build's.
pub record IsBacked (digest : Text → Text) (b : Build) (r : ValidationReceipt) : Type 0 where
  pub current : r.revision ≡ b.revision
  pub artifact : PlanArtifact
  pub planned : lookup r.profile b.plans ≡ some artifact
  pub own_plan : artifact.plan.profile ≡ r.profile
  pub plan_digest : digest artifact.bytes ≡ r.proof_plan_sha256
  pub capture : Text
  pub captured : lookup (receipt_key r) b.captures ≡ some capture
  pub capture_digest : digest capture ≡ r.capture_sha256
  pub fits_mode : FitsMode digest (lookup (receipt_key r) b.shapes) r
  pub fits_outcome : FitsOutcome artifact.plan r

-- Every declared scenario of the profile has a receipt.
pub record IsCovered (b : Build) (receipts : List ValidationReceipt) (profile : Text) : Type 0 where
  pub has_plan : mem profile (keys b.plans) ≡ true
  pub scenarios : List Text
  pub declares : lookup profile b.profile_scenarios ≡ some scenarios
  pub some_scenario : scenarios ≢ []
  pub all_received : All (λ s. mem (pair_key profile s) (map receipt_key receipts) ≡ true) scenarios

pub record IsComplete (digest : Text → Text) (b : Build) (receipts : List ValidationReceipt)
    : Type 0 where
  pub pinned : (length b.revision ≡ 40) × (all_hex b.revision ≡ true)
  pub known_profiles :
      All (λ e. (mem e.0 b.profiles ≡ true) × All (λ s. s ≢ []) e.1) b.profile_scenarios
  pub no_repeat : Fresh [] (map receipt_key receipts)
  pub declared : All (λ r. mem (receipt_key r) (declared_keys b.profile_scenarios) ≡ true) receipts
  pub backed : All (IsBacked digest b) receipts
  pub covered : All (IsCovered b receipts) b.profiles
