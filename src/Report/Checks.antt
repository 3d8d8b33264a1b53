-- ===== src/Report/Checks.antt =====
-- report/report/projections.go: the planned checks of AddReportProjections, which say for each
-- planned proof what the receipts of the declared scenarios hold. The receipts are those that the
-- report was given; decoding captures and comparing them is not part of it.
use rules_stests.Base.{
  ℕ, ◌+◌, Bool, false, ◌&&◌, ◌||◌, List, [], ◌∷◌, ◌++◌, none, some, if◌then◌else◌, Text, codes,
  is_nil, text_eq, mem, lookup,
}
use rules_stests.Receipt.Types.{
  ReceiptProof, ValidationReceipt, Evidence, ProofPlanProof, NormalizedProfilePlan, PlanArtifact,
  pair_key, receipt_key,
}
use rules_stests.Receipt.Validate.{verified, xfail, pass}
use rules_stests.Receipt.Coverage.{assign, text_of, artifact_of}
use rules_stests.Report.Types.{Manifest, CoverageCell}

pub record CheckExecution : Type 0 where
  pub scenario : Text
  pub outcome : Text
  pub reason : Text

pub record PlannedCheck : Type 0 where
  pub profile : Text
  pub feature_id : Text
  pub assertion : Text
  pub basis : Text
  pub evidence : List Evidence
  pub executions : List CheckExecution
  pub passed : ℕ
  pub expected_failure : ℕ
  pub no_result : ℕ

-- `receipts`: a later receipt takes the place of an earlier one of its key.
unfoldable pub receipt_index :
    List ValidationReceipt → List (Text × ValidationReceipt) → List (Text × ValidationReceipt)
receipt_index [] m = m
receipt_index (r ∷ rs) m = receipt_index rs (assign (receipt_key r) r m)

abbrev pub zero_receipt : ValidationReceipt
zero_receipt = record {
  schema_version = 0;
  revision = [];
  profile = [];
  scenario = [];
  proof_plan_sha256 = [];
  capture_sha256 = [];
  validation_mode = [];
  outcome = [];
  xfail_reason = [];
  scenario_shape_sha256 = [];
  proofs = [];
}

unfoldable pub receipt_at : Text → List (Text × ValidationReceipt) → ValidationReceipt
receipt_at key m = elim (lookup key m) [ none ↦ zero_receipt | some r ↦ r ]

unfoldable pub check_evidence : NormalizedProfilePlan → List Text → List Evidence
check_evidence plan [] = []
check_evidence plan (s ∷ ss) =
    record { label = s; href = text_of s plan.sources; path = [] } ∷ check_evidence plan ss

-- The cells that the loop does not skip.
unfoldable pub in_scope : Text → ProofPlanProof → CoverageCell → Bool
in_scope profile proof cell =
    text_eq cell.profile profile
    && cell.declared
    && (is_nil proof.scenarios || mem cell.scenario proof.scenarios)

unfoldable pub matches : Text → Text → Text → ReceiptProof → Bool
matches feature_id assertion basis p =
    text_eq p.feature_id feature_id
    && text_eq p.assertion assertion
    && text_eq p.basis basis
    && text_eq p.result pass

-- Some proof of the receipt is the planned one and passes.
unfoldable pub some_match : Text → Text → Text → List ReceiptProof → Bool
some_match feature_id assertion basis [] = false
some_match feature_id assertion basis (p ∷ ps) =
    matches feature_id assertion basis p || some_match feature_id assertion basis ps

abbrev pub missing : Text
missing = codes "missing"

-- One execution, and the counter that it raises.
unfoldable pub add_execution : Text → ValidationReceipt → PlannedCheck → PlannedCheck
add_execution scenario r c =
    if text_eq r.outcome xfail
    then record c {
      executions =
          c.executions
          ++ record { scenario = scenario; outcome = xfail; reason = r.xfail_reason } ∷ [];
      expected_failure = c.expected_failure + 1;
    }
    else if some_match c.feature_id c.assertion c.basis r.proofs && text_eq r.outcome verified
    then record c {
      executions =
          c.executions ++ record { scenario = scenario; outcome = verified; reason = [] } ∷ [];
      passed = c.passed + 1;
    }
    else record c {
      executions =
          c.executions ++ record { scenario = scenario; outcome = missing; reason = [] } ∷ [];
      no_result = c.no_result + 1;
    }

unfoldable pub check_cells :
    Text
    → ProofPlanProof
    → List (Text × ValidationReceipt)
    → List CoverageCell
    → PlannedCheck
    → PlannedCheck
check_cells profile proof receipts [] c = c
check_cells profile proof receipts (cell ∷ cells) c = check_cells profile proof receipts cells (
    if in_scope profile proof cell
    then add_execution cell.scenario (receipt_at (pair_key profile cell.scenario) receipts) c
    else c)

abbrev pub empty_check : Text → PlanArtifact → ProofPlanProof → PlannedCheck
empty_check profile artifact proof = record {
  profile = profile;
  feature_id = proof.feature_id;
  assertion = proof.assertion;
  basis = proof.basis;
  evidence = artifact.source ∷ check_evidence artifact.plan proof.sources;
  executions = [];
  passed = 0;
  expected_failure = 0;
  no_result = 0;
}

unfoldable pub checks_of_proofs :
    Text
    → PlanArtifact
    → List (Text × ValidationReceipt)
    → List CoverageCell
    → List ProofPlanProof
    → List PlannedCheck
checks_of_proofs profile artifact receipts cells [] = []
checks_of_proofs profile artifact receipts cells (p ∷ ps) =
    check_cells profile p receipts cells (empty_check profile artifact p)
    ∷ checks_of_proofs profile artifact receipts cells ps

unfoldable pub checks_of_manifests :
    List (Text × PlanArtifact)
    → List (Text × ValidationReceipt)
    → List CoverageCell
    → List Manifest
    → List PlannedCheck
checks_of_manifests plans receipts cells [] = []
checks_of_manifests plans receipts cells (m ∷ ms) =
    let artifact = artifact_of m.profile plans in
    checks_of_proofs m.profile artifact receipts cells artifact.plan.proofs
    ++ checks_of_manifests plans receipts cells ms

-- `model.PlannedChecks`.
unfoldable pub planned_checks :
    List (Text × PlanArtifact)
    → List ValidationReceipt
    → List Manifest
    → List CoverageCell
    → List PlannedCheck
planned_checks plans receipts ms cells =
    checks_of_manifests plans (receipt_index receipts []) cells ms
