-- ===== src/Receipt/Types.antt =====
-- report/report/receipt.go and model.go: receipts, proof plans, and the errors that refuse them.
use rules_stests.Base.{ℕ, Text, List, ◌++◌, ◌∷◌}

pub record ReceiptProof : Type 0 where
  pub feature_id : Text
  pub assertion : Text
  pub basis : Text
  pub result : Text

pub record ValidationReceipt : Type 0 where
  pub schema_version : ℕ
  pub revision : Text
  pub profile : Text
  pub scenario : Text
  pub proof_plan_sha256 : Text
  pub capture_sha256 : Text
  pub validation_mode : Text
  pub outcome : Text
  pub xfail_reason : Text
  pub scenario_shape_sha256 : Text
  pub proofs : List ReceiptProof

pub record Evidence : Type 0 where
  pub label : Text
  pub href : Text
  pub path : Text

pub record ProofPlanProof : Type 0 where
  pub feature_id : Text
  pub assertion : Text
  pub basis : Text
  pub evidence_policy : Text
  pub scenarios : List Text
  pub sources : List Text

-- The fields of the plan that receipts are held against; the others describe the profile.
pub record NormalizedProfilePlan : Type 0 where
  pub profile : Text
  pub sources : List (Text × Text)
  pub proofs : List ProofPlanProof

pub record PlanArtifact : Type 0 where
  pub plan : NormalizedProfilePlan
  pub bytes : Text
  pub source : Evidence

-- One constructor for each message of the two validators, with texts that it quotes.
pub data Failure : Type 0 where
  bad_json trailing_json malformed_identity malformed_digest bad_revision : Failure
  bad_mode : Text → Failure
  bad_outcome : Text → Failure
  no_reason stray_reason unexpected_receipt duplicate_receipt stale_receipt : Text → Text → Failure
  plan_mismatch no_capture capture_mismatch shape_mismatch not_exact : Text → Text → Failure
  stray_proofs incomplete_proofs missing_proof unexpected_proof : Text → Text → Failure
  failed_proof duplicate_proof : Text → Text → Text → Failure
  unknown_profile empty_scenario no_plan no_scenarios : Text → Failure
  missing_receipt : Text → Text → Failure

-- `a + "\x00" + b`.
abbrev pub pair_key : Text → Text → Text
pair_key a b = a ++ (0 ∷ b)

abbrev pub receipt_key : ValidationReceipt → Text
receipt_key r = pair_key r.profile r.scenario
