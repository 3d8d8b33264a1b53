-- ===== src/Tests/Checks.antt =====
-- report/report/projections.go on one profile.
use rules_stests.Base.{◌≡◌, refl, [], ◌∷◌, All, mem, lookup, text_eq, codes}
use rules_stests.Receipt.Types.{ReceiptProof, ValidationReceipt}
use rules_stests.Receipt.Validate.{verified, pass}
use rules_stests.Receipt.Coverage.{assign, artifact_of, text_of}
use rules_stests.Report.Checks.{
  PlannedCheck, receipt_index, receipt_at, in_scope, matches, some_match, add_execution,
  check_cells, checks_of_proofs, checks_of_manifests, planned_checks, check_evidence,
}
use rules_stests.Report.Shown.{IsTallied}
use rules_stests.Report.Checked.{planned_checks-IsTallied}
use rules_stests.Tests.Reports.{link, manifest, plans, receipt, model}

abbrev proof : ReceiptProof
proof = record {
  feature_id = codes "traces.links";
  assertion = codes "links";
  basis = codes "observed";
  result = pass;
}

abbrev proven : ValidationReceipt
proven = record receipt { proofs = proof ∷ [] }

abbrev check : PlannedCheck
check = record {
  profile = codes "go-gin";
  feature_id = codes "traces.links";
  assertion = codes "links";
  basis = codes "observed";
  evidence = link ∷ [];
  executions = record { scenario = codes "tags"; outcome = verified; reason = [] } ∷ [];
  passed = 1;
  expected_failure = 0;
  no_result = 0;
}

-- The receipt that holds the proof comes last and is the one that counts.
plans_one : planned_checks plans (receipt ∷ proven ∷ []) (manifest ∷ []) model.coverage ≡ check ∷ []
unfolding planned_checks checks_of_manifests checks_of_proofs check_cells add_execution some_match
    matches in_scope receipt_at receipt_index check_evidence artifact_of assign text_of lookup mem
    text_eq
plans_one = refl

planned_checks-IsTallied_example :
    All
      (IsTallied (receipt ∷ proven ∷ []))
      (planned_checks plans (receipt ∷ proven ∷ []) (manifest ∷ []) model.coverage)
planned_checks-IsTallied_example =
    planned_checks-IsTallied plans (receipt ∷ proven ∷ []) (manifest ∷ []) model.coverage
