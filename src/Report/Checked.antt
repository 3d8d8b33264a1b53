-- ===== src/Report/Checked.antt =====
-- report/report/projections.go: what the planned checks of AddReportProjections count.
use mathlib.Core.Path.{subst}
use rules_stests.Base.{
  ℕ, ◌+◌, ◌≡◌, refl, sym, ◌∙◌, inl, inr, Bool, true, false, ◌&&◌, List, [], ◌∷◌, ◌++◌,
  if◌then◌else◌, Bool-cases, Text, All, text_eq, arith,
}
use rules_stests.Receipt.Types.{ValidationReceipt, ProofPlanProof, PlanArtifact, pair_key}
use rules_stests.Receipt.Validate.{verified, xfail}
use rules_stests.Receipt.Coverage.{artifact_of}
use rules_stests.Receipt.Coverage.Claims.{All-append}
use rules_stests.Report.Types.{Manifest, CoverageCell}
use rules_stests.Report.Checks.{
  CheckExecution, PlannedCheck, receipt_index, receipt_at, in_scope, some_match, missing,
  add_execution, check_cells, empty_check, checks_of_proofs, checks_of_manifests, planned_checks,
}
use rules_stests.Report.Shown.{
  some_match-has_passing, is_backed, IsTallied, count_outcome-append, Shows, receipt_at-Shows,
}

abbrev Apart : Text → Bool → Bool → Bool → Type 0
Apart o v x m = (text_eq o verified ≡ v) × (text_eq o xfail ≡ x) × (text_eq o missing ≡ m)

verified-Apart : Apart verified true false false
unfolding text_eq
verified-Apart = (refl, refl, refl)

xfail-Apart : Apart xfail false true false
unfolding text_eq
xfail-Apart = (refl, refl, refl)

missing-Apart : Apart missing false false true
unfolding text_eq
missing-Apart = (refl, refl, refl)

profile-add_execution :
    (scenario : Text) (r : ValidationReceipt) (c : PlannedCheck)
    → (add_execution scenario r c).profile ≡ c.profile
unfolding add_execution
profile-add_execution scenario r c = ground arith

-- One more execution keeps the tallies when it raises the counter of its outcome.
raise : Text → Text → ℕ → ℕ
raise outcome o n = n + (if text_eq outcome o then 1 else 0)

append-IsTallied :
    (receipts : List ValidationReceipt) (c : PlannedCheck) (e : CheckExecution) (p f n : ℕ)
    → p ≡ raise e.outcome verified c.passed
    → f ≡ raise e.outcome xfail c.expected_failure
    → n ≡ raise e.outcome missing c.no_result
    → is_backed receipts c e ≡ true
    → IsTallied receipts c
    → IsTallied receipts (record c {
      executions = c.executions ++ e ∷ [];
      passed = p;
      expected_failure = f;
      no_result = n;
    })
unfolding raise
append-IsTallied receipts c e p f n hp hf hn b t = record {
  passes = omega (arith, hp, t.passes, count_outcome-append verified c.executions (e ∷ []));
  failures = omega (arith, hf, t.failures, count_outcome-append xfail c.executions (e ∷ []));
  others = omega (arith, hn, t.others, count_outcome-append missing c.executions (e ∷ []));
  each_backed =
      All-append (λ x. is_backed receipts c x ≡ true) c.executions (e ∷ []) t.each_backed (b, tt);
}

add_execution-IsTallied :
    (receipts : List ValidationReceipt) (scenario : Text) (r : ValidationReceipt) (c : PlannedCheck)
    → Shows receipts (pair_key c.profile scenario) r
    → IsTallied receipts c
    → IsTallied receipts (add_execution scenario r c)
unfolding add_execution raise
add_execution-IsTallied receipts scenario r c s t = elim (Bool-cases (text_eq r.outcome xfail)) [
  | inl fails ↦ rw fails (
      append-IsTallied receipts c
        (record { scenario = scenario; outcome = xfail; reason = r.xfail_reason }) _ _ _
        (ground (arith, xfail-Apart)) (ground (arith, xfail-Apart)) (ground (arith, xfail-Apart))
        (ground (
          arith,
          xfail-Apart,
          fails,
          s c (record { scenario = scenario; outcome = xfail; reason = r.xfail_reason }),
        ))
        t)
  | inr other ↦
      elim (Bool-cases
        (some_match c.feature_id c.assertion c.basis r.proofs && text_eq r.outcome verified)) [
          | inl done ↦
              rw (other, done)
                (append-IsTallied receipts c
                  (record { scenario = scenario; outcome = verified; reason = [] }) _ _ _
                  (ground (arith, verified-Apart)) (ground (arith, verified-Apart))
                  (ground (arith, verified-Apart))
                  (ground (
                    arith,
                    done,
                    some_match-has_passing c.feature_id c.assertion c.basis r.proofs,
                    s c (record { scenario = scenario; outcome = verified; reason = [] }),
                  ))
                  t)
          | inr left ↦
              rw (other, left)
                (append-IsTallied receipts c
                  (record { scenario = scenario; outcome = missing; reason = [] }) _ _ _
                  (ground (arith, missing-Apart)) (ground (arith, missing-Apart))
                  (ground (arith, missing-Apart)) (ground (arith, missing-Apart)) t)
        ]
]

check_cells-IsTallied :
    (receipts : List ValidationReceipt) (profile : Text) (proof : ProofPlanProof)
    (cells : List CoverageCell) (c : PlannedCheck)
    → c.profile ≡ profile
    → IsTallied receipts c
    → IsTallied receipts (check_cells profile proof (receipt_index receipts []) cells c)
unfolding check_cells
check_cells-IsTallied receipts profile proof [] c e t = t
check_cells-IsTallied receipts profile proof (cell ∷ cells) c e t =
    elim (Bool-cases (in_scope profile proof cell)) [
      | inl inside ↦
          rw (inside, check_cells)
            (check_cells-IsTallied receipts profile proof cells
              (add_execution cell.scenario
                (receipt_at (pair_key profile cell.scenario) (receipt_index receipts [])) c)
              (profile-add_execution cell.scenario _ c ∙ e)
              (add_execution-IsTallied receipts cell.scenario _ c
                (subst
                  (λ p.
                    Shows receipts (pair_key p cell.scenario)
                      (receipt_at (pair_key profile cell.scenario) (receipt_index receipts [])))
                  (sym e) (receipt_at-Shows receipts (pair_key profile cell.scenario)))
                t))
      | inr outside ↦
          rw (outside, check_cells) (check_cells-IsTallied receipts profile proof cells c e t)
    ]

checks_of_proofs-All :
    (receipts : List ValidationReceipt) (profile : Text) (a : PlanArtifact)
    (cells : List CoverageCell) (ps : List ProofPlanProof)
    → All (IsTallied receipts) (checks_of_proofs profile a (receipt_index receipts []) cells ps)
unfolding checks_of_proofs
checks_of_proofs-All receipts profile a cells [] = tt
checks_of_proofs-All receipts profile a cells (p ∷ ps) = (
  check_cells-IsTallied receipts profile p cells (empty_check profile a p) refl
      (record { passes = refl; failures = refl; others = refl; each_backed = tt }),
  checks_of_proofs-All receipts profile a cells ps,
)

checks_of_manifests-All :
    (receipts : List ValidationReceipt) (plans : List (Text × PlanArtifact))
    (cells : List CoverageCell) (ms : List Manifest)
    → All (IsTallied receipts) (checks_of_manifests plans (receipt_index receipts []) cells ms)
unfolding checks_of_manifests
checks_of_manifests-All receipts plans cells [] = tt
checks_of_manifests-All receipts plans cells (m ∷ ms) =
    let a = artifact_of m.profile plans in
    All-append (IsTallied receipts)
      (checks_of_proofs m.profile a (receipt_index receipts []) cells a.plan.proofs)
      (checks_of_manifests plans (receipt_index receipts []) cells ms)
      (checks_of_proofs-All receipts m.profile a cells a.plan.proofs)
      (checks_of_manifests-All receipts plans cells ms)

-- Every planned check counts its executions: the passed, the expected failures and the missing
-- ones, and an execution that is not missing rests on a receipt of its profile and scenario with
-- the same outcome, which for `verified` holds the planned proof and passes it.
pub planned_checks-IsTallied :
    (plans : List (Text × PlanArtifact)) (receipts : List ValidationReceipt) (ms : List Manifest)
    (cells : List CoverageCell)
    → All (IsTallied receipts) (planned_checks plans receipts ms cells)
unfolding planned_checks
planned_checks-IsTallied plans receipts ms cells = checks_of_manifests-All receipts plans cells ms
