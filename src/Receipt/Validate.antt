-- ===== src/Receipt/Validate.antt =====
-- report/report/receipt.go: ValidateReceiptSet and ValidateReceiptSetForProfiles. `digest`, the
-- hex SHA-256 of its bytes, is a parameter. A map is walked in the order of its association list.
use rules_stests.Base.{
  ℕ, Bool, true, not, ◌&&◌, ◌||◌, List, [], ◌∷◌, Option, none, some, ◌==◌, leb, if◌then◌else◌, Text,
  codes, length, is_nil, text_eq, mem, add, lookup, keys, Result, ok, err, ◌>>=◌, ◌>>◌, guard,
}
use rules_stests.Receipt.Types.{
  ReceiptProof, ValidationReceipt, ProofPlanProof, NormalizedProfilePlan, PlanArtifact, Failure,
  bad_revision, bad_outcome, no_reason, stray_reason, unexpected_receipt, duplicate_receipt,
  stale_receipt, plan_mismatch, no_capture, capture_mismatch, shape_mismatch, not_exact,
  stray_proofs, incomplete_proofs, missing_proof, unexpected_proof, failed_proof, duplicate_proof,
  unknown_profile, empty_scenario, no_plan, no_scenarios, missing_receipt, pair_key, receipt_key,
}

abbrev pub verified : Text
verified = codes "verified"

abbrev pub xfail : Text
xfail = codes "xfail"

abbrev pub exact : Text
exact = codes "exact"

abbrev pub contract : Text
contract = codes "contract"

abbrev pub pass : Text
pass = codes "pass"

-- The patterns `^[0-9a-f]{n}$`.
unfoldable pub is_hex_digit : ℕ → Bool
is_hex_digit c = (leb b'0' c && leb c b'9') || (leb b'a' c && leb c b'f')

unfoldable pub all_hex : Text → Bool
all_hex [] = true
all_hex (c ∷ cs) = is_hex_digit c && all_hex cs

unfoldable pub is_hex_text : ℕ → Text → Bool
is_hex_text n t = length t == n && all_hex t

unfoldable pub expect_scenarios : Text → List Text → List Text → Result Failure (List Text)
expect_scenarios profile [] expected = ok expected
expect_scenarios profile (s ∷ ss) expected =
    if is_nil s
    then err (empty_scenario profile)
    else expect_scenarios profile ss (add (pair_key profile s) expected)

-- The keys that receipts may have, from the declared scenarios of each profile.
unfoldable pub expect_pairs :
    List Text → List (Text × List Text) → List Text → Result Failure (List Text)
expect_pairs profile_set [] expected = ok expected
expect_pairs profile_set ((profile, ss) ∷ more) expected =
    guard (mem profile profile_set) (unknown_profile profile)
    >> (expect_scenarios profile ss expected >>= expect_pairs profile_set more)

-- What a receipt says of its own outcome.
unfoldable pub check_outcome : ValidationReceipt → Result Failure (Unit {0})
check_outcome r = do
  guard (text_eq r.outcome verified || text_eq r.outcome xfail) (bad_outcome r.outcome)
  guard (not (text_eq r.outcome xfail && is_nil r.xfail_reason)) (no_reason r.profile r.scenario)
  guard (not (text_eq r.outcome verified && not (is_nil r.xfail_reason)))
      (stray_reason r.profile r.scenario)

-- `shape, exact := shapes[key]` and the two tests on the validation mode.
unfoldable pub check_mode :
    (Text → Text) → Option Text → ValidationReceipt → Result Failure (Unit {0})
check_mode digest (some shape) r =
    guard (text_eq r.validation_mode exact && text_eq r.scenario_shape_sha256 (digest shape))
      (shape_mismatch r.profile r.scenario)
check_mode digest none r =
    guard (text_eq r.validation_mode contract && is_nil r.scenario_shape_sha256)
      (not_exact r.profile r.scenario)

unfoldable pub check_capture :
    (Text → Text) → Option Text → ValidationReceipt → Result Failure (Unit {0})
check_capture digest none r = err (no_capture r.profile r.scenario)
check_capture digest (some capture) r =
    guard (text_eq (digest capture) r.capture_sha256) (capture_mismatch r.profile r.scenario)

-- The plan of the receipt's profile, with the digest that the receipt recorded.
unfoldable pub check_plan :
    (Text → Text) → Option PlanArtifact → ValidationReceipt → Result Failure PlanArtifact
check_plan digest none r = err (no_plan r.profile)
check_plan digest (some artifact) r = do
  guard (text_eq artifact.plan.profile r.profile) (no_plan r.profile)
  guard (text_eq (digest artifact.bytes) r.proof_plan_sha256) (plan_mismatch r.profile r.scenario)
  ok artifact

abbrev pub proof_key : Text → Text → Text → Text
proof_key feature assertion basis = pair_key (pair_key feature assertion) basis

abbrev pub key_of_plan : ProofPlanProof → Text
key_of_plan p = proof_key p.feature_id p.assertion p.basis

abbrev pub key_of_proof : ReceiptProof → Text
key_of_proof p = proof_key p.feature_id p.assertion p.basis

-- `len(proof.Scenarios) == 0 || stringSliceContains(proof.Scenarios, scenario)`.
unfoldable pub applies : Text → ProofPlanProof → Bool
applies scenario p = is_nil p.scenarios || mem scenario p.scenarios

unfoldable pub wanted_proofs : Text → List ProofPlanProof → List Text → List Text
wanted_proofs scenario [] wanted = wanted
wanted_proofs scenario (p ∷ ps) wanted =
    wanted_proofs scenario ps (if applies scenario p then add (key_of_plan p) wanted else wanted)

unfoldable pub actual_proofs :
    ValidationReceipt → List ReceiptProof → List Text → Result Failure (List Text)
actual_proofs r [] actual = ok actual
actual_proofs r (p ∷ ps) actual = do
  guard (text_eq p.result pass) (failed_proof p.feature_id r.profile r.scenario)
  guard (not (mem (key_of_proof p) actual)) (duplicate_proof p.feature_id r.profile r.scenario)
  actual_proofs r ps (key_of_proof p ∷ actual)

-- Every element of the first set is in the second.
unfoldable pub all_in : List Text → List Text → Bool
all_in [] ys = true
all_in (x ∷ xs) ys = mem x ys && all_in xs ys

unfoldable pub compare_proofs :
    ValidationReceipt → List Text → List Text → Result Failure (Unit {0})
compare_proofs r wanted actual = do
  guard (length actual == length wanted) (incomplete_proofs r.profile r.scenario)
  guard (all_in wanted actual) (missing_proof r.profile r.scenario)
  guard (all_in actual wanted) (unexpected_proof r.profile r.scenario)

unfoldable pub check_proofs : NormalizedProfilePlan → ValidationReceipt → Result Failure (Unit {0})
check_proofs plan r =
    if text_eq r.outcome xfail
    then guard (is_nil r.proofs) (stray_proofs r.profile r.scenario)
    else (actual_proofs r r.proofs []
        >>= compare_proofs r (wanted_proofs r.scenario plan.proofs []))

-- What the report was built from, against which every receipt is held.
pub record Build : Type 0 where
  pub revision : Text
  pub profiles : List Text
  pub profile_scenarios : List (Text × List Text)
  pub plans : List (Text × PlanArtifact)
  pub shapes : List (Text × Text)
  pub captures : List (Text × Text)

-- The body of the loop over the receipts.
unfoldable pub check_receipt :
    (Text → Text) → Build → List Text → List Text → ValidationReceipt → Result Failure (Unit {0})
check_receipt digest b expected seen r = do
  check_outcome r
  guard (mem (receipt_key r) expected) (unexpected_receipt r.profile r.scenario)
  guard (not (mem (receipt_key r) seen)) (duplicate_receipt r.profile r.scenario)
  guard (text_eq r.revision b.revision) (stale_receipt r.profile r.scenario)
  artifact ← check_plan digest (lookup r.profile b.plans) r
  check_capture digest (lookup (receipt_key r) b.captures) r
  check_mode digest (lookup (receipt_key r) b.shapes) r
  check_proofs artifact.plan r

unfoldable pub check_receipts :
    (Text → Text)
    → Build
    → List Text
    → List Text
    → List ValidationReceipt
    → Result Failure (List Text)
check_receipts digest b expected seen [] = ok seen
check_receipts digest b expected seen (r ∷ rs) =
    check_receipt digest b expected seen r
    >> check_receipts digest b expected (receipt_key r ∷ seen) rs

unfoldable pub check_seen : List Text → Text → List Text → Result Failure (Unit {0})
check_seen seen profile [] = ok tt
check_seen seen profile (s ∷ ss) =
    guard (mem (pair_key profile s) seen) (missing_receipt profile s) >> check_seen seen profile ss

unfoldable pub check_declared : List Text → Text → Option (List Text) → Result Failure (Unit {0})
check_declared seen profile none = err (no_scenarios profile)
check_declared seen profile (some ss) =
    guard (not (is_nil ss)) (no_scenarios profile) >> check_seen seen profile ss

unfoldable pub check_complete : Build → List Text → List Text → Result Failure (Unit {0})
check_complete b seen [] = ok tt
check_complete b seen (profile ∷ more) = do
  guard (mem profile (keys b.plans)) (no_plan profile)
  check_declared seen profile (lookup profile b.profile_scenarios)
  check_complete b seen more

unfoldable pub validate_receipt_set_for_profiles :
    (Text → Text) → Build → List ValidationReceipt → Result Failure (Unit {0})
validate_receipt_set_for_profiles digest b receipts = do
  guard (is_hex_text 40 b.revision) bad_revision
  expected ← expect_pairs b.profiles b.profile_scenarios []
  seen ← check_receipts digest b expected [] receipts
  check_complete b seen b.profiles

-- `profileScenarios[profile] = scenarios` for each profile, in a map.
unfoldable pub uniform_scenarios :
    List Text → List Text → List (Text × List Text) → List (Text × List Text)
uniform_scenarios [] ss entries = entries
uniform_scenarios (p ∷ ps) ss entries =
    uniform_scenarios ps ss (if mem p (keys entries) then entries else (p, ss) ∷ entries)

-- `b.profile_scenarios` is not read: every profile has the same scenarios.
unfoldable pub validate_receipt_set :
    (Text → Text) → Build → List Text → List ValidationReceipt → Result Failure (Unit {0})
validate_receipt_set digest b scenarios receipts =
    validate_receipt_set_for_profiles digest
      (record b { profile_scenarios = uniform_scenarios b.profiles scenarios [] }) receipts
