-- ===== src/Tests/Receipts.antt =====
-- report/report/receipt.go on one profile with one scenario. The digest of a text is the text.
use rules_stests.Base.{
  true, not, ◌&&◌, ◌≡◌, ◌↔◌, refl, [], ◌∷◌, Option, some, Text, codes, All, map, add, sort_texts,
  length, is_nil, text_eq, mem, lookup, ok, err, ◌+◌,
}
use rules_stests.Receipt.Types.{
  ReceiptProof, ValidationReceipt, ProofPlanProof, PlanArtifact, duplicate_receipt, missing_receipt,
  incomplete_proofs,
}
use rules_stests.Receipt.Validate.{
  Build, is_hex_digit, all_hex, is_hex_text, expect_scenarios, expect_pairs, check_outcome,
  check_mode, check_capture, check_plan, applies, wanted_proofs, actual_proofs, all_in,
  compare_proofs, check_proofs, check_receipt, check_receipts, check_seen, check_declared,
  check_complete, uniform_scenarios, verified, pass, contract, validate_receipt_set_for_profiles,
  validate_receipt_set,
}
use rules_stests.Receipt.Spec.Defs.{IsComplete}
use rules_stests.Receipt.Spec.Sound.{validate_receipt_set_for_profiles_iff}
use rules_stests.Receipt.Decode.{decode_receipt, decode_receipt_iff, IsWellFormed}
use rules_stests.Receipt.Coverage.{
  FeatureClaim, zero_evidence, entries_of, coverages_from_plans_for_profiles,
  partition_exercised_profiles,
}
use rules_stests.Receipt.Coverage.Claims.{
  IsSupported, has_receipt, coverages_from_plans_for_profiles-IsSupported,
  partition_exercised_profiles_lem,
}

abbrev commit : Text
commit = codes "0123456789abcdef0123456789abcdef01234567"

abbrev sha : Text
sha = codes "0123456789abcdef0123456789abcdef0123456789abcdef0123456789abcdef"

abbrev identity : Text → Text
identity t = t

abbrev planned : ProofPlanProof
planned = record {
  feature_id = codes "f";
  assertion = codes "a";
  basis = codes "b";
  evidence_policy = [];
  scenarios = [];
  sources = codes "spec" ∷ [];
}

abbrev artifact : PlanArtifact
artifact = record {
  plan = record {
    profile = codes "go";
    sources = (codes "spec", codes "https://x") ∷ [];
    proofs = planned ∷ [];
  };
  bytes = sha;
  source = zero_evidence;
}

abbrev build : Build
build = record {
  revision = commit;
  profiles = codes "go" ∷ [];
  profile_scenarios = (codes "go", codes "tags" ∷ []) ∷ [];
  plans = (codes "go", artifact) ∷ [];
  shapes = [];
  captures = (codes "go\0tags", sha) ∷ [];
}

abbrev proven : ReceiptProof
proven = record { feature_id = codes "f"; assertion = codes "a"; basis = codes "b"; result = pass }

abbrev receipt : ValidationReceipt
receipt = record {
  schema_version = 1;
  revision = commit;
  profile = codes "go";
  scenario = codes "tags";
  proof_plan_sha256 = sha;
  capture_sha256 = sha;
  validation_mode = contract;
  outcome = verified;
  xfail_reason = [];
  scenario_shape_sha256 = [];
  proofs = proven ∷ [];
}

accepts_one : validate_receipt_set_for_profiles identity build (receipt ∷ []) ≡ ok tt
unfolding validate_receipt_set_for_profiles is_hex_text all_hex is_hex_digit expect_pairs
    expect_scenarios check_receipts check_receipt check_outcome check_plan check_capture check_mode
    check_proofs actual_proofs wanted_proofs compare_proofs all_in applies check_complete
    check_declared check_seen text_eq mem add lookup
accepts_one = refl

-- The same receipt twice, no receipt, and a verified receipt without its planned proof.
refuses_three :
    (validate_receipt_set_for_profiles identity build (receipt ∷ receipt ∷ [])
      ≡ err (duplicate_receipt (codes "go") (codes "tags")))
    × (validate_receipt_set_for_profiles identity build []
        ≡ err (missing_receipt (codes "go") (codes "tags")))
    × (validate_receipt_set identity build (codes "tags" ∷ []) (record receipt { proofs = [] } ∷ [])
        ≡ err (incomplete_proofs (codes "go") (codes "tags")))
unfolding validate_receipt_set validate_receipt_set_for_profiles is_hex_text all_hex is_hex_digit
    expect_pairs expect_scenarios check_receipts check_receipt check_outcome check_plan
    check_capture check_mode check_proofs actual_proofs wanted_proofs compare_proofs all_in applies
    check_complete check_declared check_seen uniform_scenarios text_eq mem add lookup
refuses_three = (refl, refl, refl)

validate_receipt_set_for_profiles_iff_example :
    (validate_receipt_set_for_profiles identity build (receipt ∷ []) ≡ ok tt)
    ↔ IsComplete identity build (receipt ∷ [])
validate_receipt_set_for_profiles_iff_example =
    validate_receipt_set_for_profiles_iff identity build (receipt ∷ [])

-- A decoder that knows one receipt, behind which nothing is left.
abbrev read_one : Text → Option (ValidationReceipt × Text)
read_one t = some (receipt, [])

decode_receipt_iff_example : (decode_receipt read_one is_nil (codes "{}") ≡ ok receipt) ↔ (
    (rest : Text) × (read_one (codes "{}") ≡ some (receipt, rest))
    × (is_nil rest ≡ true)
    × IsWellFormed receipt)
decode_receipt_iff_example = decode_receipt_iff read_one is_nil (codes "{}") receipt

decodes_one : decode_receipt read_one is_nil (codes "{}") ≡ ok receipt
unfolding decode_receipt is_hex_text all_hex is_hex_digit text_eq
decodes_one = refl

coverages_from_plans_for_profiles-IsSupported_example :
    All
      (λ c.
        All
          (IsSupported (receipt ∷ []) c.profile (entries_of c.profile build.profile_scenarios))
          c.claims)
      (coverages_from_plans_for_profiles build.plans (receipt ∷ []) build.profile_scenarios)
coverages_from_plans_for_profiles-IsSupported_example =
    coverages_from_plans_for_profiles-IsSupported build.plans (receipt ∷ []) build.profile_scenarios

-- The plan's one proof becomes a claim on all scenarios, and none without a verified receipt.
claims_one :
    (map
        (λ c. map (λ (k : FeatureClaim). k.all_scenarios) c.claims)
        (coverages_from_plans_for_profiles build.plans (receipt ∷ []) build.profile_scenarios)
      ≡ (true ∷ []) ∷ [])
    × (map
          (λ c. map (λ (k : FeatureClaim). k.all_scenarios) c.claims)
          (coverages_from_plans_for_profiles build.plans [] build.profile_scenarios)
        ≡ [] ∷ [])
unfolding coverages_from_plans_for_profiles text_eq mem add lookup sort_texts
claims_one = (refl, refl)

partition_exercised_profiles_lem_example :
    let (exercised, unexercised) =
      partition_exercised_profiles (codes "go" ∷ codes "ruby" ∷ []) (receipt ∷ []) in
    (mem (codes "go") exercised ≡ (
      mem (codes "go") (codes "go" ∷ codes "ruby" ∷ []) && has_receipt (receipt ∷ []) (codes "go")))
    × (mem (codes "go") unexercised ≡ (
        mem (codes "go") (codes "go" ∷ codes "ruby" ∷ [])
        && not (has_receipt (receipt ∷ []) (codes "go"))))
    × (length exercised + length unexercised ≡ length {A = Text} (codes "go" ∷ codes "ruby" ∷ []))
partition_exercised_profiles_lem_example =
    partition_exercised_profiles_lem (codes "go" ∷ codes "ruby" ∷ []) (receipt ∷ []) (codes "go")
