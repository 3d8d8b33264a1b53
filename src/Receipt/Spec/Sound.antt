-- ===== src/Receipt/Spec/Sound.antt =====
-- ValidateReceiptSetForProfiles and ValidateReceiptSet of report/report/receipt.go against their
-- specification.
use rules_stests.Base.{
  ℕ, true, ◌≡◌, ◌↔◌, refl, sym, ◌∙◌, List, [], ◌∷◌, map, Text, All, length, mem, ==_iff, ok,
  guard_iff, >>=-eq-ok, arith,
}
use rules_stests.Receipt.Types.{ValidationReceipt, receipt_key, pair_key}
use rules_stests.Receipt.Validate.{
  Build, all_hex, is_hex_text, expect_pairs, check_receipts, validate_receipt_set_for_profiles,
}
use rules_stests.Receipt.Spec.Defs.{declared_keys, IsCovered, IsComplete}
use rules_stests.Receipt.Spec.Proofs.{pushed, mem-pushed}
use rules_stests.Receipt.Spec.Members.{
  expected_set, mem-expected_set, expect_pairs_iff, check_receipts-eq-ok, check_receipts_accepts,
  IsSeen, check_complete_iff,
}

All-map {ℓ κ ι} :
    {A : Type ℓ} {P : A → Type κ} {Q : A → Type ι} (xs : List A)
    → ((x : A) → P x → Q x)
    → All P xs
    → All Q xs
All-map [] f a = tt
All-map (x ∷ xs) f a = (f x a.0, All-map xs f a.1)

mem-seen :
    (k : Text) (rs : List ValidationReceipt)
    → mem k (pushed (map receipt_key rs) []) ≡ mem k (map receipt_key rs)
unfolding mem
mem-seen k rs = ground (arith, mem-pushed k (map receipt_key rs) [])

module _ (b : Build) (rs : List ValidationReceipt) where
  abbrev Seen : Text → Type 0
  Seen p = IsSeen b (pushed (map receipt_key rs) []) p

  IsCovered-of_Seen : (p : Text) → Seen p → IsCovered b rs p
  IsCovered-of_Seen p v = record {
    has_plan = v.has_plan;
    scenarios = v.scenarios;
    declares = v.declares;
    some_scenario = v.some_scenario;
    all_received = All-map v.scenarios (λ s m. sym (mem-seen (pair_key p s) rs) ∙ m) v.all_seen;
  }

  Seen-of_covered : (p : Text) → IsCovered b rs p → Seen p
  Seen-of_covered p v = record {
    has_plan = v.has_plan;
    scenarios = v.scenarios;
    declares = v.declares;
    some_scenario = v.some_scenario;
    all_seen = All-map v.scenarios (λ s m. mem-seen (pair_key p s) rs ∙ m) v.all_received;
  }

pub is_hex_text_iff :
    (n : ℕ) (t : Text) → (is_hex_text n t ≡ true) ↔ ((length t ≡ n) × (all_hex t ≡ true))
unfolding is_hex_text
is_hex_text_iff n t =
    (λ h. ground (arith, ==_iff (length t) n), λ h. ground (arith, ==_iff (length t) n))

-- The validator accepts a set of receipts exactly when the set is complete for the build: the
-- revision is a lowercase 40-digit commit, every declared profile is known and no declared
-- scenario is empty, no two receipts share a profile and scenario key, each receipt is declared
-- and backed by the build's plan, capture and shape with an outcome that its proofs fit, and
-- every profile has a plan, at least one scenario, and a receipt for each of them.
pub validate_receipt_set_for_profiles_iff :
    (digest : Text → Text) (b : Build) (receipts : List ValidationReceipt)
    → (validate_receipt_set_for_profiles digest b receipts ≡ ok tt) ↔ IsComplete digest b receipts
unfolding validate_receipt_set_for_profiles
validate_receipt_set_for_profiles_iff digest b receipts = (accepted, accepts)
  where
    declared_of :
        (r : ValidationReceipt)
        → mem (receipt_key r) (expected_set b.profile_scenarios) ≡ true
        → mem (receipt_key r) (declared_keys b.profile_scenarios) ≡ true
    declared_of r m = sym (mem-expected_set (receipt_key r) b.profile_scenarios) ∙ m

    expected_of :
        (r : ValidationReceipt)
        → mem (receipt_key r) (declared_keys b.profile_scenarios) ≡ true
        → mem (receipt_key r) (expected_set b.profile_scenarios) ≡ true
    expected_of r m = mem-expected_set (receipt_key r) b.profile_scenarios ∙ m

    accepted :
        validate_receipt_set_for_profiles digest b receipts ≡ ok tt → IsComplete digest b receipts
    accepted h =
        let (pinned, h₁) = (guard_iff (is_hex_text 40 b.revision) _ _).0 h in
        let (e, pairs, h₂) = >>=-eq-ok (expect_pairs b.profiles b.profile_scenarios []) _ h₁ in
        let (known, at) = (expect_pairs_iff b.profiles b.profile_scenarios e).0 pairs in
        let (seen, loop, done) = >>=-eq-ok (check_receipts digest b e [] receipts) _ h₂ in
        let ((fresh, known_keys, backed), end) =
          check_receipts-eq-ok digest b (expected_set b.profile_scenarios) [] receipts seen
            (rw at at loop) in
        record {
          pinned = (is_hex_text_iff 40 b.revision).0 pinned;
          known_profiles = known;
          no_repeat = fresh;
          declared = All-map receipts declared_of known_keys;
          backed = backed;
          covered =
              All-map b.profiles (IsCovered-of_Seen b receipts)
                ((check_complete_iff b _ b.profiles).0 (rw end at done));
        }

    accepts :
        IsComplete digest b receipts → validate_receipt_set_for_profiles digest b receipts ≡ ok tt
    accepts c =
        rw
          (
            (is_hex_text_iff 40 b.revision).1 c.pinned,
            (expect_pairs_iff b.profiles b.profile_scenarios (expected_set b.profile_scenarios)).1
                (c.known_profiles, refl),
            check_receipts_accepts digest b (expected_set b.profile_scenarios) [] receipts
                (c.no_repeat, All-map receipts expected_of c.declared, c.backed),
          )
          ((check_complete_iff b _ b.profiles).1
            (All-map b.profiles (Seen-of_covered b receipts) c.covered))
