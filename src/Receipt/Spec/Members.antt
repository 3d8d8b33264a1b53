-- ===== src/Receipt/Spec/Members.antt =====
-- The loops over the declared scenarios in report/report/receipt.go: the expected keys before the
-- receipts are read, and the search for missing receipts behind them.
use rules_stests.Base.{
  true, ◌||◌, ◌≡◌, ◌≢◌, ◌↔◌, refl, sym, ap, ◌∙◌, List, [], ◌∷◌, ◌++◌, map, Option, none, some, Text,
  All, mem, add, mem-add, lookup, keys, ok, guard_iff, >>=-eq-ok, arith,
}
use mathlib.Core.Path.{subst}
use rules_stests.Receipt.Types.{ValidationReceipt, pair_key, receipt_key}
use rules_stests.Receipt.Validate.{
  Build, expect_scenarios, expect_pairs, check_seen, check_declared, check_complete, check_receipts,
  check_receipt,
}
use rules_stests.Receipt.Spec.Defs.{Fresh, scenario_keys, declared_keys, IsBacked}
use rules_stests.Receipt.Spec.Proofs.{pushed}
use rules_stests.Receipt.Spec.One.{check_receipt_iff}

pub mem-append : (k : Text) (xs ys : List Text) → mem k (xs ++ ys) ≡ (mem k xs || mem k ys)
unfolding mem
mem-append k [] ys = refl
mem-append k (x ∷ xs) ys = ground (arith, mem-append k xs ys)

-- The accumulated set of `expect_scenarios`.
abbrev added : List Text → List Text → List Text
added [] acc = acc
added (k ∷ ks) acc = added ks (add k acc)

mem-added : (k : Text) (ks acc : List Text) → mem k (added ks acc) ≡ (mem k ks || mem k acc)
unfolding mem
mem-added k [] acc = refl
mem-added k (j ∷ ks) acc = ground (arith, mem-added k ks (add j acc), mem-add k j acc)

added-append : (xs ys acc : List Text) → added (xs ++ ys) acc ≡ added ys (added xs acc)
added-append [] ys acc = refl
added-append (x ∷ xs) ys acc = added-append xs ys (add x acc)

expect_scenarios-eq-ok :
    (p : Text) (ss acc e : List Text)
    → expect_scenarios p ss acc ≡ ok e
    → All (λ s. s ≢ []) ss × (e ≡ added (scenario_keys p ss) acc)
unfolding expect_scenarios
expect_scenarios-eq-ok p [] acc e h = (tt, cc)
expect_scenarios-eq-ok p ([] ∷ ss) acc e h = cc
expect_scenarios-eq-ok p ((c ∷ s) ∷ ss) acc e h =
    let (a, q) = expect_scenarios-eq-ok p ss (add (pair_key p (c ∷ s)) acc) e h in ((λ z. cc, a), q)

expect_scenarios_accepts :
    (p : Text) (ss acc : List Text)
    → All (λ s. s ≢ []) ss
    → expect_scenarios p ss acc ≡ ok (added (scenario_keys p ss) acc)
unfolding expect_scenarios
expect_scenarios_accepts p [] acc a = refl
expect_scenarios_accepts p ([] ∷ ss) acc a = absurd (a.0 refl)
expect_scenarios_accepts p ((c ∷ s) ∷ ss) acc a =
    expect_scenarios_accepts p ss (add (pair_key p (c ∷ s)) acc) a.1

abbrev pub KnownProfiles : List Text → List (Text × List Text) → Type 0
KnownProfiles profiles entries =
    All (λ e. (mem e.0 profiles ≡ true) × All (λ s. s ≢ []) e.1) entries

expect_pairs-added :
    (set : List Text) (entries : List (Text × List Text)) (acc e : List Text)
    → expect_pairs set entries acc ≡ ok e
    → KnownProfiles set entries × (e ≡ added (declared_keys entries) acc)
unfolding expect_pairs
expect_pairs-added set [] acc e h = (tt, cc)
expect_pairs-added set ((p, ss) ∷ more) acc e h =
    let (known, h₁) = (guard_iff (mem p set) _ _).0 h in
    let (mid, one, h₂) = >>=-eq-ok (expect_scenarios p ss acc) _ h₁ in
    let (nonempty, at) = expect_scenarios-eq-ok p ss acc mid one in
    let (rest, end) = expect_pairs-added set more mid e h₂ in
    (
      ((known, nonempty), rest),
      end
          ∙ ap (added (declared_keys more)) at
          ∙ sym (added-append (scenario_keys p ss) (declared_keys more) acc),
    )

expect_pairs-added_accepts :
    (set : List Text) (entries : List (Text × List Text)) (acc : List Text)
    → KnownProfiles set entries
    → expect_pairs set entries acc ≡ ok (added (declared_keys entries) acc)
unfolding expect_pairs
expect_pairs-added_accepts set [] acc k = refl
expect_pairs-added_accepts set ((p, ss) ∷ more) acc ((known, nonempty), rest) =
    rw (known, expect_scenarios_accepts p ss acc nonempty)
      (expect_pairs-added_accepts set more _ rest
        ∙ ap ok (sym (added-append (scenario_keys p ss) (declared_keys more) acc)))

-- The expected set that the first loop leaves.
abbrev pub expected_set : List (Text × List Text) → List Text
expected_set entries = added (declared_keys entries) []

pub expect_pairs_iff :
    (set : List Text) (entries : List (Text × List Text)) (e : List Text)
    → (expect_pairs set entries [] ≡ ok e)
      ↔ (KnownProfiles set entries × (e ≡ expected_set entries))
expect_pairs_iff set entries e = (
  expect_pairs-added set entries [] e,
  λ (k, q). expect_pairs-added_accepts set entries [] k ∙ ap ok (sym q),
)

pub mem-expected_set :
    (k : Text) (entries : List (Text × List Text))
    → mem k (expected_set entries) ≡ mem k (declared_keys entries)
unfolding mem
mem-expected_set k entries = ground (arith, mem-added k (declared_keys entries) [])

-- The loop over the receipts.
abbrev EachPasses : (Text → Text) → Build → List Text → List Text → List ValidationReceipt → Type 0
EachPasses digest b expected seen rs =
    Fresh seen (map receipt_key rs)
    × All (λ r. mem (receipt_key r) expected ≡ true) rs
    × All (IsBacked digest b) rs

pub check_receipts-eq-ok :
    (digest : Text → Text) (b : Build) (expected seen : List Text) (rs : List ValidationReceipt)
    (out : List Text)
    → check_receipts digest b expected seen rs ≡ ok out
    → EachPasses digest b expected seen rs × (out ≡ pushed (map receipt_key rs) seen)
unfolding check_receipts
check_receipts-eq-ok digest b expected seen [] out h = ((tt, tt, tt), cc)
check_receipts-eq-ok digest b expected seen (r ∷ rs) out h =
    let (_, one, h₁) = >>=-eq-ok (check_receipt digest b expected seen r) _ h in
    let (known, new, backed) = (check_receipt_iff digest b expected seen r).0 one in
    let ((f, d, v), e) = check_receipts-eq-ok digest b expected (receipt_key r ∷ seen) rs out h₁ in
    (((new, f), (known, d), (backed, v)), e)

pub check_receipts_accepts :
    (digest : Text → Text) (b : Build) (expected seen : List Text) (rs : List ValidationReceipt)
    → EachPasses digest b expected seen rs
    → check_receipts digest b expected seen rs ≡ ok (pushed (map receipt_key rs) seen)
unfolding check_receipts
check_receipts_accepts digest b expected seen [] p = refl
check_receipts_accepts digest b expected seen (r ∷ rs) ((new, f), (known, d), (backed, v)) =
    rw ((check_receipt_iff digest b expected seen r).1 (known, new, backed))
      (check_receipts_accepts digest b expected (receipt_key r ∷ seen) rs (f, d, v))

check_seen_iff :
    (seen : List Text) (p : Text) (ss : List Text)
    → (check_seen seen p ss ≡ ok tt) ↔ All (λ s. mem (pair_key p s) seen ≡ true) ss
unfolding check_seen
check_seen_iff seen p [] = (λ _. tt, λ _. refl)
check_seen_iff seen p (s ∷ ss) =
    let rest = check_seen_iff seen p ss in
    (
      λ h. let (a, b) = (guard_iff (mem (pair_key p s) seen) _ _).0 h in (a, rest.0 b),
      λ (a, b). rw a (rest.1 b),
    )

-- The search of `check_complete` for one profile, over the keys that were seen.
pub record IsSeen (b : Build) (seen : List Text) (profile : Text) : Type 0 where
  pub has_plan : mem profile (keys b.plans) ≡ true
  pub scenarios : List Text
  pub declares : lookup profile b.profile_scenarios ≡ some scenarios
  pub some_scenario : scenarios ≢ []
  pub all_seen : All (λ s. mem (pair_key profile s) seen ≡ true) scenarios

check_declared_iff :
    (seen : List Text) (p : Text) (found : Option (List Text))
    → (check_declared seen p found ≡ ok tt) ↔ (
        (ss : List Text) × (found ≡ some ss)
        × (ss ≢ [])
        × All (λ s. mem (pair_key p s) seen ≡ true) ss)
unfolding check_declared
check_declared_iff seen p none = (λ h. cc, λ h. cc (h.1))
check_declared_iff seen p (some []) = (λ h. cc, λ (ss, e, n, a). absurd (n (cc)))
check_declared_iff seen p (some (s ∷ ss)) =
    let read = check_seen_iff seen p (s ∷ ss) in
    (
      λ h. (s ∷ ss, refl, λ z. cc, read.0 h),
      λ (t, e, n, a).
          read.1 (subst (All (λ s. mem (pair_key p s) seen ≡ true)) {y = s ∷ ss} (cc) a),
    )

pub check_complete_iff :
    (b : Build) (seen : List Text) (ps : List Text)
    → (check_complete b seen ps ≡ ok tt) ↔ All (IsSeen b seen) ps
unfolding check_complete
check_complete_iff b seen [] = (λ _. tt, λ _. refl)
check_complete_iff b seen (p ∷ ps) =
    let rest = check_complete_iff b seen ps in
    let one = check_declared_iff seen p (lookup p b.profile_scenarios) in
    (
      λ h.
          let (plan, h₁) = (guard_iff (mem p (keys b.plans)) _ _).0 h in
          let (_, d, h₂) = >>=-eq-ok (check_declared seen p _) _ h₁ in
          let (ss, found, some_one, all) = one.0 d in
          (
            record {
              has_plan = plan;
              scenarios = ss;
              declares = found;
              some_scenario = some_one;
              all_seen = all;
            },
            rest.0 h₂,
          ),
      λ (v, more).
          rw (v.has_plan, one.1 (v.scenarios, v.declares, v.some_scenario, v.all_seen))
            (rest.1 more),
    )
