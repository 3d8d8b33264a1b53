-- ===== src/Profile/Claimed.antt =====
-- report/report/profile.go: what a proof of parseProfileClaim rests on.
use rules_stests.Base.{
  true, false, not, List, ◌≡◌, refl, sym, Text, is_nil, ok, guard, >>=-eq-ok, mem, lookup, Option,
  none, some, All, eq-false_of_not, guard-eq-ok, ok-injective,
}
use mathlib.Core.Path.{subst}
use rules_stests.Scheme.Expr.{Sexpr, Sexprs, nil, cons, atom_value}
use rules_stests.Receipt.Types.{ProofPlanProof}
use rules_stests.Receipt.Coverage.{text_of}
use rules_stests.Profile.Types.{ParsedRule, unknown_feature}
use rules_stests.Profile.Rules.{Rules}
use rules_stests.Profile.Claims.{
  parse_scope, Basis, parse_basis, check_rule, prove_feature, parse_feature, parse_features,
  parse_profile_claim,
}
use rules_stests.Profile.Ruled.{IsRule}
use rules_stests.Profile.Founded.{
  IsAnchor, IsFounded, IsBasis, parse_basis-IsBasis, parse_scope-known, check_rule-IsFounded,
}

-- A proof of a registered feature, by its rule, on a known shape, founded, on known scenarios, and
-- with anchors for its sources.
pub record IsProof (registered shapes : List Text) (sources : List (Text × Text)) (rules : Rules)
    (known_scenarios : List Text) (proof : ProofPlanProof) : Type 0 where
  pub registered_feature : mem proof.feature_id registered ≡ true
  pub rule :
      lookup proof.feature_id rules
      ≡ some (record { assertion = proof.assertion; policy = proof.evidence_policy })
  pub shape : mem proof.assertion shapes ≡ true
  pub founded_on : IsFounded proof
  pub scenarios_known : All (λ s. mem s known_scenarios ≡ true) proof.scenarios
  pub anchors : All (IsAnchor sources) proof.sources

-- What the claims of a profile are read with, and that the maps hold what they should.
module _ (registered shapes : List Text) (feature_by_binding sources : List (Text × Text))
    (rules : Rules) (known_scenarios : List Text)
    (features_known : (binding : Text)
      → is_nil (text_of binding feature_by_binding) ≡ false
      → mem (text_of binding feature_by_binding) registered ≡ true)
    (rules_known : (id : Text) (rule : ParsedRule)
      → lookup id rules ≡ some rule
      → IsRule shapes rule) where
  abbrev Proven : ProofPlanProof → Type 0
  Proven proof = IsProof registered shapes sources rules known_scenarios proof

  prove_feature-Proven :
      (id : Text) (rule : Option ParsedRule) (scenarios : List Text) (b : Basis)
      {proof : ProofPlanProof}
      → mem id registered ≡ true
      → lookup id rules ≡ rule
      → All (λ s. mem s known_scenarios ≡ true) scenarios
      → IsBasis sources b
      → prove_feature id rule scenarios b ≡ ok proof
      → Proven proof
  unfolding prove_feature
  prove_feature-Proven id none scenarios b r e a w h = cc h
  prove_feature-Proven id (some rule) scenarios b r e a w h =
      let (done, checked, same) = >>=-eq-ok (check_rule id rule b) _ h in
      let ruled = rules_known id rule e in
      subst Proven (ok-injective same) (record {
        registered_feature = r;
        rule = e;
        shape = ruled.shape;
        founded_on = check_rule-IsFounded id rule sources shapes scenarios b ruled w checked;
        scenarios_known = a;
        anchors = w.anchors;
      })

  parse_features-Proven :
      (scenarios : List Text) (b : Basis) (xs : Sexprs) {proofs : List ProofPlanProof}
      → All (λ s. mem s known_scenarios ≡ true) scenarios
      → IsBasis sources b
      → parse_features feature_by_binding rules scenarios b xs ≡ ok proofs
      → All Proven proofs
  unfolding parse_features parse_feature
  parse_features-Proven scenarios b nil a w h = rw (sym (ok-injective h)) tt
  parse_features-Proven scenarios b (cons x xs) a w h =
      let binding = atom_value x in
      let id = text_of binding feature_by_binding in
      let (proof, e, h1) =
        >>=-eq-ok (parse_feature feature_by_binding rules scenarios b binding) _ h in
      let (proofs, e', same) =
        >>=-eq-ok (parse_features feature_by_binding rules scenarios b xs) _ h1 in
      let (d, present, proved) =
        >>=-eq-ok (guard (not (is_nil id)) (unknown_feature binding)) _ e in
      let full =
        eq-false_of_not (is_nil id)
          (guard-eq-ok (not (is_nil id)) (unknown_feature binding) present) in
      subst (All Proven) (ok-injective same) (
        prove_feature-Proven id (lookup id rules) scenarios b (features_known binding full) refl a w
            proved,
        parse_features-Proven scenarios b xs a w e',
      )

  pub parse_profile_claim-Proven :
      (clause : Sexpr) {proofs : List ProofPlanProof}
      → parse_profile_claim clause feature_by_binding sources rules known_scenarios ≡ ok proofs
      → All Proven proofs
  unfolding parse_profile_claim
  parse_profile_claim-Proven clause h =
      let ((scenarios, body), e, h1) = >>=-eq-ok (parse_scope known_scenarios clause) _ h in
      let (b, e', h2) = >>=-eq-ok (parse_basis sources body) _ h1 in
      parse_features-Proven scenarios b b.features (parse_scope-known known_scenarios clause e)
        (parse_basis-IsBasis sources body e') h2
