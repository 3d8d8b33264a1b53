-- ===== src/Profile/Claims.antt =====
-- report/report/profile.go: parseProfileClaim. Its steps follow each other: the scope of the claim,
-- its basis, and a proof for each feature.
use rules_stests.Base.{
  not, ◌&&◌, ◌==◌, leb, List, [], ◌∷◌, Text, codes, text_eq, is_nil, if◌then◌else◌, Result, ok, err,
  ◌>>=◌, guard, ◌>>◌, mem, lookup, Option, none, some,
}
use rules_stests.Scheme.Expr.{Sexpr, Sexprs, nil, cons, head, atom_value, unquote}
use rules_stests.Receipt.Types.{ProofPlanProof}
use rules_stests.Receipt.Coverage.{text_of}
use rules_stests.Report.Evidence.{validate_immutable_source}
use rules_stests.Profile.Types.{
  ParsedRule, ProfileError, malformed_all, malformed_scenario, empty_scope, malformed_observed,
  malformed_corroborated, unknown_scope, unknown_anchor, bad_anchor, bad_basis, unknown_feature,
  unruled_feature, needs_source, needs_observed, lifted,
}
use rules_stests.Profile.Lookup.{item, items_from, size}
use rules_stests.Profile.Rules.{Rules, wire_sufficient, requires_source}

abbrev pub observed : Text
observed = codes "observed"

abbrev pub corroborated : Text
corroborated = codes "corroborated"

unfoldable pub parse_scenario :
    (known_scenarios : List Text)
    → (name : Text) → (body : Sexpr) → Result ProfileError (List Text × Sexpr)
parse_scenario known_scenarios name body = do
  guard (not (is_nil name)) empty_scope
  guard (mem name known_scenarios) (unknown_scope name)
  ok (name ∷ [], body)

-- The scenarios of a claim, and its body.
unfoldable pub parse_scope :
    (known_scenarios : List Text) → Sexpr → Result ProfileError (List Text × Sexpr)
parse_scope known_scenarios clause =
    let whole = guard (size clause == 2) malformed_all >> ok ([], item 1 clause) in
    let scoped =
      guard (size clause == 3) malformed_scenario
      >> parse_scenario known_scenarios (atom_value (unquote (item 1 clause))) (item 2 clause) in
    if text_eq (head clause) (codes "all") then whole else scoped

unfoldable pub parse_anchor : (sources : List (Text × Text)) → Text → Result ProfileError Text
parse_anchor sources name = do
  guard (not (is_nil (text_of name sources))) (unknown_anchor name)
  lifted (bad_anchor name) (validate_immutable_source (text_of name sources))
  ok name

unfoldable pub parse_anchors :
    (sources : List (Text × Text)) → Sexprs → Result ProfileError (List Text)
parse_anchors sources nil = ok []
parse_anchors sources (cons x xs) = do
  name ← parse_anchor sources (atom_value x)
  names ← parse_anchors sources xs
  ok (name ∷ names)

-- The basis of a body, its feature expressions and its source names.
pub record Basis : Type 0 where
  pub basis : Text
  pub features : Sexprs
  pub source_names : List Text

unfoldable pub parse_basis : (sources : List (Text × Text)) → Sexpr → Result ProfileError Basis
parse_basis sources body =
    let direct =
      guard (leb 2 (size body)) malformed_observed
      >> ok (record { basis = observed; features = items_from 1 body; source_names = [] }) in
    let sourced =
      guard (leb 3 (size body) && text_eq (head (item 1 body)) (codes "sources"))
        malformed_corroborated
      >> (parse_anchors sources (items_from 1 (item 1 body)) >>= λ names.
          ok (record {
            basis = corroborated;
            features = items_from 2 body;
            source_names = names;
          })) in
    if text_eq (head body) observed
    then direct
    else if text_eq (head body) corroborated
    then sourced
    else err (bad_basis (head body))

unfoldable pub check_rule : Text → ParsedRule → Basis → Result ProfileError (Unit {0})
check_rule id rule basis = do
  guard (not (text_eq rule.policy requires_source && is_nil basis.source_names)) (needs_source id)
  guard (not (text_eq rule.policy wire_sufficient && not (text_eq basis.basis observed)))
      (needs_observed id)

abbrev pub proof_of : Text → ParsedRule → List Text → Basis → ProofPlanProof
proof_of id rule scenarios basis = record {
  feature_id = id;
  assertion = rule.assertion;
  basis = basis.basis;
  evidence_policy = rule.policy;
  scenarios = scenarios;
  sources = basis.source_names;
}

unfoldable pub prove_feature :
    Text → Option ParsedRule → (scenarios : List Text) → Basis → Result ProfileError ProofPlanProof
prove_feature id none scenarios basis = err (unruled_feature id)
prove_feature id (some rule) scenarios basis =
    check_rule id rule basis >> ok (proof_of id rule scenarios basis)

unfoldable pub parse_feature :
    (feature_by_binding : List (Text × Text))
    → Rules
    → (scenarios : List Text) → Basis
    → (binding : Text) → Result ProfileError ProofPlanProof
parse_feature feature_by_binding rules scenarios basis binding =
    let id = text_of binding feature_by_binding in
    guard (not (is_nil id)) (unknown_feature binding)
    >> prove_feature id (lookup id rules) scenarios basis

unfoldable pub parse_features :
    (feature_by_binding : List (Text × Text))
    → Rules
    → (scenarios : List Text) → Basis
    → Sexprs
    → Result ProfileError (List ProofPlanProof)
parse_features feature_by_binding rules scenarios basis nil = ok []
parse_features feature_by_binding rules scenarios basis (cons x xs) = do
  proof ← parse_feature feature_by_binding rules scenarios basis (atom_value x)
  proofs ← parse_features feature_by_binding rules scenarios basis xs
  ok (proof ∷ proofs)

unfoldable pub parse_profile_claim :
    (clause : Sexpr) (feature_by_binding sources : List (Text × Text))
    → Rules
    → (known_scenarios : List Text) → Result ProfileError (List ProofPlanProof)
parse_profile_claim clause feature_by_binding sources rules known_scenarios = do
  (scenarios, body) ← parse_scope known_scenarios clause
  basis ← parse_basis sources body
  parse_features feature_by_binding rules scenarios basis basis.features
