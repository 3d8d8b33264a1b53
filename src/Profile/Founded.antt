-- ===== src/Profile/Founded.antt =====
-- report/report/profile.go: the scope, the basis and the rule of a claim.
use rules_stests.Base.{
  true, false, not, ◌&&◌, ◌==◌, leb, List, [], ◌≡◌, refl, sym, ap, ◌⊎◌, inl, inr, Text, codes,
  text_eq, is_nil, Result, ok, err, guard, guard_iff, >>=-eq-ok, mem, All, if-cases,
  eq-false_of_not, guard-eq-ok, ok-injective,
}
use mathlib.Core.Path.{subst}
use rules_stests.Scheme.Expr.{Sexpr, Sexprs, nil, cons, head, atom_value, unquote}
use rules_stests.Receipt.Types.{ProofPlanProof}
use rules_stests.Receipt.Coverage.{text_of}
use rules_stests.Report.Evidence.{validate_immutable_source}
use rules_stests.Profile.Types.{
  ParsedRule, malformed_all, malformed_scenario, empty_scope, unknown_scope, malformed_observed,
  malformed_corroborated, unknown_anchor, bad_anchor, needs_source, needs_observed, lifted,
}
use rules_stests.Profile.Lookup.{item, items_from, size}
use rules_stests.Profile.Rules.{wire_sufficient, requires_source}
use rules_stests.Profile.Claims.{
  observed, corroborated, parse_scenario, parse_scope, parse_anchor, parse_anchors, Basis,
  parse_basis, check_rule, proof_of,
}
use rules_stests.Profile.Ruled.{IsRule}

-- A name of a definition that is a link to an immutable source.
abbrev pub IsAnchor : List (Text × Text) → Text → Type 0
IsAnchor sources name =
    (is_nil (text_of name sources) ≡ false)
    × (validate_immutable_source (text_of name sources) ≡ ok tt)

-- What a proof shows by itself, or with immutable sources.
abbrev pub IsFounded : ProofPlanProof → Type 0
IsFounded proof =
    (proof.evidence_policy ≡ wire_sufficient) × (proof.basis ≡ observed) × (proof.sources ≡ [])
    ⊎ (proof.evidence_policy ≡ requires_source)
      × (proof.basis ≡ corroborated)
      × (is_nil proof.sources ≡ false)

-- A basis: observed with no source, or corroborated by anchors.
pub record IsBasis (sources : List (Text × Text)) (b : Basis) : Type 0 where
  pub kind : (b.basis ≡ observed) × (b.source_names ≡ []) ⊎ (b.basis ≡ corroborated)
  pub anchors : All (IsAnchor sources) b.source_names

lifted-eq-ok {ℓ κ ι} :
    {E : Type ℓ} {F : Type κ} {A : Type ι} (f : E → F) (r : Result E A) {a : A}
    → lifted f r ≡ ok a
    → r ≡ ok a
lifted-eq-ok f (err e) h = cc h
lifted-eq-ok f (ok a) h = ap ok (ok-injective h)

parse_anchor-IsAnchor :
    (sources : List (Text × Text)) (name : Text) {found : Text}
    → parse_anchor sources name ≡ ok found
    → IsAnchor sources found
unfolding parse_anchor
parse_anchor-IsAnchor sources name {found = found} h =
    let (d, present, h1) =
      >>=-eq-ok (guard (not (is_nil (text_of name sources))) (unknown_anchor name)) _ h in
    let (d', valid, h2) =
      >>=-eq-ok (lifted (bad_anchor name) (validate_immutable_source (text_of name sources))) _
        h1 in
    subst (IsAnchor sources) (ok-injective h2) (
      eq-false_of_not (is_nil (text_of name sources))
          (guard-eq-ok (not (is_nil (text_of name sources))) (unknown_anchor name) present),
      lifted-eq-ok (bad_anchor name) (validate_immutable_source (text_of name sources)) valid,
    )

parse_anchors-IsAnchor :
    (sources : List (Text × Text)) (xs : Sexprs) {names : List Text}
    → parse_anchors sources xs ≡ ok names
    → All (IsAnchor sources) names
unfolding parse_anchors
parse_anchors-IsAnchor sources nil h = rw (sym (ok-injective h)) tt
parse_anchors-IsAnchor sources (cons x xs) h =
    let (name, e, h1) = >>=-eq-ok (parse_anchor sources (atom_value x)) _ h in
    let (names, e', h2) = >>=-eq-ok (parse_anchors sources xs) _ h1 in
    rw (sym (ok-injective h2))
      (parse_anchor-IsAnchor sources (atom_value x) e, parse_anchors-IsAnchor sources xs e')

pub parse_basis-IsBasis :
    (sources : List (Text × Text)) (body : Sexpr) {b : Basis}
    → parse_basis sources body ≡ ok b
    → IsBasis sources b
unfolding parse_basis
parse_basis-IsBasis sources body {b = b} h = elim (if-cases (text_eq (head body) observed) _ _ h) [
  | inl (here, h1) ↦
      let (long, same) =
        (guard_iff (leb 2 (size body)) malformed_observed
            (ok (record { basis = observed; features = items_from 1 body; source_names = [] }))).0
          h1 in
      subst (IsBasis sources) (ok-injective same) (record { kind = inl (refl, refl); anchors = tt })
  | inr (other, h1) ↦ elim (if-cases (text_eq (head body) corroborated) _ _ h1) [
    | inl (here, h2) ↦
        let (d, long, h3) =
          >>=-eq-ok
            (guard (leb 3 (size body) && text_eq (head (item 1 body)) (codes "sources"))
              malformed_corroborated)
            _ h2 in
        let (names, e, same) =
          >>=-eq-ok (parse_anchors sources (items_from 1 (item 1 body))) _ h3 in
        subst (IsBasis sources) (ok-injective same) (record {
          kind = inr refl;
          anchors = parse_anchors-IsAnchor sources (items_from 1 (item 1 body)) e;
        })
    | inr (neither, h2) ↦ cc h2
  ]
]

pub parse_scope-known :
    (known_scenarios : List Text) (clause : Sexpr) {found : List Text × Sexpr}
    → parse_scope known_scenarios clause ≡ ok found
    → All (λ s. mem s known_scenarios ≡ true) found.0
unfolding parse_scope parse_scenario
parse_scope-known known_scenarios clause {found = found} h =
    elim (if-cases (text_eq (head clause) (codes "all")) _ _ h) [
      | inl (here, h1) ↦
          let (d, two, same) = >>=-eq-ok (guard (size clause == 2) malformed_all) _ h1 in
          subst (λ f. All (λ s. mem s known_scenarios ≡ true) f.0) (ok-injective same) tt
      | inr (other, h1) ↦
          let name = atom_value (unquote (item 1 clause)) in
          let (d, three, h2) = >>=-eq-ok (guard (size clause == 3) malformed_scenario) _ h1 in
          let (d', full, h3) = >>=-eq-ok (guard (not (is_nil name)) empty_scope) _ h2 in
          let (d'', known, same) =
            >>=-eq-ok (guard (mem name known_scenarios) (unknown_scope name)) _ h3 in
          subst (λ f. All (λ s. mem s known_scenarios ≡ true) f.0) (ok-injective same)
            (guard-eq-ok (mem name known_scenarios) (unknown_scope name) known, tt)
    ]

founded :
    (id : Text) (rule : ParsedRule) (scenarios : List Text) (b : Basis)
    → (rule.policy ≡ wire_sufficient) ⊎ (rule.policy ≡ requires_source)
    → (b.basis ≡ observed) × (b.source_names ≡ []) ⊎ (b.basis ≡ corroborated)
    → not (text_eq rule.policy requires_source && is_nil b.source_names) ≡ true
    → not (text_eq rule.policy wire_sufficient && not (text_eq b.basis observed)) ≡ true
    → IsFounded (proof_of id rule scenarios b)
unfolding text_eq
founded id rule scenarios b (inl wire) (inl (direct, none_named)) sourced watched =
    inl (wire, direct, none_named)
founded id rule scenarios b (inl wire) (inr other) sourced watched =
    let against : not
          (text_eq wire_sufficient wire_sufficient && not (text_eq corroborated observed))
        ≡ true =
      subst (λ q. not (text_eq wire_sufficient wire_sufficient && not (text_eq q observed)) ≡ true)
        other
        (subst (λ p. not (text_eq p wire_sufficient && not (text_eq b.basis observed)) ≡ true) wire
          watched) in
    cc against
founded id rule scenarios b (inr needs) (inl (direct, none_named)) sourced watched =
    let against : not (text_eq requires_source requires_source && is_nil {A = Text} []) ≡ true =
      subst (λ q. not (text_eq requires_source requires_source && is_nil q) ≡ true) none_named
        (subst (λ p. not (text_eq p requires_source && is_nil b.source_names) ≡ true) needs
          sourced) in
    cc against
founded id rule scenarios b (inr needs) (inr other) sourced watched = inr (
  needs,
  other,
  eq-false_of_not (is_nil b.source_names)
      (subst (λ p. not (text_eq p requires_source && is_nil b.source_names) ≡ true) needs sourced),
)

pub check_rule-IsFounded :
    (id : Text) (rule : ParsedRule) (sources : List (Text × Text)) (shapes scenarios : List Text)
    (b : Basis)
    → IsRule shapes rule
    → IsBasis sources b
    → check_rule id rule b ≡ ok tt
    → IsFounded (proof_of id rule scenarios b)
unfolding check_rule
check_rule-IsFounded id rule sources shapes scenarios b r w h =
    let (d, sourced, rest) =
      >>=-eq-ok
        (guard (not (text_eq rule.policy requires_source && is_nil b.source_names))
          (needs_source id))
        _ h in
    let has_source =
      guard-eq-ok (not (text_eq rule.policy requires_source && is_nil b.source_names))
        (needs_source id) sourced in
    let is_observed =
      guard-eq-ok (not (text_eq rule.policy wire_sufficient && not (text_eq b.basis observed)))
        (needs_observed id) rest in
    founded id rule scenarios b r.policy w.kind has_source is_observed
