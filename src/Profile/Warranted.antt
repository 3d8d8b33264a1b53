-- ===== src/Profile/Warranted.antt =====
-- report/report/receipt.go: the evidence of a claim on a compiled proof.
use rules_stests.Base.{
  ℕ, ◌+◌, Bool, true, false, ◌&&◌, length, ◌==◌, ◌≡◌, refl, sym, ap, ◌∙◌, ◌⊎◌, inl, inr, List, [],
  ◌∷◌, Text, is_nil, mem, lookup, Option, none, some, ok, All, if◌then◌else◌,
}
use mathlib.Core.Path.{subst}
use rules_stests.Receipt.Types.{Evidence, ProofPlanProof, NormalizedProfilePlan, PlanArtifact}
use rules_stests.Receipt.Coverage.{
  FeatureClaim, text_of, source_evidence, claim_of, claims_of_proof, claims_of_proofs, keep,
}
use rules_stests.Receipt.Coverage.Claims.{All-append}
use rules_stests.Report.Evidence.{validate_immutable_source}
use rules_stests.Profile.Claims.{observed, corroborated}
use rules_stests.Profile.Rules.{Rules}
use rules_stests.Profile.Founded.{IsAnchor, IsFounded}
use rules_stests.Profile.Claimed.{IsProof}
use rules_stests.Profile.Sourced.{IsSourced}

-- Evidence that links to an immutable source.
abbrev pub IsImmutable : Evidence → Type 0
IsImmutable e = validate_immutable_source e.href ≡ ok tt

-- A claim on a registered feature and a known shape; behind the plan's source, its evidence is immutable
-- sources: some when it is corroborated, none when it is observed.
pub record IsWarranted (registered shapes : List Text) (source : Evidence) (claim : FeatureClaim)
    : Type 0 where
  pub registered_feature : mem claim.feature_id registered ≡ true
  pub shape : mem claim.assertion shapes ≡ true
  pub links : List Evidence
  pub evidence_is : claim.evidence ≡ source ∷ links
  pub immutable : All IsImmutable links
  pub founded_on :
      (claim.basis ≡ observed) × (links ≡ [])
      ⊎ (claim.basis ≡ corroborated) × (is_nil links ≡ false)

text_of-found :
    (n : Text) (m : List (Text × Text)) {t : Text} → lookup n m ≡ some t → text_of n m ≡ t
unfolding text_of
text_of-found n m {t = t} e = go (lookup n m) e
  where
    go : (o : Option Text) → o ≡ some t → elim o [ none ↦ [] | some u ↦ u ] ≡ t
    go none found = cc found
    go (some u) found = cc found

All-unless_nil {ℓ κ} :
    {A : Type ℓ} (P : A → Type κ) (b : Bool) (xs : List A) → All P xs → All P (if b then [] else xs)
All-unless_nil P true xs a = tt
All-unless_nil P false xs a = a

source_evidence-IsImmutable :
    (plan : NormalizedProfilePlan) (sources : List (Text × Text)) (index : ℕ) (names : List Text)
    → All (IsAnchor sources) names
    → All (λ n. lookup n plan.sources ≡ some (text_of n sources)) names
    → All IsImmutable (source_evidence plan index names)
unfolding source_evidence
source_evidence-IsImmutable plan sources index [] a s = tt
source_evidence-IsImmutable plan sources index (n ∷ names) a s = (
  subst (λ href. validate_immutable_source href ≡ ok tt) (sym (text_of-found n plan.sources s.0))
      a.0.1,
  source_evidence-IsImmutable plan sources (index + 1) names a.1 s.1,
)

is_nil-source_evidence :
    (plan : NormalizedProfilePlan) (index : ℕ) (names : List Text)
    → is_nil (source_evidence plan index names) ≡ is_nil names
unfolding source_evidence
is_nil-source_evidence plan index [] = refl
is_nil-source_evidence plan index (n ∷ names) = refl

founded_links :
    (plan : NormalizedProfilePlan) (proof : ProofPlanProof)
    → IsFounded proof
    → (proof.basis ≡ observed) × (source_evidence plan 0 proof.sources ≡ [])
      ⊎ (proof.basis ≡ corroborated) × (is_nil (source_evidence plan 0 proof.sources) ≡ false)
unfolding source_evidence
founded_links plan proof (inl (policy, basis, none_named)) =
    inl (basis, ap (source_evidence plan 0) none_named)
founded_links plan proof (inr (policy, basis, named)) =
    inr (basis, is_nil-source_evidence plan 0 proof.sources ∙ named)

module _ (registered shapes : List Text) (sources : List (Text × Text)) (rules : Rules)
    (scenarios : List Text) (a : PlanArtifact) where
  claim_of-IsWarranted :
      (proof : ProofPlanProof) (whole : Bool) (named : List Text)
      → IsProof registered shapes sources rules scenarios proof
      → IsSourced sources a.plan.sources proof
      → IsWarranted registered shapes a.source (claim_of a proof whole named)
  unfolding claim_of
  claim_of-IsWarranted proof whole named p s = record {
    registered_feature = p.registered_feature;
    shape = p.shape;
    links = source_evidence a.plan 0 proof.sources;
    evidence_is = refl;
    immutable = source_evidence-IsImmutable a.plan sources 0 proof.sources p.anchors s;
    founded_on = founded_links a.plan proof p.founded_on;
  }

  claims_of_proof-IsWarranted :
      (declared verified_set : List Text) (proof : ProofPlanProof)
      → IsProof registered shapes sources rules scenarios proof
      → IsSourced sources a.plan.sources proof
      → All (IsWarranted registered shapes a.source) (claims_of_proof a declared verified_set proof)
  unfolding claims_of_proof
  claims_of_proof-IsWarranted declared verified_set proof p s =
      let named =
        keep verified_set (if is_nil proof.scenarios then declared else proof.scenarios) in
      let whole = is_nil proof.scenarios && length named == length declared in
      All-unless_nil (IsWarranted registered shapes a.source) (is_nil named)
        (claim_of a proof whole (if whole then [] else named) ∷ [])
        (claim_of-IsWarranted proof whole (if whole then [] else named) p s, tt)

  pub claims_of_proofs-IsWarranted :
      (declared verified_set : List Text) (proofs : List ProofPlanProof)
      → All (IsProof registered shapes sources rules scenarios) proofs
      → All (IsSourced sources a.plan.sources) proofs
      → All
          (IsWarranted registered shapes a.source)
          (claims_of_proofs a declared verified_set proofs)
  unfolding claims_of_proofs
  claims_of_proofs-IsWarranted declared verified_set [] p s = tt
  claims_of_proofs-IsWarranted declared verified_set (proof ∷ proofs) p s =
      All-append (IsWarranted registered shapes a.source)
        (claims_of_proof a declared verified_set proof)
        (claims_of_proofs a declared verified_set proofs)
        (claims_of_proof-IsWarranted declared verified_set proof p.0 s.0)
        (claims_of_proofs-IsWarranted declared verified_set proofs p.1 s.1)
