-- ===== src/Profile/Gathered.antt =====
-- report/report/profile.go: what holds while the clauses of a profile are read.
use rules_stests.Base.{
  true, false, not, ◌&&◌, ◌||◌, ◌==◌, List, [], ◌∷◌, ◌++◌, ◌≡◌, sym, inl, inr, Text, codes, text_eq,
  ok, guard, guard-eq-ok, >>=-eq-ok, mem, Subset, Distinct, All, if-cases, eq-false_of_not, arith,
  ok-injective,
}
use mathlib.Core.Path.{subst}
use rules_stests.Receipt.Types.{ProofPlanProof}
use rules_stests.Receipt.Coverage.Claims.{All-imp, All-append}
use rules_stests.Scheme.Expr.{Sexpr, Sexprs, nil, cons, head, atom_value}
use rules_stests.Profile.Types.{
  ProfileFields, duplicate_claim, unknown_binding, bad_implementation, duplicate_clause,
}
use rules_stests.Profile.Lookup.{item, items_from, size}
use rules_stests.Profile.Claims.{parse_profile_claim}
use rules_stests.Profile.Claimed.{IsProof}
use rules_stests.Profile.Clauses.{
  CompilerMaps, Progress, put_sources, add_proof, add_proofs, implementation_values,
  implementation_clause, claim_clause, signal_values, field_clause, field_clauses, signals_clause,
  apply_clause, note_singleton, singleton_clauses, parse_clauses,
}
use rules_stests.Profile.Sourced.{
  features_of, IsSourced, put_sources-same, put_sources-all, mem-features_append, append-Distinct,
}

-- The proofs so far are proofs of features that are all noted and different, with their sources, and
-- the implementations are defined.
pub record IsProgress (registered shapes : List Text) (known : CompilerMaps) (p : Progress)
    : Type 0 where
  pub proofs :
      All (IsProof registered shapes known.sources known.rules known.scenarios) p.plan.proofs
  pub distinct : Distinct (features_of p.plan.proofs)
  pub seen : Subset (features_of p.plan.proofs) p.seen_claims
  pub sourced : All (IsSourced known.sources p.plan.sources) p.plan.proofs
  pub implementations : All (λ b. mem b known.bindings ≡ true) p.plan.implementations
  pub version : p.plan.schema_version ≡ 1

module _ (registered shapes : List Text) (known : CompilerMaps)
    (claims_proven : (clause : Sexpr) (proofs : List ProofPlanProof)
      → parse_profile_claim clause known.feature_by_binding known.sources known.rules
          known.scenarios
        ≡ ok proofs
      → All (IsProof registered shapes known.sources known.rules known.scenarios) proofs) where
  abbrev Holds : Progress → Type 0
  Holds p = IsProgress registered shapes known p

  add_proof-Holds :
      (proof : ProofPlanProof) (p : Progress) {q : Progress}
      → IsProof registered shapes known.sources known.rules known.scenarios proof
      → Holds p
      → add_proof known.sources proof p ≡ ok q
      → Holds q
  unfolding add_proof
  add_proof-Holds proof p proven i h =
      let (d, fresh, same) =
        >>=-eq-ok
          (guard (not (mem proof.feature_id p.seen_claims)) (duplicate_claim proof.feature_id)) _
          h in
      let unseen = eq-false_of_not (mem proof.feature_id p.seen_claims) (
        guard-eq-ok (not (mem proof.feature_id p.seen_claims)) (duplicate_claim proof.feature_id)
          fresh) in
      let unproven : mem proof.feature_id (features_of p.plan.proofs) ≡ false =
        ground (arith, unseen, i.seen proof.feature_id) in
      let more = put_sources known.sources proof.sources p.plan.sources in
      subst Holds (ok-injective same) (record {
        proofs =
            All-append (IsProof registered shapes known.sources known.rules known.scenarios)
              p.plan.proofs (proof ∷ []) i.proofs (proven, tt);
        distinct = append-Distinct p.plan.proofs proof i.distinct unproven;
        seen = λ k there. noted k there;
        sourced =
            All-append (IsSourced known.sources more) p.plan.proofs (proof ∷ [])
              (All-imp p.plan.proofs
                (λ q s.
                  All-imp q.sources
                    (λ n e. put_sources-same known.sources proof.sources p.plan.sources n e) s)
                i.sourced)
              (put_sources-all known.sources proof.sources p.plan.sources, tt);
        implementations = i.implementations;
        version = i.version;
      })
    where
      noted :
          (k : Text)
          → mem k (features_of (p.plan.proofs ++ (proof ∷ []))) ≡ true
          → mem k (proof.feature_id ∷ p.seen_claims) ≡ true
      noted k there =
          unfold mem in ground (arith, mem-features_append k p.plan.proofs proof, i.seen k)

  add_proofs-Holds :
      (proofs : List ProofPlanProof) (p : Progress) {q : Progress}
      → All (IsProof registered shapes known.sources known.rules known.scenarios) proofs
      → Holds p
      → add_proofs known.sources proofs p ≡ ok q
      → Holds q
  unfolding add_proofs
  add_proofs-Holds [] p a i h = subst Holds (ok-injective h) i
  add_proofs-Holds (proof ∷ proofs) p a i h =
      let (next, e, h') = >>=-eq-ok (add_proof known.sources proof p) _ h in
      add_proofs-Holds proofs next a.1 (add_proof-Holds proof p a.0 i e) h'

  implementation_values-known :
      (xs : Sexprs) {values : List Text}
      → implementation_values known.bindings xs ≡ ok values
      → All (λ b. mem b known.bindings ≡ true) values
  unfolding implementation_values
  implementation_values-known nil h = rw (sym (ok-injective h)) tt
  implementation_values-known (cons x xs) h =
      let (d, known_one, h1) =
        >>=-eq-ok (guard (mem (atom_value x) known.bindings) (unknown_binding (atom_value x))) _
          h in
      let (values, e, same) = >>=-eq-ok (implementation_values known.bindings xs) _ h1 in
      subst (All (λ b. mem b known.bindings ≡ true)) (ok-injective same) (
        guard-eq-ok (mem (atom_value x) known.bindings) (unknown_binding (atom_value x)) known_one,
        implementation_values-known xs e,
      )

  -- The clauses of the profile itself leave the proofs alone.
  kept :
      (p : Progress) (fields : ProfileFields) (signals seen_singleton : List Text)
      → Holds p
      → Holds (record p {
        plan = record p.plan { fields = fields; signals = signals };
        seen_singleton = seen_singleton;
      })
  kept p fields signals seen_singleton i = record {
    proofs = i.proofs;
    distinct = i.distinct;
    seen = i.seen;
    sourced = i.sourced;
    implementations = i.implementations;
    version = i.version;
  }

  apply_clause-Holds :
      (name : Text) (clause : Sexpr) (p : Progress) {q : Progress}
      → Holds p
      → apply_clause known name clause p ≡ ok q
      → Holds q
  unfolding apply_clause signals_clause implementation_clause claim_clause
  apply_clause-Holds name clause p i h = elim (if-cases (mem name field_clauses) _ _ h) [
    | inl (here, h1) ↦
        let (fields, e, same) = >>=-eq-ok (field_clause name clause p.plan.fields) _ h1 in
        subst Holds (ok-injective same) (kept p fields p.plan.signals p.seen_singleton i)
    | inr (other, h1) ↦ elim (if-cases (text_eq name (codes "signals")) _ _ h1) [
      | inl (here, same) ↦ subst Holds (ok-injective same) (
          kept p p.plan.fields (p.plan.signals ++ signal_values (items_from 1 clause))
            p.seen_singleton i)
      | inr (other', h2) ↦ elim (if-cases (text_eq name (codes "implementation")) _ _ h2) [
        | inl (here, h3) ↦
            let (plan, e, same) = >>=-eq-ok (implementation_clause known clause p.plan) _ h3 in
            let (d, composed, e1) =
              >>=-eq-ok
                (guard (size clause == 2 && text_eq (head (item 1 clause)) (codes "compose"))
                  bad_implementation)
                _ e in
            let (values, e2, same') =
              >>=-eq-ok (implementation_values known.bindings (items_from 1 (item 1 clause))) _
                e1 in
            subst Holds (ok-injective same) (
              subst (λ z. Holds (record p { plan = z })) (ok-injective same')
                (record {
                  proofs = i.proofs;
                  distinct = i.distinct;
                  seen = i.seen;
                  sourced = i.sourced;
                  implementations =
                      All-append (λ b. mem b known.bindings ≡ true) p.plan.implementations values
                        i.implementations
                        (implementation_values-known (items_from 1 (item 1 clause)) e2);
                  version = i.version;
                }))
        | inr (other'', h3) ↦
            elim (if-cases (text_eq name (codes "all") || text_eq name (codes "scenario")) _ _ h3) [
              | inl (here, h4) ↦
                  let (proofs, e, added) =
                    >>=-eq-ok
                      (parse_profile_claim clause known.feature_by_binding known.sources known.rules
                        known.scenarios)
                      _ h4 in
                  add_proofs-Holds proofs p (claims_proven clause proofs e) i added
              | inr (none_of, same) ↦ subst Holds (ok-injective same) i
            ]
      ]
    ]
  ]

  note_singleton-Holds :
      (name : Text) (p : Progress) {q : Progress} → Holds p → note_singleton name p ≡ ok q → Holds q
  unfolding note_singleton
  note_singleton-Holds name p i h = elim (if-cases (mem name singleton_clauses) _ _ h) [
    | inl (here, h1) ↦
        let (d, fresh, same) =
          >>=-eq-ok (guard (not (mem name p.seen_singleton)) (duplicate_clause name)) _ h1 in
        subst Holds (ok-injective same)
          (kept p p.plan.fields p.plan.signals (name ∷ p.seen_singleton) i)
    | inr (other, same) ↦ subst Holds (ok-injective same) i
  ]

  pub parse_clauses-Holds :
      (clauses : Sexprs) (p : Progress) {q : Progress}
      → Holds p
      → parse_clauses known clauses p ≡ ok q
      → Holds q
  unfolding parse_clauses
  parse_clauses-Holds nil p i h = subst Holds (ok-injective h) i
  parse_clauses-Holds (cons clause clauses) p i h =
      let (noted, e, h1) = >>=-eq-ok (note_singleton (head clause) p) _ h in
      let (applied, e', h2) = >>=-eq-ok (apply_clause known (head clause) clause noted) _ h1 in
      parse_clauses-Holds clauses applied
        (apply_clause-Holds (head clause) clause noted (note_singleton-Holds (head clause) p i e)
          e')
        h2
