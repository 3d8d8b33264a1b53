-- ===== src/Profile/Sourced.antt =====
-- report/report/profile.go: the sources and the features of a list of proofs that grows.
use rules_stests.Base.{
  false, ◌||◌, List, [], ◌∷◌, ◌++◌, map, ◌≡◌, refl, ap, ◌∙◌, inl, inr, Text, text_eq, text_eq_iff,
  text_eq_self, if◌then◌else◌, mem, Distinct, lookup, some, All, Bool-cases, arith,
}
use rules_stests.Receipt.Types.{ProofPlanProof}
use rules_stests.Receipt.Coverage.{assign, text_of}
use rules_stests.Profile.Clauses.{put_sources}

abbrev pub features_of : List ProofPlanProof → List Text
features_of proofs = map (λ p. p.feature_id) proofs

-- The plan has the link of every source that the proof names.
abbrev pub IsSourced : (sources found : List (Text × Text)) → ProofPlanProof → Type 0
IsSourced sources found proof = All (λ n. lookup n found ≡ some (text_of n sources)) proof.sources

lookup-assign {ℓ} :
    {V : Type ℓ} (n k : Text) (v : V) (m : List (Text × V))
    → lookup n (assign k v m) ≡ (if text_eq k n then some v else lookup n m)
unfolding lookup assign
lookup-assign n k v [] = refl
lookup-assign n k v ((j, w) ∷ m) =
    ground (arith, lookup-assign n k v m, text_eq_iff j k, text_eq_iff j n, text_eq_iff k n)

assign-same :
    (sources found : List (Text × Text)) (n k : Text)
    → lookup n found ≡ some (text_of n sources)
    → lookup n (assign k (text_of k sources) found) ≡ some (text_of n sources)
assign-same sources found n k h = elim (Bool-cases (text_eq k n)) [
  | inl here ↦
      lookup-assign n k (text_of k sources) found
      ∙ rw here (ap (λ t. some (text_of t sources)) ((text_eq_iff k n).0 here))
  | inr other ↦ lookup-assign n k (text_of k sources) found ∙ rw other h
]

pub put_sources-same :
    (sources : List (Text × Text)) (names : List Text) (found : List (Text × Text)) (n : Text)
    → lookup n found ≡ some (text_of n sources)
    → lookup n (put_sources sources names found) ≡ some (text_of n sources)
unfolding put_sources
put_sources-same sources [] found n h = h
put_sources-same sources (k ∷ names) found n h =
    put_sources-same sources names (assign k (text_of k sources) found) n
      (assign-same sources found n k h)

pub put_sources-all :
    (sources : List (Text × Text)) (names : List Text) (found : List (Text × Text))
    → All (λ n. lookup n (put_sources sources names found) ≡ some (text_of n sources)) names
unfolding put_sources
put_sources-all sources [] found = tt
put_sources-all sources (k ∷ names) found = (
  put_sources-same sources names (assign k (text_of k sources) found) k
      (lookup-assign k k (text_of k sources) found ∙ rw (text_eq_self k) refl),
  put_sources-all sources names (assign k (text_of k sources) found),
)

pub mem-features_append :
    (k : Text) (ps : List ProofPlanProof) (p : ProofPlanProof)
    → mem k (features_of (ps ++ (p ∷ []))) ≡ (mem k (features_of ps) || text_eq p.feature_id k)
unfolding mem
mem-features_append k [] p = ground arith
mem-features_append k (q ∷ ps) p = ground (arith, mem-features_append k ps p)

pub append-Distinct :
    (ps : List ProofPlanProof) (p : ProofPlanProof)
    → Distinct (features_of ps)
    → mem p.feature_id (features_of ps) ≡ false
    → Distinct (features_of (ps ++ (p ∷ [])))
unfolding mem
append-Distinct [] p d h = (refl, tt)
append-Distinct (q ∷ ps) p d h = (
  mem-features_append q.feature_id ps p
      ∙ ground (
        arith,
        d.0,
        text_eq_iff p.feature_id q.feature_id,
        text_eq_iff q.feature_id p.feature_id,
      ),
  append-Distinct ps p d.1 (ground arith),
)
