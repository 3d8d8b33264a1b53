-- ===== src/Profile/Ordered.antt =====
-- report/report/profile.go: the registry of CompileTelemetryProfile, and the order of the proofs.
use rules_stests.Base.{
  Bool, true, false, not, ◌||◌, List, [], ◌∷◌, map, ◌≡◌, refl, sym, ap, ◌∙◌, inl, inr, Text,
  text_eq, text_lt, is_nil, if◌then◌else◌, ok, guard, >>=-eq-ok, mem, mem-cons_self, Subset,
  insert_text, sort_texts, lookup, Option, none, some, All, Bool-cases, arith, ok-injective,
}
use mathlib.Core.Path.{subst}
use rules_stests.Receipt.Types.{ProofPlanProof}
use rules_stests.Receipt.Coverage.{text_of}
use rules_stests.Profile.Types.{RegistryFeature, bad_feature}
use rules_stests.Profile.Compile.{add_features, insert_proof, sort_proofs}
use rules_stests.Profile.Sourced.{features_of}

abbrev pub ids_of : List RegistryFeature → List Text
ids_of features = map (λ f. f.id) features

text_of-cons :
    (b j v : Text) (m : List (Text × Text))
    → text_of b ((j, v) ∷ m) ≡ (if text_eq j b then v else text_of b m)
unfolding text_of lookup
text_of-cons b j v m = go (text_eq j b) (lookup b m)
  where
    go :
        (c : Bool) (o : Option Text)
        → elim (if c then some v else o) [ none ↦ [] | some t ↦ t ]
          ≡ (if c then v else elim o [ none ↦ [] | some t ↦ t ])
    go true o = refl
    go false o = refl

pub nothing-known :
    (registered : List Text) (b : Text)
    → is_nil (text_of b []) ≡ false
    → mem (text_of b []) registered ≡ true
unfolding text_of lookup
nothing-known registered b h = cc h

pub add_features-known :
    (registered : List Text) (features : List RegistryFeature) (known_ids : List Text)
    (m : List (Text × Text)) {found : List (Text × Text)}
    → ((b : Text) → is_nil (text_of b m) ≡ false → mem (text_of b m) registered ≡ true)
    → All (λ f. mem f.id registered ≡ true) features
    → add_features features known_ids m ≡ ok found
    → (b : Text) → is_nil (text_of b found) ≡ false
    → mem (text_of b found) registered ≡ true
unfolding add_features
add_features-known registered [] known_ids m k a h =
    subst (λ z. (b : Text) → is_nil (text_of b z) ≡ false → mem (text_of b z) registered ≡ true)
      (ok-injective h) k
add_features-known registered (f ∷ features) known_ids m k a h =
    let (d, e, h') =
      >>=-eq-ok
        (guard
          (not (
            is_nil f.id
            || is_nil f.binding
            || mem f.id known_ids
            || not (is_nil (text_of f.binding m))))
          bad_feature)
        _ h in
    add_features-known registered features (f.id ∷ known_ids) ((f.binding, f.id) ∷ m) here a.1 h'
  where
    here :
        (b : Text)
        → is_nil (text_of b ((f.binding, f.id) ∷ m)) ≡ false
        → mem (text_of b ((f.binding, f.id) ∷ m)) registered ≡ true
    here b h = elim (Bool-cases (text_eq f.binding b)) [
      | inl same ↦
          let e : text_of b ((f.binding, f.id) ∷ m) ≡ f.id =
            text_of-cons b f.binding f.id m ∙ rw same refl in
          subst (λ z. mem z registered ≡ true) (sym e) a.0
      | inr other ↦
          let e : text_of b ((f.binding, f.id) ∷ m) ≡ text_of b m =
            text_of-cons b f.binding f.id m ∙ rw other refl in
          subst (λ z. mem z registered ≡ true) (sym e) (k b (sym (ap is_nil e) ∙ h))
    ]

pub ids-known :
    (registered : List Text) (features : List RegistryFeature)
    → Subset (ids_of features) registered
    → All (λ f. mem f.id registered ≡ true) features
ids-known registered [] s = tt
ids-known registered (f ∷ features) s = (
  s f.id (mem-cons_self f.id (ids_of features)),
  ids-known registered features (λ k h. s k (unfold mem in ground (arith, h))),
)

All-insert_proof {κ} :
    (P : ProofPlanProof → Type κ) (p : ProofPlanProof) (ps : List ProofPlanProof)
    → P p
    → All P ps
    → All P (insert_proof p ps)
unfolding insert_proof
All-insert_proof P p [] h a = (h, tt)
All-insert_proof P p (q ∷ ps) h a = elim (Bool-cases (text_lt q.feature_id p.feature_id)) [
  | inl lt ↦ rw lt (a.0, All-insert_proof P p ps h a.1)
  | inr ge ↦ rw ge (h, a)
]

pub All-sort_proofs {κ} :
    (P : ProofPlanProof → Type κ) (ps : List ProofPlanProof) → All P ps → All P (sort_proofs ps)
unfolding sort_proofs
All-sort_proofs P [] a = tt
All-sort_proofs P (p ∷ ps) a = All-insert_proof P p (sort_proofs ps) a.0 (All-sort_proofs P ps a.1)

features_of-insert_proof :
    (p : ProofPlanProof) (ps : List ProofPlanProof)
    → features_of (insert_proof p ps) ≡ insert_text p.feature_id (features_of ps)
unfolding insert_proof insert_text
features_of-insert_proof p [] = refl
features_of-insert_proof p (q ∷ ps) = elim (Bool-cases (text_lt q.feature_id p.feature_id)) [
  | inl lt ↦ rw lt (ap (λ t. q.feature_id ∷ t) (features_of-insert_proof p ps))
  | inr ge ↦ rw ge refl
]

pub features_of-sort_proofs :
    (ps : List ProofPlanProof) → features_of (sort_proofs ps) ≡ sort_texts (features_of ps)
unfolding sort_proofs sort_texts
features_of-sort_proofs [] = refl
features_of-sort_proofs (p ∷ ps) =
    features_of-insert_proof p (sort_proofs ps)
    ∙ ap (insert_text p.feature_id) (features_of-sort_proofs ps)

pub is_nil-sort_proofs : (ps : List ProofPlanProof) → is_nil (sort_proofs ps) ≡ is_nil ps
unfolding sort_proofs insert_proof
is_nil-sort_proofs [] = refl
is_nil-sort_proofs (p ∷ ps) = inserted (sort_proofs ps)
  where
    inserted : (qs : List ProofPlanProof) → is_nil (insert_proof p qs) ≡ false
    inserted [] = refl
    inserted (q ∷ qs) = ground arith
