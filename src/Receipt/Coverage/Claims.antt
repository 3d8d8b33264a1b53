-- ===== src/Receipt/Coverage/Claims.antt =====
-- What the feature claims of report/report/receipt.go rest on.
use rules_stests.Base.{
  ◌+◌, ◌≤◌, Bool, true, false, not, ◌&&◌, ◌||◌, ◌≡◌, ◌≢◌, ◌⊎◌, refl, sym, ◌∙◌, inl, inr, List, [],
  ◌∷◌, ◌++◌, some, ◌==◌, if◌then◌else◌, Bool-cases, Text, All, length, is_nil, text_eq, text_eq_iff,
  mem, add, mem-add, lookup, keys, sort_texts, arith,
}
use rules_stests.Receipt.Types.{ValidationReceipt, ProofPlanProof, PlanArtifact}
use rules_stests.Receipt.Validate.{verified}
use rules_stests.Receipt.Coverage.{
  FeatureClaim, entries_of, assign, mark, marked, artifact_of, claim_of, keep, discard,
  claims_of_proof, claims_of_proofs, coverages_for, coverages_from_plans_for_profiles, profiles_of,
  partition_exercised_profiles,
}

-- Some receipt of the profile and scenario has the outcome.
abbrev pub has_outcome : Text → List ValidationReceipt → Text → Text → Bool
has_outcome outcome [] profile scenario = false
has_outcome outcome (r ∷ rs) profile scenario =
    (text_eq r.outcome outcome && text_eq r.profile profile && text_eq r.scenario scenario)
    || has_outcome outcome rs profile scenario

-- What a claim says of its profile is backed by verified receipts, and it says something.
pub record IsSupported (receipts : List ValidationReceipt) (profile : Text) (declared : List Text)
    (c : FeatureClaim) : Type 0 where
  pub each_verified : All (λ s. has_outcome verified receipts profile s ≡ true) c.scenarios
  pub whole_verified :
      c.all_scenarios ≡ true → All (λ s. has_outcome verified receipts profile s ≡ true) declared
  pub says_something : (c.all_scenarios ≡ true) ⊎ (c.scenarios ≢ [])

lookup-assign :
    (k j : Text) (v : List Text) (m : List (Text × List Text))
    → lookup k (assign j v m) ≡ (if text_eq j k then some v else lookup k m)
unfolding lookup assign
lookup-assign k j v [] = refl
lookup-assign k j v ((i, w) ∷ m) =
    ground (arith, text_eq_iff i j, text_eq_iff i k, text_eq_iff j k, lookup-assign k j v m)

mem_entries-mark :
    (s p q t : Text) (m : List (Text × List Text))
    → mem s (entries_of p (mark q t m)) ≡ ((text_eq q p && text_eq t s) || mem s (entries_of p m))
unfolding mark entries_of
mem_entries-mark s p q t m = ground (
  arith,
  lookup-assign p q (add t (entries_of q m)) m,
  mem-add s t (entries_of q m),
  text_eq_iff q p,
)

mem_entries-marked :
    (o p s : Text) (rs : List ValidationReceipt) (m : List (Text × List Text))
    → mem s (entries_of p (marked o rs m)) ≡ (has_outcome o rs p s || mem s (entries_of p m))
unfolding marked
mem_entries-marked o p s [] m = refl
mem_entries-marked o p s (r ∷ rs) m = ground (
  arith,
  mem_entries-marked o p s rs m,
  mem_entries-marked o p s rs (mark r.profile r.scenario m),
  mem_entries-mark s p r.profile r.scenario m,
)

mem-verified :
    (p s : Text) (rs : List ValidationReceipt)
    → mem s (entries_of p (marked verified rs [])) ≡ has_outcome verified rs p s
unfolding entries_of lookup mem
mem-verified p s rs = ground (arith, mem_entries-marked verified p s rs [])

keep-All : (set ss : List Text) → All (λ s. mem s set ≡ true) (keep set ss)
unfolding keep
keep-All set [] = tt
keep-All set (s ∷ ss) = elim (Bool-cases (mem s set)) [
  | inl on ↦ rw (on, keep) (on, keep-All set ss)
  | inr off ↦ rw (off, keep) (keep-All set ss)
]

length-keep-le : (set ss : List Text) → length (keep set ss) ≤ length ss
unfolding keep
length-keep-le set [] = omega arith
length-keep-le set (s ∷ ss) = ground (arith, length-keep-le set ss)

-- Nothing is left out only when the set holds every element.
keep_whole :
    (set ss : List Text) → length (keep set ss) ≡ length ss → All (λ s. mem s set ≡ true) ss
unfolding keep
keep_whole set [] h = tt
keep_whole set (s ∷ ss) h = elim (Bool-cases (mem s set)) [
  | inl on ↦ (on, keep_whole set ss (ground (arith, on)))
  | inr off ↦ absurd (ground (arith, off, length-keep-le set ss))
]

pub All-imp {ℓ κ ι} :
    {A : Type ℓ} {P : A → Type κ} {Q : A → Type ι} (xs : List A)
    → ((x : A) → P x → Q x)
    → All P xs
    → All Q xs
All-imp [] f a = tt
All-imp (x ∷ xs) f a = (f x a.0, All-imp xs f a.1)

pub All-append {ℓ κ} :
    {A : Type ℓ} (P : A → Type κ) (xs ys : List A) → All P xs → All P ys → All P (xs ++ ys)
All-append P [] ys a b = b
All-append P (x ∷ xs) ys a b = (a.0, All-append P xs ys a.1 b)

module _ (receipts : List ValidationReceipt) (profile : Text) (declared : List Text) where
  abbrev held : List Text
  held = entries_of profile (marked verified receipts [])

  All-verified :
      (ss : List Text)
      → All (λ s. mem s held ≡ true) ss
      → All (λ s. has_outcome verified receipts profile s ≡ true) ss
  All-verified ss = All-imp ss λ s m. sym (mem-verified profile s receipts) ∙ m

  claim_of-IsSupported :
      (a : PlanArtifact) (p : ProofPlanProof) (whole : Bool) (ss : List Text)
      → (whole ≡ true → All (λ s. mem s held ≡ true) declared)
      → All (λ s. mem s held ≡ true) ss
      → is_nil ss ≡ false
      → IsSupported receipts profile declared (claim_of a p whole (if whole then [] else ss))
  unfolding claim_of
  claim_of-IsSupported a p true ss every each some_left = record {
    each_verified = tt;
    whole_verified = λ _. All-verified declared (every refl);
    says_something = inl refl;
  }
  claim_of-IsSupported a p false ss every each some_left = record {
    each_verified = All-verified ss each;
    whole_verified = λ h. cc;
    says_something = inr (λ e. cc);
  }

  -- With no scenarios of its own a proof ranges over the declared ones.
  whole_declared :
      (own : List Text)
      → (is_nil own && length (keep held (if is_nil own then declared else own)) == length declared)
        ≡ true
      → All (λ s. mem s held ≡ true) declared
  whole_declared [] h = keep_whole held declared (ground (arith, h))
  whole_declared (s ∷ ss) h = cc

  claims_of_proof-IsSupported :
      (a : PlanArtifact) (p : ProofPlanProof)
      → All (IsSupported receipts profile declared) (claims_of_proof a declared held p)
  unfolding claims_of_proof
  claims_of_proof-IsSupported a p =
      let scope : List Text = if is_nil p.scenarios then declared else p.scenarios in
      let whole : Bool = is_nil p.scenarios && length (keep held scope) == length declared in
      elim (Bool-cases (is_nil (keep held scope))) [
        | inl none_left ↦ rw none_left tt
        | inr some_left ↦ rw some_left (
          claim_of-IsSupported a p whole (keep held scope) (whole_declared p.scenarios)
              (keep-All held scope) some_left,
          tt,
        )
      ]

  claims_of_proofs-IsSupported :
      (a : PlanArtifact) (ps : List ProofPlanProof)
      → All (IsSupported receipts profile declared) (claims_of_proofs a declared held ps)
  unfolding claims_of_proofs
  claims_of_proofs-IsSupported a [] = tt
  claims_of_proofs-IsSupported a (p ∷ ps) =
      All-append _ (claims_of_proof a declared held p) (claims_of_proofs a declared held ps)
        (claims_of_proof-IsSupported a p) (claims_of_proofs-IsSupported a ps)

coverages_for-IsSupported :
    (plans : List (Text × PlanArtifact)) (receipts : List ValidationReceipt)
    (ps : List (Text × List Text)) (profiles : List Text)
    → All
        (λ c. All (IsSupported receipts c.profile (entries_of c.profile ps)) c.claims)
        (coverages_for plans (marked verified receipts []) ps profiles)
unfolding coverages_for
coverages_for-IsSupported plans receipts ps [] = tt
coverages_for-IsSupported plans receipts ps (p ∷ more) =
    let a = artifact_of p plans in
    (
      claims_of_proofs-IsSupported receipts p (entries_of p ps) a a.plan.proofs,
      coverages_for-IsSupported plans receipts ps more,
    )

-- Every claim of CoveragesFromPlansForProfiles is backed by receipts: each scenario that it names
-- has a verified receipt of that profile, a claim on all scenarios has one for every declared
-- scenario of the profile, and no claim is empty.
pub coverages_from_plans_for_profiles-IsSupported :
    (plans : List (Text × PlanArtifact)) (receipts : List ValidationReceipt)
    (profile_scenarios : List (Text × List Text))
    → All
        (λ c.
          All (IsSupported receipts c.profile (entries_of c.profile profile_scenarios)) c.claims)
        (coverages_from_plans_for_profiles plans receipts profile_scenarios)
unfolding coverages_from_plans_for_profiles
coverages_from_plans_for_profiles-IsSupported plans receipts profile_scenarios =
    coverages_for-IsSupported plans receipts profile_scenarios (sort_texts (keys plans))

-- Some receipt names the profile.
abbrev pub has_receipt : List ValidationReceipt → Text → Bool
has_receipt [] profile = false
has_receipt (r ∷ rs) profile = text_eq r.profile profile || has_receipt rs profile

mem-profiles_of :
    (k : Text) (rs : List ValidationReceipt) (set : List Text)
    → mem k (profiles_of rs set) ≡ (has_receipt rs k || mem k set)
mem-profiles_of k [] set = refl
mem-profiles_of k (r ∷ rs) set =
    ground (arith, mem-profiles_of k rs (add r.profile set), mem-add k r.profile set)

mem-keep : (k : Text) (set ss : List Text) → mem k (keep set ss) ≡ (mem k ss && mem k set)
unfolding keep mem
mem-keep k set [] = refl
mem-keep k set (s ∷ ss) = ground (arith, text_eq_iff s k, mem-keep k set ss)

mem-discard :
    (k : Text) (set ss : List Text) → mem k (discard set ss) ≡ (mem k ss && not (mem k set))
unfolding discard mem
mem-discard k set [] = refl
mem-discard k set (s ∷ ss) = ground (arith, text_eq_iff s k, mem-discard k set ss)

length-keep-discard :
    (set ss : List Text) → length (keep set ss) + length (discard set ss) ≡ length ss
unfolding keep discard
length-keep-discard set [] = refl
length-keep-discard set (s ∷ ss) = ground (arith, length-keep-discard set ss)

-- PartitionExercisedProfiles loses and repeats no profile: a declared profile is exercised exactly
-- when some receipt names it, unexercised exactly when none does, and the lengths add up.
pub partition_exercised_profiles_lem :
    (profiles : List Text) (receipts : List ValidationReceipt) (k : Text)
    → let (exercised, unexercised) = partition_exercised_profiles profiles receipts in
      (mem k exercised ≡ (mem k profiles && has_receipt receipts k))
      × (mem k unexercised ≡ (mem k profiles && not (has_receipt receipts k)))
      × (length exercised + length unexercised ≡ length profiles)
unfolding partition_exercised_profiles mem
partition_exercised_profiles_lem profiles receipts k =
    let set = profiles_of receipts [] in
    let named = mem-profiles_of k receipts [] in
    (
      ground (arith, mem-keep k set profiles, named),
      ground (arith, mem-discard k set profiles, named),
      length-keep-discard set profiles,
    )
