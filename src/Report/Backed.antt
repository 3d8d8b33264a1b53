-- ===== src/Report/Backed.antt =====
-- report/report/report.go on top of report/report/receipt.go: what a verification of the report
-- rests on.
use rules_stests.Base.{
  true, false, ◌≡◌, ◌⊎◌, ◌≢◌, sym, ap, inl, inr, List, [], ◌∷◌, Option, none, some, Bool-cases,
  Option-cases, Text, All, is_nil, text_eq, mem, lookup, keys, Distinct, text_eq_self, ok,
  >>=-eq-ok, ok-injective, arith,
}
use rules_stests.Receipt.Types.{ValidationReceipt, PlanArtifact}
use rules_stests.Receipt.Validate.{verified}
use rules_stests.Receipt.Coverage.{FeatureClaim, entries_of, coverages_from_plans_for_profiles}
use rules_stests.Receipt.Coverage.Claims.{
  has_outcome, IsSupported, All-imp, coverages_from_plans_for_profiles-IsSupported,
}
use rules_stests.Report.Types.{Feature, Verification, Manifest, ReportModel}
use rules_stests.Report.Claims.{Known, collect_members, check_members, collect_features}
use rules_stests.Report.Manifests.{
  claim_at, check_verification, check_verifications, check_manifest, check_manifests, with_defaults,
}
use rules_stests.Report.Build.{
  Corpus, known_of, authored, default_of, claimed, verification_of, verification_row,
  verification_table, build_model_for_profiles,
}
use rules_stests.Report.Built.{check_manifests-All, build_model_for_profiles-Built}
use rules_stests.Report.Stored.{
  Entries, Stored, lookup-Entries, assign-Entries, collect_claims-Stored, claim_at-Stored,
}
use rules_stests.Report.Declared.{
  IsInhabited, mem-string_set, check_members-IsInhabited, declared_by,
}

-- The scenarios of a verification are not empty, and each has a verified receipt of the profile.
pub record IsBacked (receipts : List ValidationReceipt) (profile : Text) (v : Verification)
    : Type 0 where
  pub some_scenario : is_nil v.scenarios ≡ false
  pub each_verified : All (λ s. has_outcome verified receipts profile s ≡ true) v.scenarios

abbrev IfVerified : List ValidationReceipt → Text → Verification → Type 0
IfVerified receipts profile v = text_eq v.state verified ≡ true → IsBacked receipts profile v

-- A manifest that verifies nothing by hand.
record IsHonest (m : Manifest) : Type 0 where
  by_default : text_eq m.default_verification verified ≡ false
  by_hand : All (λ (v : Verification). text_eq v.state verified ≡ false) m.verifications

check_verifications-honest :
    (known : Known) (claims : List (Text × List (Text × FeatureClaim))) (profile : Text)
    (seen : List Text) (vs : List Verification)
    → check_verifications known claims profile seen vs ≡ ok tt
    → All (λ (v : Verification). text_eq v.state verified ≡ false) vs
unfolding check_verifications check_verification
check_verifications-honest known claims profile seen [] h = tt
check_verifications-honest known claims profile seen (v ∷ vs) h =
    let (_, one, rest) = >>=-eq-ok (check_verification known claims profile seen v) _ h in
    (ground arith, check_verifications-honest known claims profile (v.feature_id ∷ seen) vs rest)

check_manifest_lem :
    (known : Known) (claims : List (Text × List (Text × FeatureClaim))) (seen : List Text)
    (m : Manifest)
    → check_manifest known claims seen m ≡ ok tt
    → (mem m.profile known.profile_set ≡ true)
      × (text_eq m.default_verification verified ≡ false)
      × (check_verifications known claims m.profile [] m.verifications ≡ ok tt)
unfolding check_manifest
check_manifest_lem known claims seen m h = ground arith

check_manifests-IsHonest :
    (known : Known) (claims : List (Text × List (Text × FeatureClaim))) (ms : List Manifest)
    {done : List Manifest} {all : List Text}
    → check_manifests known claims ms [] ≡ ok (done, all)
    → All (λ m. IsHonest m × (mem m.profile known.profile_set ≡ true)) done
unfolding with_defaults
check_manifests-IsHonest known claims ms h =
    check_manifests-All known claims (λ m. IsHonest m × (mem m.profile known.profile_set ≡ true)) ms
      [] one h
  where
    one :
        (seen : List Text) (m : Manifest)
        → check_manifest known claims seen m ≡ ok tt
        → IsHonest (with_defaults m) × (mem m.profile known.profile_set ≡ true)
    one seen m e =
        let (inside, default, each) = check_manifest_lem known claims seen m e in
        (
          record {
            by_default = default;
            by_hand = check_verifications-honest known claims m.profile [] m.verifications each;
          },
          inside,
        )

-- What is authored is not verified, since neither the default nor any entry is.
authored-unverified :
    (feature : Text) (otherwise : Verification) (vs : List Verification)
    → text_eq otherwise.state verified ≡ false
    → All (λ (v : Verification). text_eq v.state verified ≡ false) vs
    → text_eq (authored feature otherwise vs).state verified ≡ false
unfolding authored
authored-unverified feature otherwise [] d a = d
authored-unverified feature otherwise (v ∷ vs) d a =
    elim (Bool-cases (text_eq v.feature_id feature)) [
      | inl same ↦ rw same a.0
      | inr other ↦ rw other (authored-unverified feature otherwise vs d a.1)
    ]

module _ (receipts : List ValidationReceipt) (ps : List (Text × List Text)) where
  -- A claim that is backed and says something makes a verification that is backed.
  claimed-IsBacked :
      (feature profile : Text) (c : FeatureClaim)
      → IsSupported receipts profile (entries_of profile ps) c
      → IsInhabited profile ps
      → IsBacked receipts profile (claimed feature (entries_of profile ps) c)
  claimed-IsBacked feature profile c s i = elim (Bool-cases c.all_scenarios) [
    | inl whole ↦ record {
      some_scenario = rw whole i;
      each_verified = rw whole (s.whole_verified whole);
    }
    | inr part ↦ record {
      some_scenario = rw part (some_left s.says_something part);
      each_verified = rw part s.each_verified;
    }
  ]
    where
      some_left :
          (c.all_scenarios ≡ true) ⊎ (c.scenarios ≢ [])
          → c.all_scenarios ≡ false
          → is_nil c.scenarios ≡ false
      some_left w part = ground arith

  module _ (claims : List (Text × List (Text × FeatureClaim)))
      (stored : Stored
        (λ profile c. IsSupported receipts profile (entries_of profile ps) c)
        claims) where
    verification_of-IsBacked :
        (feature : Text) (m : Manifest)
        → IsHonest m
        → IsInhabited m.profile ps
        → text_eq (verification_of ps claims feature m).state verified ≡ true
        → IsBacked receipts m.profile (verification_of ps claims feature m)
    unfolding verification_of
    verification_of-IsBacked feature m honest i v =
        elim (Option-cases (claim_at m.profile feature claims)) [
          | inl free ↦
              let other =
                authored-unverified feature (default_of m feature) m.verifications honest.by_default
                  honest.by_hand in
              let hand = rw (free, verification_of) at v in cc
          | inr (c, found) ↦
              rw (found, verification_of)
                (claimed-IsBacked feature m.profile c
                  (claim_at-Stored _ m.profile feature claims found stored) i)
        ]

    verification_row-Entries :
        (feature : Text) (ms : List Manifest) (row : List (Text × Verification))
        → All (λ m. IsHonest m × IsInhabited m.profile ps) ms
        → Entries (IfVerified receipts) row
        → Entries (IfVerified receipts) (verification_row ps claims feature ms row)
    unfolding verification_row
    verification_row-Entries feature [] row a e = e
    verification_row-Entries feature (m ∷ ms) row ((honest, i), a) e =
        verification_row-Entries feature ms _ a (
          assign-Entries (IfVerified receipts) m.profile (verification_of ps claims feature m) row
            (verification_of-IsBacked feature m honest i) e)

    verification_table-Entries :
        (ms : List Manifest) (fs : List Feature) (table : List (Text × List (Text × Verification)))
        → All (λ m. IsHonest m × IsInhabited m.profile ps) ms
        → Entries (λ feature row. Entries (IfVerified receipts) row) table
        → Entries
            (λ feature row. Entries (IfVerified receipts) row)
            (verification_table ps claims ms fs table)
    unfolding verification_table
    verification_table-Entries ms [] table a e = e
    verification_table-Entries ms (f ∷ fs) table a e = verification_table-Entries ms fs _ a (
        assign-Entries (λ feature row. Entries (IfVerified receipts) row) f.id
          (verification_row ps claims f.id ms []) table (verification_row-Entries f.id ms [] a tt)
          e)

-- The sets that a corpus declares are those of its profiles, each with a scenario.
known_of_lem :
    (corpus : Corpus) {known : Known}
    → known_of corpus ≡ ok known
    → Distinct (keys corpus.profile_scenarios)
    → (p : Text) → mem p known.profile_set ≡ true
    → IsInhabited p corpus.profile_scenarios
unfolding known_of
known_of_lem corpus h d p m =
    let (members, collected, h₁) =
      >>=-eq-ok (collect_members _ _ corpus.profile_scenarios []) _ h in
    let (_, checked, h₂) = >>=-eq-ok (check_members members corpus.profiles) _ h₁ in
    let (features, _, h₃) = >>=-eq-ok (collect_features corpus.features []) _ h₂ in
    let set = ap (λ k. k.profile_set) (ok-injective h₃) in
    declared_by _ _ corpus.profile_scenarios p collected d (
      check_members-IsInhabited members p corpus.profiles checked
        (rw (sym set, mem-string_set) at m))

-- `model.Verification[feature][profile]`.
abbrev pub verification_at : ReportModel → Text → Text → Option Verification
verification_at model feature profile = elim (lookup feature model.verification) [
  | none ↦ none
  | some row ↦ lookup profile row
]

verification_at-IfVerified :
    (receipts : List ValidationReceipt) (model : ReportModel) (feature profile : Text)
    {v : Verification}
    → verification_at model feature profile ≡ some v
    → Entries (λ f row. Entries (IfVerified receipts) row) model.verification
    → IfVerified receipts profile v
verification_at-IfVerified receipts model feature profile here e =
    elim (Option-cases (lookup feature model.verification)) [
      | inl missing ↦ absurd (cc (rw (missing, verification_at) at here))
      | inr (row, found) ↦
          lookup-Entries (IfVerified receipts) profile row (rw (found, verification_at) at here) (
            lookup-Entries (λ f row. Entries (IfVerified receipts) row) feature model.verification
              found e)
    ]

-- For a corpus that declares the scenarios of no profile twice, with the claims that the receipts
-- give: a verification of the report that says `verified` names a scenario, and has a verified
-- receipt of its profile for every scenario that it names.
pub build_model_for_profiles-IsBacked :
    (corpus : Corpus) (plans : List (Text × PlanArtifact)) (receipts : List ValidationReceipt)
    (feature profile : Text) {model : ReportModel} {v : Verification}
    → Distinct (keys corpus.profile_scenarios)
    → build_model_for_profiles corpus
        (coverages_from_plans_for_profiles plans receipts corpus.profile_scenarios)
      ≡ ok model
    → verification_at model feature profile ≡ some v
    → v.state ≡ verified
    → IsBacked receipts profile v
build_model_for_profiles-IsBacked corpus plans receipts feature profile {model} {v} d h here s =
    let ps = corpus.profile_scenarios in
    let b =
      build_model_for_profiles-Built corpus (coverages_from_plans_for_profiles plans receipts ps)
        h in
    let supported =
      collect_claims-Stored b.known (λ p c. IsSupported receipts p (entries_of p ps) c)
        (coverages_from_plans_for_profiles plans receipts ps) [] b.is_collected
        (coverages_from_plans_for_profiles-IsSupported plans receipts ps) tt in
    let table =
      verification_table-Entries receipts ps b.claims supported model.manifests corpus.features []
        (All-imp model.manifests
          (λ m (honest, inside). (honest, known_of_lem corpus b.is_known d m.profile inside))
          (check_manifests-IsHonest b.known b.claims corpus.manifests b.is_checked))
        tt in
    verification_at-IfVerified receipts model feature profile here
      (rw (sym b.verifications) at table) (rw s (text_eq_self verified))
