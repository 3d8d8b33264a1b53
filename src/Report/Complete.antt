-- ===== src/Report/Complete.antt =====
-- report/report/report.go: no cell of the verification table of BuildModelForProfiles is missing.
use rules_stests.Base.{
  true, ◌||◌, ◌≡◌, refl, inl, inr, List, [], ◌∷◌, some, Bool-cases, Text, text_eq, text_eq_iff, mem,
  lookup, keys, ok, guard_iff, arith,
}
use rules_stests.Receipt.Coverage.{FeatureClaim, ProfileProofCoverage, assign}
use rules_stests.Report.Types.{Feature, Verification, Manifest, ReportModel}
use rules_stests.Report.Manifests.{check_profiles}
use rules_stests.Report.Build.{
  Corpus, verification_of, verification_row, verification_table, build_model_for_profiles,
}
use rules_stests.Report.Built.{
  manifest_profiles, mem-check_manifests, build_model_for_profiles-Built,
}
use rules_stests.Report.Stored.{Entries, lookup-Entries, assign-Entries}
use rules_stests.Report.Backed.{verification_at}

mem-keys-assign {ℓ} :
    {V : Type ℓ} (k j : Text) (v : V) (m : List (Text × V))
    → mem k (keys (assign j v m)) ≡ (text_eq j k || mem k (keys m))
unfolding mem assign
mem-keys-assign k j v [] = refl
mem-keys-assign k j v ((i, w) ∷ m) =
    ground (arith, text_eq_iff i j, text_eq_iff i k, text_eq_iff j k, mem-keys-assign k j v m)

lookup-ne-none {ℓ} :
    {V : Type ℓ} (k : Text) (m : List (Text × V))
    → mem k (keys m) ≡ true
    → (v : V) × (lookup k m ≡ some v)
unfolding lookup mem
lookup-ne-none k [] h = absurd (cc h)
lookup-ne-none k ((j, v) ∷ m) h = elim (Bool-cases (text_eq j k)) [
  | inl same ↦ (v, rw same)
  | inr other ↦ let (w, found) = lookup-ne-none k m (rw other at h) in (w, rw other found)
]

abbrev ids : List Feature → List Text
ids [] = []
ids (f ∷ fs) = f.id ∷ ids fs

module _ (ps : List (Text × List Text)) (claims : List (Text × List (Text × FeatureClaim))) where
  mem-verification_row :
      (k feature : Text) (ms : List Manifest) (row : List (Text × Verification))
      → mem k (keys (verification_row ps claims feature ms row))
        ≡ (mem k (manifest_profiles ms) || mem k (keys row))
  unfolding verification_row mem
  mem-verification_row k feature [] row = refl
  mem-verification_row k feature (m ∷ ms) row =
      let v = verification_of ps claims feature m in
      ground (
        arith,
        mem-verification_row k feature ms (assign m.profile v row),
        mem-keys-assign k m.profile v row,
      )

  mem-verification_table :
      (k : Text) (ms : List Manifest) (fs : List Feature)
      (table : List (Text × List (Text × Verification)))
      → mem k (keys (verification_table ps claims ms fs table))
        ≡ (mem k (ids fs) || mem k (keys table))
  unfolding verification_table mem
  mem-verification_table k ms [] table = refl
  mem-verification_table k ms (f ∷ fs) table =
      let row = verification_row ps claims f.id ms [] in
      ground (
        arith,
        mem-verification_table k ms fs (assign f.id row table),
        mem-keys-assign k f.id row table,
      )

  verification_table-full :
      (profile : Text) (ms : List Manifest) (fs : List Feature)
      (table : List (Text × List (Text × Verification)))
      → mem profile (manifest_profiles ms) ≡ true
      → Entries (λ feature row. mem profile (keys row) ≡ true) table
      → Entries
          (λ feature row. mem profile (keys row) ≡ true)
          (verification_table ps claims ms fs table)
  unfolding verification_table
  verification_table-full profile ms [] table h e = e
  verification_table-full profile ms (f ∷ fs) table h e =
      let row = verification_row ps claims f.id ms [] in
      verification_table-full profile ms fs _ h (
        assign-Entries (λ feature row. mem profile (keys row) ≡ true) f.id row table
          (ground (arith, mem-verification_row profile f.id ms [])) e)

check_profiles-mem :
    (set : List Text) (claims : List (Text × List (Text × FeatureClaim))) (k : Text)
    (profiles : List Text)
    → check_profiles set claims profiles ≡ ok tt
    → mem k profiles ≡ true
    → mem k set ≡ true
unfolding check_profiles mem
check_profiles-mem set claims k [] h m = cc
check_profiles-mem set claims k (p ∷ ps) h m =
    let (here, h₁) = (guard_iff (mem p set) _ _).0 h in
    let (_, rest) = (guard_iff (mem p (keys claims)) _ _).0 h₁ in
    ground (arith, text_eq_iff p k, check_profiles-mem set claims k ps rest)

-- The report has a verification for each feature of the corpus and each of its profiles.
pub build_model_for_profiles_complete :
    (corpus : Corpus) (coverages : List ProfileProofCoverage) (feature profile : Text)
    {model : ReportModel}
    → build_model_for_profiles corpus coverages ≡ ok model
    → mem feature (ids corpus.features) ≡ true
    → mem profile corpus.profiles ≡ true
    → (v : Verification) × (verification_at model feature profile ≡ some v)
unfolding mem
build_model_for_profiles_complete corpus coverages feature profile {model} h f p =
    let b = build_model_for_profiles-Built corpus coverages h in
    let listed =
      check_profiles-mem b.manifest_set b.claims profile corpus.profiles b.is_complete p in
    let made = mem-check_manifests b.known b.claims corpus.manifests [] profile b.is_checked in
    let (row, found) = lookup-ne-none feature model.verification (
      rw b.verifications (
        ground (
          arith,
          mem-verification_table corpus.profile_scenarios b.claims feature model.manifests
              corpus.features [],
        ))) in
    let full =
      lookup-Entries (λ feature row. mem profile (keys row) ≡ true) feature model.verification found
        (rw b.verifications (
          verification_table-full corpus.profile_scenarios b.claims profile model.manifests
            corpus.features [] (ground arith) tt)) in
    let (v, here) = lookup-ne-none profile row full in (v, rw (found, verification_at) here)
