-- ===== src/Report/Built.antt =====
-- report/report/report.go: the stages of a run of BuildModelForProfiles that ends well.
use mathlib.Core.Path.{subst}
use rules_stests.Base.{
  ◌≡◌, sym, ap, ◌∙◌, refl, List, [], ◌∷◌, ◌||◌, false, keys, not, guard_iff, All, mem, arith, Text,
  ok, >>=-eq-ok, ok-injective,
}
use rules_stests.Receipt.Types.{pair_key}
use rules_stests.Receipt.Coverage.{entries_of, FeatureClaim, ProfileProofCoverage}
use rules_stests.Shape.Totals.{ScenarioShape}
use rules_stests.Report.Compare.{compare_profiles}
use rules_stests.Report.Types.{Manifest, ReportModel}
use rules_stests.Report.Claims.{Known, collect_claims}
use rules_stests.Report.Manifests.{check_manifest, check_manifests, with_defaults, check_profiles}
use rules_stests.Report.Build.{
  Corpus, known_of, index_shapes, verification_table, coverage_cells, build_model_for_profiles,
}

pub record Built (corpus : Corpus) (coverages : List ProfileProofCoverage) (model : ReportModel)
    : Type 0 where
  pub known : Known
  pub claims : List (Text × List (Text × FeatureClaim))
  pub manifest_set : List Text
  pub index : List (Text × ScenarioShape)
  pub is_known : known_of corpus ≡ ok known
  pub is_collected : collect_claims known coverages [] ≡ ok claims
  pub is_checked :
      check_manifests known claims corpus.manifests [] ≡ ok (model.manifests, manifest_set)
  pub is_complete : check_profiles manifest_set claims corpus.profiles ≡ ok tt
  pub is_indexed : index_shapes known corpus.shapes [] ≡ ok index
  pub verifications :
      model.verification
      ≡ verification_table corpus.profile_scenarios claims model.manifests corpus.features []
  pub comparisons : model.comparisons ≡ compare_profiles index corpus.profiles corpus.scenarios
  pub cells : model.coverage ≡ coverage_cells known index corpus.scenarios model.manifests

pub build_model_for_profiles-Built :
    (corpus : Corpus) (coverages : List ProfileProofCoverage) {model : ReportModel}
    → build_model_for_profiles corpus coverages ≡ ok model
    → Built corpus coverages model
unfolding build_model_for_profiles
build_model_for_profiles-Built corpus coverages {model} h =
    let (known, h₁, r₁) = >>=-eq-ok (known_of corpus) _ h in
    let (claims, h₂, r₂) = >>=-eq-ok (collect_claims known coverages []) _ r₁ in
    let (out, h₃, r₃) = >>=-eq-ok (check_manifests known claims corpus.manifests []) _ r₂ in
    let (_, h₄, r₄) = >>=-eq-ok (check_profiles out.1 claims corpus.profiles) _ r₃ in
    let (index, h₅, r₅) = >>=-eq-ok (index_shapes known corpus.shapes []) _ r₄ in
    let e = ok-injective r₅ in
    record {
      known = known;
      claims = claims;
      manifest_set = out.1;
      index = index;
      is_known = h₁;
      is_collected = h₂;
      is_checked = h₃ ∙ ap (λ (m : ReportModel). ok (m.manifests, out.1)) e;
      is_complete = h₄;
      is_indexed = h₅;
      comparisons = ap (λ m. m.comparisons) (sym e);
      verifications =
          ap (λ m. m.verification) (sym e)
          ∙ ap (λ ms. verification_table corpus.profile_scenarios claims ms corpus.features [])
              (ap (λ m. m.manifests) e);
      cells =
          ap (λ m. m.coverage) (sym e)
          ∙ ap (coverage_cells known index corpus.scenarios) (ap (λ m. m.manifests) e);
    }

-- What every accepted manifest satisfies once its defaults are filled in.
pub check_manifests-All {ℓ} :
    (known : Known) (claims : List (Text × List (Text × FeatureClaim))) (P : Manifest → Type ℓ)
    (ms : List Manifest) (seen : List Text) {done : List Manifest} {all : List Text}
    → ((seen : List Text) (m : Manifest)
        → check_manifest known claims seen m ≡ ok tt
        → P (with_defaults m))
    → check_manifests known claims ms seen ≡ ok (done, all)
    → All P done
unfolding check_manifests
check_manifests-All known claims P [] seen each h =
    subst (All P) (ap (λ o. o.0) (ok-injective h)) tt
check_manifests-All known claims P (m ∷ ms) seen each h =
    let (_, one, rest) = >>=-eq-ok (check_manifest known claims seen m) _ h in
    let (out, later, ends) =
      >>=-eq-ok (check_manifests known claims ms (m.profile ∷ seen)) _ rest in
    subst (All P) (ap (λ o. o.0) (ok-injective ends))
      (each seen m one, check_manifests-All known claims P ms (m.profile ∷ seen) each later)

abbrev pub manifest_profiles : List Manifest → List Text
manifest_profiles [] = []
manifest_profiles (m ∷ ms) = m.profile ∷ manifest_profiles ms

-- `manifestProfiles` holds the profiles of the accepted manifests.
pub mem-check_manifests :
    (known : Known) (claims : List (Text × List (Text × FeatureClaim))) (ms : List Manifest)
    (seen : List Text) (p : Text) {done : List Manifest} {all : List Text}
    → check_manifests known claims ms seen ≡ ok (done, all)
    → mem p all ≡ (mem p (manifest_profiles done) || mem p seen)
unfolding check_manifests with_defaults mem
mem-check_manifests known claims [] seen p h =
    subst (λ o. mem p o.1 ≡ (mem p (manifest_profiles o.0) || mem p seen)) (ok-injective h) refl
mem-check_manifests known claims (m ∷ ms) seen p h =
    let (_, one, rest) = >>=-eq-ok (check_manifest known claims seen m) _ h in
    let (out, later, ends) =
      >>=-eq-ok (check_manifests known claims ms (m.profile ∷ seen)) _ rest in
    subst (λ o. mem p o.1 ≡ (mem p (manifest_profiles o.0) || mem p seen)) (ok-injective ends)
      (ground (arith, mem-check_manifests known claims ms (m.profile ∷ seen) p later))

-- A shape that is indexed is the first of its key.
pub index_shapes-step :
    (known : Known) (s : ScenarioShape) (ss : List ScenarioShape)
    (index : List (Text × ScenarioShape)) {out : List (Text × ScenarioShape)}
    → index_shapes known (s ∷ ss) index ≡ ok out
    → (mem (pair_key s.profile s.scenario) (keys index) ≡ false)
      × (index_shapes known ss ((pair_key s.profile s.scenario, s) ∷ index) ≡ ok out)
unfolding index_shapes
index_shapes-step known s ss index h =
    let key = pair_key s.profile s.scenario in
    let (_, h₁) = (guard_iff (mem s.profile known.profile_set) _ _).0 h in
    let (_, h₂) = (guard_iff (mem s.scenario known.scenario_set) _ _).0 h₁ in
    let (_, h₃) = (guard_iff (mem s.scenario (entries_of s.profile known.members)) _ _).0 h₂ in
    let (new, rest) = (guard_iff (not (mem key (keys index))) _ _).0 h₃ in (ground arith, rest)
