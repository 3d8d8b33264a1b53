-- ===== src/Report/Cells.antt =====
-- report/report/report.go: what the coverage cells of BuildModelForProfiles say.
use mathlib.Core.Path.{subst}
use rules_stests.Base.{
  Bool, true, false, ◌&&◌, ◌≡◌, refl, sym, ap, ◌∙◌, inl, inr, List, [], ◌∷◌, ◌++◌, map, All2,
  All2-append, if◌then◌else◌, Bool-cases, Text, All, codes, text_eq, text_eq_iff, mem, keys,
  Distinct, ok, >>=-eq-ok, ok-injective, arith,
}
use rules_stests.Receipt.Types.{pair_key}
use rules_stests.Receipt.Coverage.{FeatureClaim, entries_of, ProfileProofCoverage}
use rules_stests.Shape.Totals.{ScenarioShape}
use rules_stests.Report.Types.{Manifest, CoverageCell, ReportModel}
use rules_stests.Report.Claims.{Known}
use rules_stests.Report.Manifests.{
  check_manifest, check_manifests, with_defaults, is_coverage_state,
}
use rules_stests.Report.Build.{
  Corpus, known_of, index_shapes, coverage_cell, coverage_row, coverage_cells,
  build_model_for_profiles,
}
use rules_stests.Report.Built.{check_manifests-All, build_model_for_profiles-Built}
use rules_stests.Report.Members.{has_shape, mem-index_shapes, mem-members}

-- The cell of a scenario and a manifest: declared exactly when the profile declares the scenario,
-- `exact_shape` exactly when some shape is there as well, else the manifest's base coverage when
-- declared, and `unavailable` when not.
pub record IsCell (corpus : Corpus) (scenario : Text) (m : Manifest) (c : CoverageCell)
    : Type 0 where
  pub of_profile : c.profile ≡ m.profile
  pub of_scenario : c.scenario ≡ scenario
  pub is_declared : c.declared ≡ mem scenario (entries_of m.profile corpus.profile_scenarios)
  pub is_exact :
      text_eq c.state (codes "exact_shape")
      ≡ (c.declared && has_shape corpus.shapes m.profile scenario)
  pub is_base :
      c.declared ≡ true
      → has_shape corpus.shapes m.profile scenario ≡ false
      → c.state ≡ m.base_coverage
  pub is_closed : c.declared ≡ false → c.state ≡ codes "unavailable"

abbrev pub grid_row : Text → List Manifest → List (Text × Manifest)
grid_row scenario [] = []
grid_row scenario (m ∷ ms) = (scenario, m) ∷ grid_row scenario ms

-- Every scenario with every manifest, the scenarios outside.
abbrev pub grid : List Text → List Manifest → List (Text × Manifest)
grid [] ms = []
grid (s ∷ ss) ms = grid_row s ms ++ grid ss ms

-- A cell for each scenario and manifest of the corpus, in order.
abbrev pub AreCells : Corpus → List CoverageCell → Type 0
AreCells corpus cells =
    All2 (λ e c. IsCell corpus e.0 e.1 c) (grid corpus.scenarios corpus.manifests) cells

-- No state that a manifest may give is that of an exact shape.
coverage_state-ne-exact :
    (base : Text) → is_coverage_state base ≡ true → text_eq base (codes "exact_shape") ≡ false
unfolding is_coverage_state text_eq
coverage_state-ne-exact base h = elim (Bool-cases (text_eq base (codes "contract_only"))) [
  | inl contract ↦ rw ((text_eq_iff base _).0 contract) refl
  | inr other ↦ rw ((text_eq_iff base (codes "unavailable")).0 (ground arith)) refl
]

cell_state :
    (declared shaped : Bool) (base : Text)
    → text_eq base (codes "exact_shape") ≡ false
    → text_eq
        (if declared && shaped
          then codes "exact_shape"
          else if declared
          then base
          else codes "unavailable")
        (codes "exact_shape")
      ≡ (declared && shaped)
unfolding text_eq
cell_state true true base h = refl
cell_state true false base h = h
cell_state false shaped base h = refl

module _ (corpus : Corpus) (known : Known) (index : List (Text × ScenarioShape))
    (is_known : known_of corpus ≡ ok known)
    (is_indexed : index_shapes known corpus.shapes [] ≡ ok index)
    (distinct : Distinct (keys corpus.profile_scenarios)) where
  coverage_cell-IsCell :
      (scenario : Text) (m : Manifest)
      → is_coverage_state m.base_coverage ≡ true
      → IsCell corpus scenario m (coverage_cell known index scenario (with_defaults m))
  unfolding coverage_cell is_coverage_state mem with_defaults
  coverage_cell-IsCell scenario m h =
      let declared = mem scenario (entries_of m.profile known.members) in
      let shape = mem (pair_key m.profile scenario) (keys index) in
      let inside = mem-members corpus m.profile scenario is_known distinct in
      let shaped = mem-index_shapes known m.profile scenario corpus.shapes [] is_indexed in
      record {
        of_profile = refl;
        of_scenario = refl;
        is_declared = inside;
        is_exact =
            cell_state declared shape m.base_coverage (coverage_state-ne-exact m.base_coverage h)
            ∙ ap (λ b. declared && b) (ground arith);
        is_base = λ there bare. ground arith;
        is_closed = λ outside. ground arith;
      }

  coverage_row-All2 :
      (scenario : Text) (ms : List Manifest)
      → All (λ m. is_coverage_state m.base_coverage ≡ true) (map with_defaults ms)
      → All2
          (λ e c. IsCell corpus e.0 e.1 c)
          (grid_row scenario ms)
          (coverage_row known index scenario (map with_defaults ms))
  unfolding coverage_row with_defaults
  coverage_row-All2 scenario [] a = tt
  coverage_row-All2 scenario (m ∷ ms) a =
      (coverage_cell-IsCell scenario m a.0, coverage_row-All2 scenario ms a.1)

  coverage_cells-All2 :
      (scenarios : List Text) (ms : List Manifest)
      → All (λ m. is_coverage_state m.base_coverage ≡ true) (map with_defaults ms)
      → All2
          (λ e c. IsCell corpus e.0 e.1 c)
          (grid scenarios ms)
          (coverage_cells known index scenarios (map with_defaults ms))
  unfolding coverage_cells
  coverage_cells-All2 [] ms a = tt
  coverage_cells-All2 (s ∷ ss) ms a =
      All2-append (λ e c. IsCell corpus e.0 e.1 c) (grid_row s ms)
        (coverage_row known index s (map with_defaults ms)) (grid ss ms)
        (coverage_cells known index ss (map with_defaults ms)) (coverage_row-All2 s ms a)
        (coverage_cells-All2 ss ms a)

-- The manifests of the report are those of the corpus with their defaults.
check_manifests-defaults :
    (known : Known) (claims : List (Text × List (Text × FeatureClaim))) (ms : List Manifest)
    (seen : List Text) {out : List Manifest × List Text}
    → check_manifests known claims ms seen ≡ ok out
    → out.0 ≡ map with_defaults ms
unfolding check_manifests
check_manifests-defaults known claims [] seen h = sym (ap (λ o. o.0) (ok-injective h))
check_manifests-defaults known claims (m ∷ ms) seen h =
    let (_, _, h₁) = >>=-eq-ok (check_manifest known claims seen m) _ h in
    let (out, checked, h₂) = >>=-eq-ok (check_manifests known claims ms (m.profile ∷ seen)) _ h₁ in
    sym (ap (λ o. o.0) (ok-injective h₂))
    ∙ ap (λ done. with_defaults m ∷ done)
        (check_manifests-defaults known claims ms (m.profile ∷ seen) checked)

check_manifest-base_coverage :
    (known : Known) (claims : List (Text × List (Text × FeatureClaim))) (seen : List Text)
    (m : Manifest)
    → check_manifest known claims seen m ≡ ok tt
    → is_coverage_state (with_defaults m).base_coverage ≡ true
unfolding check_manifest with_defaults
check_manifest-base_coverage known claims seen m h = ground arith

-- For a corpus that declares the scenarios of no profile twice: the coverage of the report has one
-- cell for each scenario and each manifest of the corpus, in this order. The cell is declared exactly
-- when the profile declares the scenario. It says `exact_shape` exactly when it is declared and the
-- corpus has a shape for the pair, the base coverage of the manifest when it is declared and has no
-- shape, and `unavailable` when it is not declared.
pub build_model_for_profiles-IsCell :
    (corpus : Corpus) (coverages : List ProfileProofCoverage) {model : ReportModel}
    → Distinct (keys corpus.profile_scenarios)
    → build_model_for_profiles corpus coverages ≡ ok model
    → AreCells corpus model.coverage
build_model_for_profiles-IsCell corpus coverages {model} d h =
    let b = build_model_for_profiles-Built corpus coverages h in
    let same = check_manifests-defaults b.known b.claims corpus.manifests [] b.is_checked in
    let states =
      check_manifests-All b.known b.claims (λ m. is_coverage_state m.base_coverage ≡ true)
        corpus.manifests [] (check_manifest-base_coverage b.known b.claims) b.is_checked in
    subst (AreCells corpus)
      (ap (coverage_cells b.known b.index corpus.scenarios) (sym same) ∙ sym b.cells)
      (coverage_cells-All2 corpus b.known b.index b.is_known b.is_indexed d corpus.scenarios
        corpus.manifests (subst (All (λ m. is_coverage_state m.base_coverage ≡ true)) same states))
