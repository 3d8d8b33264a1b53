-- ===== src/Report/Build.antt =====
-- report/report/report.go: the tables that BuildModelForProfiles fills, and the whole of it
-- but for the alignments of its comparisons. A map that is keyed by texts is an association list.
use rules_stests.Base.{
  not, ◌&&◌, List, [], ◌∷◌, ◌++◌, none, some, if◌then◌else◌, Text, codes, text_eq, mem, keys,
  Result, ok, ◌>>=◌, ◌>>◌, guard,
}
use rules_stests.Receipt.Types.{pair_key}
use rules_stests.Receipt.Coverage.{FeatureClaim, ProfileProofCoverage, assign, entries_of}
use rules_stests.Receipt.Validate.{verified, uniform_scenarios}
use rules_stests.Shape.Totals.{ScenarioShape}
use rules_stests.Report.Compare.{compare_profiles}
use rules_stests.Report.Types.{
  Feature, Verification, Manifest, CoverageCell, ReportModel, ModelError, shape_profile,
  shape_scenario, shape_undeclared, duplicate_shape,
}
use rules_stests.Report.Claims.{
  Known, string_set, collect_members, check_members, collect_features, collect_claims,
}
use rules_stests.Report.Manifests.{claim_at, check_manifests, check_profiles}

-- `shapeIndex`.
unfoldable pub index_shapes :
    Known
    → List ScenarioShape
    → List (Text × ScenarioShape)
    → Result ModelError (List (Text × ScenarioShape))
index_shapes known [] index = ok index
index_shapes known (s ∷ ss) index = do
  guard (mem s.profile known.profile_set) (shape_profile s.profile)
  guard (mem s.scenario known.scenario_set) (shape_scenario s.scenario)
  guard (mem s.scenario (entries_of s.profile known.members))
      (shape_undeclared s.profile s.scenario)
  guard (not (mem (pair_key s.profile s.scenario) (keys index)))
      (duplicate_shape s.profile s.scenario)
  index_shapes known ss ((pair_key s.profile s.scenario, s) ∷ index)

-- The first verification of the feature, or else the default of the manifest.
unfoldable pub authored : Text → Verification → List Verification → Verification
authored feature otherwise [] = otherwise
authored feature otherwise (v ∷ vs) =
    if text_eq v.feature_id feature then v else authored feature otherwise vs

abbrev pub default_of : Manifest → Text → Verification
default_of m feature = record {
  feature_id = feature;
  state = m.default_verification;
  basis = [];
  assertion = [];
  scenarios = [];
  evidence = m.profile_evidence;
}

abbrev pub claimed : Text → List Text → FeatureClaim → Verification
claimed feature declared c = record {
  feature_id = feature;
  state = verified;
  basis = c.basis;
  assertion = c.assertion;
  scenarios = if c.all_scenarios then declared else c.scenarios;
  evidence = c.evidence;
}

unfoldable pub verification_of :
    List (Text × List Text)
    → List (Text × List (Text × FeatureClaim))
    → Text
    → Manifest
    → Verification
verification_of profile_scenarios claims feature m = elim (claim_at m.profile feature claims) [
  | none ↦ authored feature (default_of m feature) m.verifications
  | some c ↦ claimed feature (entries_of m.profile profile_scenarios) c
]

-- `model.Verification[feature]`.
unfoldable pub verification_row :
    List (Text × List Text)
    → List (Text × List (Text × FeatureClaim))
    → Text
    → List Manifest
    → List (Text × Verification)
    → List (Text × Verification)
verification_row profile_scenarios claims feature [] row = row
verification_row profile_scenarios claims feature (m ∷ ms) row =
    verification_row profile_scenarios claims feature ms
      (assign m.profile (verification_of profile_scenarios claims feature m) row)

unfoldable pub verification_table :
    List (Text × List Text)
    → List (Text × List (Text × FeatureClaim))
    → List Manifest
    → List Feature
    → List (Text × List (Text × Verification))
    → List (Text × List (Text × Verification))
verification_table profile_scenarios claims ms [] table = table
verification_table profile_scenarios claims ms (f ∷ fs) table =
    verification_table profile_scenarios claims ms fs
      (assign f.id (verification_row profile_scenarios claims f.id ms []) table)

unfoldable pub coverage_cell : Known → List (Text × ScenarioShape) → Text → Manifest → CoverageCell
coverage_cell known index scenario m =
    let declared = mem scenario (entries_of m.profile known.members) in
    let shaped = mem (pair_key m.profile scenario) (keys index) in
    record {
      profile = m.profile;
      scenario = scenario;
      state =
          if declared && shaped
          then codes "exact_shape"
          else if declared
          then m.base_coverage
          else codes "unavailable";
      declared = declared;
    }

unfoldable pub coverage_row :
    Known → List (Text × ScenarioShape) → Text → List Manifest → List CoverageCell
coverage_row known index scenario [] = []
coverage_row known index scenario (m ∷ ms) =
    coverage_cell known index scenario m ∷ coverage_row known index scenario ms

unfoldable pub coverage_cells :
    Known → List (Text × ScenarioShape) → List Text → List Manifest → List CoverageCell
coverage_cells known index [] ms = []
coverage_cells known index (s ∷ ss) ms =
    coverage_row known index s ms ++ coverage_cells known index ss ms

-- What the report is built from, except for the metadata.
pub record Corpus : Type 0 where
  pub features : List Feature
  pub manifests : List Manifest
  pub shapes : List ScenarioShape
  pub profiles : List Text
  pub scenarios : List Text
  pub profile_scenarios : List (Text × List Text)
  pub evidence_paths : List Text

-- The sets of the declarations, checked.
unfoldable pub known_of : Corpus → Result ModelError Known
known_of corpus = do
  let profile_set = string_set corpus.profiles
  let scenario_set = string_set corpus.scenarios
  members ← collect_members profile_set scenario_set corpus.profile_scenarios []
  check_members members corpus.profiles
  feature_set ← collect_features corpus.features []
  ok (record {
    profile_set = profile_set;
    scenario_set = scenario_set;
    feature_set = feature_set;
    members = members;
    paths = corpus.evidence_paths;
  })

unfoldable pub build_model_for_profiles :
    Corpus → List ProfileProofCoverage → Result ModelError ReportModel
build_model_for_profiles corpus coverages = do
  known ← known_of corpus
  claims ← collect_claims known coverages []
  (manifests, manifest_set) ← check_manifests known claims corpus.manifests []
  check_profiles manifest_set claims corpus.profiles
  index ← index_shapes known corpus.shapes []
  ok (record {
    features = corpus.features;
    manifests = manifests;
    verification = verification_table corpus.profile_scenarios claims manifests corpus.features [];
    scenarios = corpus.scenarios;
    coverage = coverage_cells known index corpus.scenarios manifests;
    comparisons = compare_profiles index corpus.profiles corpus.scenarios;
    shapes = corpus.shapes;
  })

-- BuildModel: every profile has the same scenarios.
unfoldable pub build_model : Corpus → List ProfileProofCoverage → Result ModelError ReportModel
build_model corpus coverages =
    build_model_for_profiles
      (record corpus { profile_scenarios = uniform_scenarios corpus.profiles corpus.scenarios [] })
      coverages
