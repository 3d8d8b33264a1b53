-- ===== src/Tests/Reports.antt =====
-- report/report/report.go on a corpus of one profile, one scenario and one feature.
use rules_stests.Base.{
  length, true, false, ◌≡◌, refl, [], ◌∷◌, some, List, Text, codes, All, text_eq, mem, add, lookup,
  sort_texts, text_lt, Result, ok, err,
}
use rules_stests.Receipt.Types.{Evidence, PlanArtifact, ValidationReceipt}
use rules_stests.Receipt.Validate.{verified, contract}
use rules_stests.Receipt.Coverage.{
  ProfileProofCoverage, coverages_from_plans_for_profiles, assign, entries_of,
}
use rules_stests.Shape.Totals.{ScenarioShape, no_totals}
use rules_stests.Report.Types.{
  Feature, Verification, Manifest, ReportModel, ModelError, verified_default,
}
use rules_stests.Report.Build.{Corpus, build_model_for_profiles, build_model}
use rules_stests.Report.Backed.{IsBacked, verification_at, build_model_for_profiles-IsBacked}
use rules_stests.Report.Compare.{
  compare_profiles, compare_rights, compare_scenarios, compare_scenario, compare_shapes,
  merge_delta, bump, put_nonzero, sub64,
}
use rules_stests.Report.Compared.{IsComparison, build_model_for_profiles-IsComparison}
use rules_stests.Report.Cells.{AreCells, build_model_for_profiles-IsCell}
use rules_stests.Report.Complete.{build_model_for_profiles_complete}
use rules_stests.Receipt.Coverage.{
  artifact_of, claim_of, claims_of_proof, claims_of_proofs, coverages_for, keep, mark, marked,
  source_evidence, text_of,
}
use rules_stests.Receipt.Validate.{uniform_scenarios}
use rules_stests.Report.Build.{
  known_of, authored, coverage_cell, coverage_cells, coverage_row, index_shapes, verification_of,
  verification_row, verification_table,
}
use rules_stests.Report.Claims.{
  collect_members, string_set, collect_scenarios, check_members, collect_features, collect_claims,
  check_claim, check_corroborated, check_scope, has_scope, store_claims,
}
use rules_stests.Report.Evidence.{
  validate_evidence, validate_items, has_prefix, strip_prefix, validate_item,
}
use rules_stests.Report.Manifests.{
  check_manifest, check_manifests, check_profiles, check_verifications, claim_at,
  format_profile_label, has_metadata, is_coverage_state, is_supported, is_verification_state,
  title_case, with_defaults,
}

abbrev pub link : Evidence
link = record { label = codes "plan"; href = codes "https://x"; path = [] }

abbrev feature : Feature
feature = record {
  id = codes "traces.links";
  category = codes "Traces";
  group = [];
  name = codes "Links";
  optional = [];
  support = [];
  source = codes "https://y";
}

abbrev pub manifest : Manifest
manifest = record {
  schema_version = 1;
  profile = codes "go-gin";
  display_name = codes "Gin";
  language = codes "go";
  framework = codes "gin";
  instrumentation_version = codes "1";
  version = [];
  short_label = [];
  unexercised = false;
  profile_evidence = link ∷ [];
  base_coverage = codes "contract_only";
  default_verification = codes "not_exercised";
  verifications = [];
}

abbrev shape : ScenarioShape
shape = record {
  profile = codes "go-gin";
  scenario = codes "tags";
  source = [];
  traces = [];
  exact_counts = true;
  trace_count = 1;
  totals = no_totals;
}

abbrev corpus : Corpus
corpus = record {
  features = feature ∷ [];
  manifests = manifest ∷ [];
  shapes = shape ∷ [];
  profiles = codes "go-gin" ∷ [];
  scenarios = codes "tags" ∷ [];
  profile_scenarios = (codes "go-gin", codes "tags" ∷ []) ∷ [];
  evidence_paths = [];
}

abbrev pub plans : List (Text × PlanArtifact)
plans =
    (
      codes "go-gin",
      record {
        plan = record {
          profile = codes "go-gin";
          sources = [];
          proofs =
              record {
                feature_id = codes "traces.links";
                assertion = codes "links";
                basis = codes "observed";
                evidence_policy = [];
                scenarios = [];
                sources = [];
              }
              ∷ [];
        };
        bytes = [];
        source = link;
      },
    )
    ∷ []

abbrev pub receipt : ValidationReceipt
receipt = record {
  schema_version = 1;
  revision = [];
  profile = codes "go-gin";
  scenario = codes "tags";
  proof_plan_sha256 = [];
  capture_sha256 = [];
  validation_mode = contract;
  outcome = verified;
  xfail_reason = [];
  scenario_shape_sha256 = [];
  proofs = [];
}

abbrev backed : Verification
backed = record {
  feature_id = codes "traces.links";
  state = verified;
  basis = codes "observed";
  assertion = codes "links";
  scenarios = codes "tags" ∷ [];
  evidence = link ∷ [];
}

abbrev pub model : ReportModel
model = record {
  features = feature ∷ [];
  manifests = record manifest { version = codes "1"; short_label = codes "Go · gin" } ∷ [];
  verification = (codes "traces.links", (codes "go-gin", backed) ∷ []) ∷ [];
  scenarios = codes "tags" ∷ [];
  coverage =
      record {
        profile = codes "go-gin";
        scenario = codes "tags";
        state = codes "exact_shape";
        declared = true;
      }
      ∷ [];
  comparisons = [];
  shapes = shape ∷ [];
}

-- A run on the receipt, with all that it calls open.
run :
    (Corpus → List ProfileProofCoverage → Result ModelError ReportModel)
    → List (Text × PlanArtifact)
    → Corpus
    → Result ModelError ReportModel
unfolding build_model build_model_for_profiles compare_profiles compare_rights compare_scenarios
    compare_scenario compare_shapes merge_delta bump put_nonzero sub64
    coverages_from_plans_for_profiles assign entries_of mem add lookup text_eq sort_texts text_lt
    artifact_of claim_of claims_of_proof claims_of_proofs coverages_for keep mark marked
    source_evidence text_of uniform_scenarios known_of authored coverage_cell coverage_cells
    coverage_row index_shapes verification_of verification_row verification_table collect_members
    string_set collect_scenarios check_members collect_features collect_claims check_claim
    check_corroborated check_scope has_scope store_claims validate_evidence validate_items
    has_prefix strip_prefix validate_item check_manifest check_manifests check_profiles
    check_verifications claim_at format_profile_label has_metadata is_coverage_state is_supported
    is_verification_state title_case with_defaults
run build artifacts c =
    build c (coverages_from_plans_for_profiles artifacts (receipt ∷ []) c.profile_scenarios)

builds_model : run build_model_for_profiles plans corpus ≡ ok model
unfolding run
builds_model = refl

-- A manifest cannot verify by default.
refuses_default :
    run build_model plans
      (record corpus { manifests = record manifest { default_verification = verified } ∷ [] })
    ≡ err (verified_default (codes "go-gin"))
unfolding run
refuses_default = refl

build_model_for_profiles-IsBacked_example : IsBacked (receipt ∷ []) (codes "go-gin") backed
unfolding run
build_model_for_profiles-IsBacked_example =
    build_model_for_profiles-IsBacked corpus plans (receipt ∷ []) (codes "traces.links")
      (codes "go-gin") {model = model} (refl, tt) builds_model refl refl

-- A declared scenario without a shape, and one that is not declared.
abbrev bare_corpus : Corpus
bare_corpus = record corpus { scenarios = codes "tags" ∷ codes "links" ∷ []; shapes = [] }

abbrev bare_model : ReportModel
bare_model = record model {
  scenarios = codes "tags" ∷ codes "links" ∷ [];
  coverage =
      record {
        profile = codes "go-gin";
        scenario = codes "tags";
        state = codes "contract_only";
        declared = true;
      }
      ∷ record {
        profile = codes "go-gin";
        scenario = codes "links";
        state = codes "unavailable";
        declared = false;
      }
      ∷ [];
  shapes = [];
}

builds_bare_model : run build_model_for_profiles plans bare_corpus ≡ ok bare_model
unfolding run
builds_bare_model = refl

build_model_for_profiles-IsCell_example : AreCells bare_corpus bare_model.coverage
unfolding run
build_model_for_profiles-IsCell_example =
    build_model_for_profiles-IsCell bare_corpus
      (coverages_from_plans_for_profiles plans (receipt ∷ []) bare_corpus.profile_scenarios)
      (refl, tt) builds_bare_model

build_model_for_profiles_complete_example :
    (v : Verification) × (verification_at model (codes "traces.links") (codes "go-gin") ≡ some v)
unfolding run
build_model_for_profiles_complete_example =
    build_model_for_profiles_complete corpus
      (coverages_from_plans_for_profiles plans (receipt ∷ []) corpus.profile_scenarios)
      (codes "traces.links") (codes "go-gin") builds_model refl refl

-- A second profile, whose shape has one span more and another status.
abbrev aiohttp : Text
aiohttp = codes "python-aiohttp"

abbrev both_plans : List (Text × PlanArtifact)
both_plans =
    (
      aiohttp,
      record {
        plan = record { profile = aiohttp; sources = []; proofs = [] };
        bytes = [];
        source = link;
      },
    )
    ∷ plans

abbrev both : Corpus
both = record corpus {
  manifests = manifest ∷ record manifest { profile = aiohttp; language = codes "python" } ∷ [];
  profiles = codes "go-gin" ∷ aiohttp ∷ [];
  profile_scenarios = (codes "go-gin", codes "tags" ∷ []) ∷ (aiohttp, codes "tags" ∷ []) ∷ [];
  shapes =
      shape
      ∷ record shape {
        profile = aiohttp;
        totals = record { span_count = 2; scopes = []; statuses = (codes "error", 2) ∷ [] };
      }
      ∷ [];
}

abbrev model_of : Result ModelError ReportModel → ReportModel
model_of (ok m) = m
model_of (err e) = model

builds_both :
    run build_model_for_profiles both_plans both
    ≡ ok (model_of (run build_model_for_profiles both_plans both))
unfolding run
builds_both = refl

compares_both : length (model_of (run build_model_for_profiles both_plans both)).comparisons ≡ 1
unfolding run
compares_both = refl

build_model_for_profiles-IsComparison_example :
    All (IsComparison both) (model_of (run build_model_for_profiles both_plans both)).comparisons
unfolding run
build_model_for_profiles-IsComparison_example =
    build_model_for_profiles-IsComparison both
      (coverages_from_plans_for_profiles both_plans (receipt ∷ []) both.profile_scenarios)
      (record { scopes = tt; statuses = tt }, (record { scopes = tt; statuses = (refl, tt) }, tt))
      builds_both
