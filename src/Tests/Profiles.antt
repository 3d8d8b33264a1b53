-- ===== src/Tests/Profiles.antt =====
-- report/report/profile.go: the compiler on a small profile.
use rules_stests.Base.{
  ◌≡◌, ◌≤◌, ◌↔◌, refl, List, [], ◌∷◌, Text, codes, text_eq, text_lt, mem, lookup, All, length,
  Option, some, ok, err, Result,
}
use rules_stests.Scheme.Expr.{
  Sexpr, nil, cons, atom, text_token, form, head, unquote, find_definition, defines,
}
use rules_stests.Receipt.Types.{PlanArtifact, ValidationReceipt}
use rules_stests.Receipt.Coverage.{assign, text_of, coverages_from_plans_for_profiles}
use rules_stests.Receipt.Validate.{verified}
use rules_stests.Profile.Composed.{
  IsPlanned, ArePlanned, IsWarrantedCoverage, All-ArePlanned,
  coverages_from_plans_for_profiles-IsWarranted,
}
use rules_stests.Report.Evidence.{
  validate_immutable_source, has_prefix, strip_prefix, is_mutable, lower, contains, after,
  check_pinned,
}
use rules_stests.Shape.Totals.{first_definition}
use rules_stests.Scheme.Parser.{read_source}
use rules_stests.Profile.Types.{
  RegistryFeature, ProfilePlan, receipt_plan, ProfileError, needs_source, unknown_binding,
  duplicate_claim, no_fields,
}
use rules_stests.Profile.Lookup.{
  items_from, has_suffix, parse_source, collect_definition, visit_definition,
  collect_implementation_definitions, collect_from,
}
use rules_stests.Profile.Rules.{
  add_shape, add_shapes, shapes_of, parse_known_shapes, clause_from, clause_value, rule_table,
  all_tables, rule_of, add_rule, add_rules, add_tables, parse_proof_rule_table, check_rules,
  parse_proof_rules, rule_tables, wire_sufficient, requires_source,
}
use rules_stests.Profile.Claims.{
  parse_scenario, parse_scope, parse_anchor, parse_anchors, parse_basis, check_rule, prove_feature,
  parse_feature, parse_features, parse_profile_claim, observed, corroborated,
}
use rules_stests.Profile.Clauses.{
  set_identity, set_text, identity_clause, is_language, field_clause, signal_values,
  implementation_values, put_sources, add_proof, add_proofs, signals_clause, implementation_clause,
  claim_clause, apply_clause, note_singleton, parse_clauses,
}
use rules_stests.Profile.Compile.{
  add_features, collect_sources, profile_form, is_complete_plan, check_signals, has_identity,
  traces_only, check_datadog_plan, has_no_identity, check_identity, insert_proof, sort_proofs,
  finish_plan, read_known, decoded, compile_telemetry_profile,
}
use rules_stests.Profile.Ruled.{IsOnly, named, clause_value_iff}
use rules_stests.Profile.Compiled.{IsCompiled, compile_telemetry_profile-IsCompiled}
use rules_stests.Profile.Bounded.{compile_telemetry_profile-length_le}

abbrev profile_source : Text
profile_source =
    codes
      "(define profile (realworld-profile (id 'p) (display-name \"P\") (language 'go) (framework \"F\") (service-name \"S\") (signals 'traces) (implementation (compose sdk)) (scenario 's (corroborated (sources link) second)) (all (observed first))))"

abbrev implementation_source : Text
implementation_source = codes "(define sdk \"1\") (define link \"https://e.org/a\")"

abbrev rule_source : Text
rule_source =
    codes
      "(define proof-rules '((\"f1\" (assertion a) (evidence wire-sufficient)) (\"f2\" (assertion a) (evidence requires-immutable-source))))"

abbrev shape_source : Text
shape_source = codes "(define capture-shapes '((capture-shape 'a x)))"

abbrev features : List RegistryFeature
features =
    record { id = codes "f1"; binding = codes "first" }
    ∷ record { id = codes "f2"; binding = codes "second" }
    ∷ []

abbrev other_features : List RegistryFeature
other_features = record { id = codes "g"; binding = codes "first" } ∷ []

-- Two registries: the empty text stands for the first.
abbrev registry : Text → Option (List RegistryFeature)
registry [] = some features
registry (c ∷ json) = some other_features

-- What a run opens.
unfoldable run :
    (profile_source : Text)
    → (implementation_sources : List Text)
    → (registry_json proof_rule_source capture_shape_source : Text) → (scenarios : List Text)
    → Result ProfileError ProfilePlan
unfolding assign has_suffix parse_source collect_definition visit_definition
    collect_implementation_definitions collect_from add_shape add_shapes shapes_of
    parse_known_shapes clause_from clause_value rule_table all_tables rule_of add_rule add_rules
    add_tables parse_proof_rule_table check_rules parse_proof_rules rule_tables parse_scenario
    parse_scope parse_anchor parse_anchors parse_basis check_rule prove_feature parse_feature
    parse_features parse_profile_claim set_identity set_text identity_clause is_language
    field_clause signal_values implementation_values put_sources add_proof add_proofs signals_clause
    implementation_clause claim_clause apply_clause note_singleton parse_clauses add_features
    collect_sources profile_form is_complete_plan check_signals has_identity traces_only
    check_datadog_plan has_no_identity check_identity insert_proof sort_proofs finish_plan
    read_known decoded compile_telemetry_profile text_eq text_lt mem lookup text_of head unquote
    first_definition find_definition defines read_source validate_immutable_source has_prefix
    strip_prefix is_mutable lower contains after check_pinned
run = compile_telemetry_profile registry

abbrev compiled : Text → Result ProfileError ProfilePlan
compiled source =
    compile_telemetry_profile registry source (implementation_source ∷ []) [] rule_source
      shape_source (codes "s" ∷ [])

abbrev plan : ProfilePlan
plan = record {
  fields = record no_fields {
    profile = codes "p";
    display_name = codes "P";
    language = codes "go";
    framework = codes "F";
    service_name = codes "S";
  };
  schema_version = 1;
  signals = codes "traces" ∷ [];
  implementations = codes "sdk" ∷ [];
  sources = (codes "link", codes "https://e.org/a") ∷ [];
  proofs =
      record {
        feature_id = codes "f1";
        assertion = codes "a";
        basis = observed;
        evidence_policy = wire_sufficient;
        scenarios = [];
        sources = [];
      }
      ∷ record {
        feature_id = codes "f2";
        assertion = codes "a";
        basis = corroborated;
        evidence_policy = requires_source;
        scenarios = codes "s" ∷ [];
        sources = codes "link" ∷ [];
      }
      ∷ [];
}

compiles : compiled profile_source ≡ ok plan
unfolding run
compiles = refl

-- A feature is claimed once, and an implementation must be defined.
refuses_profiles :
    (compiled (
        codes
          "(define profile (realworld-profile (all (observed first)) (all (observed second first))))")
      ≡ err (needs_source (codes "f2")))
    × (compiled (
          codes
            "(define profile (realworld-profile (all (observed first)) (all (observed first))))")
        ≡ err (duplicate_claim (codes "f1")))
    × (compiled (codes "(define profile (realworld-profile (implementation (compose other))))")
        ≡ err (unknown_binding (codes "other")))
unfolding run
refuses_profiles = (refl, refl, refl)

compile_telemetry_profile-IsCompiled_example :
    IsCompiled features (implementation_source ∷ []) rule_source shape_source (codes "s" ∷ []) plan
compile_telemetry_profile-IsCompiled_example =
    compile_telemetry_profile-IsCompiled registry profile_source (implementation_source ∷ []) []
      rule_source shape_source (codes "s" ∷ []) refl compiles

compile_telemetry_profile-length_le_example : length plan.proofs ≤ length features
compile_telemetry_profile-length_le_example =
    compile_telemetry_profile-length_le registry profile_source (implementation_source ∷ []) []
      rule_source shape_source (codes "s" ∷ []) refl compiles

-- ("f1" (assertion a) (evidence b))
abbrev rule_form : Sexpr
rule_form = form (
    cons (text_token (codes "f1")) (
      cons (form (cons (atom (codes "assertion")) (cons (atom (codes "a")) nil)))
        (cons (form (cons (atom (codes "evidence")) (cons (atom (codes "b")) nil))) nil)))

clause_value_iff_example :
    (clause_value rule_form (codes "assertion") ≡ ok (atom (codes "a")))
    ↔ IsOnly (named (codes "assertion") (items_from 1 rule_form)) (atom (codes "a"))
clause_value_iff_example = clause_value_iff rule_form (codes "assertion")

-- A second rule of one feature, after one with an empty assertion, replaces it.
accepts_repeated_rule :
    parse_proof_rules
      (codes
        "(define proof-rules '((\"f\" (assertion \"\") (evidence wire-sufficient)) (\"f\" (assertion a) (evidence wire-sufficient))))")
      (codes "a" ∷ [])
    ≡ ok ((codes "f", record { assertion = codes "a"; policy = wire_sufficient }) ∷ [])
unfolding run
accepts_repeated_rule = refl

abbrev artifact : PlanArtifact
artifact = record {
  plan = receipt_plan plan;
  bytes = [];
  source = record { label = codes "plan"; href = codes "https://e.org/plan"; path = [] };
}

artifact-IsPlanned : IsPlanned registry artifact
unfolding run
artifact-IsPlanned = record {
  profile_source = profile_source;
  implementation_sources = implementation_source ∷ [];
  registry_json = [];
  proof_rule_source = rule_source;
  capture_shape_source = shape_source;
  scenarios = codes "s" ∷ [];
  features = features;
  shapes = codes "a" ∷ [];
  plan = plan;
  decodes = refl;
  reads = refl;
  compiles = compiles;
  holds = refl;
}

-- Another profile, of another registry, other rules, shapes and scenarios.
abbrev other_plan : ProfilePlan
other_plan = record plan {
  fields = record plan.fields { profile = codes "q" };
  sources = [];
  proofs =
      record {
        feature_id = codes "g";
        assertion = codes "b";
        basis = observed;
        evidence_policy = wire_sufficient;
        scenarios = codes "t" ∷ [];
        sources = [];
      }
      ∷ [];
}

abbrev other_artifact : PlanArtifact
other_artifact = record artifact { plan = receipt_plan other_plan }

other_artifact-IsPlanned : IsPlanned registry other_artifact
unfolding run
other_artifact-IsPlanned = record {
  profile_source =
      codes
        "(define profile (realworld-profile (id 'q) (display-name \"P\") (language 'go) (framework \"F\") (service-name \"S\") (signals 'traces) (implementation (compose sdk)) (scenario 't (observed first))))";
  implementation_sources = codes "(define sdk \"1\")" ∷ [];
  registry_json = codes "{}";
  proof_rule_source =
      codes "(define proof-rules '((\"g\" (assertion b) (evidence wire-sufficient))))";
  capture_shape_source = codes "(define capture-shapes '((capture-shape 'b x)))";
  scenarios = codes "t" ∷ [];
  features = other_features;
  shapes = codes "b" ∷ [];
  plan = other_plan;
  decodes = refl;
  reads = refl;
  compiles = refl;
  holds = refl;
}

abbrev receipt : ValidationReceipt
receipt = record {
  schema_version = 1;
  revision = [];
  profile = codes "p";
  scenario = codes "s";
  proof_plan_sha256 = [];
  capture_sha256 = [];
  validation_mode = [];
  outcome = verified;
  xfail_reason = [];
  scenario_shape_sha256 = [];
  proofs = [];
}

abbrev artifacts : List (Text × PlanArtifact)
artifacts = (codes "p", artifact) ∷ (codes "q", other_artifact) ∷ []

abbrev declared : List (Text × List Text)
declared = (codes "p", codes "s" ∷ []) ∷ (codes "q", codes "t" ∷ []) ∷ []

abbrev all_planned : ArePlanned registry artifacts
all_planned = All-ArePlanned registry artifacts (artifact-IsPlanned, (other_artifact-IsPlanned, tt))

coverages_from_plans_for_profiles-IsWarranted_example :
    All (IsWarrantedCoverage registry artifacts all_planned) (
      coverages_from_plans_for_profiles artifacts
        (receipt ∷ record receipt { profile = codes "q"; scenario = codes "t" } ∷ [])
        declared)
coverages_from_plans_for_profiles-IsWarranted_example =
    coverages_from_plans_for_profiles-IsWarranted registry artifacts
      (receipt ∷ record receipt { profile = codes "q"; scenario = codes "t" } ∷ []) declared
      all_planned
