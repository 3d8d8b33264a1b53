-- ===== src/Profile/Compile.antt =====
-- report/report/profile.go: CompileTelemetryProfile; CompileNormalizedProfile only calls it.
-- `decode` stands for json.Unmarshal of the standard registry: the features.
use rules_stests.Base.{
  Bool, false, not, ◌&&◌, ◌||◌, List, [], ◌∷◌, Text, codes, text_eq, is_nil, if◌then◌else◌, Result,
  ok, err, ◌>>=◌, guard, ◌>>◌, mem, text_lt, Option, none, some,
}
use rules_stests.Scheme.Expr.{Sexpr, head}
use rules_stests.Receipt.Types.{ProofPlanProof}
use rules_stests.Receipt.Coverage.{text_of}
use rules_stests.Shape.Totals.{first_definition}
use rules_stests.Profile.Types.{
  RegistryFeature, ProfileFields, ProfilePlan, ProfileError, bad_registry, bad_feature, no_profile,
  incomplete, bad_language, bad_signal, bad_identity, only_traces, needs_operation, needs_family,
}
use rules_stests.Profile.Lookup.{
  items_from, parse_source, Definitions, collect_implementation_definitions,
}
use rules_stests.Profile.Rules.{parse_known_shapes, parse_proof_rules}
use rules_stests.Profile.Clauses.{CompilerMaps, parse_clauses, start}

-- The loop over the registry, with `knownIDs` and `featureByBinding`.
unfoldable pub add_features :
    List RegistryFeature
    → (known_ids : List Text) → (feature_by_binding : List (Text × Text))
    → Result ProfileError (List (Text × Text))
add_features [] known_ids feature_by_binding = ok feature_by_binding
add_features (f ∷ features) known_ids feature_by_binding =
    guard
      (not (
        is_nil f.id
        || is_nil f.binding
        || mem f.id known_ids
        || not (is_nil (text_of f.binding feature_by_binding))))
      bad_feature
    >> add_features features (f.id ∷ known_ids) ((f.binding, f.id) ∷ feature_by_binding)

unfoldable pub collect_sources : List Text → Definitions → Result ProfileError Definitions
collect_sources [] found = ok found
collect_sources (source ∷ sources) found = do
  forms ← parse_source source
  more ← collect_implementation_definitions forms found
  collect_sources sources more

unfoldable pub profile_form : Option Sexpr → Result ProfileError Sexpr
profile_form none = err no_profile
profile_form (some e) = guard (text_eq (head e) (codes "realworld-profile")) no_profile >> ok e

unfoldable pub is_complete_plan : ProfilePlan → Bool
is_complete_plan plan =
    let f = plan.fields in
    not (
      is_nil f.profile
      || is_nil f.display_name
      || is_nil f.language
      || is_nil f.framework
      || is_nil f.service_name
      || is_nil plan.signals
      || is_nil plan.implementations
      || is_nil plan.proofs)

abbrev pub languages : List Text
languages = codes "go" ∷ codes "python" ∷ codes "ruby" ∷ []

abbrev pub known_signals : List Text
known_signals = codes "traces" ∷ codes "metrics" ∷ codes "logs" ∷ []

unfoldable pub check_signals : List Text → Result ProfileError (Unit {0})
check_signals [] = ok tt
check_signals (s ∷ signals) = guard (mem s known_signals) (bad_signal s) >> check_signals signals

unfoldable pub has_identity : ProfileFields → Bool
has_identity f =
    text_eq f.family (codes "datadog")
    && (text_eq f.wire_version (codes "v0.4") || text_eq f.wire_version (codes "v0.5"))
    && not (is_nil f.application)
    && not (is_nil f.shape_namespace)
    && not (is_nil f.tracer_version)

unfoldable pub traces_only : List Text → Bool
traces_only (s ∷ []) = text_eq s (codes "traces")
traces_only _ = false

unfoldable pub check_datadog_plan : ProfilePlan → Result ProfileError (Unit {0})
check_datadog_plan plan = do
  guard (has_identity plan.fields) bad_identity
  guard (traces_only plan.signals) only_traces
  guard
      (not (
        text_eq plan.fields.application (codes "rails")
        && not (text_eq plan.fields.server_operation (codes "rack.request"))))
      needs_operation

unfoldable pub has_no_identity : ProfileFields → Bool
has_no_identity f =
    is_nil f.wire_version
    && is_nil f.application
    && is_nil f.shape_namespace
    && is_nil f.tracer_language
    && is_nil f.tracer_version
    && is_nil f.server_operation

-- A family with its identity makes a plan of version 2; without a family there is no identity.
unfoldable pub check_identity : ProfilePlan → Result ProfileError ProfilePlan
check_identity plan =
    let identified = check_datadog_plan plan >> ok (record plan { schema_version = 2 }) in
    let plain = guard (has_no_identity plan.fields) needs_family >> ok plan in
    if is_nil plan.fields.family then plain else identified

-- `sort.Slice` by feature: no two proofs have one feature, so the algorithm does not show.
unfoldable pub insert_proof : ProofPlanProof → List ProofPlanProof → List ProofPlanProof
insert_proof p [] = p ∷ []
insert_proof p (q ∷ proofs) =
    if text_lt q.feature_id p.feature_id then q ∷ insert_proof p proofs else p ∷ q ∷ proofs

unfoldable pub sort_proofs : List ProofPlanProof → List ProofPlanProof
sort_proofs [] = []
sort_proofs (p ∷ proofs) = insert_proof p (sort_proofs proofs)

-- What follows the loop over the clauses.
unfoldable pub finish_plan : ProfilePlan → Result ProfileError ProfilePlan
finish_plan plan = do
  guard (is_complete_plan plan) incomplete
  guard (mem plan.fields.language languages) (bad_language plan.fields.language)
  check_signals plan.signals
  checked ← check_identity plan
  ok (record checked { proofs = sort_proofs checked.proofs })

-- What the sources give before the profile is read.
unfoldable pub read_known :
    (implementation_sources : List Text)
    → List RegistryFeature
    → (proof_rule_source capture_shape_source : Text) → (scenarios : List Text)
    → Result ProfileError CompilerMaps
read_known implementation_sources features proof_rule_source capture_shape_source scenarios = do
  feature_by_binding ← add_features features [] []
  known_shapes ← parse_known_shapes capture_shape_source
  rules ← parse_proof_rules proof_rule_source known_shapes
  (bindings, sources) ← collect_sources implementation_sources ([], [])
  ok (record {
    feature_by_binding = feature_by_binding;
    bindings = bindings;
    sources = sources;
    rules = rules;
    scenarios = scenarios;
  })

unfoldable pub decoded : Option (List RegistryFeature) → Result ProfileError (List RegistryFeature)
decoded none = err bad_registry
decoded (some features) = ok features

unfoldable pub compile_telemetry_profile :
    (decode : Text → Option (List RegistryFeature))
    → (profile_source : Text) → (implementation_sources : List Text)
    → (registry_json proof_rule_source capture_shape_source : Text) → (scenarios : List Text)
    → Result ProfileError ProfilePlan
compile_telemetry_profile decode profile_source implementation_sources registry_json
      proof_rule_source capture_shape_source scenarios =
    do
      features ← decoded (decode registry_json)
      known ←
          read_known implementation_sources features proof_rule_source capture_shape_source
            scenarios
      forms ← parse_source profile_source
      profile ← profile_form (first_definition (codes "profile") forms)
      parsed ← parse_clauses known (items_from 1 profile) start
      finish_plan parsed.plan
