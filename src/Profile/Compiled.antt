-- ===== src/Profile/Compiled.antt =====
-- report/report/profile.go: what a plan that CompileTelemetryProfile returns holds.
use rules_stests.Base.{
  ℕ, true, List, [], ◌≡◌, refl, sym, ap, ◌∙◌, ◌⊎◌, Text, codes, ok, guard, guard-eq-ok, >>=-eq-ok,
  mem, Distinct, IsSorted, sort_texts, sort_texts-IsSorted, sort_texts-Distinct, lookup, Option,
  some, All, ok-injective,
}
use mathlib.Core.Path.{subst}
use rules_stests.Receipt.Types.{ProofPlanProof}
use rules_stests.Scheme.Expr.{Sexpr, Sexprs}
use rules_stests.Profile.Types.{ParsedRule, RegistryFeature, ProfilePlan, incomplete, bad_language}
use rules_stests.Profile.Compile.{
  add_features, is_complete_plan, languages, known_signals, check_signals, check_identity,
  collect_sources, read_known, decoded, profile_form, compile_telemetry_profile, sort_proofs,
  finish_plan,
}
use rules_stests.Profile.Ordered.{
  ids_of, nothing-known, add_features-known, ids-known, All-sort_proofs, features_of-sort_proofs,
  is_nil-sort_proofs,
}
use rules_stests.Profile.Identity.{
  IsFilled, IsPlain, IsDatadog, filled, checked_signals, is_identity,
}
use rules_stests.Profile.Claimed.{IsProof}
use rules_stests.Profile.Sourced.{features_of, IsSourced}
use rules_stests.Profile.Gathered.{IsProgress, parse_clauses-Holds}
use rules_stests.Profile.Claimed.{parse_profile_claim-Proven}
use rules_stests.Profile.Claims.{parse_profile_claim}
use rules_stests.Profile.Clauses.{CompilerMaps, Progress, parse_clauses, start}
use rules_stests.Profile.Rules.{Rules, parse_known_shapes, parse_proof_rules}
use rules_stests.Profile.Ruled.{parse_proof_rules-IsRule}
use rules_stests.Profile.Lookup.{items_from, parse_source}
use rules_stests.Shape.Totals.{first_definition}

-- What is left of a plan when it is finished: the fields and lists it had, the proofs in order.
record IsFinished (plan finished : ProfilePlan) : Type 0 where
  complete : IsFilled finished
  language : mem finished.fields.language languages ≡ true
  signals : All (λ s. mem s known_signals ≡ true) finished.signals
  identity : IsPlain finished ⊎ IsDatadog finished
  sources : finished.sources ≡ plan.sources
  implementations : finished.implementations ≡ plan.implementations
  proofs : finished.proofs ≡ sort_proofs plan.proofs

version-IsFinished :
    (plan : ProfilePlan) (n : ℕ)
    → is_complete_plan plan ≡ true
    → mem plan.fields.language languages ≡ true
    → check_signals plan.signals ≡ ok tt
    → IsPlain (record plan { schema_version = n }) ⊎ IsDatadog (record plan { schema_version = n })
    → IsFinished plan (record plan { schema_version = n; proofs = sort_proofs plan.proofs })
version-IsFinished plan n c l g i =
    let full = filled plan c in
    record {
      complete = (full.0, full.1, full.2, is_nil-sort_proofs plan.proofs ∙ full.3);
      language = l;
      signals = checked_signals plan.signals g;
      identity = i;
      sources = refl;
      implementations = refl;
      proofs = refl;
    }

finish_plan-IsFinished :
    (plan : ProfilePlan) {finished : ProfilePlan}
    → plan.schema_version ≡ 1
    → finish_plan plan ≡ ok finished
    → IsFinished plan finished
unfolding finish_plan
finish_plan-IsFinished plan {finished = finished} v h =
    let (d, e, h1) = >>=-eq-ok (guard (is_complete_plan plan) incomplete) _ h in
    let (d', e', h2) =
      >>=-eq-ok (guard (mem plan.fields.language languages) (bad_language plan.fields.language)) _
        h1 in
    let (d'', e'', h3) = >>=-eq-ok (check_signals plan.signals) _ h2 in
    let (checked, h3', same) = >>=-eq-ok (check_identity plan) _ h3 in
    let (good, as_plan) = is_identity plan v h3' in
    let n = checked.schema_version in
    subst (IsFinished plan) (ok-injective same) (
      subst (λ z. IsFinished plan (record z { proofs = sort_proofs z.proofs })) (sym as_plan)
        (version-IsFinished plan n (guard-eq-ok (is_complete_plan plan) incomplete e)
          (guard-eq-ok (mem plan.fields.language languages) (bad_language plan.fields.language) e')
          e'' (subst (λ z. IsPlain z ⊎ IsDatadog z) as_plan good)))

-- What a plan that is compiled from these sources holds: its proofs are proofs of different
-- registered features, in the order of their names, and the links of their sources are in the plan;
-- its implementations are defined; what it says of its profile is complete and consistent.
pub record IsCompiled (features : List RegistryFeature) (implementation_sources : List Text)
    (proof_rule_source capture_shape_source : Text) (scenarios : List Text) (plan : ProfilePlan)
    : Type 0 where
  pub shapes : List Text
  pub rules : Rules
  pub bindings : List Text
  pub sources : List (Text × Text)
  pub shapes_read : parse_known_shapes capture_shape_source ≡ ok shapes
  pub rules_read : parse_proof_rules proof_rule_source shapes ≡ ok rules
  pub sources_read : collect_sources implementation_sources ([], []) ≡ ok (bindings, sources)
  pub proofs : All (IsProof (ids_of features) shapes sources rules scenarios) plan.proofs
  pub sorted : IsSorted (features_of plan.proofs)
  pub distinct : Distinct (features_of plan.proofs)
  pub sourced : All (IsSourced sources plan.sources) plan.proofs
  pub implementations_defined : All (λ b. mem b bindings ≡ true) plan.implementations
  pub complete : IsFilled plan
  pub language : mem plan.fields.language languages ≡ true
  pub signals_known : All (λ s. mem s known_signals ≡ true) plan.signals
  pub identity : IsPlain plan ⊎ IsDatadog plan

start-IsProgress :
    (registered shapes : List Text) (known : CompilerMaps)
    → IsProgress registered shapes known start
unfolding mem
start-IsProgress registered shapes known = record {
  proofs = tt;
  distinct = tt;
  seen = λ k h. cc h;
  sourced = tt;
  implementations = tt;
  version = refl;
}

compiled :
    (features : List RegistryFeature) (implementation_sources : List Text)
    (proof_rule_source capture_shape_source : Text) (maps : CompilerMaps) (shapes : List Text)
    → add_features features [] [] ≡ ok maps.feature_by_binding
    → parse_known_shapes capture_shape_source ≡ ok shapes
    → parse_proof_rules proof_rule_source shapes ≡ ok maps.rules
    → collect_sources implementation_sources ([], []) ≡ ok (maps.bindings, maps.sources)
    → (clauses : Sexprs) {parsed : Progress} {plan : ProfilePlan}
    → parse_clauses maps clauses start ≡ ok parsed
    → finish_plan parsed.plan ≡ ok plan
    → IsCompiled features implementation_sources proof_rule_source capture_shape_source
        maps.scenarios plan
compiled features implementation_sources proof_rule_source capture_shape_source maps shapes f1 f2 f3
      f4 clauses {parsed = parsed} {plan = plan} read finish =
    let ids = ids_of features in
    let registered =
      add_features-known ids features [] [] (nothing-known ids) (ids-known ids features (λ k h. h))
        f1 in
    let ruled = λ (id : Text) (rule : ParsedRule) (e : lookup id maps.rules ≡ some rule).
      parse_proof_rules-IsRule proof_rule_source shapes f3 id e in
    let claims =
      λ (clause : Sexpr) (proofs : List ProofPlanProof)
          (e : parse_profile_claim clause maps.feature_by_binding maps.sources maps.rules
              maps.scenarios
            ≡ ok proofs).
        parse_profile_claim-Proven ids shapes maps.feature_by_binding maps.sources maps.rules
          maps.scenarios registered ruled clause e in
    let i =
      parse_clauses-Holds ids shapes maps claims clauses start (start-IsProgress ids shapes maps)
        read in
    let w = finish_plan-IsFinished parsed.plan i.version finish in
    let order : features_of plan.proofs ≡ sort_texts (features_of parsed.plan.proofs) =
      ap features_of w.proofs ∙ features_of-sort_proofs parsed.plan.proofs in
    record {
      shapes = shapes;
      rules = maps.rules;
      bindings = maps.bindings;
      sources = maps.sources;
      shapes_read = f2;
      rules_read = f3;
      sources_read = f4;
      proofs =
          subst (All (IsProof ids shapes maps.sources maps.rules maps.scenarios)) (sym w.proofs) (
            All-sort_proofs (IsProof ids shapes maps.sources maps.rules maps.scenarios)
              parsed.plan.proofs i.proofs);
      sorted = subst IsSorted (sym order) (sort_texts-IsSorted (features_of parsed.plan.proofs));
      distinct =
          subst Distinct (sym order)
            (sort_texts-Distinct (features_of parsed.plan.proofs) i.distinct);
      sourced =
          subst (λ ps. All (IsSourced maps.sources plan.sources) ps) (sym w.proofs)
            (subst (λ z. All (IsSourced maps.sources z) (sort_proofs parsed.plan.proofs))
              (sym w.sources)
              (All-sort_proofs (IsSourced maps.sources parsed.plan.sources) parsed.plan.proofs
                i.sourced));
      implementations_defined =
          subst (All (λ b. mem b maps.bindings ≡ true)) (sym w.implementations) i.implementations;
      complete = w.complete;
      language = w.language;
      signals_known = w.signals;
      identity = w.identity;
    }

-- When CompileTelemetryProfile returns a plan, every proof of it is of a registered feature, has the
-- assertion and the policy of the feature's rule, asserts a known capture shape, and is either
-- observed, sufficient on the wire and without sources, or corroborated, with sources, where the
-- policy requires them; its scenarios are known, its sources are definitions that link to an
-- immutable source, and the plan has these links. The proofs are of different features, in order of
-- the features. The implementations are defined in the implementation sources. The metadata is
-- complete, the language and the signals are known, and the plan is of version 1 with no identity,
-- or a Datadog plan of version 2 with a complete identity and traces only.
pub compile_telemetry_profile-IsCompiled :
    (decode : Text → Option (List RegistryFeature)) (profile_source : Text)
    (implementation_sources : List Text)
    (registry_json proof_rule_source capture_shape_source : Text) (scenarios : List Text)
    {features : List RegistryFeature} {plan : ProfilePlan}
    → decode registry_json ≡ some features
    → compile_telemetry_profile decode profile_source implementation_sources registry_json
        proof_rule_source capture_shape_source scenarios
      ≡ ok plan
    → IsCompiled features implementation_sources proof_rule_source capture_shape_source scenarios
        plan
unfolding compile_telemetry_profile read_known decoded
compile_telemetry_profile-IsCompiled decode profile_source implementation_sources registry_json
      proof_rule_source capture_shape_source scenarios {features = features} {plan = plan} decodes
      h =
    let (found, e0, h0) = >>=-eq-ok (decoded (decode registry_json)) _ h in
    let (known, e, h1) =
      >>=-eq-ok
        (read_known implementation_sources found proof_rule_source capture_shape_source scenarios) _
        h0 in
    let (forms, e', h2) = >>=-eq-ok (parse_source profile_source) _ h1 in
    let (profile, e'', h3) =
      >>=-eq-ok (profile_form (first_definition (codes "profile") forms)) _ h2 in
    let (parsed, clauses, h4) = >>=-eq-ok (parse_clauses known (items_from 1 profile) start) _ h3 in
    let same : found ≡ features = ok-injective (sym e0 ∙ ap decoded decodes) in
    let (feature_by_binding, f1, g1) = >>=-eq-ok (add_features found [] []) _ e in
    let (shapes, f2, g2) = >>=-eq-ok (parse_known_shapes capture_shape_source) _ g1 in
    let (rules, f3, g3) = >>=-eq-ok (parse_proof_rules proof_rule_source shapes) _ g2 in
    let ((bindings, sources), f4, g4) =
      >>=-eq-ok (collect_sources implementation_sources ([], [])) _ g3 in
    let maps : CompilerMaps = record {
      feature_by_binding = feature_by_binding;
      bindings = bindings;
      sources = sources;
      rules = rules;
      scenarios = scenarios;
    } in
    let read : parse_clauses maps (items_from 1 profile) start ≡ ok parsed =
      subst (λ k. parse_clauses k (items_from 1 profile) start ≡ ok parsed) (sym (ok-injective g4))
        clauses in
    subst
      (λ fs.
        IsCompiled fs implementation_sources proof_rule_source capture_shape_source scenarios plan)
      same
      (compiled found implementation_sources proof_rule_source capture_shape_source maps shapes f1
        f2 f3 f4 (items_from 1 profile) read h4)
