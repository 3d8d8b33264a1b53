-- ===== src/Report/Claims.antt =====
-- report/report/report.go: the first half of BuildModelForProfiles, which checks the scenarios of
-- each profile, the features and the feature claims, and indexes them.
use rules_stests.Base.{
  Bool, not, ◌||◌, List, [], ◌∷◌, ltb, Text, codes, length, is_nil, text_eq, mem, add, keys,
  if◌then◌else◌, Result, ok, ◌>>=◌, ◌>>◌, guard,
}
use rules_stests.Receipt.Coverage.{FeatureClaim, ProfileProofCoverage, assign, entries_of}
use rules_stests.Receipt.Types.{Evidence}
use rules_stests.Report.Types.{
  Feature, ModelError, unknown_member, unknown_scenario, no_declared, duplicate_feature,
  unknown_plan, duplicate_plan, unknown_feature, duplicate_claim, invalid_basis, no_assertion,
  invalid_scope, claim_unknown_scenario, claim_undeclared_scenario, no_upstream,
}
use rules_stests.Report.Evidence.{validate_evidence, validate_sources}

unfoldable pub string_set : List Text → List Text
string_set [] = []
string_set (v ∷ vs) = add v (string_set vs)

unfoldable pub collect_scenarios :
    List Text → Text → List Text → List Text → Result ModelError (List Text)
collect_scenarios scenario_set profile [] set = ok set
collect_scenarios scenario_set profile (s ∷ ss) set =
    guard (mem s scenario_set) (unknown_scenario profile s)
    >> collect_scenarios scenario_set profile ss (add s set)

-- `profileScenarioSets`.
unfoldable pub collect_members :
    List Text
    → List Text
    → List (Text × List Text)
    → List (Text × List Text)
    → Result ModelError (List (Text × List Text))
collect_members profile_set scenario_set [] sets = ok sets
collect_members profile_set scenario_set ((profile, declared) ∷ more) sets = do
  guard (mem profile profile_set) (unknown_member profile)
  set ← collect_scenarios scenario_set profile declared []
  collect_members profile_set scenario_set more (assign profile set sets)

unfoldable pub check_members : List (Text × List Text) → List Text → Result ModelError (Unit {0})
check_members sets [] = ok tt
check_members sets (profile ∷ more) =
    guard (not (is_nil (entries_of profile sets))) (no_declared profile) >> check_members sets more

-- `featureSet`.
unfoldable pub collect_features : List Feature → List Text → Result ModelError (List Text)
collect_features [] set = ok set
collect_features (f ∷ fs) set =
    guard (not (mem f.id set)) (duplicate_feature f.id) >> collect_features fs (f.id ∷ set)

-- The sets that the later checks read.
pub record Known : Type 0 where
  pub profile_set : List Text
  pub scenario_set : List Text
  pub feature_set : List Text
  pub members : List (Text × List Text)
  pub paths : List Text

unfoldable pub check_scope : Known → Text → Text → List Text → Result ModelError (Unit {0})
check_scope known profile feature [] = ok tt
check_scope known profile feature (s ∷ ss) = do
  guard (mem s known.scenario_set) (claim_unknown_scenario profile feature s)
  guard (mem s (entries_of profile known.members)) (claim_undeclared_scenario profile feature s)
  check_scope known profile feature ss

-- `items[1:]`, of a list that is not empty.
unfoldable pub upstream : List Evidence → List Evidence
upstream [] = []
upstream (item ∷ items) = items

-- `all == (len(scenarios) > 0)` is refused.
unfoldable pub has_scope : FeatureClaim → Bool
has_scope c = if c.all_scenarios then is_nil c.scenarios else not (is_nil c.scenarios)

unfoldable pub check_corroborated : Text → FeatureClaim → Result ModelError (Unit {0})
check_corroborated profile c =
    if text_eq c.basis (codes "corroborated")
    then guard (ltb 1 (length c.evidence)) (no_upstream profile c.feature_id)
      >> validate_sources (upstream c.evidence)
    else ok tt

unfoldable pub check_claim :
    Known → Text → List (Text × FeatureClaim) → FeatureClaim → Result ModelError (Unit {0})
check_claim known profile stored c = do
  guard (mem c.feature_id known.feature_set) (unknown_feature profile c.feature_id)
  guard (not (mem c.feature_id (keys stored))) (duplicate_claim profile c.feature_id)
  guard (text_eq c.basis (codes "observed") || text_eq c.basis (codes "corroborated"))
      (invalid_basis profile c.feature_id)
  guard (not (is_nil c.assertion)) (no_assertion profile c.feature_id)
  guard (has_scope c) (invalid_scope profile c.feature_id)
  check_scope known profile c.feature_id c.scenarios
  validate_evidence known.paths c.evidence
  check_corroborated profile c

unfoldable pub store_claims :
    Known
    → Text
    → List FeatureClaim
    → List (Text × FeatureClaim)
    → Result ModelError (List (Text × FeatureClaim))
store_claims known profile [] stored = ok stored
store_claims known profile (c ∷ cs) stored =
    check_claim known profile stored c >> store_claims known profile cs ((c.feature_id, c) ∷ stored)

-- `coverageClaims`.
unfoldable pub collect_claims :
    Known
    → List ProfileProofCoverage
    → List (Text × List (Text × FeatureClaim))
    → Result ModelError (List (Text × List (Text × FeatureClaim)))
collect_claims known [] claims = ok claims
collect_claims known (c ∷ cs) claims = do
  guard (mem c.profile known.profile_set) (unknown_plan c.profile)
  guard (not (mem c.profile (keys claims))) (duplicate_plan c.profile)
  validate_evidence known.paths (c.source ∷ [])
  stored ← store_claims known c.profile c.claims []
  collect_claims known cs ((c.profile, stored) ∷ claims)
