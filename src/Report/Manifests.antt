-- ===== src/Report/Manifests.antt =====
-- report/report/report.go: the checks of BuildModelForProfiles on the manifests, which also fill in
-- two defaults; report/report/profile.go: FormatProfileLabel.
use rules_stests.Base.{
  Bool, not, ◌&&◌, ◌||◌, List, [], ◌∷◌, ◌++◌, ◌==◌, ◌-◌, leb, if◌then◌else◌, Text, codes, is_nil,
  text_eq, mem, lookup, keys, Option, none, some, Result, ok, ◌>>=◌, ◌>>◌, guard, true, false,
}
use rules_stests.Receipt.Coverage.{FeatureClaim}
use rules_stests.Receipt.Validate.{verified}
use rules_stests.Report.Types.{
  Manifest, Verification, ModelError, bad_schema, missing_metadata, unknown_manifest,
  duplicate_manifest, bad_language, bad_default, verified_default, bad_coverage,
  unknown_verification, duplicate_verification, bad_state, verified_by_hand, contradicted,
  missing_evidence, no_manifest, no_plan,
}
use rules_stests.Report.Evidence.{validate_evidence}
use rules_stests.Report.Claims.{Known}

-- `strings.ToUpper(value[:1]) + value[1:]`, of ASCII: other languages are refused behind it.
unfoldable pub title_case : Text → Text
title_case [] = []
title_case (c ∷ cs) = (if leb b'a' c && leb c b'z' then c - 32 else c) ∷ cs

-- With no implementations, as BuildModelForProfiles calls it.
unfoldable pub format_profile_label : Text → Text → Text
format_profile_label language framework =
    if is_nil framework
    then title_case language
    else title_case language ++ codes " · " ++ framework

unfoldable pub is_verification_state : Text → Bool
is_verification_state s =
    text_eq s verified
    || text_eq s (codes "known_gap")
    || text_eq s (codes "not_exercised")
    || text_eq s (codes "not_applicable")

unfoldable pub is_coverage_state : Text → Bool
is_coverage_state s = text_eq s (codes "contract_only") || text_eq s (codes "unavailable")

-- `coverageClaims[profile][feature]`, present or not.
unfoldable pub claim_at :
    Text → Text → List (Text × List (Text × FeatureClaim)) → Option FeatureClaim
claim_at profile feature claims = elim (lookup profile claims) [
  | none ↦ none
  | some stored ↦ lookup feature stored
]

unfoldable pub is_claimed : Text → Text → List (Text × List (Text × FeatureClaim)) → Bool
is_claimed profile feature claims = elim (claim_at profile feature claims) [
  | none ↦ false
  | some c ↦ true
]

unfoldable pub check_verification :
    Known
    → List (Text × List (Text × FeatureClaim))
    → Text
    → List Text
    → Verification
    → Result ModelError (Unit {0})
check_verification known claims profile seen v = do
  guard (mem v.feature_id known.feature_set) (unknown_verification profile v.feature_id)
  guard (not (mem v.feature_id seen)) (duplicate_verification profile v.feature_id)
  guard (is_verification_state v.state) (bad_state profile v.feature_id)
  guard (not (text_eq v.state verified)) (verified_by_hand profile v.feature_id)
  guard (not (is_claimed profile v.feature_id claims)) (contradicted profile v.feature_id)
  guard (not (is_nil v.evidence)) missing_evidence
  validate_evidence known.paths v.evidence

unfoldable pub check_verifications :
    Known
    → List (Text × List (Text × FeatureClaim))
    → Text
    → List Text
    → List Verification
    → Result ModelError (Unit {0})
check_verifications known claims profile seen [] = ok tt
check_verifications known claims profile seen (v ∷ vs) =
    check_verification known claims profile seen v
    >> check_verifications known claims profile (v.feature_id ∷ seen) vs

unfoldable pub has_metadata : Manifest → Bool
has_metadata m = not (
    is_nil m.profile
    || is_nil m.display_name
    || is_nil m.language
    || is_nil m.framework
    || is_nil m.instrumentation_version)

-- The two fields that a manifest may leave empty.
unfoldable pub with_defaults : Manifest → Manifest
with_defaults m = record m {
  version = if is_nil m.version then m.instrumentation_version else m.version;
  short_label =
      if is_nil m.short_label then format_profile_label m.language m.framework else m.short_label;
}

unfoldable pub is_supported : Text → Bool
is_supported language =
    text_eq language (codes "go")
    || text_eq language (codes "python")
    || text_eq language (codes "ruby")

unfoldable pub check_manifest :
    Known
    → List (Text × List (Text × FeatureClaim))
    → List Text
    → Manifest
    → Result ModelError (Unit {0})
check_manifest known claims seen m = do
  guard (m.schema_version == 1) (bad_schema m.profile)
  guard (has_metadata m) missing_metadata
  guard (mem m.profile known.profile_set) (unknown_manifest m.profile)
  guard (not (mem m.profile seen)) (duplicate_manifest m.profile)
  guard (is_supported m.language) (bad_language m.profile)
  guard (is_verification_state m.default_verification) (bad_default m.profile)
  guard (not (text_eq m.default_verification verified)) (verified_default m.profile)
  guard (is_coverage_state m.base_coverage) (bad_coverage m.profile)
  validate_evidence known.paths m.profile_evidence
  check_verifications known claims m.profile [] m.verifications

-- The manifests with their defaults, and `manifestProfiles`.
unfoldable pub check_manifests :
    Known
    → List (Text × List (Text × FeatureClaim))
    → List Manifest
    → List Text
    → Result ModelError (List Manifest × List Text)
check_manifests known claims [] seen = ok ([], seen)
check_manifests known claims (m ∷ ms) seen =
    check_manifest known claims seen m
    >> (check_manifests known claims ms (m.profile ∷ seen) >>= λ (done, all).
        ok (with_defaults m ∷ done, all))

-- Every profile has a manifest and a plan.
unfoldable pub check_profiles :
    List Text → List (Text × List (Text × FeatureClaim)) → List Text → Result ModelError (Unit {0})
check_profiles manifest_set claims [] = ok tt
check_profiles manifest_set claims (p ∷ ps) = do
  guard (mem p manifest_set) (no_manifest p)
  guard (mem p (keys claims)) (no_plan p)
  check_profiles manifest_set claims ps
