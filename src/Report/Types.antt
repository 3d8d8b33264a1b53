-- ===== src/Report/Types.antt =====
-- report/report/model.go: features, manifests and the tables of the report; the errors of
-- BuildModelForProfiles.
use rules_stests.Base.{ℕ, List, Text, Bool}
use rules_stests.Receipt.Types.{Evidence}
use rules_stests.Report.Compare.{Comparison}
use rules_stests.Shape.Totals.{ScenarioShape}

pub record Feature : Type 0 where
  pub id : Text
  pub category : Text
  pub group : Text
  pub name : Text
  pub optional : Text
  pub support : List (Text × Text)
  pub source : Text

pub record Verification : Type 0 where
  pub feature_id : Text
  pub state : Text
  pub basis : Text
  pub assertion : Text
  pub scenarios : List Text
  pub evidence : List Evidence

pub record Manifest : Type 0 where
  pub schema_version : ℕ
  pub profile : Text
  pub display_name : Text
  pub language : Text
  pub framework : Text
  pub instrumentation_version : Text
  pub version : Text
  pub short_label : Text
  pub unexercised : Bool
  pub profile_evidence : List Evidence
  pub base_coverage : Text
  pub default_verification : Text
  pub verifications : List Verification

pub record CoverageCell : Type 0 where
  pub profile : Text
  pub scenario : Text
  pub state : Text
  pub declared : Bool

-- The tables of the report. Metadata is copied through.
pub record ReportModel : Type 0 where
  pub features : List Feature
  pub manifests : List Manifest
  pub verification : List (Text × List (Text × Verification))
  pub scenarios : List Text
  pub coverage : List CoverageCell
  pub comparisons : List Comparison
  pub shapes : List ScenarioShape

-- One constructor for each message. An error of the evidence is passed on without the prefix that
-- names its owner.
pub data ModelError : Type 0 where
  missing_evidence incomplete_evidence : ModelError
  invalid_href broken_path : Text → ModelError
  not_https mutable_url unpinned_url short_revision bad_revision : ModelError
  unknown_member no_declared duplicate_feature : Text → ModelError
  unknown_scenario : Text → Text → ModelError
  unknown_plan duplicate_plan : Text → ModelError
  unknown_feature duplicate_claim invalid_basis no_assertion invalid_scope :
      Text → Text → ModelError
  claim_unknown_scenario claim_undeclared_scenario : Text → Text → Text → ModelError
  no_upstream : Text → Text → ModelError
  bad_schema unknown_manifest duplicate_manifest bad_language : Text → ModelError
  missing_metadata : ModelError
  bad_default verified_default bad_coverage : Text → ModelError
  unknown_verification duplicate_verification bad_state : Text → Text → ModelError
  verified_by_hand contradicted : Text → Text → ModelError
  no_manifest no_plan : Text → ModelError
  shape_profile shape_scenario : Text → ModelError
  shape_undeclared duplicate_shape : Text → Text → ModelError
