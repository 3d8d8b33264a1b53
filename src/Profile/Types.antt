-- ===== src/Profile/Types.antt =====
-- report/report/model.go: NormalizedProfilePlan; report/report/profile.go: registryDocument,
-- parsedRule and the errors. The texts of a plan, one for each clause, are a record of
-- their own; the compiler never sets the reference profile.
use rules_stests.Base.{ℕ, Text, List, [], Result, ok, err}
use rules_stests.Scheme.Lexer.{SchemeError}
use rules_stests.Report.Types.{ModelError}
use rules_stests.Receipt.Types.{NormalizedProfilePlan, ProofPlanProof}

pub record RegistryFeature : Type 0 where
  pub id : Text
  pub binding : Text

pub record ProfileFields : Type 0 where
  pub family : Text
  pub wire_version : Text
  pub application : Text
  pub shape_namespace : Text
  pub tracer_language : Text
  pub tracer_version : Text
  pub server_operation : Text
  pub profile : Text
  pub display_name : Text
  pub language : Text
  pub framework : Text
  pub service_name : Text

pub record ProfilePlan : Type 0 where
  pub fields : ProfileFields
  pub schema_version : ℕ
  pub signals : List Text
  pub implementations : List Text
  pub sources : List (Text × Text)
  pub proofs : List ProofPlanProof

abbrev pub no_fields : ProfileFields
no_fields = record {
  family = [];
  wire_version = [];
  application = [];
  shape_namespace = [];
  tracer_language = [];
  tracer_version = [];
  server_operation = [];
  profile = [];
  display_name = [];
  language = [];
  framework = [];
  service_name = [];
}

abbrev pub no_plan : ProfilePlan
no_plan = record {
  fields = no_fields;
  schema_version = 1;
  signals = [];
  implementations = [];
  sources = [];
  proofs = [];
}

-- The fields that receipts are held against.
abbrev pub receipt_plan : ProfilePlan → NormalizedProfilePlan
receipt_plan plan = record {
  profile = plan.fields.profile;
  sources = plan.sources;
  proofs = plan.proofs;
}

pub record ParsedRule : Type 0 where
  pub assertion : Text
  pub policy : Text

-- The errors of `clauseValue`.
pub data ClauseError : Type 0 where
  duplicate_value malformed_value missing_value : ClauseError

-- One constructor for each message, with the texts that it quotes.
pub data ProfileError : Type 0 where
  bad_source : SchemeError → ProfileError
  bad_registry bad_feature : ProfileError
  no_shapes malformed_shape empty_shapes : ProfileError
  bad_shape : Text → ProfileError
  no_rules malformed_rule : ProfileError
  duplicate_rule bad_policy : Text → ProfileError
  bad_clause : (id name : Text) → ClauseError → ProfileError
  unknown_shape : (id assertion : Text) → ProfileError
  duplicate_binding unknown_binding : Text → ProfileError
  malformed_all malformed_scenario empty_scope malformed_observed malformed_corroborated :
      ProfileError
  unknown_scope unknown_anchor bad_basis unknown_feature unruled_feature : Text → ProfileError
  bad_anchor : Text → ModelError → ProfileError
  needs_source needs_observed duplicate_claim : Text → ProfileError
  no_profile incomplete bad_implementation empty_language bad_identity only_traces : ProfileError
  needs_operation needs_family : ProfileError
  duplicate_clause malformed_clause text_clause : Text → ProfileError
  bad_language bad_signal : Text → ProfileError

-- The error of another reader, passed on.
abbrev pub lifted {ℓ κ ι} :
    {E : Type ℓ} {F : Type κ} {A : Type ι} → (E → F) → Result E A → Result F A
lifted f (err e) = err (f e)
lifted f (ok a) = ok a
