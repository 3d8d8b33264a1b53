-- ===== src/Profile/Clauses.antt =====
-- report/report/profile.go: the loop of CompileTelemetryProfile over the clauses of a profile.
use rules_stests.Base.{
  Bool, not, ◌&&◌, ◌||◌, ◌==◌, List, [], ◌∷◌, ◌++◌, Text, codes, text_eq, is_nil, if◌then◌else◌,
  Result, ok, ◌>>=◌, guard, ◌>>◌, mem,
}
use rules_stests.Scheme.Expr.{
  Sexpr, Sexprs, nil, cons, is_str, atom_of, head, atom_value, unquote, quote,
}
use rules_stests.Receipt.Types.{ProofPlanProof}
use rules_stests.Receipt.Coverage.{assign, text_of}
use rules_stests.Profile.Types.{
  ProfileFields, ProfilePlan, no_plan, ProfileError, unknown_binding, duplicate_claim,
  bad_implementation, empty_language, duplicate_clause, malformed_clause, text_clause,
}
use rules_stests.Profile.Lookup.{item, items_from, size}
use rules_stests.Profile.Rules.{Rules}
use rules_stests.Profile.Claims.{parse_profile_claim}

-- What the clauses are read with: the maps that the compiler has built before.
pub record CompilerMaps : Type 0 where
  pub feature_by_binding : List (Text × Text)
  pub bindings : List Text
  pub sources : List (Text × Text)
  pub rules : Rules
  pub scenarios : List Text

pub record Progress : Type 0 where
  pub plan : ProfilePlan
  pub seen_claims : List Text
  pub seen_singleton : List Text

abbrev pub identity_clauses : List Text
identity_clauses =
    codes "family"
    ∷ codes "wire-version"
    ∷ codes "application"
    ∷ codes "shape-namespace"
    ∷ codes "tracer-language"
    ∷ codes "tracer-version"
    ∷ codes "server-operation"
    ∷ []

abbrev pub text_clauses : List Text
text_clauses = codes "display-name" ∷ codes "framework" ∷ codes "service-name" ∷ []

abbrev pub field_clauses : List Text
field_clauses = codes "id" ∷ codes "language" ∷ identity_clauses ++ text_clauses

abbrev pub singleton_clauses : List Text
singleton_clauses = codes "signals" ∷ codes "implementation" ∷ field_clauses

-- The identity clauses that must hold a string.
abbrev pub string_clauses : List Text
string_clauses = codes "tracer-language" ∷ codes "tracer-version" ∷ codes "server-operation" ∷ []

unfoldable pub set_identity : Text → (value : Text) → ProfileFields → ProfileFields
set_identity name value fields =
    if text_eq name (codes "family")
    then record fields { family = value }
    else if text_eq name (codes "wire-version")
    then record fields { wire_version = value }
    else if text_eq name (codes "application")
    then record fields { application = value }
    else if text_eq name (codes "shape-namespace")
    then record fields { shape_namespace = value }
    else if text_eq name (codes "tracer-language")
    then record fields { tracer_language = value }
    else if text_eq name (codes "tracer-version")
    then record fields { tracer_version = value }
    else record fields { server_operation = value }

unfoldable pub set_text : Text → (value : Text) → ProfileFields → ProfileFields
set_text name value fields =
    if text_eq name (codes "display-name")
    then record fields { display_name = value }
    else if text_eq name (codes "framework")
    then record fields { framework = value }
    else record fields { service_name = value }

unfoldable pub identity_clause : Text → Sexpr → ProfileFields → Result ProfileError ProfileFields
identity_clause name clause fields = do
  guard (size clause == 2) (malformed_clause name)
  guard (not (mem name string_clauses && not (is_str (item 1 clause)))) (text_clause name)
  let value = atom_value (unquote (item 1 clause))
  guard (not (text_eq name (codes "tracer-language") && is_nil value)) empty_language
  ok (set_identity name value fields)

-- A language is a quoted atom.
unfoldable pub is_language : Sexpr → Bool
is_language value =
    size value == 2
    && text_eq (head value) quote
    && not (is_nil (atom_of (item 1 value)))
    && not (is_str (item 1 value))
    && size (item 1 value) == 0

unfoldable pub field_clause : Text → Sexpr → ProfileFields → Result ProfileError ProfileFields
field_clause name clause fields =
    let of_id =
      guard (size clause == 2) (malformed_clause name)
      >> ok (record fields { profile = atom_value (unquote (item 1 clause)) }) in
    let of_language =
      guard (size clause == 2 && is_language (item 1 clause)) (malformed_clause name)
      >> ok (record fields { language = atom_value (unquote (item 1 clause)) }) in
    let of_text =
      guard (size clause == 2 && is_str (item 1 clause)) (malformed_clause name)
      >> ok (set_text name (atom_of (item 1 clause)) fields) in
    let of_identity = identity_clause name clause fields in
    if text_eq name (codes "id")
    then of_id
    else if text_eq name (codes "language")
    then of_language
    else if mem name text_clauses
    then of_text
    else of_identity

unfoldable pub signal_values : Sexprs → List Text
signal_values nil = []
signal_values (cons x xs) = atom_value (unquote x) ∷ signal_values xs

unfoldable pub implementation_values :
    (bindings : List Text) → Sexprs → Result ProfileError (List Text)
implementation_values bindings nil = ok []
implementation_values bindings (cons x xs) = do
  guard (mem (atom_value x) bindings) (unknown_binding (atom_value x))
  values ← implementation_values bindings xs
  ok (atom_value x ∷ values)

unfoldable pub put_sources :
    (sources : List (Text × Text)) → List Text → List (Text × Text) → List (Text × Text)
put_sources sources [] found = found
put_sources sources (name ∷ names) found =
    put_sources sources names (assign name (text_of name sources) found)

unfoldable pub add_proof :
    (sources : List (Text × Text)) → ProofPlanProof → Progress → Result ProfileError Progress
add_proof sources proof p =
    guard (not (mem proof.feature_id p.seen_claims)) (duplicate_claim proof.feature_id)
    >> ok (record p {
      plan = record p.plan {
        sources = put_sources sources proof.sources p.plan.sources;
        proofs = p.plan.proofs ++ (proof ∷ []);
      };
      seen_claims = proof.feature_id ∷ p.seen_claims;
    })

unfoldable pub add_proofs :
    (sources : List (Text × Text)) → List ProofPlanProof → Progress → Result ProfileError Progress
add_proofs sources [] p = ok p
add_proofs sources (proof ∷ proofs) p = add_proof sources proof p >>= add_proofs sources proofs

unfoldable pub signals_clause : Sexpr → ProfilePlan → ProfilePlan
signals_clause clause plan = record plan {
  signals = plan.signals ++ signal_values (items_from 1 clause);
}

unfoldable pub implementation_clause :
    CompilerMaps → Sexpr → ProfilePlan → Result ProfileError ProfilePlan
implementation_clause known clause plan = do
  guard (size clause == 2 && text_eq (head (item 1 clause)) (codes "compose")) bad_implementation
  values ← implementation_values known.bindings (items_from 1 (item 1 clause))
  ok (record plan { implementations = plan.implementations ++ values })

unfoldable pub claim_clause : CompilerMaps → Sexpr → Progress → Result ProfileError Progress
claim_clause known clause p = do
  proofs ←
      parse_profile_claim clause known.feature_by_binding known.sources known.rules known.scenarios
  add_proofs known.sources proofs p

-- The switch, on the name of the clause.
unfoldable pub apply_clause : CompilerMaps → Text → Sexpr → Progress → Result ProfileError Progress
apply_clause known name clause p =
    let of_field = field_clause name clause p.plan.fields >>= λ fields.
    ok (record p { plan = record p.plan { fields = fields } }) in
    let of_implementation =
      implementation_clause known clause p.plan >>= λ plan. ok (record p { plan = plan }) in
    let of_claim = claim_clause known clause p in
    if mem name field_clauses
    then of_field
    else if text_eq name (codes "signals")
    then ok (record p { plan = signals_clause clause p.plan })
    else if text_eq name (codes "implementation")
    then of_implementation
    else if text_eq name (codes "all") || text_eq name (codes "scenario")
    then of_claim
    else ok p

-- A clause of one of the names that may occur once is noted.
unfoldable pub note_singleton : Text → Progress → Result ProfileError Progress
note_singleton name p =
    let noted =
      guard (not (mem name p.seen_singleton)) (duplicate_clause name)
      >> ok (record p { seen_singleton = name ∷ p.seen_singleton }) in
    if mem name singleton_clauses then noted else ok p

unfoldable pub parse_clauses : CompilerMaps → Sexprs → Progress → Result ProfileError Progress
parse_clauses known nil p = ok p
parse_clauses known (cons clause clauses) p = do
  noted ← note_singleton (head clause) p
  applied ← apply_clause known (head clause) clause noted
  parse_clauses known clauses applied

abbrev pub start : Progress
start = record { plan = no_plan; seen_claims = []; seen_singleton = [] }
