-- ===== src/Profile/Rules.antt =====
-- report/report/profile.go: the capture shapes that are known, and the proof rules: parseKnownShapes,
-- clauseValue, parseProofRuleTable, parseProofRules and ParseProofRuleAssertions. A map of rules is
-- walked in its own order, so the first unknown shape of that order is the one reported.
use rules_stests.Base.{
  not, ◌&&◌, ◌||◌, ◌==◌, leb, List, [], ◌∷◌, ◌++◌, Text, codes, text_eq, is_nil, if◌then◌else◌,
  Result, ok, err, ◌>>=◌, guard, ◌>>◌, mem, lookup, Option, none, some,
}
use rules_stests.Scheme.Expr.{
  Sexpr, Sexprs, node, nil, cons, list_of, is_str, atom_of, head, atom_value, unquote,
}
use rules_stests.Shape.Totals.{first_definition}
use rules_stests.Receipt.Coverage.{assign}
use rules_stests.Profile.Types.{
  ParsedRule, ClauseError, duplicate_value, malformed_value, missing_value, ProfileError, no_shapes,
  malformed_shape, empty_shapes, bad_shape, no_rules, malformed_rule, duplicate_rule, bad_policy,
  bad_clause, unknown_shape, lifted,
}
use rules_stests.Profile.Lookup.{item, items_from, size, has_suffix, parse_source, is_definition}

unfoldable pub add_shape : Sexpr → List Text → Result ProfileError (List Text)
add_shape shape shapes = do
  guard (text_eq (head shape) (codes "capture-shape") && leb 3 (size shape)) malformed_shape
  let name = atom_value (unquote (item 1 shape))
  guard (not (is_nil name || mem name shapes)) (bad_shape name)
  ok (name ∷ shapes)

unfoldable pub add_shapes : Sexprs → List Text → Result ProfileError (List Text)
add_shapes nil shapes = ok shapes
add_shapes (cons x xs) shapes = add_shape x shapes >>= add_shapes xs

abbrev pub shape_items : Sexpr → Sexprs
shape_items items =
    if text_eq (head items) (codes "list") then items_from 1 items else list_of items

unfoldable pub shapes_of : Option Sexpr → Result ProfileError (List Text)
shapes_of none = err no_shapes
shapes_of (some value) = do
  shapes ← add_shapes (shape_items (unquote value)) []
  guard (not (is_nil shapes)) empty_shapes
  ok shapes

unfoldable pub parse_known_shapes : Text → Result ProfileError (List Text)
parse_known_shapes source = do
  forms ← parse_source source
  shapes_of (first_definition (codes "capture-shapes") forms)

-- The loop of `clauseValue`, with the value that it has found.
unfoldable pub clause_from : Text → Sexprs → Option Sexpr → Result ClauseError Sexpr
clause_from name nil none = err missing_value
clause_from name nil (some value) = ok value
clause_from name (cons clause more) none =
    let rest = clause_from name more none in
    let found = clause_from name more (some (item 1 clause)) in
    if text_eq (head clause) name then guard (size clause == 2) malformed_value >> found else rest
clause_from name (cons clause more) (some value) =
    let rest = clause_from name more (some value) in
    if text_eq (head clause) name then err duplicate_value else rest

unfoldable pub clause_value : Sexpr → Text → Result ClauseError Sexpr
clause_value record_form name = clause_from name (items_from 1 record_form) none

-- The table that one expression defines, when it defines one.
unfoldable pub rule_table : Sexpr → List Sexpr
rule_table e =
    let name = atom_value (item 1 e) in
    let value = unquote (item 2 e) in
    if is_definition e
      && (text_eq name (codes "proof-rules") || has_suffix name (codes "-proof-rules"))
      && not (text_eq (head value) (codes "append"))
    then value ∷ []
    else []

unfoldable mutual
  pub rule_tables : Sexpr → List Sexpr
  rule_tables (node a l s) = rule_table (node a l s) ++ tables_among l

  pub tables_among : Sexprs → List Sexpr
  tables_among nil = []
  tables_among (cons x xs) = rule_tables x ++ tables_among xs

unfoldable pub all_tables : List Sexpr → List Sexpr
all_tables [] = []
all_tables (form ∷ forms) = rule_tables form ++ all_tables forms

abbrev pub Rules : Type 0
Rules = List (Text × ParsedRule)

abbrev pub no_rule : ParsedRule
no_rule = record { assertion = []; policy = [] }

-- `rules[id]`.
unfoldable pub rule_of : Text → Rules → ParsedRule
rule_of id rules = elim (lookup id rules) [ none ↦ no_rule | some rule ↦ rule ]

abbrev pub wire_sufficient : Text
wire_sufficient = codes "wire-sufficient"

abbrev pub requires_source : Text
requires_source = codes "requires-immutable-source"

unfoldable pub add_rule : Sexpr → Rules → Result ProfileError Rules
add_rule rule rules = do
  guard (leb 2 (size rule) && is_str (item 0 rule)) malformed_rule
  let id = atom_of (item 0 rule)
  guard (is_nil (rule_of id rules).assertion) (duplicate_rule id)
  assertion ← lifted (bad_clause id (codes "assertion")) (clause_value rule (codes "assertion"))
  policy ← lifted (bad_clause id (codes "evidence")) (clause_value rule (codes "evidence"))
  guard (text_eq (atom_value policy) wire_sufficient || text_eq (atom_value policy) requires_source)
      (bad_policy id)
  ok (assign id (record { assertion = atom_value assertion; policy = atom_value policy }) rules)

unfoldable pub add_rules : Sexprs → Rules → Result ProfileError Rules
add_rules nil rules = ok rules
add_rules (cons x xs) rules = add_rule x rules >>= add_rules xs

unfoldable pub add_tables : List Sexpr → Rules → Result ProfileError Rules
add_tables [] rules = ok rules
add_tables (table ∷ tables) rules = add_rules (list_of table) rules >>= add_tables tables

unfoldable pub parse_proof_rule_table : Text → Result ProfileError Rules
parse_proof_rule_table source = do
  forms ← parse_source source
  guard (not (is_nil (all_tables forms))) no_rules
  add_tables (all_tables forms) []

unfoldable pub check_rules : (known_shapes : List Text) → Rules → Result ProfileError (Unit {0})
check_rules known_shapes [] = ok tt
check_rules known_shapes ((id, rule) ∷ rules) =
    guard (mem rule.assertion known_shapes) (unknown_shape id rule.assertion)
    >> check_rules known_shapes rules

unfoldable pub parse_proof_rules : Text → (known_shapes : List Text) → Result ProfileError Rules
parse_proof_rules source known_shapes = do
  rules ← parse_proof_rule_table source
  check_rules known_shapes rules
  ok rules

unfoldable pub assertions_of : Rules → List (Text × Text)
assertions_of [] = []
assertions_of ((id, rule) ∷ rules) = (id, rule.assertion) ∷ assertions_of rules

unfoldable pub parse_proof_rule_assertions : Text → Result ProfileError (List (Text × Text))
parse_proof_rule_assertions source =
    parse_proof_rule_table source >>= λ rules. ok (assertions_of rules)
