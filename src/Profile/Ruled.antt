-- ===== src/Profile/Ruled.antt =====
-- report/report/profile.go: what clauseValue finds, and what the rules of an accepted table are.
use rules_stests.Base.{
  true, not, ◌&&◌, ◌||◌, ◌==◌, ==_iff, leb, List, [], ◌∷◌, ◌≡◌, ◌↔◌, refl, sym, ap, ◌∙◌, ◌⊎◌, inl,
  inr, Text, codes, text_eq, either_text, is_nil, if◌then◌else◌, ok, guard, guard_iff, >>=-eq-ok,
  mem, lookup, none, some, All, Bool-cases, ok-injective,
}
use mathlib.Core.Path.{subst}
use rules_stests.Scheme.Expr.{Sexpr, Sexprs, nil, cons, list_of, is_str, atom_of, head, atom_value}
use rules_stests.Receipt.Coverage.{assign}
use rules_stests.Profile.Types.{
  ParsedRule, malformed_value, malformed_rule, duplicate_rule, bad_policy, bad_clause, no_rules,
  unknown_shape, lifted,
}
use rules_stests.Profile.Lookup.{item, items_from, size, parse_source}
use rules_stests.Profile.Rules.{
  clause_from, clause_value, Rules, rule_of, wire_sufficient, requires_source, add_rule, add_rules,
  add_tables, all_tables, parse_proof_rule_table, check_rules, parse_proof_rules,
}

-- The forms of a name, in order.
abbrev pub named : Text → Sexprs → List Sexpr
named name nil = []
named name (cons c cs) = if text_eq (head c) name then c ∷ named name cs else named name cs

-- There is one form of the name, of a name and a value.
abbrev pub IsOnly : List Sexpr → Sexpr → Type 0
IsOnly clauses value =
    (clause : Sexpr) × (clauses ≡ clause ∷ []) × (size clause ≡ 2) × (item 1 clause ≡ value)

found_iff :
    (name : Text) (cs : Sexprs) (value : Sexpr) {v : Sexpr}
    → (clause_from name cs (some value) ≡ ok v) ↔ (named name cs ≡ []) × (value ≡ v)
unfolding clause_from
found_iff name nil value = (λ h. (refl, cc h), λ (e, same). ap ok same)
found_iff name (cons c cs) value = elim (Bool-cases (text_eq (head c) name)) [
  | inl here ↦ rw here (λ h. cc h, λ (e, same). cc e)
  | inr other ↦ rw other (found_iff name cs value)
]

clause_from_iff :
    (name : Text) (cs : Sexprs) {v : Sexpr}
    → (clause_from name cs none ≡ ok v) ↔ IsOnly (named name cs) v
unfolding clause_from
clause_from_iff name nil = (λ h. cc h, λ (d, only, two, same). cc only)
clause_from_iff name (cons c cs) {v = v} = elim (Bool-cases (text_eq (head c) name)) [
  | inl here ↦ rw here (
    λ h.
        let (two, found) =
          (guard_iff (size c == 2) malformed_value (clause_from name cs (some (item 1 c)))).0 h in
        let (alone, same) = (found_iff name cs (item 1 c)).0 found in
        (c, rw alone refl, (==_iff (size c) 2).0 two, same),
    λ (d, only, two, same).
        let alone : named name cs ≡ [] = cc only in
        let there : c ≡ d = cc only in
        (guard_iff (size c == 2) malformed_value (clause_from name cs (some (item 1 c)))).1 (
          (==_iff (size c) 2).1 (ap size there ∙ two),
          (found_iff name cs (item 1 c)).1 (alone, ap (item 1) there ∙ same),
        ),
  )
  | inr other ↦ rw other (clause_from_iff name cs)
]

-- clauseValue returns a value exactly when, behind the first element of the form, one clause has
-- the name, and it holds the name and this value and nothing else.
pub clause_value_iff :
    (record_form : Sexpr) (name : Text) {value : Sexpr}
    → (clause_value record_form name ≡ ok value)
      ↔ IsOnly (named name (items_from 1 record_form)) value
unfolding clause_value
clause_value_iff record_form name = clause_from_iff name (items_from 1 record_form)

abbrev HasPolicy : ParsedRule → Type 0
HasPolicy rule = (rule.policy ≡ wire_sufficient) ⊎ (rule.policy ≡ requires_source)

abbrev HavePolicies : Rules → Type 0
HavePolicies rules = All (λ e. HasPolicy e.1) rules

assign-HavePolicies :
    (id : Text) (rule : ParsedRule) (rules : Rules)
    → HasPolicy rule
    → HavePolicies rules
    → HavePolicies (assign id rule rules)
unfolding assign
assign-HavePolicies id rule [] h a = (h, tt)
assign-HavePolicies id rule ((j, w) ∷ rules) h a = elim (Bool-cases (text_eq j id)) [
  | inl here ↦ rw here (h, a.1)
  | inr other ↦ rw other (a.0, assign-HavePolicies id rule rules h a.1)
]

add_rule-HavePolicies :
    (rule : Sexpr) (rules : Rules) {more : Rules}
    → HavePolicies rules
    → add_rule rule rules ≡ ok more
    → HavePolicies more
unfolding add_rule
add_rule-HavePolicies rule rules {more = more} a h =
    let id = atom_of (item 0 rule) in
    let (d1, e1, h1) =
      >>=-eq-ok (guard (leb 2 (size rule) && is_str (item 0 rule)) malformed_rule) _ h in
    let (d2, e2, h2) =
      >>=-eq-ok (guard (is_nil (rule_of id rules).assertion) (duplicate_rule id)) _ h1 in
    let (assertion, e3, h3) =
      >>=-eq-ok (lifted (bad_clause id (codes "assertion")) (clause_value rule (codes "assertion")))
        _ h2 in
    let (policy, e4, h4) =
      >>=-eq-ok (lifted (bad_clause id (codes "evidence")) (clause_value rule (codes "evidence"))) _
        h3 in
    let (fits, same) =
      (guard_iff
          (text_eq (atom_value policy) wire_sufficient
            || text_eq (atom_value policy) requires_source)
          (bad_policy id)
          (ok (
            assign id (record { assertion = atom_value assertion; policy = atom_value policy })
              rules))).0
        h4 in
    rw (sym (ok-injective same)) (
      assign-HavePolicies id
        (record { assertion = atom_value assertion; policy = atom_value policy }) rules
        (either_text (atom_value policy) wire_sufficient requires_source fits) a)

add_rules-HavePolicies :
    (xs : Sexprs) (rules : Rules) {more : Rules}
    → HavePolicies rules
    → add_rules xs rules ≡ ok more
    → HavePolicies more
unfolding add_rules
add_rules-HavePolicies nil rules a h = rw (sym (ok-injective h)) a
add_rules-HavePolicies (cons x xs) rules a h =
    let (next, e, h') = >>=-eq-ok (add_rule x rules) _ h in
    add_rules-HavePolicies xs next (add_rule-HavePolicies x rules a e) h'

add_tables-HavePolicies :
    (tables : List Sexpr) (rules : Rules) {more : Rules}
    → HavePolicies rules
    → add_tables tables rules ≡ ok more
    → HavePolicies more
unfolding add_tables
add_tables-HavePolicies [] rules a h = rw (sym (ok-injective h)) a
add_tables-HavePolicies (t ∷ tables) rules a h =
    let (next, e, h') = >>=-eq-ok (add_rules (list_of t) rules) _ h in
    add_tables-HavePolicies tables next (add_rules-HavePolicies (list_of t) rules a e) h'

-- What a rule may be: on a known shape, with one of the two policies.
pub record IsRule (shapes : List Text) (rule : ParsedRule) : Type 0 where
  pub shape : mem rule.assertion shapes ≡ true
  pub policy : HasPolicy rule

checked_rules :
    (shapes : List Text) (rules : Rules)
    → HavePolicies rules
    → check_rules shapes rules ≡ ok tt
    → (id : Text) {rule : ParsedRule} → lookup id rules ≡ some rule
    → IsRule shapes rule
unfolding check_rules lookup
checked_rules shapes [] a h id e = cc e
checked_rules shapes ((j, w) ∷ rules) a h id {rule = rule} e =
    let (known, h') =
      (guard_iff (mem w.assertion shapes) (unknown_shape j w.assertion)
          (check_rules shapes rules)).0
        h in
    elim (Bool-cases (text_eq j id)) [
      | inl here ↦
          let same : some w ≡ some rule =
            subst (λ b. (if b then some w else lookup id rules) ≡ some rule) here e in
          let same' : w ≡ rule = cc same in
          subst (IsRule shapes) same' (record { shape = known; policy = a.0 })
      | inr other ↦
          checked_rules shapes rules a.1 h' id
            (subst (λ b. (if b then some w else lookup id rules) ≡ some rule) other e)
    ]

-- A rule of a table that is accepted is on a known shape, and has one of the two policies.
pub parse_proof_rules-IsRule :
    (source : Text) (shapes : List Text) {rules : Rules}
    → parse_proof_rules source shapes ≡ ok rules
    → (id : Text) {rule : ParsedRule} → lookup id rules ≡ some rule
    → IsRule shapes rule
unfolding parse_proof_rules parse_proof_rule_table
parse_proof_rules-IsRule source shapes {rules = rules} h id e =
    let (found, parsed, h1) = >>=-eq-ok (parse_proof_rule_table source) _ h in
    let (forms, read, h2) = >>=-eq-ok (parse_source source) _ parsed in
    let (d, some_table, h3) = >>=-eq-ok (guard (not (is_nil (all_tables forms))) no_rules) _ h2 in
    let (d', checked, same) = >>=-eq-ok (check_rules shapes found) _ h1 in
    let same' : found ≡ rules = cc same in
    let a = add_tables-HavePolicies (all_tables forms) [] tt h3 in
    checked_rules shapes rules (subst HavePolicies same' a)
      (subst (λ r. check_rules shapes r ≡ ok tt) same' checked) id e
