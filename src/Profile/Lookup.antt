-- ===== src/Profile/Lookup.antt =====
-- report/report/profile.go: what the compiler does with expressions: list[i], lists behind their head,
-- strings.HasSuffix, parseSource and collectImplementationDefinitions.
use rules_stests.Base.{
  ℕ, zero, suc, ◌==◌, Bool, true, false, not, ◌&&◌, ◌||◌, List, [], ◌∷◌, Text, codes, text_eq,
  is_nil, if◌then◌else◌, Result, ok, err, ◌>>=◌, mem,
}
use rules_stests.Scheme.Expr.{
  Sexpr, Sexprs, node, nil, cons, list_of, is_str, atom_of, count, form, head, atom_value,
}
use rules_stests.Scheme.Parser.{read_source}
use rules_stests.Receipt.Coverage.{assign}
use rules_stests.Profile.Types.{ProfileError, bad_source, duplicate_binding, lifted}

-- `list[i]`; every use is behind a test of the length.
abbrev pub nth : ℕ → Sexprs → Sexpr
nth i nil = form nil
nth zero (cons x xs) = x
nth (suc i) (cons x xs) = nth i xs

abbrev pub drop_items : ℕ → Sexprs → Sexprs
drop_items zero xs = xs
drop_items (suc i) nil = nil
drop_items (suc i) (cons x xs) = drop_items i xs

-- `list[i]` of an expression, and `list[i:]`.
abbrev pub item : ℕ → Sexpr → Sexpr
item i e = nth i (list_of e)

abbrev pub items_from : ℕ → Sexpr → Sexprs
items_from i e = drop_items i (list_of e)

-- `len(e.list)`.
abbrev pub size : Sexpr → ℕ
size e = count (list_of e)

unfoldable pub has_suffix : Text → Text → Bool
has_suffix [] suffix = text_eq [] suffix
has_suffix (c ∷ cs) suffix = text_eq (c ∷ cs) suffix || has_suffix cs suffix

unfoldable pub parse_source : Text → Result ProfileError (List Sexpr)
unfolding read_source
parse_source source = lifted bad_source (read_source source)

-- `head(expr) == "define" && len(expr.list) == 3`.
abbrev pub is_definition : Sexpr → Bool
is_definition e = text_eq (head e) (codes "define") && size e == 3

-- The names that are defined, and the values of those that are strings.
abbrev pub Definitions : Type 0
Definitions = List Text × List (Text × Text)

-- One visit, to a definition of `name` as `value`.
unfoldable pub collect_definition : Text → Sexpr → Definitions → Result ProfileError Definitions
unfolding mem assign
collect_definition name value (bindings, sources) = elim (mem name bindings) [
  | true ↦ err (duplicate_binding name)
  | false ↦
      ok (name ∷ bindings, if is_str value then assign name (atom_of value) sources else sources)
]

unfoldable pub visit_definition : Sexpr → Definitions → Result ProfileError Definitions
unfolding head atom_value collect_definition
visit_definition e found =
    let name = atom_value (item 1 e) in
    if is_definition e && not (is_nil name)
    then collect_definition name (item 2 e) found
    else ok found

unfoldable mutual
  pub collect_from : Sexpr → Definitions → Result ProfileError Definitions
  collect_from (node a l s) found = visit_definition (node a l s) found >>= collect_all l

  pub collect_all : Sexprs → Definitions → Result ProfileError Definitions
  collect_all nil found = ok found
  collect_all (cons x xs) found = collect_from x found >>= collect_all xs

unfoldable pub collect_implementation_definitions :
    List Sexpr → Definitions → Result ProfileError Definitions
unfolding collect_from
collect_implementation_definitions [] found = ok found
collect_implementation_definitions (form ∷ forms) found =
    collect_from form found >>= collect_implementation_definitions forms
