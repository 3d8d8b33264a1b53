-- ===== src/Scheme/Parser.antt =====
-- report/report/scheme.go: parseScheme, over the tokens that are left. The closure `parseOne` and
-- its inner loop are mutual functions on fuel; only the atom of a token is looked at.
pub mod Grammar
pub mod Sound
pub mod Total
pub mod Strings
use rules_stests.Base.{
  ℕ, zero, suc, ◌+◌, ◌*◌, Bool, true, false, List, [], ◌∷◌, Option, none, some, if◌then◌else◌, Text,
  codes, length, text_eq, Result, ok, err, ◌>>=◌,
}
use rules_stests.Scheme.Expr.{Sexpr, Sexprs, nil, cons, atom, atom_of, form, quote}
use rules_stests.Scheme.Lexer.{
  SchemeError, unexpected_end, unclosed_list, unexpected_closing, out_of_fuel, tokenize_scheme,
}

abbrev pub opening : Text
opening = b'(' ∷ []

abbrev pub closing : Text
closing = b')' ∷ []

abbrev pub tick : Text
tick = b'\'' ∷ []

abbrev pub quoted : Sexpr → Sexpr
quoted e = form (cons (atom quote) (cons e nil))

unfoldable mutual
  pub parse_one : ℕ → List Sexpr → Result SchemeError (Sexpr × List Sexpr)
  parse_one zero ts = err out_of_fuel
  parse_one (suc f) [] = err unexpected_end
  parse_one (suc f) (t ∷ ts) =
      let listed = parse_items f ts >>= λ (items, rest). ok (form items, rest) in
      let ticked = parse_one f ts >>= λ (item, rest). ok (quoted item, rest) in
      if text_eq (atom_of t) opening
      then listed
      else if text_eq (atom_of t) closing
      then err unexpected_closing
      else if text_eq (atom_of t) tick
      then ticked
      else ok (t, ts)

  -- The loop up to the closing bracket, which is consumed.
  pub parse_items : ℕ → List Sexpr → Result SchemeError (Sexprs × List Sexpr)
  parse_items zero ts = err out_of_fuel
  parse_items (suc f) [] = err unclosed_list
  parse_items (suc f) (t ∷ ts) =
      let more = parse_one f (t ∷ ts) >>= λ (item, rest).
      parse_items f rest >>= λ (items, rest'). ok (cons item items, rest') in
      if text_eq (atom_of t) closing then ok (nil, ts) else more

unfoldable pub parse_forms : ℕ → List Sexpr → Result SchemeError (List Sexpr)
parse_forms zero ts = err out_of_fuel
parse_forms (suc f) [] = ok []
parse_forms (suc f) (t ∷ ts) =
    parse_one f (t ∷ ts) >>= λ (item, rest). parse_forms f rest >>= λ forms. ok (item ∷ forms)

unfoldable pub parse_scheme : List Sexpr → Result SchemeError (List Sexpr)
unfolding parse_forms parse_one
parse_scheme ts = parse_forms (2 * length ts + 2) ts

-- The two steps that every reader of a source takes.
unfoldable pub read_source : Text → Result SchemeError (List Sexpr)
unfolding parse_scheme tokenize_scheme
read_source input = tokenize_scheme input >>= parse_scheme
