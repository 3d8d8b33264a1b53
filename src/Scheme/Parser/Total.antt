-- ===== src/Scheme/Parser/Total.antt =====
-- parseScheme of report/report/scheme.go ends: its fuel is enough for every list of tokens.
use rules_stests.Base.{
  ℕ, zero, suc, ◌+◌, ◌*◌, ◌<◌, ◌≢◌, inl, inr, List, [], ◌∷◌, Bool-cases, Text, length, text_eq, err,
  >>=-ne-err, arith,
}
use rules_stests.Scheme.Expr.{Sexpr, atom_of}
use rules_stests.Scheme.Lexer.{out_of_fuel, tokenize_scheme}
use rules_stests.Scheme.Lexer.Total.{tokenize_scheme-ne-out_of_fuel}
use rules_stests.Scheme.Parser.{
  opening, closing, tick, parse_one, parse_items, parse_forms, parse_scheme, read_source,
}
use rules_stests.Scheme.Parser.Grammar.{length-lt_of_Form}
use rules_stests.Scheme.Parser.Sound.{parse_one-Form}

mutual
  unfolding parse_one

  parse_one-ne : (f : ℕ) (ts : List Sexpr) → 2 * length ts < f → parse_one f ts ≢ err out_of_fuel
  parse_one-ne zero ts h = absurd (omega arith)
  parse_one-ne (suc f) [] h = λ e. cc
  parse_one-ne (suc f) (t ∷ ts) h = elim (Bool-cases (text_eq (atom_of t) opening)) [
    | inl op ↦
        rw op (>>=-ne-err (parse_items f ts) _ (parse_items-ne f ts (omega arith)) (λ a p e. cc e))
    | inr op ↦ elim (Bool-cases (text_eq (atom_of t) closing)) [
      | inl cl ↦ rw (op, cl) (λ e. cc e)
      | inr cl ↦ elim (Bool-cases (text_eq (atom_of t) tick)) [
        | inl ti ↦
            rw (op, cl, ti)
              (>>=-ne-err (parse_one f ts) _ (parse_one-ne f ts (omega arith)) (λ a p e. cc e))
        | inr ti ↦ rw (op, cl, ti) (λ e. cc e)
      ]
    ]
  ]

  parse_items-ne :
      (f : ℕ) (ts : List Sexpr) → 2 * length ts + 1 < f → parse_items f ts ≢ err out_of_fuel
  parse_items-ne zero ts h = absurd (omega arith)
  parse_items-ne (suc f) [] h = λ e. cc
  parse_items-ne (suc f) (t ∷ ts) h = elim (Bool-cases (text_eq (atom_of t) closing)) [
    | inl cl ↦ rw cl (λ e. cc e)
    | inr cl ↦ rw cl (
        >>=-ne-err (parse_one f (t ∷ ts)) _ (parse_one-ne f (t ∷ ts) (omega arith)) λ (x, mid) p.
          let d = parse_one-Form f (t ∷ ts) x mid p in
          >>=-ne-err (parse_items f mid) _
            (parse_items-ne f mid (omega (arith, length-lt_of_Form d))) (λ a q e. cc e))
  ]

parse_forms-ne :
    (f : ℕ) (ts : List Sexpr) → 2 * length ts + 1 < f → parse_forms f ts ≢ err out_of_fuel
unfolding parse_forms
parse_forms-ne zero ts h = absurd (omega arith)
parse_forms-ne (suc f) [] h = λ e. cc
parse_forms-ne (suc f) (t ∷ ts) h =
    >>=-ne-err (parse_one f (t ∷ ts)) _ (parse_one-ne f (t ∷ ts) (omega arith)) λ (x, mid) p.
      let d = parse_one-Form f (t ∷ ts) x mid p in
      >>=-ne-err (parse_forms f mid) _ (parse_forms-ne f mid (omega (arith, length-lt_of_Form d)))
        (λ a q e. cc e)

-- Reading a source ends on every input: neither the tokenizer nor the parser runs out of fuel.
pub read_source-ne-out_of_fuel : (input : Text) → read_source input ≢ err out_of_fuel
unfolding read_source parse_scheme
read_source-ne-out_of_fuel input =
    >>=-ne-err (tokenize_scheme input) parse_scheme (tokenize_scheme-ne-out_of_fuel input)
      λ ts p. parse_forms-ne (2 * length ts + 2) ts (omega arith)
