-- ===== src/Tests/Schemes.antt =====
-- report/report/scheme.go: the reader on short sources.
use rules_stests.Base.{◌≡◌, ◌≢◌, ◌↔◌, refl, [], ◌∷◌, Text, codes, text_eq, join, ok, err}
use rules_stests.Scheme.Expr.{
  Sexpr, nil, cons, atom, text_token, form, atom_value, render_values, render_matcher,
}
use rules_stests.Scheme.Lexer.{
  unclosed_list, unterminated_string, out_of_fuel, is_bracket, push, tokenize_scheme,
}
use rules_stests.Scheme.Lexer.Literal.{literal, tokenize_scheme-literal}
use rules_stests.Scheme.Parser.{quoted, parse_scheme, read_source}
use rules_stests.Scheme.Parser.Grammar.{Forms}
use rules_stests.Scheme.Parser.Sound.{parse_scheme_iff}
use rules_stests.Scheme.Parser.Total.{read_source-ne-out_of_fuel}
use rules_stests.Scheme.Parser.Strings.{read_source-literal_bracket}

-- (a 'b "c\n") ; end
abbrev sample : Text
sample = codes "(a 'b \"c\\n\") ; end"

abbrev sample_tree : Sexpr
sample_tree = form (
    cons (atom (codes "a"))
      (cons (quoted (atom (codes "b"))) (cons (text_token (codes "c\n")) nil)))

reads_sample : read_source sample ≡ ok (sample_tree ∷ [])
unfolding read_source text_eq
reads_sample = refl

-- An open list, an open string, and the literal "(", which is read as a bracket.
refuses_sources :
    (read_source (codes "(a") ≡ err unclosed_list)
    × (read_source (codes "\"a") ≡ err unterminated_string)
    × (read_source (codes "\"(\"") ≡ err unclosed_list)
unfolding read_source text_eq
refuses_sources = (refl, refl, refl)

renders :
    render_matcher
      (form (cons (atom (codes "one-of")) (cons (atom (codes "x")) (cons (atom (codes "y")) nil))))
    ≡ codes "one of: x | y"
unfolding render_matcher text_eq render_values join atom_value
renders = refl

parse_scheme_iff_example :
    (parse_scheme (atom (codes "'") ∷ atom (codes "b") ∷ []) ≡ ok (quoted (atom (codes "b")) ∷ []))
    ↔ Forms (atom (codes "'") ∷ atom (codes "b") ∷ []) (quoted (atom (codes "b")) ∷ [])
parse_scheme_iff_example =
    parse_scheme_iff (atom (codes "'") ∷ atom (codes "b") ∷ []) (quoted (atom (codes "b")) ∷ [])

tokenize_scheme-literal_example :
    tokenize_scheme (literal (codes "a\"b\\\n") (codes " x"))
    ≡ push (text_token (codes "a\"b\\\n")) (tokenize_scheme (codes " x"))
tokenize_scheme-literal_example = tokenize_scheme-literal (codes "a\"b\\\n") (codes " x")

read_source-ne-out_of_fuel_example : read_source (codes "((a)") ≢ err out_of_fuel
read_source-ne-out_of_fuel_example = read_source-ne-out_of_fuel (codes "((a)")

read_source-literal_bracket_example :
    read_source (literal (b'(' ∷ []) (codes " a)")) ≡ read_source (b'(' ∷ codes " a)")
read_source-literal_bracket_example =
    read_source-literal_bracket b'(' (codes " a)") (unfold is_bracket in refl)
