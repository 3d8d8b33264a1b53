-- ===== src/Scheme/Parser/Strings.antt =====
-- String literals in parseScheme of report/report/scheme.go: the parser reads only a token's atom,
-- so it does not tell a literal that holds one bracket or quote from the bracket or quote itself.
use rules_stests.Base.{
  ℕ, zero, suc, true, ◌≡◌, refl, List, [], ◌∷◌, Text, text_eq, Result, ok, err, ◌>>=◌, arith,
}
use rules_stests.Scheme.Expr.{Sexpr, atom, text_token}
use rules_stests.Scheme.Lexer.{
  SchemeError, is_bracket, is_space, push, token_at, tokenize_loop, tokenize_scheme,
}
use rules_stests.Scheme.Lexer.Literal.{literal, tokenize_scheme-literal}
use rules_stests.Scheme.Parser.{parse_one, parse_forms, parse_scheme, read_source}

parse_one_bracket :
    (f c : ℕ) (ts : List Sexpr)
    → is_bracket c ≡ true
    → parse_one f (text_token (c ∷ []) ∷ ts) ≡ parse_one f (atom (c ∷ []) ∷ ts)
unfolding parse_one is_bracket text_eq
parse_one_bracket zero c ts h = refl
parse_one_bracket (suc f) c ts h = ground (arith, h)

tokenize_scheme-bracket :
    (c : ℕ) (rest : Text)
    → is_bracket c ≡ true
    → tokenize_scheme (c ∷ rest) ≡ push (atom (c ∷ [])) (tokenize_scheme rest)
unfolding tokenize_scheme tokenize_loop token_at is_bracket is_space
tokenize_scheme-bracket c rest h = ground (arith, h)

parse_forms_bracket :
    (f c : ℕ) (ts : List Sexpr)
    → is_bracket c ≡ true
    → parse_forms f (text_token (c ∷ []) ∷ ts) ≡ parse_forms f (atom (c ∷ []) ∷ ts)
unfolding parse_forms
parse_forms_bracket zero c ts h = refl
parse_forms_bracket (suc f) c ts h = rw (parse_one_bracket f c ts h)

parse_scheme_bracket :
    (c : ℕ) (ts : List Sexpr)
    → is_bracket c ≡ true
    → parse_scheme (text_token (c ∷ []) ∷ ts) ≡ parse_scheme (atom (c ∷ []) ∷ ts)
unfolding parse_scheme
parse_scheme_bracket c ts h = parse_forms_bracket _ c ts h

push_bracket :
    (c : ℕ) (r : Result SchemeError (List Sexpr))
    → is_bracket c ≡ true
    → (push (text_token (c ∷ [])) r >>= parse_scheme) ≡ (push (atom (c ∷ [])) r >>= parse_scheme)
push_bracket c (ok ts) h = parse_scheme_bracket c ts h
push_bracket c (err e) h = refl

-- A string literal that holds a single bracket or quote reads just as the bare bracket or quote,
-- whatever stands behind it.
pub read_source-literal_bracket :
    (c : ℕ) (rest : Text)
    → is_bracket c ≡ true
    → read_source (literal (c ∷ []) rest) ≡ read_source (c ∷ rest)
unfolding read_source
read_source-literal_bracket c rest h =
    rw (tokenize_scheme-literal (c ∷ []) rest, tokenize_scheme-bracket c rest h)
      (push_bracket c (tokenize_scheme rest) h)
