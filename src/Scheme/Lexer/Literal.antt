-- ===== src/Scheme/Lexer/Literal.antt =====
-- String literals in tokenizeScheme of report/report/scheme.go: what a literal stands for.
use rules_stests.Base.{
  ℕ, zero, suc, ◌≤◌, ◌<◌, false, ◌≡◌, refl, sym, ap, ◌∙◌, inl, inr, List, [], ◌∷◌, ◌++◌, Option,
  none, some, ◌==◌, if◌then◌else◌, Bool-cases, Text, length, is_nil, Result, arith,
}
use mathlib.Core.List.{append-nil, append_assoc}
use rules_stests.Scheme.Expr.{Sexpr, atom, text_token}
use rules_stests.Scheme.Lexer.{
  SchemeError, is_space, is_bracket, skip_comment, read_string, read_atom, push, string_token,
  token_at, tokenize_loop, tokenize_scheme,
}
use rules_stests.Scheme.Lexer.Total.{comment-le, atom-le, length-read_string-lt}

-- Two continuations that agree on what is shorter give the same round.
module _ (next next' : Text → Result SchemeError (List Sexpr)) (c : ℕ) (rest : Text)
    (agree : (t : Text) → length t ≤ length rest → next t ≡ next' t) where
  string_token_agree :
      (found : Option (Text × Text))
      → read_string [] rest ≡ found
      → string_token next found ≡ string_token next' found
  unfolding string_token
  string_token_agree none e = refl
  string_token_agree (some (value, after)) e =
      ap (push (text_token value))
        (agree after (omega (arith, length-read_string-lt [] rest value after e)))

  token_at_agree : token_at next c rest ≡ token_at next' c rest
  unfolding token_at
  token_at_agree = elim (Bool-cases (is_space c)) [
    | inl sp ↦ rw sp (agree rest (omega arith))
    | inr sp ↦ elim (Bool-cases (c == b';')) [
      | inl semi ↦ rw (sp, semi) (agree (skip_comment (c ∷ rest)) (comment-le c rest semi))
      | inr semi ↦ elim (Bool-cases (is_bracket c)) [
        | inl br ↦ rw (sp, semi, br) (ap (push (atom (c ∷ []))) (agree rest (omega arith)))
        | inr br ↦ elim (Bool-cases (c == b'"')) [
          | inl q ↦ rw (sp, semi, br, q) (string_token_agree (read_string [] rest) refl)
          | inr q ↦
              rw (sp, semi, br, q)
                (ap (push (atom (read_atom (c ∷ rest)).0))
                  (agree (read_atom (c ∷ rest)).1 (atom-le c rest sp semi br q)))
        ]
      ]
    ]
  ]

-- Any fuel above the number of runes gives the same tokens.
tokenize_loop_fuel :
    (f g : ℕ) (t : Text) → length t < f → length t < g → tokenize_loop f t ≡ tokenize_loop g t
unfolding tokenize_loop
tokenize_loop_fuel zero g t h k = absurd (omega arith)
tokenize_loop_fuel (suc f) zero t h k = absurd (omega arith)
tokenize_loop_fuel (suc f) (suc g) [] h k = refl
tokenize_loop_fuel (suc f) (suc g) (c ∷ rest) h k =
    token_at_agree (tokenize_loop f) (tokenize_loop g) c rest
      (λ t le. tokenize_loop_fuel f g t (omega arith) (omega arith))

pub tokenize_loop-tokenize_scheme :
    (f : ℕ) (t : Text) → length t < f → tokenize_loop f t ≡ tokenize_scheme t
unfolding tokenize_scheme
tokenize_loop-tokenize_scheme f t h = tokenize_loop_fuel f (suc (length t)) t h (omega arith)

-- A rune as a literal may spell it: a quote and a backslash are escaped, and so are the three
-- control characters with an escape of their own.
abbrev pub escape_rune : ℕ → Text
escape_rune c =
    if c == b'"'
    then b'\\' ∷ c ∷ []
    else if c == b'\\'
    then b'\\' ∷ c ∷ []
    else if c == 10
    then b'\\' ∷ b'n' ∷ []
    else if c == 13
    then b'\\' ∷ b'r' ∷ []
    else if c == 9
    then b'\\' ∷ b't' ∷ []
    else c ∷ []

abbrev pub escaped : Text → Text → Text
escaped [] rest = rest
escaped (c ∷ cs) rest = escape_rune c ++ escaped cs rest

-- `"value"`, in front of `rest`.
abbrev pub literal : Text → Text → Text
literal value rest = b'"' ∷ escaped value (b'"' ∷ rest)

cons_of : (t : Text) → is_nil t ≡ false → (d : ℕ) × (u : Text) × (t ≡ d ∷ u)
cons_of [] h = cc
cons_of (d ∷ u) h = (d, u, refl)

escaped_more : (s rest : Text) → is_nil (escaped s (b'"' ∷ rest)) ≡ false
escaped_more [] rest = refl
escaped_more (c ∷ cs) rest = ground arith

read_string-escape_rune :
    (value : Text) (c d : ℕ) (t : Text)
    → read_string value (escape_rune c ++ (d ∷ t)) ≡ read_string (value ++ c ∷ []) (d ∷ t)
unfolding read_string
read_string-escape_rune value c d t = ground arith

-- The loop over the runes of a literal gathers the value that it spells.
read_string-escaped :
    (s value rest : Text) → read_string value (escaped s (b'"' ∷ rest)) ≡ some (value ++ s, rest)
unfolding read_string
read_string-escaped [] value [] = rw append-nil
read_string-escaped [] value (c ∷ rest) = rw append-nil
read_string-escaped (c ∷ cs) value rest =
    let (d, u, e) = cons_of (escaped cs (b'"' ∷ rest)) (escaped_more cs rest) in
    ap (λ t. read_string value (escape_rune c ++ t)) e
    ∙ read_string-escape_rune value c d u
    ∙ ap (read_string (value ++ c ∷ [])) (sym e)
    ∙ read_string-escaped cs (value ++ c ∷ []) rest
    ∙ ap (λ v. some (v, rest)) (append_assoc value (c ∷ []) cs)

length-escaped-lt : (s rest : Text) → length rest < length (escaped s (b'"' ∷ rest))
length-escaped-lt [] rest = omega arith
length-escaped-lt (c ∷ cs) rest = ground (arith, length-escaped-lt cs rest)

-- Whatever text a literal spells, tokenizeScheme reads the literal as one string token that holds
-- exactly this text, and goes on behind the closing quote.
pub tokenize_scheme-literal :
    (value rest : Text)
    → tokenize_scheme (literal value rest) ≡ push (text_token value) (tokenize_scheme rest)
unfolding tokenize_scheme tokenize_loop token_at string_token is_space is_bracket
tokenize_scheme-literal value rest = rw (read_string-escaped value [] rest) (
    ap (push (text_token value)) (
      tokenize_loop-tokenize_scheme (length (literal value rest)) rest
        (omega (arith, length-escaped-lt value rest))))
