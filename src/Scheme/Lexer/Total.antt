-- ===== src/Scheme/Lexer/Total.antt =====
-- tokenizeScheme of report/report/scheme.go ends: each round of its loop consumes a rune.
use rules_stests.Base.{
  ℕ, zero, suc, ◌≤◌, ◌<◌, true, false, ◌≡◌, ◌≢◌, refl, inl, inr, List, [], ◌∷◌, ◌++◌, Option, none,
  some, ◌==◌, Bool-cases, Text, length, Result, ok, err, arith,
}
use rules_stests.Scheme.Expr.{Sexpr, atom, text_token}
use rules_stests.Scheme.Lexer.{
  SchemeError, out_of_fuel, is_space, is_bracket, is_delimiter, skip_comment, unescape, read_string,
  read_atom, push, string_token, token_at, tokenize_loop, tokenize_scheme,
}

pub length-skip_comment-le : (t : Text) → length (skip_comment t) ≤ length t
unfolding skip_comment
length-skip_comment-le [] = omega arith
length-skip_comment-le (c ∷ rest) = ground (arith, length-skip_comment-le rest)

pub length-read_string-lt :
    (value t v after : Text) → read_string value t ≡ some (v, after) → length after < length t
unfolding read_string
length-read_string-lt value [] v after h = cc
length-read_string-lt value (c ∷ []) v after h = ground (arith, h)
length-read_string-lt value (c ∷ d ∷ rest) v after h = ground (
  arith,
  h,
  length-read_string-lt (value ++ c ∷ []) (d ∷ rest) v after,
  length-read_string-lt (value ++ unescape d ∷ []) rest v after,
)

pub length-read_atom-le : (t : Text) → length (read_atom t).1 ≤ length t
unfolding read_atom
length-read_atom-le [] = omega arith
length-read_atom-le (c ∷ rest) = ground (arith, length-read_atom-le rest)

push-ne-out_of_fuel :
    (t : Sexpr) (r : Result SchemeError (List Sexpr))
    → r ≢ err out_of_fuel
    → push t r ≢ err out_of_fuel
push-ne-out_of_fuel t (ok ts) h e = cc
push-ne-out_of_fuel t (err x) h e = h e

-- What a round leaves to the rest of the loop is shorter than what it was given.
module _ (c : ℕ) (rest : Text) where
  pub comment-le : (c == b';') ≡ true → length (skip_comment (c ∷ rest)) ≤ length rest
  unfolding skip_comment
  comment-le h = ground (arith, h, length-skip_comment-le rest)

  pub atom-le :
      is_space c ≡ false
      → (c == b';') ≡ false
      → is_bracket c ≡ false
      → (c == b'"') ≡ false
      → length (read_atom (c ∷ rest)).1 ≤ length rest
  unfolding read_atom is_delimiter
  atom-le sp semi br q = ground (arith, sp, semi, br, q, length-read_atom-le rest)

-- One round never runs out of fuel when the rest of the loop does not.
module _ (next : Text → Result SchemeError (List Sexpr)) (c : ℕ) (rest : Text)
    (goes_on : (t : Text) → length t ≤ length rest → next t ≢ err out_of_fuel) where
  string_token-ne :
      (found : Option (Text × Text))
      → read_string [] rest ≡ found
      → string_token next found ≢ err out_of_fuel
  unfolding string_token
  string_token-ne none e = cc
  string_token-ne (some (value, after)) e =
      let shorter = length-read_string-lt [] rest value after e in
      push-ne-out_of_fuel (text_token value) (next after) (goes_on after (omega arith))

  token_at-ne : token_at next c rest ≢ err out_of_fuel
  unfolding token_at
  token_at-ne = elim (Bool-cases (is_space c)) [
    | inl sp ↦ rw sp (goes_on rest (omega arith))
    | inr sp ↦ elim (Bool-cases (c == b';')) [
      | inl semi ↦ rw (sp, semi) (goes_on (skip_comment (c ∷ rest)) (comment-le c rest semi))
      | inr semi ↦ elim (Bool-cases (is_bracket c)) [
        | inl br ↦
            rw (sp, semi, br)
              (push-ne-out_of_fuel (atom (c ∷ [])) (next rest) (goes_on rest (omega arith)))
        | inr br ↦ elim (Bool-cases (c == b'"')) [
          | inl q ↦ rw (sp, semi, br, q) (string_token-ne (read_string [] rest) refl)
          | inr q ↦
              rw (sp, semi, br, q)
                (push-ne-out_of_fuel _ _ (goes_on _ (atom-le c rest sp semi br q)))
        ]
      ]
    ]
  ]

tokenize_loop-ne-out_of_fuel :
    (f : ℕ) (input : Text) → length input < f → tokenize_loop f input ≢ err out_of_fuel
unfolding tokenize_loop
tokenize_loop-ne-out_of_fuel zero input h = elim h [ ]
tokenize_loop-ne-out_of_fuel (suc f) [] h = cc
tokenize_loop-ne-out_of_fuel (suc f) (c ∷ rest) h =
    token_at-ne (tokenize_loop f) c rest (λ t le. tokenize_loop-ne-out_of_fuel f t (omega arith))

-- The loop of tokenizeScheme ends on every input: it is never cut off for want of fuel.
pub tokenize_scheme-ne-out_of_fuel : (input : Text) → tokenize_scheme input ≢ err out_of_fuel
unfolding tokenize_scheme
tokenize_scheme-ne-out_of_fuel input =
    tokenize_loop-ne-out_of_fuel (suc (length input)) input (omega arith)
