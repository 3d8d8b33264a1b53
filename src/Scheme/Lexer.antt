-- ===== src/Scheme/Lexer.antt =====
-- report/report/scheme.go: tokenizeScheme, over the runes of the input. Each inner loop returns
-- what it left of the input; the outer loop has fuel, one unit for each rune and one more.
pub mod Total
pub mod Literal
use rules_stests.Base.{
  ℕ, zero, suc, ◌+◌, Bool, true, false, not, ◌&&◌, ◌||◌, ◌≡◌, refl, List, [], ◌∷◌, ◌++◌, Option,
  none, some, ◌==◌, leb, if◌then◌else◌, Text, length, Result, ok, err, ◌>>=◌,
}
use rules_stests.Scheme.Expr.{Sexpr, atom, text_token}

pub data SchemeError : Type 0 where
  unterminated_string unexpected_end unclosed_list unexpected_closing out_of_fuel : SchemeError

-- `unicode.IsSpace`: the Latin-1 spaces, and those of the category Z or the property White_Space.
unfoldable pub is_space : ℕ → Bool
is_space c =
    (leb 9 c && leb c 13)
    || c == 32
    || c == 0x85
    || c == 0xa0
    || c == 0x1680
    || (leb 0x2000 c && leb c 0x200a)
    || c == 0x2028
    || c == 0x2029
    || c == 0x202f
    || c == 0x205f
    || c == 0x3000

unfoldable pub is_bracket : ℕ → Bool
is_bracket c = c == b'(' || c == b')' || c == b'\''

-- `strings.ContainsRune("()'\";", c)`.
unfoldable pub is_delimiter : ℕ → Bool
unfolding is_bracket
is_delimiter c = is_bracket c || c == b'"' || c == b';'

-- A comment runs up to its newline.
unfoldable pub skip_comment : Text → Text
skip_comment [] = []
skip_comment (c ∷ rest) = if c == b'\n' then c ∷ rest else skip_comment rest

unfoldable pub unescape : ℕ → ℕ
unescape c = if c == b'n' then 10 else if c == b'r' then 13 else if c == b't' then 9 else c

-- The body of a string, behind its opening quote: its value and what follows the closing quote.
-- A backslash at the very end stands for itself, in a string that is not closed.
unfoldable pub read_string : Text → Text → Option (Text × Text)
unfolding unescape
read_string value [] = none
read_string value (c ∷ []) = if c == b'"' then some (value, []) else none
read_string value (c ∷ d ∷ rest) =
    let plain = read_string (value ++ c ∷ []) (d ∷ rest) in
    let escaped = read_string (value ++ unescape d ∷ []) rest in
    if c == b'"' then some (value, d ∷ rest) else if c == b'\\' then escaped else plain

-- A symbol or number: up to the next space or delimiter.
unfoldable pub read_atom : Text → Text × Text
unfolding is_space is_delimiter
read_atom [] = ([], [])
read_atom (c ∷ rest) =
    let (a, after) = read_atom rest in
    if is_space c || is_delimiter c then ([], c ∷ rest) else (c ∷ a, after)

abbrev pub push : Sexpr → Result SchemeError (List Sexpr) → Result SchemeError (List Sexpr)
push t (ok ts) = ok (t ∷ ts)
push t (err e) = err e

-- The token of a string literal, once its body is read.
unfoldable pub string_token :
    (Text → Result SchemeError (List Sexpr))
    → Option (Text × Text)
    → Result SchemeError (List Sexpr)
string_token next none = err unterminated_string
string_token next (some (value, after)) = push (text_token value) (next after)

-- One round of the loop at the rune `c`; `next` goes on with the rest of the input.
unfoldable pub token_at :
    (Text → Result SchemeError (List Sexpr)) → ℕ → Text → Result SchemeError (List Sexpr)
token_at next c rest =
    let behind_space = next rest in
    let behind_comment = next (skip_comment (c ∷ rest)) in
    let behind_string = string_token next (read_string [] rest) in
    let behind_atom = push (atom (read_atom (c ∷ rest)).0) (next (read_atom (c ∷ rest)).1) in
    if is_space c
    then behind_space
    else if c == b';'
    then behind_comment
    else if is_bracket c
    then push (atom (c ∷ [])) behind_space
    else if c == b'"'
    then behind_string
    else behind_atom

unfoldable pub tokenize_loop : ℕ → Text → Result SchemeError (List Sexpr)
tokenize_loop zero input = err out_of_fuel
tokenize_loop (suc f) [] = ok []
tokenize_loop (suc f) (c ∷ rest) = token_at (tokenize_loop f) c rest

unfoldable pub tokenize_scheme : Text → Result SchemeError (List Sexpr)
unfolding tokenize_loop token_at is_space is_bracket skip_comment read_string read_atom string_token
tokenize_scheme input = tokenize_loop (suc (length input)) input
