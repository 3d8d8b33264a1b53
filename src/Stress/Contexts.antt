-- ===== src/Stress/Contexts.antt =====
-- harness/parallel_scenarios.go: the native spans, and how validateStress compares the parent of a
-- server span with the context that its request carried. `strconv.ParseUint` and `strings.Split`
-- are written out for the bases and the separator that the source gives them.
use rules_stests.Base.{
  ℕ, zero, suc, ◌+◌, ◌-◌, ◌*◌, ◌^◌, not, ◌&&◌, ◌||◌, List, [], ◌∷◌, ◌++◌, ◌==◌, ltb, leb,
  if◌then◌else◌, Option, none, some, Text, codes, length, is_nil, text_eq, lookup, Result, err, ok,
  ◌>>=◌, ◌>>◌, guard,
}
use rules_stests.Stress.Ledger.{
  ℤ, RequestLedger, StressError, malformed_context, malformed_datadog, wrong_parent, wrong_caller,
  stray_parent,
}

pub record StressSpan : Type 0 where
  pub trace_id : ℕ
  pub span_id : ℕ
  pub parent_id : ℕ
  pub start : ℤ
  pub duration : ℤ
  pub service : Text
  pub name : Text
  pub resource : Text
  pub kind : Text
  pub error : ℤ
  pub meta : List (Text × Text)

pub record StressIdentity : Type 0 where
  pub low : ℕ
  pub high : Text
  pub span : ℕ

-- A missing key reads as the empty string.
unfoldable pub value_at : Text → List (Text × Text) → Text
value_at k m = elim (lookup k m) [ none ↦ [] | some v ↦ v ]

unfoldable pub digit_of : ℕ → Option ℕ
digit_of c =
    if leb b'0' c && leb c b'9'
    then some (c - b'0')
    else if leb b'a' c && leb c b'z'
    then some (c - b'a' + 10)
    else if leb b'A' c && leb c b'Z'
    then some (c - b'A' + 10)
    else none

unfoldable pub parse_digits : ℕ → Text → ℕ → Option ℕ
parse_digits base [] n = some n
parse_digits base (c ∷ cs) n = elim (digit_of c) [
  | none ↦ none
  | some d ↦ if ltb d base then parse_digits base cs (n * base + d) else none
]

-- `strconv.ParseUint(t, base, bits)`, its errors left out.
unfoldable pub parse_uint : ℕ → ℕ → Text → Option ℕ
parse_uint base bits t = if is_nil t then none else elim (parse_digits base t 0) [
  | none ↦ none
  | some n ↦ if ltb n (2 ^ bits) then some n else none
]

-- `strings.Split(t, "-")`: the first part and the others.
unfoldable pub split_dash : Text → Text × List Text
split_dash [] = ([], [])
split_dash (c ∷ cs) =
    let (first, others) = split_dash cs in
    if c == b'-' then ([], first ∷ others) else (c ∷ first, others)

unfoldable pub take : ℕ → Text → Text
take zero t = []
take (suc n) [] = []
take (suc n) (c ∷ cs) = c ∷ take n cs

unfoldable pub drop : ℕ → Text → Text
drop zero t = t
drop (suc n) [] = []
drop (suc n) (c ∷ cs) = drop n cs

-- `err != nil` behind a parse.
unfoldable pub or_error {ℓ} : {A : Type ℓ} → Option A → StressError → Result StressError A
or_error none failure = err failure
or_error (some a) failure = ok a

-- The tests on the four numbers of a context: the two halves of its trace, its caller and its flags.
unfoldable pub compare_numbers :
    StressIdentity
    → StressSpan
    → Text
    → (low high caller flags : Option ℕ) → Result StressError (Unit {0})
compare_numbers key s high_text low high caller flags = do
  l ← or_error low malformed_context
  h ← or_error high malformed_context
  c ← or_error caller malformed_context
  f ← or_error flags malformed_context
  guard (not (l == 0 && h == 0 || c == 0)) malformed_context
  guard (key.low == l && text_eq key.high high_text && s.parent_id == c) wrong_parent

unfoldable pub check_numbers :
    StressIdentity → StressSpan → Text → Text → Text → Result StressError (Unit {0})
check_numbers key s trace parent flags =
    compare_numbers key s (take 16 trace) (parse_uint 16 64 (drop 16 trace))
      (parse_uint 16 64 (take 16 trace)) (parse_uint 16 64 parent) (parse_uint 16 8 flags)

-- The three parts behind the first, where there are that many.
unfoldable pub three_parts : List Text → Option (Text × Text × Text)
three_parts [] = none
three_parts (a ∷ []) = none
three_parts (a ∷ b ∷ []) = none
three_parts (a ∷ b ∷ c ∷ []) = some (a, b, c)
three_parts (a ∷ b ∷ c ∷ d ∷ more) = none

unfoldable pub check_traceparent :
    StressIdentity → StressSpan → Text → Result StressError (Unit {0})
check_traceparent key s remote = do
  (trace, parent, flags) ← or_error (three_parts (split_dash remote).1) malformed_context
  guard (text_eq (split_dash remote).0 (codes "00")) malformed_context
  guard (length trace == 32 && length parent == 16 && length flags == 2) malformed_context
  check_numbers key s trace parent flags

unfoldable pub compare_caller :
    StressIdentity → StressSpan → Text → (low caller : Option ℕ) → Result StressError (Unit {0})
compare_caller key s tags low caller = do
  l ← or_error low malformed_datadog
  c ← or_error caller malformed_datadog
  guard (not (l == 0 || c == 0)) malformed_datadog
  guard (key.low == l && s.parent_id == c && text_eq tags (codes "_dd.p.tid=" ++ key.high))
      wrong_caller

unfoldable pub check_datadog :
    StressIdentity → StressSpan → List (Text × Text) → Text → Result StressError (Unit {0})
check_datadog key s incoming remote =
    compare_caller key s (value_at (codes "x-datadog-tags") incoming) (parse_uint 10 64 remote)
      (parse_uint 10 64 (value_at (codes "x-datadog-parent-id") incoming))

unfoldable pub check_parent :
    StressIdentity → StressSpan → RequestLedger → Result StressError (Unit {0})
check_parent key s r =
    let traceparent = value_at (codes "traceparent") r.incoming in
    let datadog = value_at (codes "x-datadog-trace-id") r.incoming in
    if not (is_nil traceparent)
    then check_traceparent key s traceparent
    else if not (is_nil datadog)
    then check_datadog key s r.incoming datadog
    else guard (s.parent_id == 0) stray_parent
