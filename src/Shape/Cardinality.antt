-- ===== src/Shape/Cardinality.antt =====
-- report/report/scheme.go: cardinalities, their application to groups, and bounds.
use rules_stests.Base.{
  ℕ, ◌+◌, ◌-◌, ◌*◌, ◌^◌, Bool, not, ◌&&◌, ◌||◌, [], ◌∷◌, Option, none, some, ◌==◌, ltb, leb,
  if◌then◌else◌, Text, codes, text_eq, Result, ok, err,
}
use rules_stests.Scheme.Expr.{Sexpr, Sexprs, nil, cons, atom_value}
use rules_stests.Scheme.Lexer.{SchemeError}
use rules_stests.Shape.Types.{
  mul64, lt64, Counts, SpanGroup, SpanGroups, TraceGroup, TraceGroups, span_group, trace_group,
  no_counts, no_span,
}

-- One constructor for each message; `unreadable` wraps an error of the reader.
pub data ShapeError : Type 0 where
  unreadable : SchemeError → ShapeError
  no_definition not_traces no_traces bad_coverage no_roots bad_children : ShapeError
  bad_count bad_repeat bad_between bad_range bad_optional empty_choice : ShapeError
  unexpected_group : Text → ShapeError

-- The digits of `strconv.Atoi`, with the value so far.
unfoldable pub digits_value : Text → ℕ → Option ℕ
digits_value [] n = some n
digits_value (c ∷ cs) n =
    let more = digits_value cs (n * 10 + (c - b'0')) in
    if leb b'0' c && leb c b'9' then more else none

-- `count, err := strconv.Atoi(s)` with the test `err != nil || count < 0`: an optional sign, then
-- digits, in the range of a 64-bit integer. A minus sign is let through for zero alone.
unfoldable pub parse_number : Text → Option ℕ
unfolding digits_value
parse_number [] = none
parse_number (c ∷ []) = digits_value (c ∷ []) 0
parse_number (c ∷ d ∷ ds) =
    let unsigned = if c == b'+' || c == b'-' then d ∷ ds else c ∷ d ∷ ds in
    elim (digits_value unsigned 0) [
      | none ↦ none
      | some n ↦ if (c == b'-' && not (n == 0)) || leb (2 ^ 63) n then none else some n
    ]

unfoldable pub parse_count : Sexpr → Result ShapeError ℕ
unfolding parse_number
parse_count e = elim (parse_number (atom_value e)) [ none ↦ err bad_count | some n ↦ ok n ]

-- The two numbers of a cardinality, on the elements behind its head. The expression that it is
-- applied to is the last of them.
unfoldable pub parse_cardinality : Text → Sexprs → Result ShapeError (ℕ × ℕ)
parse_cardinality name (cons x nil) =
    if text_eq name (codes "optional")
    then ok (0, 1)
    else if text_eq name (codes "repeat")
    then err bad_repeat
    else err bad_between
parse_cardinality name (cons x (cons y nil)) =
    let counted : Result ShapeError (ℕ × ℕ) = elim (parse_count x) [
      | err e ↦ err e
      | ok n ↦ ok (n, n)
    ] in
    if text_eq name (codes "repeat")
    then counted
    else if text_eq name (codes "between")
    then err bad_between
    else err bad_optional
parse_cardinality name (cons x (cons y (cons z nil))) =
    let ranged : Result ShapeError (ℕ × ℕ) = elim (parse_count x) [
      | err e ↦ err e
      | ok lo ↦ elim (parse_count y) [
        | err e ↦ err bad_range
        | ok hi ↦ if ltb hi lo then err bad_range else ok (lo, hi)
      ]
    ] in
    if text_eq name (codes "between")
    then ranged
    else if text_eq name (codes "repeat")
    then err bad_repeat
    else err bad_optional
parse_cardinality name _ =
    if text_eq name (codes "repeat")
    then err bad_repeat
    else if text_eq name (codes "between")
    then err bad_between
    else err bad_optional

abbrev pub is_cardinality : Text → Bool
is_cardinality name =
    text_eq name (codes "repeat")
    || text_eq name (codes "between")
    || text_eq name (codes "optional")

-- `spanBounds` and `traceBounds`.
abbrev pub bounds : Counts → ℕ × ℕ
bounds c = if c.exact_count then (c.count, c.count) else (c.min_count, c.max_count)

unfoldable pub span_bounds : SpanGroup → ℕ × ℕ
span_bounds (span_group c k alts s) = bounds c

unfoldable pub trace_bounds : TraceGroup → ℕ × ℕ
trace_bounds (trace_group c k alts cov roots) = bounds c

-- The new counts of a group without alternatives.
abbrev pub multiplied : ℕ → ℕ → Counts → Counts
multiplied lo hi c =
    let exact = lo == hi && c.exact_count in
    record {
      count = if exact then mul64 lo (bounds c).0 else 0;
      exact_count = exact;
      min_count = mul64 lo (bounds c).0;
      max_count = mul64 hi (bounds c).1;
    }

unfoldable pub apply_span_cardinality : SpanGroup → Text → ℕ → ℕ → SpanGroup
apply_span_cardinality (span_group c k SpanGroups.nil s) card lo hi =
    let m = multiplied lo hi c in span_group m (if m.exact_count then k else card) SpanGroups.nil s
apply_span_cardinality (span_group c k (SpanGroups.cons g gs) s) card lo hi =
    span_group
      (record no_counts { min_count = mul64 lo (bounds c).0; max_count = mul64 hi (bounds c).1 })
      card (SpanGroups.cons (span_group c k (SpanGroups.cons g gs) s) SpanGroups.nil) no_span

unfoldable pub apply_trace_cardinality : TraceGroup → Text → ℕ → ℕ → TraceGroup
apply_trace_cardinality (trace_group c k TraceGroups.nil cov roots) card lo hi =
    let m = multiplied lo hi c in
    trace_group m (if m.exact_count then k else card) TraceGroups.nil cov roots
apply_trace_cardinality (trace_group c k (TraceGroups.cons g gs) cov roots) card lo hi =
    trace_group
      (record no_counts { min_count = mul64 lo (bounds c).0; max_count = mul64 hi (bounds c).1 })
      card (TraceGroups.cons (trace_group c k (TraceGroups.cons g gs) cov roots) TraceGroups.nil) []
      SpanGroups.nil

-- The bounds of a choice: the least minimum and the greatest maximum so far. The first
-- alternative always sets the minimum; the maximum starts at 0.
abbrev pub widen : Bool → Counts → ℕ × ℕ → Counts
widen first c (lo, hi) = record c {
  min_count = if first || lt64 lo c.min_count then lo else c.min_count;
  max_count = if lt64 c.max_count hi then hi else c.max_count;
}
