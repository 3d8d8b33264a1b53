-- ===== src/Shape/Parse.antt =====
-- report/report/scheme.go: parseSpan, parseSpanGroup, parseTrace, parseTraceGroup and
-- ParseScenarioShape. The groups among an expression's elements are parsed beside the switch on
-- its head, which reads those results that the source would compute, in the source's order.
use rules_stests.Base.{
  ℕ, Bool, true, false, List, [], ◌∷◌, none, some, ◌==◌, if◌then◌else◌, Text, codes, is_nil,
  text_eq, lookup, Result, ok, err, ◌>>=◌,
}
use rules_stests.Scheme.Expr.{
  Sexpr, Sexprs, node, nil, cons, count, atom_value, head, second_value, render_matcher,
}
use rules_stests.Shape.Types.{
  Counts, SpanGroup, SpanGroups, SpanNode, TraceGroup, TraceGroups, span_group, span_node,
  trace_group, one, no_counts, no_span, counts_of, trace_counts, append_groups, group_list,
  trace_list,
}
use rules_stests.Shape.Cardinality.{
  ShapeError, bad_coverage, no_roots, bad_children, empty_choice, unexpected_group,
  parse_cardinality, is_cardinality, bounds, apply_span_cardinality, apply_trace_cardinality, widen,
}

-- The first error in order, or all values.
unfoldable pub collect {ℓ} : {A : Type ℓ} → List (Result ShapeError A) → Result ShapeError (List A)
collect [] = ok []
collect (r ∷ rs) = r >>= λ x. collect rs >>= λ xs. ok (x ∷ xs)

-- The group that a cardinality expression is applied to: the last element.
unfoldable pub last_result {ℓ} : {A : Type ℓ} → List (Result ShapeError A) → Result ShapeError A
last_result [] = err empty_choice
last_result (r ∷ []) = r
last_result (r ∷ s ∷ rs) = last_result (s ∷ rs)

-- The loop over the alternatives of a choice of spans.
unfoldable pub widen_spans : Bool → Counts → List SpanGroup → Counts
widen_spans first c [] = c
widen_spans first c (g ∷ gs) = widen_spans false (widen first c (bounds (counts_of g))) gs

unfoldable pub widen_traces : Bool → Counts → List TraceGroup → Counts
widen_traces first c [] = c
widen_traces first c (g ∷ gs) = widen_traces false (widen first c (bounds (trace_counts g))) gs

abbrev pub span_choice : List SpanGroup → SpanGroup
span_choice gs = span_group (widen_spans true no_counts gs) (codes "one_of") (group_list gs) no_span

-- The switch of `parseSpanGroup`: on the head's text, the elements behind the head, the span that
-- they describe, and the groups that they are.
unfoldable pub span_group_of :
    Text
    → Sexprs
    → Result ShapeError SpanNode
    → List (Result ShapeError SpanGroup)
    → Result ShapeError SpanGroup
span_group_of name args span groups =
    let plain = span >>= λ s. ok (span_group one [] SpanGroups.nil s) in
    let applied = parse_cardinality name args >>= λ (lo, hi).
    last_result groups >>= λ g. ok (apply_span_cardinality g name lo hi) in
    let chosen = collect groups >>= λ gs. ok (span_choice gs) in
    if text_eq name (codes "span")
    then plain
    else if is_cardinality name
    then applied
    else if text_eq name (codes "one-of")
    then (if is_nil groups then err empty_choice else chosen)
    else err (unexpected_group name)

-- `span.Name = renderMatcher(property.list[1])`, when there is such an element.
unfoldable pub name_of : Sexpr → Text → Text
name_of (node a (cons x (cons y ys)) s) old = render_matcher y
name_of (node a _ s) old = old

-- The switch of `parseSpan` on one property; `children` holds the parsed groups below it.
unfoldable pub span_property :
    Sexpr → Result ShapeError SpanGroups → SpanNode → Result ShapeError SpanNode
unfolding head second_value name_of
span_property p children (span_node l gs) =
    let with_children = children >>= λ more. ok (span_node l (append_groups gs more)) in
    if text_eq (head p) (codes "scope")
    then ok (span_node (record l { scope = second_value p }) gs)
    else if text_eq (head p) (codes "kind")
    then ok (span_node (record l { kind = second_value p }) gs)
    else if text_eq (head p) (codes "status")
    then ok (span_node (record l { status = second_value p }) gs)
    else if text_eq (head p) (codes "http-status")
    then ok (span_node (record l { http_status = second_value p }) gs)
    else if text_eq (head p) (codes "name")
    then ok (span_node (record l { name = name_of p l.name }) gs)
    else if text_eq (head p) (codes "children")
    then with_children
    else ok (span_node l gs)

-- `property.list[1]` must be an `unordered` form; its elements are the children.
unfoldable pub unordered_groups :
    Text → List (Result ShapeError SpanGroup) → Result ShapeError SpanGroups
unfolding collect
unordered_groups name groups =
    let collected = collect groups >>= λ gs. ok (group_list gs) in
    if text_eq name (codes "unordered") then collected else err bad_children

unfoldable mutual
  pub parse_span_group : Sexpr → Result ShapeError SpanGroup
  parse_span_group (node a nil s) = err (unexpected_group [])
  parse_span_group (node a (cons h args) s) =
      span_group_of (atom_value h) args (parse_span args no_span) (parse_span_groups args)

  pub parse_span_groups : Sexprs → List (Result ShapeError SpanGroup)
  parse_span_groups nil = []
  parse_span_groups (cons x xs) = parse_span_group x ∷ parse_span_groups xs

  -- The loop over the properties behind `span`.
  pub parse_span : Sexprs → SpanNode → Result ShapeError SpanNode
  parse_span nil span = ok span
  parse_span (cons p ps) span = span_property p (parse_children p) span >>= parse_span ps

  pub parse_children : Sexpr → Result ShapeError SpanGroups
  parse_children (node a (cons h (cons (node b (cons u items) s') nil)) s) =
      unordered_groups (atom_value u) (parse_span_groups items)
  parse_children (node a _ s) = err bad_children

-- `parseTrace`: the coverage and the roots so far.
unfoldable pub trace_property : Sexpr → Text × SpanGroups → Result ShapeError (Text × SpanGroups)
unfolding parse_span_group
trace_property (node a nil s) (coverage, roots) = ok (coverage, roots)
trace_property (node a (cons h args) s) (coverage, roots) =
    let covered =
      if count args == 1
      then ok (second_value (node a (cons h args) s), roots)
      else err bad_coverage in
    let rooted = collect (parse_span_groups args) >>= λ gs.
    ok (coverage, append_groups roots (group_list gs)) in
    if text_eq (atom_value h) (codes "coverage")
    then covered
    else if text_eq (atom_value h) (codes "unordered")
    then rooted
    else ok (coverage, roots)

unfoldable pub trace_properties : Sexprs → Text × SpanGroups → Result ShapeError (Text × SpanGroups)
unfolding trace_property
trace_properties nil state = ok state
trace_properties (cons p ps) state = trace_property p state >>= trace_properties ps

-- A trace with no coverage is of coverage `unknown`; its counts are set by `parseTraceGroup`.
abbrev pub finish_trace : Text × SpanGroups → Result ShapeError TraceGroup
finish_trace (coverage, SpanGroups.nil) = err no_roots
finish_trace (coverage, SpanGroups.cons g gs) = ok (
    trace_group one [] TraceGroups.nil (if is_nil coverage then codes "unknown" else coverage)
      (SpanGroups.cons g gs))

abbrev pub trace_choice : List TraceGroup → TraceGroup
trace_choice gs =
    trace_group (widen_traces true no_counts gs) (codes "one_of") (trace_list gs) [] SpanGroups.nil

-- The switch of `parseTraceGroup`.
unfoldable pub trace_group_of :
    Text → Sexprs → List (Result ShapeError TraceGroup) → Result ShapeError TraceGroup
unfolding trace_properties
trace_group_of name args groups =
    let plain = trace_properties args ([], SpanGroups.nil) >>= finish_trace in
    let applied = parse_cardinality name args >>= λ (lo, hi).
    last_result groups >>= λ g. ok (apply_trace_cardinality g name lo hi) in
    let chosen = collect groups >>= λ gs. ok (trace_choice gs) in
    if text_eq name (codes "trace")
    then plain
    else if is_cardinality name
    then applied
    else if text_eq name (codes "one-of")
    then (if is_nil groups then err empty_choice else chosen)
    else err (unexpected_group name)

unfoldable mutual
  pub parse_trace_group : Sexpr → Result ShapeError TraceGroup
  parse_trace_group (node a nil s) = err (unexpected_group [])
  parse_trace_group (node a (cons h args) s) =
      trace_group_of (atom_value h) args (parse_trace_groups args)

  pub parse_trace_groups : Sexprs → List (Result ShapeError TraceGroup)
  parse_trace_groups nil = []
  parse_trace_groups (cons x xs) = parse_trace_group x ∷ parse_trace_groups xs

-- A Go map of counts.
unfoldable pub count_in : Text → List (Text × ℕ) → ℕ
count_in k m = elim (lookup k m) [ none ↦ 0 | some n ↦ n ]
