-- ===== src/Tests/Shapes.antt =====
-- report/report/scheme.go: shapes of small sources.
use rules_stests.Base.{
  ℕ, true, ◌≡◌, refl, [], ◌∷◌, ◌%◌, ◌^◌, Text, codes, text_eq, lookup, Result, ok, err,
}
use rules_stests.Scheme.Expr.{Sexpr, nil, cons, atom, form, atom_value, defines}
use rules_stests.Shape.Types.{
  Counts, SpanGroup, SpanGroups, TraceGroup, TraceGroups, span_group, span_node, trace_group,
  no_labels,
}
use rules_stests.Shape.Cardinality.{
  ShapeError, parse_cardinality, parse_count, bad_range, apply_span_cardinality,
  apply_trace_cardinality,
}
use rules_stests.Shape.Parse.{
  parse_span_group, span_group_of, span_property, unordered_groups, collect, last_result,
  parse_trace_group, trace_group_of,
}
use rules_stests.Shape.Exact.{
  SpanIsExact, TraceIsExact, parse_span_group-IsExact, parse_trace_group-IsExact,
}
use rules_stests.Shape.Totals.{ScenarioShape, tally, all_exact, parse_scenario_shape}
use rules_stests.Shape.Totals.Weight.{traces_weight, traces_count, parse_scenario_shape-Adds}

abbrev run : Text → Result ShapeError ScenarioShape
run = parse_scenario_shape [] [] []

-- Two traces of one root with three children each.
abbrev source : Text
source =
    codes
      "(define scenario-shape (traces (repeat 2 (trace (unordered (span (scope s) (children (unordered (repeat 3 (span (kind k)))))))))))"

abbrev times : ℕ → Counts
times n = record { count = n; exact_count = true; min_count = n; max_count = n }

abbrev child : SpanGroup
child =
    span_group (times 3) [] SpanGroups.nil
      (span_node (record no_labels { kind = codes "k" }) SpanGroups.nil)

abbrev root : SpanGroup
root =
    span_group (times 1) [] SpanGroups.nil
      (span_node (record no_labels { scope = codes "s" }) (SpanGroups.cons child SpanGroups.nil))

-- Each of the two traces has its root and three children.
abbrev shape : ScenarioShape
shape = record {
  profile = [];
  scenario = [];
  source = [];
  traces =
      trace_group (times 2) [] TraceGroups.nil (codes "unknown")
        (SpanGroups.cons root SpanGroups.nil)
      ∷ [];
  exact_counts = true;
  trace_count = 2;
  totals = record { span_count = 8; scopes = (codes "s", 2) ∷ []; statuses = [] };
}

parses_source : run source ≡ ok shape
unfolding parse_scenario_shape parse_trace_group trace_group_of parse_span_group span_group_of
    span_property unordered_groups collect last_result parse_cardinality parse_count
    apply_trace_cardinality atom_value text_eq lookup defines apply_span_cardinality tally
parses_source = refl

parse_scenario_shape-Adds_example :
    (all_exact shape.traces ≡ true)
    × (shape.totals.span_count % 2 ^ 64 ≡ traces_weight shape.traces % 2 ^ 64)
    × (shape.trace_count % 2 ^ 64 ≡ traces_count shape.traces % 2 ^ 64)
parse_scenario_shape-Adds_example =
    parse_scenario_shape-Adds [] [] [] source shape parses_source refl

-- (repeat 3 (span (kind k)))
abbrev repeated : Sexpr
repeated = form (
    cons (atom (codes "repeat")) (
      cons (atom (codes "3")) (
        cons
          (form (
            cons (atom (codes "span"))
              (cons (form (cons (atom (codes "kind")) (cons (atom (codes "k")) nil))) nil)))
          nil)))

parses_repeated : parse_span_group repeated ≡ ok child
unfolding parse_span_group span_group_of span_property unordered_groups collect last_result
    parse_cardinality parse_count apply_span_cardinality atom_value text_eq
parses_repeated = refl

parse_span_group-IsExact_example : SpanIsExact child
parse_span_group-IsExact_example = parse_span_group-IsExact repeated parses_repeated

-- (trace (unordered (repeat 3 (span (kind k)))))
abbrev one_trace : Sexpr
one_trace = form (
    cons (atom (codes "trace"))
      (cons (form (cons (atom (codes "unordered")) (cons repeated nil))) nil))

abbrev trace_of_child : TraceGroup
trace_of_child =
    trace_group (times 1) [] TraceGroups.nil (codes "unknown")
      (SpanGroups.cons child SpanGroups.nil)

parses_trace : parse_trace_group one_trace ≡ ok trace_of_child
unfolding parse_trace_group trace_group_of parse_span_group span_group_of span_property collect
    last_result parse_cardinality parse_count apply_span_cardinality atom_value text_eq
parses_trace = refl

parse_trace_group-IsExact_example : TraceIsExact trace_of_child
parse_trace_group-IsExact_example = parse_trace_group-IsExact one_trace parses_trace

-- (between 3 2 ...) has no bounds.
refuses_range :
    parse_cardinality
      (codes "between")
      (cons (atom (codes "3")) (cons (atom (codes "2")) (cons (atom (codes "x")) nil)))
    ≡ err bad_range
unfolding parse_cardinality parse_count atom_value text_eq
refuses_range = refl
