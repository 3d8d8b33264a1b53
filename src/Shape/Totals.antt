-- ===== src/Shape/Totals.antt =====
-- report/report/scheme.go: ParseScenarioShape and accumulateSpan, the totals of a shape whose
-- counts are all exact. The partial totals of a shape that is not exact are dropped by the source,
-- so they are not kept here either.
pub mod Weight
use rules_stests.Base.{
  ℕ, suc, ◌+◌, Bool, true, false, not, ◌&&◌, ◌||◌, ◌≡◌, refl, List, [], ◌∷◌, ◌++◌, Option, none,
  some, ◌==◌, if◌then◌else◌, Text, codes, is_nil, text_eq, Result, ok, err, ◌>>=◌,
}
use rules_stests.Scheme.Expr.{Sexpr, Sexprs, node, nil, cons, list_of, head, find_definition}
use rules_stests.Scheme.Parser.{read_source}
use rules_stests.Shape.Types.{
  add64, mul64, Counts, Labels, SpanGroup, SpanGroups, SpanNode, TraceGroup, TraceGroups,
  span_group, span_node, trace_group, trace_counts,
}
use rules_stests.Shape.Cardinality.{ShapeError, unreadable, no_definition, not_traces, no_traces}
use rules_stests.Shape.Parse.{collect, parse_trace_groups}

-- `SpanCount`, `Scopes` and `Statuses` of the shape, filled in as spans are visited.
pub record Totals : Type 0 where
  pub span_count : ℕ
  pub scopes : List (Text × ℕ)
  pub statuses : List (Text × ℕ)

abbrev pub no_totals : Totals
no_totals = record { span_count = 0; scopes = []; statuses = [] }

-- `m[k] += n`.
unfoldable pub increase : Text → ℕ → List (Text × ℕ) → List (Text × ℕ)
increase k n [] = (k, n) ∷ []
increase k n ((j, v) ∷ m) = if text_eq j k then (k, add64 v n) ∷ m else (j, v) ∷ increase k n m

-- One span, counted `n` times.
unfoldable pub tally : Labels → ℕ → Totals → Totals
unfolding increase
tally l n t = record {
  span_count = add64 t.span_count n;
  scopes = if is_nil l.scope then t.scopes else increase l.scope n t.scopes;
  statuses = if is_nil l.status then t.statuses else increase l.status n t.statuses;
}

abbrev pub and_then : Option Totals → (Totals → Option Totals) → Option Totals
and_then none f = none
and_then (some t) f = f t

unfoldable mutual
  -- `none` where the source returns false.
  pub accumulate_span : SpanGroup → ℕ → Totals → Option Totals
  accumulate_span (span_group c k (SpanGroups.cons g gs) s) parent t = none
  accumulate_span (span_group c k SpanGroups.nil (span_node l children)) parent t =
      let below =
        accumulate_spans children (mul64 parent c.count) (tally l (mul64 parent c.count) t) in
      if c.exact_count then below else none

  pub accumulate_spans : SpanGroups → ℕ → Totals → Option Totals
  accumulate_spans SpanGroups.nil parent t = some t
  accumulate_spans (SpanGroups.cons g gs) parent t =
      and_then (accumulate_span g parent t) (accumulate_spans gs parent)

pub record ScenarioShape : Type 0 where
  pub profile : Text
  pub scenario : Text
  pub source : Text
  pub traces : List TraceGroup
  pub exact_counts : Bool
  pub trace_count : ℕ
  pub totals : Totals

-- The traces' counts and the totals of their roots.
unfoldable pub accumulate_traces : List TraceGroup → ℕ → Totals → Option (ℕ × Totals)
unfolding accumulate_span
accumulate_traces [] traces t = some (traces, t)
accumulate_traces (trace_group c k alts cov roots ∷ more) traces t =
    elim (accumulate_spans roots c.count t) [
      | none ↦ none
      | some t' ↦ accumulate_traces more (add64 traces c.count) t'
    ]

unfoldable pub all_exact : List TraceGroup → Bool
all_exact [] = true
all_exact (g ∷ gs) = (trace_counts g).exact_count && all_exact gs

unfoldable pub shape_totals : List TraceGroup → Option (ℕ × Totals)
unfolding accumulate_traces all_exact
shape_totals traces =
    let totals = accumulate_traces traces 0 no_totals in if all_exact traces then totals else none

unfoldable pub shape_of : Text → Text → Text → List TraceGroup → ScenarioShape
unfolding shape_totals
shape_of profile scenario source traces = elim (shape_totals traces) [
  | none ↦ record {
    profile = profile;
    scenario = scenario;
    source = source;
    traces = traces;
    exact_counts = false;
    trace_count = 0;
    totals = no_totals;
  }
  | some (n, t) ↦ record {
    profile = profile;
    scenario = scenario;
    source = source;
    traces = traces;
    exact_counts = true;
    trace_count = n;
    totals = t;
  }
]

-- The first definition of the name among the forms of a source.
unfoldable pub first_definition : Text → List Sexpr → Option Sexpr
unfolding find_definition
first_definition name [] = none
first_definition name (e ∷ es) = elim (find_definition name e) [
  | some found ↦ some found
  | none ↦ first_definition name es
]

-- The traces of the definition's value, which must be a `traces` form.
unfoldable pub traces_of : Option Sexpr → Result ShapeError (List TraceGroup)
unfolding collect parse_trace_groups
traces_of none = err no_definition
traces_of (some (node a nil s)) = err not_traces
traces_of (some (node a (cons h items) s)) =
    let parsed = collect (parse_trace_groups items) in
    if text_eq (head (node a (cons h items) s)) (codes "traces") then parsed else err not_traces

abbrev pub some_traces : Text → Text → Text → List TraceGroup → Result ShapeError ScenarioShape
some_traces profile scenario source traces =
    if is_nil traces then err no_traces else ok (shape_of profile scenario source traces)

unfoldable pub parse_scenario_shape : Text → Text → Text → Text → Result ShapeError ScenarioShape
unfolding read_source first_definition traces_of shape_of head
parse_scenario_shape profile scenario source input = elim (read_source input) [
  | err e ↦ err (unreadable e)
  | ok forms ↦
      traces_of (first_definition (codes "scenario-shape") forms)
      >>= some_traces profile scenario source
]
