-- ===== src/Shape/Types.antt =====
-- report/report/model.go: the shape of a scenario's traces. Counts are Go's 64-bit `int`, as the
-- number that their bits spell; the occurrences of a node come from captures and are left out.
use rules_stests.Base.{ℕ, ◌+◌, ◌*◌, ◌%◌, ◌^◌, Bool, true, false, List, [], ◌∷◌, Text, ltb}

-- `a + b` and `a * b` on `int`, and the signed `a < b`.
abbrev pub add64 : ℕ → ℕ → ℕ
add64 a b = (a + b) % 2 ^ 64

abbrev pub mul64 : ℕ → ℕ → ℕ
mul64 a b = (a * b) % 2 ^ 64

abbrev pub lt64 : ℕ → ℕ → Bool
lt64 a b = ltb ((a + 2 ^ 63) % 2 ^ 64) ((b + 2 ^ 63) % 2 ^ 64)

-- The count fields that trace and span groups share.
pub record Counts : Type 0 where
  pub count : ℕ
  pub exact_count : Bool
  pub min_count : ℕ
  pub max_count : ℕ

-- The text fields of a span node.
pub record Labels : Type 0 where
  pub scope : Text
  pub kind : Text
  pub status : Text
  pub name : Text
  pub http_status : Text

mutual
  -- Counts, cardinality, alternatives, span.
  pub data SpanGroup : Type 0 where
    span_group : Counts → Text → SpanGroups → SpanNode → SpanGroup

  pub data SpanGroups : Type 0 where
    nil : SpanGroups
    cons : SpanGroup → SpanGroups → SpanGroups

  -- Labels and children.
  pub data SpanNode : Type 0 where
    span_node : Labels → SpanGroups → SpanNode

mutual
  -- Counts, cardinality, alternatives, coverage, roots.
  pub data TraceGroup : Type 0 where
    trace_group : Counts → Text → TraceGroups → Text → SpanGroups → TraceGroup

  pub data TraceGroups : Type 0 where
    nil : TraceGroups
    cons : TraceGroup → TraceGroups → TraceGroups

abbrev pub no_labels : Labels
no_labels = record { scope = []; kind = []; status = []; name = []; http_status = [] }

abbrev pub no_span : SpanNode
no_span = span_node no_labels SpanGroups.nil

abbrev pub one : Counts
one = record { count = 1; exact_count = true; min_count = 1; max_count = 1 }

abbrev pub no_counts : Counts
no_counts = record { count = 0; exact_count = false; min_count = 0; max_count = 0 }

abbrev pub counts_of : SpanGroup → Counts
counts_of (span_group c k alts s) = c

abbrev pub alternatives_of : SpanGroup → SpanGroups
alternatives_of (span_group c k alts s) = alts

abbrev pub trace_counts : TraceGroup → Counts
trace_counts (trace_group c k alts cov roots) = c

-- Span groups at the end of a list.
abbrev pub append_groups : SpanGroups → SpanGroups → SpanGroups
append_groups SpanGroups.nil more = more
append_groups (SpanGroups.cons g gs) more = SpanGroups.cons g (append_groups gs more)

abbrev pub group_list : List SpanGroup → SpanGroups
group_list [] = SpanGroups.nil
group_list (g ∷ gs) = SpanGroups.cons g (group_list gs)

abbrev pub trace_list : List TraceGroup → TraceGroups
trace_list [] = TraceGroups.nil
trace_list (g ∷ gs) = TraceGroups.cons g (trace_list gs)

abbrev pub no_alternatives : SpanGroups → Bool
no_alternatives SpanGroups.nil = true
no_alternatives (SpanGroups.cons g gs) = false

abbrev pub no_trace_alternatives : TraceGroups → Bool
no_trace_alternatives TraceGroups.nil = true
no_trace_alternatives (TraceGroups.cons g gs) = false
