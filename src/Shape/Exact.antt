-- ===== src/Shape/Exact.antt =====
-- The exact counts of groups that report/report/scheme.go parses.
use rules_stests.Base.{
  ℕ, Bool, true, false, ◌≡◌, refl, inl, inr, List, [], ◌∷◌, ==_iff, if◌then◌else◌, Bool-cases, Text,
  codes, All, is_nil, text_eq, Result, ok, err, ◌>>=◌, >>=-eq-ok, ok-injective, arith,
}
use mathlib.Core.Path.{subst}
use rules_stests.Scheme.Expr.{Sexpr, Sexprs, node, nil, cons, atom_value}
use rules_stests.Shape.Types.{
  Counts, SpanGroup, SpanGroups, SpanNode, TraceGroup, TraceGroups, span_group, trace_group,
  no_counts, counts_of, trace_counts, alternatives_of, no_alternatives, no_trace_alternatives,
}
use rules_stests.Shape.Cardinality.{
  ShapeError, empty_choice, parse_cardinality, is_cardinality, multiplied, apply_span_cardinality,
  apply_trace_cardinality,
}
use rules_stests.Shape.Parse.{
  collect, last_result, span_choice, widen_spans, span_group_of, parse_span_group,
  parse_span_groups, widen_traces, trace_choice, trace_group_of, trace_properties, finish_trace,
  parse_trace_group, parse_trace_groups,
}

-- An exact group has one count, which is both of its bounds, and offers no choice.
abbrev pub IsExact : Counts → Bool → Type 0
IsExact c plain =
    c.exact_count ≡ true → (c.count ≡ c.min_count) × (c.min_count ≡ c.max_count) × (plain ≡ true)

abbrev pub SpanIsExact : SpanGroup → Type 0
SpanIsExact g = IsExact (counts_of g) (no_alternatives (alternatives_of g))

abbrev trace_plain : TraceGroup → Bool
trace_plain (trace_group c k alts cov roots) = no_trace_alternatives alts

abbrev pub TraceIsExact : TraceGroup → Type 0
TraceIsExact g = IsExact (trace_counts g) (trace_plain g)

multiplied-IsExact : (lo hi : ℕ) (c : Counts) → IsExact c true → IsExact (multiplied lo hi c) true
multiplied-IsExact lo hi c h e = ground (arith, h, e, ==_iff lo hi)

apply_span-IsExact :
    (g : SpanGroup) (card : Text) (lo hi : ℕ)
    → SpanIsExact g
    → SpanIsExact (apply_span_cardinality g card lo hi)
unfolding apply_span_cardinality
apply_span-IsExact (span_group c k SpanGroups.nil s) card lo hi h = multiplied-IsExact lo hi c h
apply_span-IsExact (span_group c k (SpanGroups.cons g gs) s) card lo hi h = λ e. cc

apply_trace-IsExact :
    (g : TraceGroup) (card : Text) (lo hi : ℕ)
    → TraceIsExact g
    → TraceIsExact (apply_trace_cardinality g card lo hi)
unfolding apply_trace_cardinality
apply_trace-IsExact (trace_group c k TraceGroups.nil v r) card lo hi h =
    multiplied-IsExact lo hi c h
apply_trace-IsExact (trace_group c k (TraceGroups.cons g gs) v r) card lo hi h = λ e. cc

-- A choice is never exact.
widen_spans-exact :
    (first : Bool) (c : Counts) (gs : List SpanGroup)
    → (widen_spans first c gs).exact_count ≡ c.exact_count
unfolding widen_spans
widen_spans-exact first c [] = refl
widen_spans-exact first c (g ∷ gs) = widen_spans-exact false _ gs

widen_traces-exact :
    (first : Bool) (c : Counts) (gs : List TraceGroup)
    → (widen_traces first c gs).exact_count ≡ c.exact_count
unfolding widen_traces
widen_traces-exact first c [] = refl
widen_traces-exact first c (g ∷ gs) = widen_traces-exact false _ gs

-- `P` of each value among the results.
abbrev AllOk {ℓ κ} : {A : Type ℓ} → (A → Type κ) → List (Result ShapeError A) → Type (ℓ ⊔ κ)
AllOk {A} P rs = All (λ r. (a : A) → r ≡ ok a → P a) rs

last_result-AllOk {ℓ κ} :
    {A : Type ℓ} (P : A → Type κ) (rs : List (Result ShapeError A)) (a : A)
    → AllOk P rs
    → last_result rs ≡ ok a
    → P a
unfolding last_result
last_result-AllOk P [] a h e = cc
last_result-AllOk P (r ∷ []) a h e = h.0 a e
last_result-AllOk P (r ∷ s ∷ rs) a h e = last_result-AllOk P (s ∷ rs) a h.1 e

span_choice-IsExact :
    (groups : List (Result ShapeError SpanGroup)) (g : SpanGroup)
    → (if is_nil groups then err empty_choice else (collect groups >>= λ gs. ok (span_choice gs)))
      ≡ ok g
    → SpanIsExact g
span_choice-IsExact [] g h = cc
span_choice-IsExact (r ∷ rs) g h =
    let (gs, _, e) = >>=-eq-ok (collect (r ∷ rs)) _ h in
    subst SpanIsExact (ok-injective e) (λ x. cc (widen_spans-exact true no_counts gs, x))

span_applied-IsExact :
    (name : Text) (args : Sexprs) (groups : List (Result ShapeError SpanGroup)) (g : SpanGroup)
    → AllOk SpanIsExact groups
    → (parse_cardinality name args >>= λ (lo, hi).
        last_result groups >>= λ i. ok (apply_span_cardinality i name lo hi))
      ≡ ok g
    → SpanIsExact g
span_applied-IsExact name args groups g all h =
    let ((lo, hi), _, h₁) = >>=-eq-ok (parse_cardinality name args) _ h in
    let (inner, p, e) = >>=-eq-ok (last_result groups) _ h₁ in
    subst SpanIsExact (ok-injective e)
      (apply_span-IsExact inner name lo hi (last_result-AllOk SpanIsExact groups inner all p))

span_group_of-IsExact :
    (name : Text) (args : Sexprs) (span : Result ShapeError SpanNode)
    (groups : List (Result ShapeError SpanGroup)) (g : SpanGroup)
    → AllOk SpanIsExact groups
    → span_group_of name args span groups ≡ ok g
    → SpanIsExact g
unfolding span_group_of
span_group_of-IsExact name args span groups g all h =
    elim (Bool-cases (text_eq name (codes "span"))) [
      | inl a ↦
          let (s, _, e) = >>=-eq-ok span _ (rw a at h) in
          subst SpanIsExact (ok-injective e) (λ _. (refl, refl, refl))
      | inr a ↦ elim (Bool-cases (is_cardinality name)) [
        | inl b ↦ span_applied-IsExact name args groups g all (rw (a, b) at h)
        | inr b ↦ elim (Bool-cases (text_eq name (codes "one-of"))) [
          | inl c ↦ span_choice-IsExact groups g (rw (a, b, c) at h)
          | inr c ↦ cc (rw (a, b, c) at h)
        ]
      ]
    ]

mutual
  unfolding parse_span_group

  parsed_span : (e : Sexpr) (g : SpanGroup) → parse_span_group e ≡ ok g → SpanIsExact g
  parsed_span (node a nil s) g h = cc
  parsed_span (node a (cons x args) s) g h =
      span_group_of-IsExact (atom_value x) args _ (parse_span_groups args) g (parsed_spans args) h

  parsed_spans : (es : Sexprs) → AllOk SpanIsExact (parse_span_groups es)
  parsed_spans nil = tt
  parsed_spans (cons x xs) = (parsed_span x, parsed_spans xs)

-- Every span group that parseSpanGroup returns and marks exact has one count, equal to its minimum
-- and its maximum, and no alternatives, whatever cardinalities are nested around the span.
pub parse_span_group-IsExact :
    (e : Sexpr) {g : SpanGroup} → parse_span_group e ≡ ok g → SpanIsExact g
parse_span_group-IsExact e {g} h = parsed_span e g h

finish_trace-IsExact :
    (state : Text × SpanGroups) (g : TraceGroup) → finish_trace state ≡ ok g → TraceIsExact g
finish_trace-IsExact (v, SpanGroups.nil) g h = cc
finish_trace-IsExact (v, SpanGroups.cons r rs) g h =
    subst TraceIsExact (ok-injective h) (λ _. (refl, refl, refl))

trace_choice-IsExact :
    (groups : List (Result ShapeError TraceGroup)) (g : TraceGroup)
    → (if is_nil groups then err empty_choice else (collect groups >>= λ gs. ok (trace_choice gs)))
      ≡ ok g
    → TraceIsExact g
trace_choice-IsExact [] g h = cc
trace_choice-IsExact (r ∷ rs) g h =
    let (gs, _, e) = >>=-eq-ok (collect (r ∷ rs)) _ h in
    subst TraceIsExact (ok-injective e) (λ x. cc (widen_traces-exact true no_counts gs, x))

trace_applied-IsExact :
    (name : Text) (args : Sexprs) (groups : List (Result ShapeError TraceGroup)) (g : TraceGroup)
    → AllOk TraceIsExact groups
    → (parse_cardinality name args >>= λ (lo, hi).
        last_result groups >>= λ i. ok (apply_trace_cardinality i name lo hi))
      ≡ ok g
    → TraceIsExact g
trace_applied-IsExact name args groups g all h =
    let ((lo, hi), _, h₁) = >>=-eq-ok (parse_cardinality name args) _ h in
    let (inner, p, e) = >>=-eq-ok (last_result groups) _ h₁ in
    subst TraceIsExact (ok-injective e)
      (apply_trace-IsExact inner name lo hi (last_result-AllOk TraceIsExact groups inner all p))

trace_group_of-IsExact :
    (name : Text) (args : Sexprs) (groups : List (Result ShapeError TraceGroup)) (g : TraceGroup)
    → AllOk TraceIsExact groups
    → trace_group_of name args groups ≡ ok g
    → TraceIsExact g
unfolding trace_group_of
trace_group_of-IsExact name args groups g all h = elim (Bool-cases (text_eq name (codes "trace"))) [
  | inl a ↦
      let (state, _, e) = >>=-eq-ok (trace_properties args ([], SpanGroups.nil)) _ (rw a at h) in
      finish_trace-IsExact state g e
  | inr a ↦ elim (Bool-cases (is_cardinality name)) [
    | inl b ↦ trace_applied-IsExact name args groups g all (rw (a, b) at h)
    | inr b ↦ elim (Bool-cases (text_eq name (codes "one-of"))) [
      | inl c ↦ trace_choice-IsExact groups g (rw (a, b, c) at h)
      | inr c ↦ cc (rw (a, b, c) at h)
    ]
  ]
]

mutual
  unfolding parse_trace_group

  parsed_trace : (e : Sexpr) (g : TraceGroup) → parse_trace_group e ≡ ok g → TraceIsExact g
  parsed_trace (node a nil s) g h = cc
  parsed_trace (node a (cons x args) s) g h =
      trace_group_of-IsExact (atom_value x) args (parse_trace_groups args) g (parsed_traces args) h

  parsed_traces : (es : Sexprs) → AllOk TraceIsExact (parse_trace_groups es)
  parsed_traces nil = tt
  parsed_traces (cons x xs) = (parsed_trace x, parsed_traces xs)

-- Every trace group that parseTraceGroup returns and marks exact has one count, equal to its
-- minimum and its maximum, and no alternatives.
pub parse_trace_group-IsExact :
    (e : Sexpr) {g : TraceGroup} → parse_trace_group e ≡ ok g → TraceIsExact g
parse_trace_group-IsExact e {g} h = parsed_trace e g h
