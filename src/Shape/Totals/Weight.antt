-- ===== src/Shape/Totals/Weight.antt =====
-- What accumulateSpan of report/report/scheme.go adds up: the spans that a shape stands for.
use Prim.Native.Nat.{◌%◌, ◌/◌}
use native.Mathlib.Nat.{add-mul-mod_self_left, mod-add-mod, add-mod-mod, mod-add-div}
use rules_stests.Base.{
  ℕ, ◌+◌, ◌*◌, ◌^◌, true, ◌≡◌, refl, sym, ap, ◌∙◌, inl, inr, List, [], ◌∷◌, Option, none, some,
  Bool-cases, Option-cases, Text, codes, is_nil, Result, ok, err, >>=-eq-ok, ok-injective, arith,
}
use mathlib.Core.Path.{subst}
use rules_stests.Scheme.Expr.{Sexpr}
use rules_stests.Scheme.Lexer.{SchemeError}
use rules_stests.Scheme.Parser.{read_source}
use rules_stests.Shape.Types.{
  add64, mul64, Labels, SpanGroup, SpanGroups, TraceGroup, span_group, span_node, trace_group,
  trace_counts,
}
use rules_stests.Shape.Totals.{
  Totals, no_totals, tally, accumulate_span, accumulate_spans, and_then, ScenarioShape,
  accumulate_traces, all_exact, shape_totals, shape_of, some_traces, traces_of, first_definition,
  parse_scenario_shape,
}

-- The spans of a group in unbounded arithmetic: each of its copies and the copies' children.
unfoldable mutual
  pub weight : SpanGroup → ℕ
  weight (span_group c k alts (span_node l children)) = c.count * (1 + weights children)

  pub weights : SpanGroups → ℕ
  weights SpanGroups.nil = 0
  weights (SpanGroups.cons g gs) = weight g + weights gs

mod-mul-mod : (a b m : ℕ) → (a % m * b) % m ≡ (a * b) % m
mod-mul-mod a b m =
    sym (add-mul-mod_self_left (a % m * b) m (a / m * b))
    ∙ ap (λ t. t % m) (omega (arith, ap (λ (t : ℕ). t * b) (mod-add-div a m)))

-- The counts of one group and its children, reduced at each operation or once at the end.
reduce_once :
    (s p c w m : ℕ) → ((s + (p * c) % m) % m + (p * c) % m * w) % m ≡ (s + p * (c * (1 + w))) % m
reduce_once s p c w m =
    let q = (p * c) % m in
    mod-add-mod (s + q) m (q * w)
    ∙ ap (λ t. t % m) (omega arith)
    ∙ sym (add-mod-mod s (q * (1 + w)) m)
    ∙ ap (λ t. (s + t) % m) (mod-mul-mod (p * c) (1 + w) m)
    ∙ add-mod-mod s (p * c * (1 + w)) m
    ∙ ap (λ t. t % m) (omega arith)

-- Two groups one after the other.
reduce_both :
    (s p v w m t u : ℕ)
    → t % m ≡ (s + p * v) % m
    → u % m ≡ (t + p * w) % m
    → u % m ≡ (s + p * (v + w)) % m
reduce_both s p v w m t u h k =
    k
    ∙ sym (mod-add-mod t m (p * w))
    ∙ ap (λ r. (r + p * w) % m) h
    ∙ mod-add-mod (s + p * v) m (p * w)
    ∙ ap (λ r. r % m) (omega arith)

and_then-some :
    (o : Option Totals) (f : Totals → Option Totals) {u : Totals}
    → and_then o f ≡ some u
    → (t : Totals) × (o ≡ some t) × (f t ≡ some u)
and_then-some none f h = cc
and_then-some (some t) f h = (t, refl, h)

some_inj {ℓ} : {A : Type ℓ} {a b : A} → ◌≡◌ {A = Option A} (some a) (some b) → a ≡ b
some_inj e = cc e

tally-span_count :
    (l : Labels) (n : ℕ) (t : Totals) → (tally l n t).span_count ≡ (t.span_count + n) % 2 ^ 64
unfolding tally
tally-span_count l n t = refl

mutual
  unfolding accumulate_span weight

  group_adds :
      (g : SpanGroup) (p : ℕ) (t u : Totals)
      → accumulate_span g p t ≡ some u
      → u.span_count % 2 ^ 64 ≡ (t.span_count + p * weight g) % 2 ^ 64
  group_adds (span_group c k (SpanGroups.cons g gs) s) p t u h = cc
  group_adds (span_group c k SpanGroups.nil (span_node l children)) p t u h =
      elim (Bool-cases c.exact_count) [
        | inl exact ↦
            let n = mul64 p c.count in
            groups_add children n (tally l n t) u (rw exact at h)
            ∙ ap (λ r. (r + n * weights children) % 2 ^ 64) (tally-span_count l n t)
            ∙ reduce_once t.span_count p c.count (weights children) (2 ^ 64)
        | inr loose ↦ cc (rw loose at h)
      ]

  groups_add :
      (gs : SpanGroups) (p : ℕ) (t u : Totals)
      → accumulate_spans gs p t ≡ some u
      → u.span_count % 2 ^ 64 ≡ (t.span_count + p * weights gs) % 2 ^ 64
  groups_add SpanGroups.nil p t u h =
      ap (λ (r : Totals). r.span_count % 2 ^ 64) (sym (some_inj h)) ∙ omega arith
  groups_add (SpanGroups.cons g gs) p t u h =
      let (mid, one, rest) = and_then-some (accumulate_span g p t) (accumulate_spans gs p) h in
      reduce_both t.span_count p (weight g) (weights gs) (2 ^ 64) mid.span_count u.span_count
        (group_adds g p t mid one) (groups_add gs p mid u rest)

-- The spans and the traces of a list of trace groups, in unbounded arithmetic.
abbrev pub trace_weight : TraceGroup → ℕ
trace_weight (trace_group c k alts cov roots) = c.count * weights roots

abbrev pub traces_weight : List TraceGroup → ℕ
traces_weight [] = 0
traces_weight (g ∷ gs) = trace_weight g + traces_weight gs

abbrev pub traces_count : List TraceGroup → ℕ
traces_count [] = 0
traces_count (g ∷ gs) = (trace_counts g).count + traces_count gs

traces_add :
    (gs : List TraceGroup) (n m : ℕ) (t u : Totals)
    → accumulate_traces gs n t ≡ some (m, u)
    → (u.span_count % 2 ^ 64 ≡ (t.span_count + traces_weight gs) % 2 ^ 64)
      × (m % 2 ^ 64 ≡ (n + traces_count gs) % 2 ^ 64)
unfolding accumulate_traces
traces_add [] n m t u h = (
  ap (λ (r : ℕ × Totals). r.1.span_count % 2 ^ 64) (sym (some_inj h)) ∙ omega arith,
  ap (λ (r : ℕ × Totals). r.0 % 2 ^ 64) (sym (some_inj h)) ∙ omega arith,
)
traces_add (trace_group c k alts cov roots ∷ gs) n m t u h =
    elim (Option-cases (accumulate_spans roots c.count t)) [
      | inl none_left ↦ cc (rw (none_left, accumulate_traces) at h)
      | inr (mid, e) ↦
          let (a, b) = traces_add gs (add64 n c.count) m mid u (rw (e, accumulate_traces) at h) in
          let one = groups_add roots c.count t mid e in
          (
            a
                ∙ sym (mod-add-mod mid.span_count (2 ^ 64) (traces_weight gs))
                ∙ ap (λ r. (r + traces_weight gs) % 2 ^ 64) one
                ∙ omega arith,
            b ∙ omega arith,
          )
    ]

module _ (profile scenario source : Text) (traces : List TraceGroup) where
  abbrev Adds : ScenarioShape → Type 0
  Adds s =
      (all_exact s.traces ≡ true)
      × (s.totals.span_count % 2 ^ 64 ≡ traces_weight s.traces % 2 ^ 64)
      × (s.trace_count % 2 ^ 64 ≡ traces_count s.traces % 2 ^ 64)

  shape_totals-some :
      (n : ℕ) (t : Totals)
      → shape_totals traces ≡ some (n, t)
      → (all_exact traces ≡ true)
        × (t.span_count % 2 ^ 64 ≡ traces_weight traces % 2 ^ 64)
        × (n % 2 ^ 64 ≡ traces_count traces % 2 ^ 64)
  unfolding shape_totals
  shape_totals-some n t h = elim (Bool-cases (all_exact traces)) [
    | inl exact ↦
        let (a, b) = traces_add traces 0 n no_totals t (rw exact at h) in
        (exact, a ∙ omega arith, b ∙ omega arith)
    | inr loose ↦ cc (rw loose at h)
  ]

  shape_of-Adds :
      (shape_of profile scenario source traces).exact_counts ≡ true
      → Adds (shape_of profile scenario source traces)
  unfolding shape_of
  shape_of-Adds h = elim (Option-cases (shape_totals traces)) [
    | inl none_left ↦ cc (rw (none_left, shape_of) at h)
    | inr ((n, t), e) ↦ rw (e, shape_of) (shape_totals-some n t e)
  ]

  some_traces-Adds :
      (s : ScenarioShape)
      → some_traces profile scenario source traces ≡ ok s
      → s.exact_counts ≡ true
      → Adds s
  some_traces-Adds s h exact = elim (Bool-cases (is_nil traces)) [
    | inl empty ↦ cc (rw empty at h)
    | inr full ↦
        subst (λ (r : ScenarioShape). r.exact_counts ≡ true → Adds r) (ok-injective (rw full at h))
          shape_of-Adds exact
  ]

-- A shape that ParseScenarioShape returns with exact counts has only exact traces; its span count
-- is the number of spans that the traces stand for, every span taken with its copies and those of
-- all spans around it, and its trace count the number of traces, both as 64-bit integers.
pub parse_scenario_shape-Adds :
    (profile scenario source input : Text) (s : ScenarioShape)
    → parse_scenario_shape profile scenario source input ≡ ok s
    → s.exact_counts ≡ true
    → (all_exact s.traces ≡ true)
      × (s.totals.span_count % 2 ^ 64 ≡ traces_weight s.traces % 2 ^ 64)
      × (s.trace_count % 2 ^ 64 ≡ traces_count s.traces % 2 ^ 64)
unfolding parse_scenario_shape
parse_scenario_shape-Adds profile scenario source input s h exact =
    of_reading (read_source input) refl
  where
    of_reading :
        (r : Result SchemeError (List Sexpr))
        → read_source input ≡ r
        → (all_exact s.traces ≡ true)
          × (s.totals.span_count % 2 ^ 64 ≡ traces_weight s.traces % 2 ^ 64)
          × (s.trace_count % 2 ^ 64 ≡ traces_count s.traces % 2 ^ 64)
    of_reading (err e) q = cc (rw (q, parse_scenario_shape) at h)
    of_reading (ok forms) q =
        let found = first_definition (codes "scenario-shape") forms in
        let (traces, _, last) = >>=-eq-ok (traces_of found) _ (rw (q, parse_scenario_shape) at h) in
        some_traces-Adds profile scenario source traces s last exact
