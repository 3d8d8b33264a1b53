-- ===== src/Stress/Grouped.antt =====
-- harness/parallel_scenarios.go: the two joining loops of stressIndex group the chunks by trace.
use rules_stests.Base.{
  ℕ, ◌<◌, ◌≡◌, sym, ◌∙◌, inl, inr, ◌&&◌, List, ◌==◌, Option, none, some, length, Bool-cases, ==_iff,
  arith,
}
use mathlib.Core.Path.{subst}
use rules_stests.Stress.Contexts.{StressSpan}
use rules_stests.Stress.Union.{join}
use rules_stests.Stress.Forest.{HasRoot, IsForest, Leads-unique}
use rules_stests.Stress.Linked.{SameRoot, merged, Joins, join-Joins}
use rules_stests.Stress.Index.{Chunk, BySpan, chunk_at, join_found}
use rules_stests.Stress.Traces.{SpanOf, Joined, shared, back, through, SpanOf-lt}

-- A step keeps what has one component.
abbrev pub Keeps : List ℕ → List ℕ → Type 0
Keeps c d = (x y : ℕ) → SameRoot c x y → SameRoot d x y

pub sameroot_back : (c : List ℕ) (x y : ℕ) → SameRoot c x y → SameRoot c y x
sameroot_back c x y s = record { root = s.root; from = s.to; to = s.from }

pub sameroot_through : (c : List ℕ) (x y z : ℕ) → SameRoot c x y → SameRoot c y z → SameRoot c x z
sameroot_through c x y z s t =
    let same : t.root ≡ s.root = (Leads-unique c t.from.0 s.to.0 y t.from.1 s.to.1).1 in
    record { root = s.root; from = s.from; to = subst (λ r. HasRoot c z r) same t.to }

pub join-Keeps : (c d : List ℕ) (i j : ℕ) → Joins c d i j → Keeps c d
join-Keeps c d i j J x y s = record {
  root = merged J.a J.b s.root;
  from = J.roots x s.root s.from;
  to = J.roots y s.root s.to;
}

pub join-SameRoot : (c d : List ℕ) (i j : ℕ) → Joins c d i j → SameRoot d i j
join-SameRoot c d i j J =
    let ei : merged J.a J.b J.a ≡ J.b = ground arith in
    let ej : merged J.a J.b J.b ≡ J.b = ground arith in
    record {
      root = J.b;
      from = subst (λ r. HasRoot d i r) ei (J.roots i J.a J.of_i);
      to = subst (λ r. HasRoot d j r) ej (J.roots j J.b J.of_j);
    }

-- Components join only chunks of one trace.
pub record Grouping (chunks : List Chunk) (c : List ℕ) : Type 0 where
  pub size : length c ≡ length chunks
  pub forest : IsForest c
  pub sound : (x r : ℕ) → x < length c → HasRoot c x r → Joined chunks x r

pub join-Grouping :
    (chunks : List Chunk) (c : List ℕ) (i j : ℕ)
    → Grouping chunks c
    → i < length c
    → j < length c
    → Joined chunks i j
    → Grouping chunks (join c i j)
join-Grouping chunks c i j g hi hj joined = record {
  size = J.size ∙ g.size;
  forest = J.forest;
  sound = sound;
}
  where
    J : Joins c (join c i j) i j
    J = join-Joins c i j g.forest hi hj

    sound : (x r : ℕ) → x < length (join c i j) → HasRoot (join c i j) x r → Joined chunks x r
    sound x r l h =
        let l' : x < length c = omega (arith, l, J.size) in
        let (old, d) = g.forest.rooted x l' in
        let now = J.roots x old d in
        let same : merged J.a J.b old ≡ r = (Leads-unique (join c i j) now.0 h.0 x now.1 h.1).1 in
        let up = g.sound x old l' d in
        subst (λ z. Joined chunks x z) same
          (elim (Bool-cases (old == J.a)) [
            | inl here ↦
                let e : old ≡ J.a = (==_iff _ _).0 here in
                rw here (
                  through x old J.b up (
                    through old i J.b
                      (subst (λ z. Joined chunks z i) (sym e)
                        (back i J.a (g.sound i J.a hi J.of_i)))
                      (through i j J.b joined (g.sound j J.b hj J.of_j))))
            | inr other ↦ rw other up
          ])

-- `bySpan` finds chunks that hold the span.
pub record Finds (chunks : List Chunk) (by_span : BySpan) : Type 0 where
  pub holder :
      (trace span i : ℕ)
      → chunk_at trace span by_span ≡ some i
      → (t : StressSpan) × SpanOf chunks i t × (t.trace_id ≡ trace) × (t.span_id ≡ span)

abbrev pub Extends : BySpan → BySpan → Type 0
Extends by_span found =
    (trace span i : ℕ) → chunk_at trace span by_span ≡ some i → chunk_at trace span found ≡ some i

-- What one placed span leaves.
pub record Spanned (chunks : List Chunk) (i : ℕ) (s : StressSpan) (by_span : BySpan) (c : List ℕ)
    (found : BySpan) (d : List ℕ) : Type 0 where
  pub known : Finds chunks found
  pub grouping : Grouping chunks d
  pub extends : Extends by_span found
  pub keeps : Keeps c d
  pub first : ℕ
  pub at : chunk_at s.trace_id s.span_id found ≡ some first
  pub same : SameRoot d i first

pub join_found-Spanned :
    (chunks : List Chunk) (i : ℕ) (s : StressSpan) (by_span : BySpan) (c : List ℕ) (o : Option ℕ)
    → Finds chunks by_span
    → Grouping chunks c
    → SpanOf chunks i s
    → chunk_at s.trace_id s.span_id by_span ≡ o
    → Spanned chunks i s by_span c (join_found i s by_span c o).0 (join_found i s by_span c o).1
unfolding join_found chunk_at
join_found-Spanned chunks i s by_span c none k g o new =
    let hi : i < length c = omega (arith, SpanOf-lt chunks i s o, g.size) in
    let (r, d) = g.forest.rooted i hi in
    record {
      known = record {
        holder = λ trace span j e. elim (Bool-cases (s.trace_id == trace && s.span_id == span)) [
          | inl here ↦
              let same : i ≡ j = ground arith in
              (s, subst (λ n. SpanOf chunks n s) same o, ground arith, ground arith)
          | inr other ↦ k.holder trace span j (ground arith)
        ];
      };
      grouping = g;
      extends = λ trace span j e. elim (Bool-cases (s.trace_id == trace && s.span_id == span)) [
        | inl here ↦
            let t : s.trace_id ≡ trace = ground arith in
            let u : s.span_id ≡ span = ground arith in
            let new' : chunk_at trace span by_span ≡ none = rw (sym t, sym u) new in
            cc (sym e ∙ new')
        | inr other ↦ rw other e
      ];
      keeps = λ x y h. h;
      first = i;
      at = ground arith;
      same = record { root = r; from = d; to = d };
    }
join_found-Spanned chunks i s by_span c (some j) k g o old =
    let (t, ot, et, es) = k.holder s.trace_id s.span_id j old in
    let hi : i < length c = omega (arith, SpanOf-lt chunks i s o, g.size) in
    let hj : j < length c = omega (arith, SpanOf-lt chunks j t ot, g.size) in
    let J = join-Joins c i j g.forest hi hj in
    record {
      known = k;
      grouping = join-Grouping chunks c i j g hi hj (shared i j s t o ot (sym et) (sym es));
      extends = λ trace span n e. e;
      keeps = join-Keeps c (join c i j) i j J;
      first = j;
      at = old;
      same = join-SameRoot c (join c i j) i j J;
    }

abbrev pub Located : BySpan → List ℕ → ℕ × StressSpan → Type 0
Located found c e = (j : ℕ) × (chunk_at e.1.trace_id e.1.span_id found ≡ some j) × SameRoot c e.0 j
