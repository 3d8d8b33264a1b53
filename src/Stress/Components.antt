-- ===== src/Stress/Components.antt =====
-- harness/parallel_scenarios.go: behind the joining loops of stressIndex two chunks have one component
-- exactly when they belong to one trace.
use rules_stests.Base.{
  ℕ, ◌<◌, ◌≡◌, refl, sym, ◌∙◌, List, [], ◌∷◌, Option, none, some, length, All, arith, range_from,
  length-range_from, get_or-range_from, get_or,
}
use mathlib.Core.Path.{subst}
use rules_stests.Receipt.Coverage.Claims.{All-imp}
use rules_stests.Stress.Contexts.{StressSpan}
use rules_stests.Stress.Union.{join}
use rules_stests.Stress.Forest.{Leads-unique}
use rules_stests.Stress.Linked.{SameRoot, join-Joins, range_from-IsForest}
use rules_stests.Stress.Index.{
  Chunk, BySpan, chunk_at, join_span, join_spans, join_known, join_parent, join_parents, placed,
}
use rules_stests.Stress.Traces.{
  SpanOf, Joined, shared, child, itself, back, through, SpanOf-lt, placed-All, All-SpanOf,
}
use rules_stests.Stress.Grouped.{
  Keeps, sameroot_back, sameroot_through, join-Keeps, join-SameRoot, Grouping, join-Grouping, Finds,
  Extends, Located, join_found-Spanned,
}

-- What the first loop leaves.
pub record LocatedAll (chunks : List Chunk) (rest : List (ℕ × StressSpan)) (by_span : BySpan)
    (c : List ℕ) (found : BySpan) (d : List ℕ) : Type 0 where
  pub known : Finds chunks found
  pub grouping : Grouping chunks d
  pub extends : Extends by_span found
  pub keeps : Keeps c d
  pub located : All (Located found d) rest

Located-on :
    (by_span found : BySpan) (c d : List ℕ) (rest : List (ℕ × StressSpan))
    → Extends by_span found
    → Keeps c d
    → All (Located by_span c) rest
    → All (Located found d) rest
Located-on by_span found c d rest x k =
    All-imp rest (λ e (j, at, same). (j, x e.1.trace_id e.1.span_id j at, k e.0 j same))

join_spans-LocatedAll :
    (chunks : List Chunk) (rest : List (ℕ × StressSpan)) (by_span : BySpan) (c : List ℕ)
    → Finds chunks by_span
    → Grouping chunks c
    → All (λ e. SpanOf chunks e.0 e.1) rest
    → LocatedAll chunks rest by_span c (join_spans rest by_span c).0 (join_spans rest by_span c).1
unfolding join_spans join_span
join_spans-LocatedAll chunks [] by_span c k g a = record {
  known = k;
  grouping = g;
  extends = λ t s i e. e;
  keeps = λ x y h. h;
  located = tt;
}
join_spans-LocatedAll chunks ((i, s) ∷ rest) by_span c k g (o, a) =
    let h =
      join_found-Spanned chunks i s by_span c (chunk_at s.trace_id s.span_id by_span) k g o refl in
    let l = join_spans-LocatedAll chunks rest _ _ h.known h.grouping a in
    record {
      known = l.known;
      grouping = l.grouping;
      extends = λ t n j e. l.extends t n j (h.extends t n j e);
      keeps = λ x y e. l.keeps x y (h.keeps x y e);
      located = (
        (h.first, l.extends s.trace_id s.span_id h.first h.at, l.keeps i h.first h.same),
        l.located,
      );
    }

-- A span of a chunk whose parent is known has a component with it.
abbrev Attached : BySpan → List ℕ → ℕ × StressSpan → Type 0
Attached found c e = (j : ℕ) → chunk_at e.1.trace_id e.1.parent_id found ≡ some j → SameRoot c e.0 j

record AttachedAll (chunks : List Chunk) (rest : List (ℕ × StressSpan)) (found : BySpan)
    (c d : List ℕ) : Type 0 where
  grouping : Grouping chunks d
  keeps : Keeps c d
  attached : All (Attached found d) rest

join_known-AttachedAll :
    (chunks : List Chunk) (i : ℕ) (s : StressSpan) (found : BySpan) (c : List ℕ) (o : Option ℕ)
    → Finds chunks found
    → Grouping chunks c
    → SpanOf chunks i s
    → chunk_at s.trace_id s.parent_id found ≡ o
    → AttachedAll chunks ((i, s) ∷ []) found c (join_known i c o)
unfolding join_known
join_known-AttachedAll chunks i s found c none k g o e = record {
  grouping = g;
  keeps = λ x y h. h;
  attached = (λ j h. cc (sym e ∙ h), tt);
}
join_known-AttachedAll chunks i s found c (some j) k g o e =
    let (t, ot, et, es) = k.holder s.trace_id s.parent_id j e in
    let hi : i < length c = omega (arith, SpanOf-lt chunks i s o, g.size) in
    let hj : j < length c = omega (arith, SpanOf-lt chunks j t ot, g.size) in
    let J = join-Joins c i j g.forest hi hj in
    record {
      grouping = join-Grouping chunks c i j g hi hj (child i j s t o ot (sym et) (sym es));
      keeps = join-Keeps c (join c i j) i j J;
      attached = (
        λ n h.
            let same : j ≡ n = cc (sym e ∙ h) in
            subst (λ m. SameRoot (join c i j) i m) same (join-SameRoot c (join c i j) i j J),
        tt,
      );
    }

join_parents-AttachedAll :
    (chunks : List Chunk) (rest : List (ℕ × StressSpan)) (found : BySpan) (c : List ℕ)
    → Finds chunks found
    → Grouping chunks c
    → All (λ e. SpanOf chunks e.0 e.1) rest
    → AttachedAll chunks rest found c (join_parents rest found c)
unfolding join_parents join_parent
join_parents-AttachedAll chunks [] found c k g a = record {
  grouping = g;
  keeps = λ x y h. h;
  attached = tt;
}
join_parents-AttachedAll chunks ((i, s) ∷ rest) found c k g (o, a) =
    let h =
      join_known-AttachedAll chunks i s found c (chunk_at s.trace_id s.parent_id found) k g o
        refl in
    let l = join_parents-AttachedAll chunks rest found _ k h.grouping a in
    record {
      grouping = l.grouping;
      keeps = λ x y e. l.keeps x y (h.keeps x y e);
      attached = (λ j e. l.keeps i j (h.attached.0 j e), l.attached);
    }

-- The components are the traces.
pub record IsGrouped (chunks : List Chunk) (c : List ℕ) : Type 0 where
  pub grouping : Grouping chunks c
  pub whole : (i j : ℕ) → Joined chunks i j → SameRoot c i j

start-Grouping : (chunks : List Chunk) → Grouping chunks (range_from 0 (length chunks))
start-Grouping chunks = record {
  size = length-range_from 0 (length chunks);
  forest = range_from-IsForest (length chunks);
  sound = λ x r l (k, d).
      let l' : x < length chunks = omega (arith, l, length-range_from 0 (length chunks)) in
      let at : get_or (range_from 0 (length chunks)) x 0 ≡ x =
        omega (arith, get_or-range_from 0 (length chunks) x 0 l') in
      let same : 0 ≡ k × x ≡ r = Leads-unique (range_from 0 (length chunks)) 0 k x (at, refl) d in
      subst (λ z. Joined chunks x z) same.1 (itself x l');
}

joined_whole :
    (chunks : List Chunk) (found : BySpan) (c : List ℕ)
    → Grouping chunks c
    → All (Located found c) (placed 0 chunks)
    → All (Attached found c) (placed 0 chunks)
    → {i j : ℕ} → Joined chunks i j
    → SameRoot c i j
joined_whole chunks found c g l a (shared i j s t o u et es) =
    let (m, at, same) = All-SpanOf (Located found c) chunks l i s o in
    let (n, at', same') = All-SpanOf (Located found c) chunks l j t u in
    let first : chunk_at t.trace_id t.span_id found ≡ some m = rw (sym et, sym es) at in
    let one : m ≡ n = cc (sym first ∙ at') in
    sameroot_through c i m j same (rw one (sameroot_back c j n same'))
joined_whole chunks found c g l a (child i j s t o u et es) =
    let (n, at, same) = All-SpanOf (Located found c) chunks l j t u in
    let at' : chunk_at s.trace_id s.parent_id found ≡ some n = rw (et, es) at in
    sameroot_through c i n j (All-SpanOf (Attached found c) chunks a i s o n at')
      (sameroot_back c j n same)
joined_whole chunks found c g l a (itself i h) =
    let (r, d) = g.forest.rooted i (omega (arith, h, g.size)) in
    record { root = r; from = d; to = d }
joined_whole chunks found c g l a (back j i h) =
    sameroot_back c j i (joined_whole chunks found c g l a h)
joined_whole chunks found c g l a (through i j k h h') =
    sameroot_through c i j k (joined_whole chunks found c g l a h)
      (joined_whole chunks found c g l a h')

-- `components`, behind both loops.
abbrev pub components_of : List Chunk → List ℕ
components_of chunks =
    let first = join_spans (placed 0 chunks) [] (range_from 0 (length chunks)) in
    join_parents (placed 0 chunks) first.0 first.1

pub components_of-IsGrouped : (chunks : List Chunk) → IsGrouped chunks (components_of chunks)
unfolding chunk_at
components_of-IsGrouped chunks =
    let none_known : Finds chunks [] = record { holder = λ t s i e. cc } in
    let l =
      join_spans-LocatedAll chunks (placed 0 chunks) [] (range_from 0 (length chunks)) none_known
        (start-Grouping chunks) (placed-All chunks) in
    let found = (join_spans (placed 0 chunks) [] (range_from 0 (length chunks))).0 in
    let c = (join_spans (placed 0 chunks) [] (range_from 0 (length chunks))).1 in
    let p =
      join_parents-AttachedAll chunks (placed 0 chunks) found c l.known l.grouping
        (placed-All chunks) in
    let located =
      Located-on found found c (components_of chunks) (placed 0 chunks) (λ t s i e. e) p.keeps
        l.located in
    record {
      grouping = p.grouping;
      whole =
          λ i j h. joined_whole chunks found (components_of chunks) p.grouping located p.attached h;
    }
