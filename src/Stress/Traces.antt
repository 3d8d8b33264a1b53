-- ===== src/Stress/Traces.antt =====
-- harness/parallel_scenarios.go: which chunks of a capture belong to one trace, apart from how
-- stressIndex finds it.
use rules_stests.Base.{
  ℕ, zero, suc, ◌+◌, ◌<◌, ◌≡◌, refl, List, [], ◌∷◌, ◌++◌, map, some, length, get_elem?, All,
  All-get_elem?, arith,
}
use mathlib.Core.Path.{subst}
use rules_stests.Receipt.Coverage.Claims.{All-append}
use rules_stests.Stress.Contexts.{StressSpan}
use rules_stests.Stress.Index.{Chunk, placed}

-- The chunk at `i` holds `s`.
pub record SpanOf (chunks : List Chunk) (i : ℕ) (s : StressSpan) : Type 0 where
  pub chunk : Chunk
  pub position : ℕ
  pub here : get_elem? chunks i ≡ some chunk
  pub holds : get_elem? chunk.spans position ≡ some s

-- Chunks are joined by a span that both hold, by a span of one that the other holds a child of, and
-- through other chunks.
pub data Joined (chunks : List Chunk) : ℕ → ℕ → Type 0 where
  shared :
      (i j : ℕ) (s t : StressSpan)
      → SpanOf chunks i s
      → SpanOf chunks j t
      → s.trace_id ≡ t.trace_id
      → s.span_id ≡ t.span_id
      → Joined chunks i j
  child :
      (i j : ℕ) (s t : StressSpan)
      → SpanOf chunks i s
      → SpanOf chunks j t
      → s.trace_id ≡ t.trace_id
      → s.parent_id ≡ t.span_id
      → Joined chunks i j
  itself : (i : ℕ) → i < length chunks → Joined chunks i i
  back : (i j : ℕ) → Joined chunks i j → Joined chunks j i
  through : (i j k : ℕ) → Joined chunks i j → Joined chunks j k → Joined chunks i k

pub lt-length {ℓ} :
    {A : Type ℓ} (xs : List A) (i : ℕ) {x : A} → get_elem? xs i ≡ some x → i < length xs
lt-length [] i e = cc
lt-length (y ∷ xs) zero e = omega arith
lt-length (y ∷ xs) (suc i) e = omega (arith, lt-length xs i e)

pub SpanOf-lt :
    (chunks : List Chunk) (i : ℕ) (s : StressSpan) → SpanOf chunks i s → i < length chunks
SpanOf-lt chunks i s o = lt-length chunks i o.here

-- `cs` are the chunks from `i` on.
abbrev pub Rest : List Chunk → ℕ → List Chunk → Type 0
Rest chunks i cs = (k : ℕ) (c : Chunk) → get_elem? cs k ≡ some c → get_elem? chunks (k + i) ≡ some c

pub Rest-here :
    (chunks : List Chunk) (i : ℕ) (c : Chunk) (cs : List Chunk)
    → Rest chunks i (c ∷ cs)
    → get_elem? chunks i ≡ some c
Rest-here chunks i c cs h = subst (λ n. get_elem? chunks n ≡ some c) (omega arith) (h 0 c refl)

pub Rest-next :
    (chunks : List Chunk) (i : ℕ) (c : Chunk) (cs : List Chunk)
    → Rest chunks i (c ∷ cs)
    → Rest chunks (suc i) cs
Rest-next chunks i c cs h k d e =
    subst (λ n. get_elem? chunks n ≡ some d) (omega arith) (h (suc k) d e)

pub Rest-all : (chunks : List Chunk) → Rest chunks 0 chunks
Rest-all chunks k c e = subst (λ n. get_elem? chunks n ≡ some c) (omega arith) e

-- Every span has its position.
pub All-position {ℓ κ} :
    {A : Type ℓ} (P : A → Type κ) (xs : List A)
    → ((k : ℕ) (x : A) → get_elem? xs k ≡ some x → P x)
    → All P xs
All-position P [] f = tt
All-position P (x ∷ xs) f = (f 0 x refl, All-position P xs (λ k y e. f (suc k) y e))

All-map {ℓ κ ι} :
    {A : Type ℓ} {B : Type κ} (P : B → Type ι) (f : A → B) (xs : List A)
    → All (λ x. P (f x)) xs
    → All P (map f xs)
All-map P f [] a = tt
All-map P f (x ∷ xs) a = (a.0, All-map P f xs a.1)

All-of-map {ℓ κ ι} :
    {A : Type ℓ} {B : Type κ} (P : B → Type ι) (f : A → B) (xs : List A)
    → All P (map f xs)
    → All (λ x. P (f x)) xs
All-of-map P f [] a = tt
All-of-map P f (x ∷ xs) a = (a.0, All-of-map P f xs a.1)

All-left {ℓ κ} :
    {A : Type ℓ} (P : A → Type κ) (xs ys : List A) → All P (xs ++ ys) → All P xs × All P ys
All-left P [] ys a = (tt, a)
All-left P (x ∷ xs) ys a = let (l, r) = All-left P xs ys a.1 in ((a.0, l), r)

placed-SpanOf :
    (chunks : List Chunk) (i : ℕ) (cs : List Chunk)
    → Rest chunks i cs
    → All (λ e. SpanOf chunks e.0 e.1) (placed i cs)
unfolding placed
placed-SpanOf chunks i [] h = tt
placed-SpanOf chunks i (c ∷ cs) h =
    All-append (λ e. SpanOf chunks e.0 e.1) (map (λ s. (i, s)) c.spans) (placed (suc i) cs)
      (All-map (λ e. SpanOf chunks e.0 e.1) (λ s. (i, s)) c.spans
        (All-position (SpanOf chunks i) c.spans
          λ k s e. record { chunk = c; position = k; here = Rest-here chunks i c cs h; holds = e }))
      (placed-SpanOf chunks (suc i) cs (Rest-next chunks i c cs h))

-- The loop over the placed spans meets every span of every chunk, and no other.
pub placed-All : (chunks : List Chunk) → All (λ e. SpanOf chunks e.0 e.1) (placed 0 chunks)
placed-All chunks = placed-SpanOf chunks 0 chunks (Rest-all chunks)

All-from {κ} :
    (P : ℕ × StressSpan → Type κ) (i k j : ℕ) (cs : List Chunk) (c : Chunk) (s : StressSpan)
    → All P (placed i cs)
    → get_elem? cs k ≡ some c
    → get_elem? c.spans j ≡ some s
    → P (k + i, s)
unfolding placed
All-from P i k j [] c s a e f = cc
All-from P i zero j (d ∷ cs) c s a e f =
    let same : d ≡ c = cc e in
    let f' : get_elem? d.spans j ≡ some s = rw same f in
    let here = (All-left P (map (λ s. (i, s)) d.spans) (placed (suc i) cs) a).0 in
    subst (λ n. P (n, s)) (omega arith)
      (All-get_elem? (λ s. P (i, s)) d.spans j (All-of-map P (λ s. (i, s)) d.spans here) f')
All-from P i (suc k) j (d ∷ cs) c s a e f =
    let later = (All-left P (map (λ s. (i, s)) d.spans) (placed (suc i) cs) a).1 in
    subst (λ n. P (n, s)) (omega arith) (All-from P (suc i) k j cs c s later e f)

pub All-SpanOf {κ} :
    (P : ℕ × StressSpan → Type κ) (chunks : List Chunk)
    → All P (placed 0 chunks)
    → (i : ℕ) (s : StressSpan) → SpanOf chunks i s
    → P (i, s)
All-SpanOf P chunks a i s o =
    subst (λ n. P (n, s)) (omega arith)
      (All-from P 0 i o.position chunks o.chunk s a o.here o.holds)
