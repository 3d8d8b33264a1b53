-- ===== src/Stress/Stored.antt =====
-- harness/parallel_scenarios.go: the spans of a chunk, stored in the index of stressIndex.
use rules_stests.Base.{
  ℕ, ◌≡◌, refl, sym, ◌∙◌, inl, inr, true, false, not, List, [], ◌∷◌, some, Text, text_eq_iff, All,
  ok, guard_iff, Bool-cases, arith,
}
use rules_stests.Stress.Ledger.{duplicate_span}
use rules_stests.Stress.Contexts.{StressSpan, StressIdentity}
use rules_stests.Stress.Servers.{Spans, same_identity, is_captured}
use rules_stests.Stress.Owners.{find_span}
use rules_stests.Stress.Owned.{same_identity-eq}
use rules_stests.Stress.Index.{Chunk, store_spans}
use rules_stests.Stress.Traces.{SpanOf}
use rules_stests.Stress.Resolved.{HighOf}

abbrev pub key_of : Text → StressSpan → StressIdentity
key_of high s = record { low = s.trace_id; high = high; span = s.span_id }

-- An entry of the index is a span of a chunk, at its identity.
pub record IsEntry (chunks : List Chunk) (key : StressIdentity) (s : StressSpan) : Type 0 where
  pub index : ℕ
  pub holder : SpanOf chunks index s
  pub low : key.low ≡ s.trace_id
  pub span : key.span ≡ s.span_id
  pub high : HighOf chunks index holder.chunk key.high

-- The index holds the spans of a chunk, at the chunk's high bits.
pub record IsStored (chunks : List Chunk) (i : ℕ) (c : Chunk) (spans : Spans) : Type 0 where
  pub high : Text
  pub high_of : HighOf chunks i c high
  pub stored : All (λ s. find_span (key_of high s) spans ≡ some s) c.spans

captured-of_find :
    (key : StressIdentity) (spans : Spans) (s : StressSpan)
    → find_span key spans ≡ some s
    → is_captured key spans ≡ true
unfolding find_span is_captured
captured-of_find key [] s h = cc
captured-of_find key ((k, x) ∷ spans) s h = ground (arith, captured-of_find key spans s)

same_identity_self : (key : StressIdentity) → same_identity key key ≡ true
unfolding same_identity
same_identity_self key = ground (arith, (text_eq_iff key.high key.high).1 refl)

abbrev pub Kept : Spans → Spans → Type 0
Kept spans more =
    (key : StressIdentity) (s : StressSpan)
    → find_span key spans ≡ some s
    → find_span key more ≡ some s

find_span-cons :
    (key : StressIdentity) (s : StressSpan) (spans : Spans)
    → is_captured key spans ≡ false
    → Kept spans ((key, s) ∷ spans)
unfolding find_span
find_span-cons key s spans new k x h = elim (Bool-cases (same_identity key k)) [
  | inl same ↦
      let there : is_captured key spans ≡ true =
        rw (same_identity-eq key k same) (captured-of_find k spans x h) in
      cc (sym new ∙ there)
  | inr other ↦ rw other h
]

-- What storing the spans of a chunk leaves.
pub record Stored (chunks : List Chunk) (high : Text) (todo : List StressSpan) (spans more : Spans)
    : Type 0 where
  pub kept : Kept spans more
  pub stored : All (λ s. find_span (key_of high s) more ≡ some s) todo
  pub entries : All (λ e. IsEntry chunks e.0 e.1) spans → All (λ e. IsEntry chunks e.0 e.1) more

pub store_spans-Stored :
    (chunks : List Chunk) (high : Text) (todo : List StressSpan) (spans : Spans) {more : Spans}
    → All (λ s. IsEntry chunks (key_of high s) s) todo
    → store_spans high todo spans ≡ ok more
    → Stored chunks high todo spans more
unfolding store_spans
store_spans-Stored chunks high [] spans {more = more} a h =
    let same : spans ≡ more = cc h in
    rw (sym same) (record { kept = λ k s e. e; stored = tt; entries = λ e. e })
store_spans-Stored chunks high (s ∷ todo) spans {more = more} (a, as') h =
    let key = key_of high s in
    let (new, h1) = (guard_iff (not (is_captured key spans)) duplicate_span _).0 h in
    let fresh : is_captured key spans ≡ false = ground arith in
    let r = store_spans-Stored chunks high todo ((key, s) ∷ spans) as' h1 in
    let here : find_span key ((key, s) ∷ spans) ≡ some s =
      unfold find_span in rw (same_identity_self key) in
    record {
      kept = λ k x e. r.kept k x (find_span-cons key s spans fresh k x e);
      stored = (r.kept key s here, r.stored);
      entries = λ e. r.entries (a, e);
    }
