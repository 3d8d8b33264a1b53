-- ===== src/Stress/Indexes.antt =====
-- harness/parallel_scenarios.go: what stressIndex answers.
use rules_stests.Base.{
  ℕ, suc, ◌+◌, ◌≡◌, refl, sym, ◌∙◌, List, [], ◌∷◌, if◌then◌else◌, Option, some, Text, length, All,
  ok, >>=-eq-ok, arith,
}
use mathlib.Core.Path.{subst}
use rules_stests.Receipt.Coverage.Claims.{All-imp}
use rules_stests.Stress.Ledger.{bad_capture}
use rules_stests.Stress.Contexts.{StressSpan, or_error}
use rules_stests.Stress.Servers.{Spans}
use rules_stests.Stress.Continued.{or_error-eq-ok}
use rules_stests.Stress.Union.{find}
use rules_stests.Stress.Index.{
  Chunk, Highs, collect_highs, resolve_high, store_spans, resolve_chunks, index_chunks,
  read_records, stress_index,
}
use rules_stests.Stress.Traces.{Rest, Rest-here, Rest-next, Rest-all, lt-length, All-position}
use rules_stests.Stress.Components.{components_of, components_of-IsGrouped}
use rules_stests.Stress.Inherited.{
  Collected, found-Collected, start-Collected, collect_highs-Collected,
}
use rules_stests.Stress.Resolved.{resolve_high-HighOf}
use rules_stests.Stress.Tagged.{Chunks, concat, read_records-Chunks}
use rules_stests.Stress.Stored.{key_of, IsEntry, IsStored, Kept, store_spans-Stored}

-- The chunks from `i` on, as the index holds them.
abbrev pub IsStoredAll : List Chunk → ℕ → List Chunk → Spans → Type 0
IsStoredAll chunks i [] spans = Unit
IsStoredAll chunks i (c ∷ cs) spans =
    IsStored chunks i c spans × IsStoredAll chunks (suc i) cs spans

record Resolves (chunks : List Chunk) (i : ℕ) (cs : List Chunk) (spans more : Spans) : Type 0 where
  kept : Kept spans more
  stored : IsStoredAll chunks i cs more
  entries : All (λ e. IsEntry chunks e.0 e.1) spans → All (λ e. IsEntry chunks e.0 e.1) more

resolve_chunks-Resolves :
    (chunks cs : List Chunk) (i : ℕ) (c : List ℕ) (highs : Highs) (spans : Spans) {more : Spans}
    → Rest chunks i cs
    → Collected chunks (length chunks) c highs
    → resolve_chunks i cs c highs spans ≡ ok more
    → Resolves chunks i cs spans more
unfolding resolve_chunks
resolve_chunks-Resolves chunks [] i c highs spans {more = more} rest w h =
    let same : spans ≡ more = cc h in
    rw (sym same) (record { kept = λ k s e. e; stored = tt; entries = λ e. e })
resolve_chunks-Resolves chunks (d ∷ cs) i c highs spans {more = more} rest w h =
    let here = Rest-here chunks i d cs rest in
    let (high, e, h1) = >>=-eq-ok (resolve_high i d c highs) _ h in
    let (next, e', h2) = >>=-eq-ok (store_spans high d.spans spans) _ h1 in
    let of = resolve_high-HighOf chunks i c highs d w here e in
    let each : All (λ s. IsEntry chunks (key_of high s) s) d.spans =
      All-position (λ s. IsEntry chunks (key_of high s) s) d.spans
        λ k s at. record {
          index = i;
          holder = record { chunk = d; position = k; here = here; holds = at };
          low = refl;
          span = refl;
          high = of;
        } in
    let a = store_spans-Stored chunks high d.spans spans each e' in
    let r =
      resolve_chunks-Resolves chunks cs (suc i) (if d.tagged then c else (find c i).0) highs next
        (Rest-next chunks i d cs rest)
        (found-Collected chunks i c highs d w (lt-length chunks i here)) h2 in
    record {
      kept = λ k s x. r.kept k s (a.kept k s x);
      stored = (
        record {
          high = high;
          high_of = of;
          stored = All-imp d.spans (λ s x. r.kept (key_of high s) s x) a.stored;
        },
        r.stored,
      );
      entries = λ x. r.entries (a.entries x);
    }

-- The spans of a capture at their full identities: each chunk of the capture with its high bits,
-- every span of it stored, and nothing else.
pub record IsIndexed (traces : List (List StressSpan)) (spans : Spans) : Type 0 where
  pub chunks : List Chunk
  pub of_capture : Chunks traces chunks
  pub stored : IsStoredAll chunks 0 chunks spans
  pub entries : All (λ e. IsEntry chunks e.0 e.1) spans

index_chunks-Resolves :
    (chunks : List Chunk) {spans : Spans}
    → index_chunks chunks ≡ ok spans
    → IsStoredAll chunks 0 chunks spans × All (λ e. IsEntry chunks e.0 e.1) spans
unfolding index_chunks
index_chunks-Resolves chunks h =
    let components = components_of chunks in
    let start = start-Collected chunks components (components_of-IsGrouped chunks) in
    let w = collect_highs-Collected chunks chunks 0 components [] (Rest-all chunks) start in
    let e : 0 + length chunks ≡ length chunks = omega arith in
    let w' =
      subst
        (λ n.
          Collected chunks n (collect_highs 0 chunks components []).0
            (collect_highs 0 chunks components []).1)
        e w in
    let r =
      resolve_chunks-Resolves chunks chunks 0 (collect_highs 0 chunks components []).0
        (collect_highs 0 chunks components []).1 [] (Rest-all chunks) w' h in
    (r.stored, r.entries tt)

-- When stressIndex answers an index, each chunk of the capture holds sound spans of one trace whose
-- tags agree. Its spans are in the index at the chunk's high bits: its own tag, or the one tag of
-- the chunks of its trace, or the zeros where no chunk of its trace is tagged; chunks are of one
-- trace when they share a span, one holds the child of a span of the other, or through further
-- chunks. No other span is in the index.
pub stress_index-IsIndexed :
    (decode : Text → Option (List (List (List StressSpan)))) (capture : Text)
    {records : List (List (List StressSpan))} {spans : Spans}
    → decode capture ≡ some records
    → stress_index decode capture ≡ ok spans
    → IsIndexed (concat records) spans
unfolding stress_index or_error
stress_index-IsIndexed decode capture {records = records} decoded h =
    let (given, e, h1) = >>=-eq-ok (or_error (decode capture) bad_capture) _ h in
    let same : given ≡ records = cc (sym (or_error-eq-ok _ bad_capture e) ∙ decoded) in
    let (chunks, read, h2) = >>=-eq-ok (read_records given) _ h1 in
    let (stored, entries) = index_chunks-Resolves chunks h2 in
    rw (sym same) (record {
      chunks = chunks;
      of_capture = read_records-Chunks given read;
      stored = stored;
      entries = entries;
    })
