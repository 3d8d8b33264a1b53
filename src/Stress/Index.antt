-- ===== src/Stress/Index.antt =====
-- harness/parallel_scenarios.go: stressIndex, which gives every span of a capture its full trace
-- identity; harness/hurl_test_driver.go: allASCIIHex. `decode` stands for json.Unmarshal: the
-- chunks of each record. The loops over the spans of all chunks walk `placed`.
use rules_stests.Base.{
  ℕ, suc, ◌+◌, Bool, true, false, not, ◌&&◌, ◌||◌, List, [], ◌∷◌, ◌++◌, map, ◌==◌, leb,
  if◌then◌else◌, Option, none, some, Text, codes, length, text_eq, add, Result, ok, err, ◌>>=◌,
  ◌>>◌, guard, range_from,
}
use rules_stests.Stress.Ledger.{
  pos, lt_int, StressError, bad_capture, invalid_span, conflicting_chunk, malformed_tid,
  ambiguous_chunk, duplicate_span,
}
use rules_stests.Stress.Contexts.{StressSpan, StressIdentity, value_at, or_error}
use rules_stests.Stress.Servers.{Spans, is_captured}
use rules_stests.Stress.Union.{find, join}

pub record Chunk : Type 0 where
  pub spans : List StressSpan
  pub high : Text
  pub tagged : Bool

abbrev pub no_high : Text
no_high = codes "0000000000000000"

unfoldable pub is_ascii_hex : Text → Bool
is_ascii_hex [] = true
is_ascii_hex (c ∷ cs) =
    (leb b'0' c && leb c b'9' || leb b'a' c && leb c b'f' || leb b'A' c && leb c b'F')
    && is_ascii_hex cs

-- `strings.ToLower`, of ASCII.
unfoldable pub to_lower : Text → Text
to_lower [] = []
to_lower (c ∷ cs) = (if leb b'A' c && leb c b'Z' then c + 32 else c) ∷ to_lower cs

unfoldable pub tag_of : StressSpan → Text
tag_of s = value_at (codes "_dd.p.tid") s.meta

-- The tag of a chunk, with that of one more span.
unfoldable pub tag_with : Text → (high : Text) → (tagged : Bool) → Result StressError (Text × Bool)
tag_with [] high tagged = ok (high, tagged)
tag_with (c ∷ cs) high tagged = do
  guard (length (c ∷ cs) == 16 && is_ascii_hex (c ∷ cs)) malformed_tid
  guard (not (tagged && not (text_eq high (to_lower (c ∷ cs))))) conflicting_chunk
  ok (to_lower (c ∷ cs), true)

-- One span of a chunk, whose first span has the trace `first`.
unfoldable pub tag_span :
    (first : ℕ) → StressSpan → (high : Text) → (tagged : Bool) → Result StressError (Text × Bool)
tag_span first s high tagged = do
  guard
      (not (
        s.trace_id == 0
        || s.span_id == 0
        || not (lt_int (pos 0) s.start)
        || not (lt_int (pos 0) s.duration)))
      invalid_span
  guard (s.trace_id == first) conflicting_chunk
  tag_with (tag_of s) high tagged

unfoldable pub tag_spans :
    (first : ℕ)
    → List StressSpan
    → (high : Text) → (tagged : Bool) → Result StressError (Text × Bool)
tag_spans first [] high tagged = ok (high, tagged)
tag_spans first (s ∷ spans) high tagged =
    tag_span first s high tagged >>= λ (high', tagged'). tag_spans first spans high' tagged'

abbrev pub first_trace : List StressSpan → ℕ
first_trace [] = 0
first_trace (s ∷ spans) = s.trace_id

unfoldable pub read_chunk : List StressSpan → Result StressError Chunk
read_chunk spans = tag_spans (first_trace spans) spans no_high false >>= λ (high, tagged).
    ok (record { spans = spans; high = high; tagged = tagged })

unfoldable pub read_chunks : List (List StressSpan) → Result StressError (List Chunk)
read_chunks [] = ok []
read_chunks (spans ∷ more) = do
  chunk ← read_chunk spans
  chunks ← read_chunks more
  ok (chunk ∷ chunks)

unfoldable pub read_records : List (List (List StressSpan)) → Result StressError (List Chunk)
read_records [] = ok []
read_records (traces ∷ more) = do
  chunks ← read_chunks traces
  others ← read_records more
  ok (chunks ++ others)

-- The spans of the chunks from the index `i` on, with their chunks.
unfoldable pub placed : ℕ → List Chunk → List (ℕ × StressSpan)
placed i [] = []
placed i (c ∷ cs) = map (λ s. (i, s)) c.spans ++ placed (suc i) cs

-- `bySpan`, from a trace and a span to a chunk.
abbrev pub BySpan : Type 0
BySpan = List (ℕ × ℕ × ℕ)

unfoldable pub chunk_at : (trace span : ℕ) → BySpan → Option ℕ
chunk_at trace span [] = none
chunk_at trace span ((low, id, i) ∷ more) =
    if low == trace && id == span then some i else chunk_at trace span more

-- With what `bySpan` has for the span.
unfoldable pub join_found : ℕ → StressSpan → BySpan → List ℕ → Option ℕ → BySpan × List ℕ
join_found i s by_span components none = ((s.trace_id, s.span_id, i) ∷ by_span, components)
join_found i s by_span components (some other) = (by_span, join components i other)

unfoldable pub join_span : ℕ → StressSpan → BySpan → List ℕ → BySpan × List ℕ
join_span i s by_span components =
    join_found i s by_span components (chunk_at s.trace_id s.span_id by_span)

unfoldable pub join_spans : List (ℕ × StressSpan) → BySpan → List ℕ → BySpan × List ℕ
join_spans [] by_span components = (by_span, components)
join_spans ((i, s) ∷ rest) by_span components =
    let (found, joined) = join_span i s by_span components in join_spans rest found joined

unfoldable pub join_known : ℕ → List ℕ → Option ℕ → List ℕ
join_known i components none = components
join_known i components (some other) = join components i other

unfoldable pub join_parent : ℕ → StressSpan → BySpan → List ℕ → List ℕ
join_parent i s by_span components =
    join_known i components (chunk_at s.trace_id s.parent_id by_span)

unfoldable pub join_parents : List (ℕ × StressSpan) → BySpan → List ℕ → List ℕ
join_parents [] by_span components = components
join_parents ((i, s) ∷ rest) by_span components =
    join_parents rest by_span (join_parent i s by_span components)

-- `highs`, from a component to the tags of its chunks.
abbrev pub Highs : Type 0
Highs = List (ℕ × List Text)

unfoldable pub highs_at : ℕ → Highs → List Text
highs_at r [] = []
highs_at r ((x, hs) ∷ more) = if x == r then hs else highs_at r more

unfoldable pub add_high : ℕ → Text → Highs → Highs
add_high r h [] = (r, h ∷ []) ∷ []
add_high r h ((x, hs) ∷ more) = if x == r then (x, add h hs) ∷ more else (x, hs) ∷ add_high r h more

unfoldable pub collect_highs : ℕ → List Chunk → List ℕ → Highs → List ℕ × Highs
collect_highs i [] components highs = (components, highs)
collect_highs i (c ∷ cs) components highs =
    let (halved, r) = find components i in
    collect_highs (suc i) cs (if c.tagged then halved else components)
      (if c.tagged then add_high r c.high highs else highs)

-- The tag of an untagged chunk, from those of its component.
unfoldable pub inherit : Text → List Text → Result StressError Text
inherit high [] = ok high
inherit high (h ∷ []) = ok h
inherit high (h ∷ k ∷ more) = err ambiguous_chunk

unfoldable pub resolve_high : ℕ → Chunk → List ℕ → Highs → Result StressError Text
resolve_high i c components highs =
    if c.tagged then ok c.high else inherit c.high (highs_at (find components i).1 highs)

unfoldable pub store_spans : Text → List StressSpan → Spans → Result StressError Spans
store_spans high [] result = ok result
store_spans high (s ∷ spans) result =
    let key : StressIdentity = record { low = s.trace_id; high = high; span = s.span_id } in
    guard (not (is_captured key result)) duplicate_span
    >> store_spans high spans ((key, s) ∷ result)

unfoldable pub resolve_chunks : ℕ → List Chunk → List ℕ → Highs → Spans → Result StressError Spans
resolve_chunks i [] components highs result = ok result
resolve_chunks i (c ∷ cs) components highs result = do
  high ← resolve_high i c components highs
  more ← store_spans high c.spans result
  resolve_chunks (suc i) cs (if c.tagged then components else (find components i).0) highs more

unfoldable pub index_chunks : List Chunk → Result StressError Spans
index_chunks chunks =
    let (by_span, joined) = join_spans (placed 0 chunks) [] (range_from 0 (length chunks)) in
    let components = join_parents (placed 0 chunks) by_span joined in
    let (halved, highs) = collect_highs 0 chunks components [] in
    resolve_chunks 0 chunks halved highs []

unfoldable pub stress_index :
    (Text → Option (List (List (List StressSpan)))) → Text → Result StressError Spans
stress_index decode capture = do
  records ← or_error (decode capture) bad_capture
  chunks ← read_records records
  index_chunks chunks
