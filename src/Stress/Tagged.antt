-- ===== src/Stress/Tagged.antt =====
-- harness/parallel_scenarios.go: a chunk that stressIndex reads, and its tag.
use rules_stests.Base.{
  some, get_elem?, ℕ, suc, ◌≡◌, ◌≢◌, ◌⊎◌, refl, sym, ◌∙◌, inl, inr, Bool, true, false, not, ◌&&◌,
  ◌||◌, List, [], ◌∷◌, ◌++◌, ◌==◌, Text, length, text_eq, text_eq_iff, ok, guard_iff, >>=-eq-ok,
  All, ==_iff, arith,
}
use rules_stests.Stress.Ledger.{pos, lt_int, invalid_span, conflicting_chunk, malformed_tid}
use rules_stests.Stress.Contexts.{StressSpan}
use rules_stests.Stress.Index.{
  Chunk, no_high, is_ascii_hex, to_lower, tag_of, tag_with, tag_span, tag_spans, first_trace,
  read_chunk, read_chunks, read_records,
}

-- What one span of a chunk is.
pub record IsSound (first : ℕ) (s : StressSpan) : Type 0 where
  pub trace : s.trace_id ≡ first
  pub traced : s.trace_id ≢ 0
  pub identified : s.span_id ≢ 0
  pub started : lt_int (pos 0) s.start ≡ true
  pub lasting : lt_int (pos 0) s.duration ≡ true

-- The tag of a chunk, `high`, agrees with the one of a span, where the span has one.
abbrev pub Agrees : Text → StressSpan → Type 0
Agrees high s =
    (tag_of s ≡ [])
    ⊎ ((length (tag_of s) ≡ 16) × (is_ascii_hex (tag_of s) ≡ true) × (to_lower (tag_of s) ≡ high))

-- What a step does to the tag that is known.
record Step (value high : Text) (tagged : Bool) (high' : Text) (tagged' : Bool) : Type 0 where
  kept : tagged ≡ true → (tagged' ≡ true) × (high' ≡ high)
  silent : tagged' ≡ false → (value ≡ []) × (high' ≡ high) × (tagged ≡ false)
  agrees :
      (value ≡ []) ⊎ ((length value ≡ 16) × (is_ascii_hex value ≡ true) × (to_lower value ≡ high'))
  source : tagged' ≡ true → (tagged ≡ true) ⊎ ((value ≢ []) × (to_lower value ≡ high'))

tag_with-Step :
    (value high : Text) (tagged : Bool) {high' : Text} {tagged' : Bool}
    → tag_with value high tagged ≡ ok (high', tagged')
    → Step value high tagged high' tagged'
unfolding tag_with
tag_with-Step [] high tagged {high' = high'} {tagged' = tagged'} h =
    let same : high ≡ high' = cc h in
    let same' : tagged ≡ tagged' = cc h in
    rw (sym same, sym same')
      (record {
        kept = λ e. (e, refl);
        silent = λ e. (refl, refl, e);
        agrees = inl refl;
        source = λ e. inl e;
      })
tag_with-Step (c ∷ cs) high tagged {high' = high'} {tagged' = tagged'} h =
    let value : Text = c ∷ cs in
    let (shaped, h1) =
      (guard_iff (length (c ∷ cs) == 16 && is_ascii_hex (c ∷ cs)) malformed_tid _).0 h in
    let (fits, h2) =
      (guard_iff (not (tagged && not (text_eq high (to_lower (c ∷ cs))))) conflicting_chunk _).0
        h1 in
    let same : to_lower (c ∷ cs) ≡ high' = cc h2 in
    let same' : true ≡ tagged' = cc h2 in
    let wide : length (c ∷ cs) ≡ 16 = ground arith in
    let hex : is_ascii_hex (c ∷ cs) ≡ true = ground arith in
    rw (sym same, sym same')
      (record {
        kept = λ e.
            let eq : text_eq high (to_lower (c ∷ cs)) ≡ true = ground arith in
            (refl, sym ((text_eq_iff _ _).0 eq));
        silent = λ e. cc e;
        agrees = inr (wide, hex, refl);
        source = λ e. inr (λ nil. cc nil, refl);
      })

-- A span whose tag is `high`.
abbrev pub Source : Text → List StressSpan → Type 0
Source high spans =
    (k : ℕ) × (s : StressSpan) × (get_elem? spans k ≡ some s) × (to_lower (tag_of s) ≡ high)

-- A chunk as it is read: sound spans of one trace, whose tags agree; it is tagged when a span is.
pub record IsChunk (c : Chunk) : Type 0 where
  pub sound : All (IsSound (first_trace c.spans)) c.spans
  pub agrees : All (Agrees c.high) c.spans
  pub tag : c.tagged ≡ true → Source c.high c.spans
  pub silent : c.tagged ≡ false → (c.high ≡ no_high) × All (λ s. tag_of s ≡ []) c.spans

record Tags (first : ℕ) (spans : List StressSpan) (high : Text) (tagged : Bool) (high' : Text)
    (tagged' : Bool) : Type 0 where
  kept : tagged ≡ true → (tagged' ≡ true) × (high' ≡ high)
  silent : tagged' ≡ false → (high' ≡ high) × All (λ s. tag_of s ≡ []) spans × (tagged ≡ false)
  sound : All (IsSound first) spans
  agrees : All (Agrees high') spans
  source : tagged' ≡ true → (tagged ≡ true) ⊎ Source high' spans

tag_spans-Tags :
    (first : ℕ) (spans : List StressSpan) (high : Text) (tagged : Bool) {high' : Text}
    {tagged' : Bool}
    → tag_spans first spans high tagged ≡ ok (high', tagged')
    → Tags first spans high tagged high' tagged'
unfolding tag_spans tag_span
tag_spans-Tags first [] high tagged {high' = high'} {tagged' = tagged'} h =
    let same : high ≡ high' = cc h in
    let same' : tagged ≡ tagged' = cc h in
    rw (sym same, sym same')
      (record {
        kept = λ e. (e, refl);
        silent = λ e. (refl, tt, e);
        sound = tt;
        agrees = tt;
        source = λ e. inl e;
      })
tag_spans-Tags first (s ∷ spans) high tagged {high' = high'} {tagged' = tagged'} h =
    let ((mid, mid'), e, h') = >>=-eq-ok (tag_span first s high tagged) _ h in
    let (valid, h1) =
      (guard_iff
          (not (
            s.trace_id == 0
            || s.span_id == 0
            || not (lt_int (pos 0) s.start)
            || not (lt_int (pos 0) s.duration)))
          invalid_span _).0
        e in
    let (trace, h2) = (guard_iff (s.trace_id == first) conflicting_chunk _).0 h1 in
    let step = tag_with-Step (tag_of s) high tagged h2 in
    let rest = tag_spans-Tags first spans mid mid' h' in
    record {
      kept = λ t. let (t', e') = step.kept t in let (t'', e'') = rest.kept t' in (t'', e'' ∙ e');
      silent = λ n.
          let (e'', a, n') = rest.silent n in
          let (v, e', n'') = step.silent n' in (e'' ∙ e', (v, a), n'');
      sound = (
        record {
          trace = (==_iff _ _).0 trace;
          traced = ground arith;
          identified = ground arith;
          started = ground arith;
          lasting = ground arith;
        },
        rest.sound,
      );
      source = λ t. source_of_step mid mid' rest.kept step.source t (rest.source t);
      agrees = (Agrees-of_step mid mid' (rest.kept) step.agrees step.silent, rest.agrees);
    }
  where
    Agrees-of_step :
        (mid : Text) (mid' : Bool)
        → (mid' ≡ true → (tagged' ≡ true) × (high' ≡ mid))
        → ((tag_of s ≡ [])
            ⊎ ((length (tag_of s) ≡ 16)
                × (is_ascii_hex (tag_of s) ≡ true)
                × (to_lower (tag_of s) ≡ mid)))
        → (mid' ≡ false → (tag_of s ≡ []) × (mid ≡ high) × (tagged ≡ false))
        → Agrees high' s
    Agrees-of_step mid mid' kept (inl none_here) silent = inl none_here
    Agrees-of_step mid true kept (inr (l, x, e)) silent = inr (l, x, e ∙ sym (kept refl).1)
    Agrees-of_step mid false kept (inr (l, x, e)) silent = inl (silent refl).0

    source_of_step :
        (mid : Text) (mid' : Bool)
        → (mid' ≡ true → (tagged' ≡ true) × (high' ≡ mid))
        → (mid' ≡ true → (tagged ≡ true) ⊎ ((tag_of s ≢ []) × (to_lower (tag_of s) ≡ mid)))
        → tagged' ≡ true
        → (mid' ≡ true) ⊎ Source high' spans
        → (tagged ≡ true) ⊎ Source high' (s ∷ spans)
    source_of_step mid mid' kept source t (inr (k, x, at, e)) = inr (suc k, x, at, e)
    source_of_step mid mid' kept source t (inl m) = elim (source m) [
      | inl before ↦ inl before
      | inr (n, e) ↦ inr (0, s, refl, e ∙ sym (kept m).1)
    ]

read_chunk-IsChunk :
    (spans : List StressSpan) {c : Chunk} → read_chunk spans ≡ ok c → (c.spans ≡ spans) × IsChunk c
unfolding read_chunk
read_chunk-IsChunk spans {c = c} h =
    let ((high, tagged), e, h') =
      >>=-eq-ok (tag_spans (first_trace spans) spans no_high false) _ h in
    let t = tag_spans-Tags (first_trace spans) spans no_high false e in
    let same : ◌≡◌ {A = Chunk} (record { spans = spans; high = high; tagged = tagged }) c = cc h' in
    rw (sym same) (
      refl,
      record {
        sound = t.sound;
        agrees = t.agrees;
        tag = λ y. tag_there (t.source y);
        silent = λ n. let (e', a, f) = t.silent n in (e', a);
      },
    )
  where
    tag_there : {high : Text} → (false ≡ true) ⊎ Source high spans → Source high spans
    tag_there (inl e) = cc e
    tag_there (inr x) = x

-- The chunks, in the order of the capture.
abbrev pub Chunks : List (List StressSpan) → List Chunk → Type 0
Chunks [] [] = Unit
Chunks [] (c ∷ cs) = ⊥
Chunks (spans ∷ more) [] = ⊥
Chunks (spans ∷ more) (c ∷ cs) = (c.spans ≡ spans) × IsChunk c × Chunks more cs

read_chunks-Chunks :
    (traces : List (List StressSpan)) {cs : List Chunk}
    → read_chunks traces ≡ ok cs
    → Chunks traces cs
unfolding read_chunks
read_chunks-Chunks [] {cs = cs} h = let same : [] ≡ cs = cc h in rw (sym same) tt
read_chunks-Chunks (spans ∷ more) {cs = cs} h =
    let (c, e, h1) = >>=-eq-ok (read_chunk spans) _ h in
    let (ds, e', h2) = >>=-eq-ok (read_chunks more) _ h1 in
    let same : c ∷ ds ≡ cs = cc h2 in
    let (a, b) = read_chunk-IsChunk spans e in rw (sym same) (a, b, read_chunks-Chunks more e')

Chunks-append :
    (xs ys : List (List StressSpan)) (cs ds : List Chunk)
    → Chunks xs cs
    → Chunks ys ds
    → Chunks (xs ++ ys) (cs ++ ds)
Chunks-append [] ys [] ds a b = b
Chunks-append [] ys (c ∷ cs) ds a b = elim a [ ]
Chunks-append (x ∷ xs) ys [] ds a b = elim a [ ]
Chunks-append (x ∷ xs) ys (c ∷ cs) ds (e, i, a) b = (e, i, Chunks-append xs ys cs ds a b)

abbrev pub concat : List (List (List StressSpan)) → List (List StressSpan)
concat [] = []
concat (traces ∷ more) = traces ++ concat more

pub read_records-Chunks :
    (records : List (List (List StressSpan))) {cs : List Chunk}
    → read_records records ≡ ok cs
    → Chunks (concat records) cs
unfolding read_records
read_records-Chunks [] {cs = cs} h = let same : [] ≡ cs = cc h in rw (sym same) tt
read_records-Chunks (traces ∷ more) {cs = cs} h =
    let (c, e, h1) = >>=-eq-ok (read_chunks traces) _ h in
    let (ds, e', h2) = >>=-eq-ok (read_records more) _ h1 in
    let same : c ++ ds ≡ cs = cc h2 in
    rw (sym same) (
      Chunks-append traces (concat more) c ds (read_chunks-Chunks traces e)
        (read_records-Chunks more e'))
