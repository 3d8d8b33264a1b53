-- ===== src/Stress/Whole.antt =====
-- harness/parallel_scenarios.go: validateStress as a whole.
use rules_stests.Base.{
  ℕ, zero, suc, ◌+◌, ◌^◌, ◌<◌, ◌≡◌, ◌↔◌, refl, sym, ◌∙◌, true, List, [], ◌∷◌, Option, some, Text,
  length, get_elem?, All, All-get_elem?, ok, >>=-eq-ok, arith,
}
use mathlib.Core.Path.{subst}
use rules_stests.Receipt.Coverage.Claims.{All-imp}
use rules_stests.Stress.Ledger.{ℤ, pos, negsuc, lt_int, RequestLedger}
use rules_stests.Stress.Contexts.{StressSpan}
use rules_stests.Stress.Servers.{Spans}
use rules_stests.Stress.Union.{find}
use rules_stests.Stress.Forest.{HasRoot, Leads-unique}
use rules_stests.Stress.Short.{find-Same}
use rules_stests.Stress.Index.{Chunk, stress_index}
use rules_stests.Stress.Traces.{Joined, through, back}
use rules_stests.Stress.Tagged.{IsSound, Chunks, concat}
use rules_stests.Stress.Components.{components_of, components_of-IsGrouped}
use rules_stests.Stress.Indexes.{IsIndexed, stress_index-IsIndexed}
use rules_stests.Stress.Validate.{validate_stress}
use rules_stests.Stress.Valid.{IsTimed, IsRun, validate_spans-IsRun}

-- The components of stressIndex, as find reads them, are the traces: for two chunks of a capture it
-- answers the same exactly when they share a span, when one holds the child of a span of the other,
-- or when further chunks connect them so.
pub find-Joined_iff :
    (chunks : List Chunk) (i j : ℕ)
    → i < length chunks
    → j < length chunks
    → ((find (components_of chunks) i).1 ≡ (find (components_of chunks) j).1) ↔ Joined chunks i j
find-Joined_iff chunks i j hi hj =
    let c = components_of chunks in
    let g = components_of-IsGrouped chunks in
    let li : i < length c = omega (arith, hi, g.grouping.size) in
    let lj : j < length c = omega (arith, hj, g.grouping.size) in
    let (r, ri) = g.grouping.forest.rooted i li in
    let (s, sj) = g.grouping.forest.rooted j lj in
    let (u, ei) = find-Same c i r g.grouping.forest li ri in
    let (v, ej) = find-Same c j s g.grouping.forest lj sj in
    (
      λ same.
          let one : r ≡ s = sym ei ∙ same ∙ ej in
          through i r j (g.grouping.sound i r li ri)
            (back j r (g.grouping.sound j r lj (subst (λ z. HasRoot c j z) (sym one) sj))),
      λ joined.
          let t = g.whole i j joined in
          let a : t.root ≡ r = (Leads-unique c t.from.0 ri.0 i t.from.1 ri.1).1 in
          let b : t.root ≡ s = (Leads-unique c t.to.0 sj.0 j t.to.1 sj.1).1 in
          ei ∙ sym a ∙ b ∙ sym ej,
    )

-- The end of a span fits in an int64.
abbrev pub Fits : StressSpan → Type 0
Fits s = (a b : ℕ) → s.start ≡ pos a → s.duration ≡ pos b → a + b < 2 ^ 63

positive : (z : ℤ) → lt_int (pos 0) z ≡ true → (n : ℕ) × (z ≡ pos n) × (0 < n)
unfolding lt_int
positive (pos n) h = (n, refl, ground arith)
positive (negsuc n) h = cc h

sound-IsTimed : (first : ℕ) (s : StressSpan) → IsSound first s → Fits s → IsTimed s
sound-IsTimed first s v f =
    let (a, ea, pa) = positive s.start v.started in
    let (b, eb, pb) = positive s.duration v.lasting in
    record {
      from = a;
      lasts = b;
      start_is = ea;
      duration_is = eb;
      positive = pb;
      bounded = f a b ea eb;
    }

chunk-IsTimed :
    (traces : List (List StressSpan)) (chunks : List Chunk) (i k : ℕ) {c : Chunk} {s : StressSpan}
    → Chunks traces chunks
    → All (All Fits) traces
    → get_elem? chunks i ≡ some c
    → get_elem? c.spans k ≡ some s
    → IsTimed s
chunk-IsTimed [] [] i k h f at at' = cc at
chunk-IsTimed [] (d ∷ chunks) i k h f at at' = elim h [ ]
chunk-IsTimed (t ∷ traces) [] i k h f at at' = elim h [ ]
chunk-IsTimed (t ∷ traces) (d ∷ chunks) zero k {c = c} {s = s} (e, v, h) (f, fs) at at' =
    let same : d ≡ c = cc at in
    let held : get_elem? d.spans k ≡ some s = rw same at' in
    let fits : All Fits d.spans = rw e f in
    sound-IsTimed _ s (All-get_elem? (IsSound _) d.spans k v.sound held)
      (All-get_elem? Fits d.spans k fits held)
chunk-IsTimed (t ∷ traces) (d ∷ chunks) (suc i) k (e, v, h) (f, fs) at at' =
    chunk-IsTimed traces chunks i k h fs at at'

-- What a capture and a ledger that validateStress accepts are.
pub record IsValidated (url_path : Text → Option Text) (service : Text)
    (traces : List (List StressSpan)) (ledger : List RequestLedger) : Type 0 where
  pub spans : Spans
  pub indexed : IsIndexed traces spans
  pub run : IsRun url_path service spans ledger

-- When validateStress accepts a capture whose spans end before 2^63, stressIndex answers an index of
-- all its spans by their traces, and the run that it holds has its server spans, SQL spans and two
-- servers open at one instant as the ledger says.
pub validate_stress-IsValidated :
    (decode : Text → Option (List (List (List StressSpan)))) (url_path : Text → Option Text)
    (capture : Text) (ledger : List RequestLedger) (service : Text)
    {records : List (List (List StressSpan))}
    → decode capture ≡ some records
    → All (All Fits) (concat records)
    → validate_stress decode url_path capture ledger service ≡ ok tt
    → IsValidated url_path service (concat records) ledger
unfolding validate_stress
validate_stress-IsValidated decode url_path capture ledger service {records = records} decoded f h =
    let (spans, e, h1) = >>=-eq-ok (stress_index decode capture) _ h in
    let x = stress_index-IsIndexed decode capture decoded e in
    let timed : All (λ p. IsTimed p.1) spans =
      All-imp spans
        (λ p n.
          chunk-IsTimed (concat records) x.chunks n.index n.holder.position x.of_capture f
            n.holder.here n.holder.holds)
        x.entries in
    record {
      spans = spans;
      indexed = x;
      run = validate_spans-IsRun url_path service spans ledger timed h1;
    }
