-- ===== src/Report/Compared.antt =====
-- report/report/report.go: what the comparisons of BuildModelForProfiles say of the shapes.
use mathlib.Core.Path.{subst}
use rules_stests.Base.{
  ℕ, Bool, true, false, ◌&&◌, ◌≡◌, refl, sym, ap, ◌∙◌, inl, inr, List, [], ◌∷◌, Option, none, some,
  if◌then◌else◌, Bool-cases, Text, All, length, text_eq, text_eq_iff, mem, lookup, lookup-missing,
  keys, Distinct, ok, ok-injective, arith,
}
use rules_stests.Receipt.Types.{pair_key}
use rules_stests.Receipt.Coverage.{ProfileProofCoverage}
use rules_stests.Receipt.Coverage.Claims.{All-append}
use rules_stests.Shape.Types.{add64}
use rules_stests.Shape.Totals.{ScenarioShape}
use rules_stests.Report.Types.{ReportModel}
use rules_stests.Report.Claims.{Known}
use rules_stests.Report.Compare.{
  sub64, Comparison, no_comparison, compare_shapes, compare_found, compare_scenario,
  compare_scenarios, compare_rights, compare_profiles,
}
use rules_stests.Report.Build.{Corpus, index_shapes, build_model_for_profiles}
use rules_stests.Report.Built.{index_shapes-step, build_model_for_profiles-Built}
use rules_stests.Report.Deltas.{IsDelta, merge_delta-IsDelta}

-- The first shape with the key.
abbrev pub shape_at : List ScenarioShape → Text → Option ScenarioShape
shape_at [] key = none
shape_at (s ∷ ss) key =
    if text_eq (pair_key s.profile s.scenario) key then some s else shape_at ss key

shape_at-All {ℓ} :
    (P : ScenarioShape → Type ℓ) (ss : List ScenarioShape) (key : Text) {s : ScenarioShape}
    → shape_at ss key ≡ some s
    → All P ss
    → P s
shape_at-All P [] key {s} h a = absurd (cc h)
shape_at-All P (x ∷ ss) key {s} h a =
    elim (Bool-cases (text_eq (pair_key x.profile x.scenario) key)) [
      | inl here ↦ let found : x ≡ s = cc (rw here at h) in subst P found a.0
      | inr there ↦ shape_at-All P ss key (rw there at h) a.1
    ]

or_else : Option ScenarioShape → Option ScenarioShape → Option ScenarioShape
or_else none o = o
or_else (some s) o = some s

nothing_else : (o : Option ScenarioShape) → o ≡ or_else o none
unfolding or_else
nothing_else none = refl
nothing_else (some s) = refl

lookup-index_shapes :
    (known : Known) (k : Text) (ss : List ScenarioShape) (index : List (Text × ScenarioShape))
    {out : List (Text × ScenarioShape)}
    → index_shapes known ss index ≡ ok out
    → lookup k out ≡ or_else (lookup k index) (shape_at ss k)
unfolding index_shapes or_else lookup
lookup-index_shapes known k [] index h =
    sym (ap (lookup k) (ok-injective h)) ∙ nothing_else (lookup k index)
lookup-index_shapes known k (x ∷ ss) index h =
    let (new, rest) = index_shapes-step known x ss index h in
    lookup-index_shapes known k ss ((pair_key x.profile x.scenario, x) ∷ index) rest
    ∙ first_of_key (pair_key x.profile x.scenario) new
  where
    first_of_key :
        (key : Text)
        → mem key (keys index) ≡ false
        → or_else (if text_eq key k then some x else lookup k index) (shape_at ss k)
          ≡ or_else (lookup k index) (if text_eq key k then some x else shape_at ss k)
    first_of_key key new = elim (Bool-cases (text_eq key k)) [
      | inl same ↦
          rw
            (
              same,
              lookup-missing k index
                  (subst (λ j. mem j (keys index) ≡ false) ((text_eq_iff key k).0 same) new),
            )
            refl
      | inr other ↦ rw other refl
    ]

-- The scopes and statuses of the shape are maps: no key occurs twice.
pub record HasMaps (s : ScenarioShape) : Type 0 where
  pub scopes : Distinct (keys s.totals.scopes)
  pub statuses : Distinct (keys s.totals.statuses)

-- What a comparison of two exact shapes says: the differences, right less left, on 64 bits.
pub record IsCompared (l r : ScenarioShape) (c : Comparison) : Type 0 where
  pub available : c.available ≡ true
  pub traces : c.trace_delta ≡ sub64 r.trace_count l.trace_count
  pub spans : c.span_delta ≡ sub64 r.totals.span_count l.totals.span_count
  pub groups : c.count_delta ≡ sub64 (length r.traces) (length l.traces)
  pub scopes : IsDelta l.totals.scopes r.totals.scopes c.scope_delta
  pub statuses : IsDelta l.totals.statuses r.totals.statuses c.status_delta

abbrev pub IsIdle : Comparison → Type 0
IsIdle c = c ≡ no_comparison c.left_profile c.right_profile c.scenario

abbrev pub WhenExact : Bool → ScenarioShape → ScenarioShape → Comparison → Type 0
WhenExact true l r c = IsCompared l r c
WhenExact false l r c = IsIdle c

-- The differences where both shapes are there and exact, and nothing otherwise.
abbrev pub Compares : Option ScenarioShape → Option ScenarioShape → Comparison → Type 0
Compares none r c = IsIdle c
Compares (some l) none c = IsIdle c
Compares (some l) (some r) c = WhenExact (l.exact_counts && r.exact_counts) l r c

abbrev pub IsComparison : Corpus → Comparison → Type 0
IsComparison corpus c =
    Compares (shape_at corpus.shapes (pair_key c.left_profile c.scenario))
      (shape_at corpus.shapes (pair_key c.right_profile c.scenario)) c

difference : (l r : ℕ) → add64 (sub64 0 l) r ≡ sub64 r l
unfolding sub64
difference l r = omega arith

compare_shapes-WhenExact :
    (l r : ScenarioShape) (left right scenario : Text)
    → HasMaps l
    → HasMaps r
    → WhenExact
        (l.exact_counts && r.exact_counts)
        l
        r
        (compare_shapes l r (no_comparison left right scenario))
unfolding compare_shapes
compare_shapes-WhenExact l r left right scenario p q =
    elim (Bool-cases (l.exact_counts && r.exact_counts)) [
      | inl exact ↦ rw exact (record {
        available = refl;
        traces = difference l.trace_count r.trace_count;
        spans = difference l.totals.span_count r.totals.span_count;
        groups = difference (length l.traces) (length r.traces);
        scopes = merge_delta-IsDelta l.totals.scopes r.totals.scopes p.scopes q.scopes;
        statuses = merge_delta-IsDelta l.totals.statuses r.totals.statuses p.statuses q.statuses;
      })
      | inr bounded ↦ rw bounded refl
    ]

-- A comparison keeps its names.
abbrev Named : Text → Text → Text → Comparison → Type 0
Named left right scenario c =
    (c.left_profile ≡ left) × (c.right_profile ≡ right) × (c.scenario ≡ scenario)

compare_found-Named :
    (l r : Option ScenarioShape) (left right scenario : Text)
    → Named left right scenario (compare_found l r (no_comparison left right scenario))
unfolding compare_shapes
compare_found-Named none r left right scenario = (refl, refl, refl)
compare_found-Named (some l) none left right scenario = (refl, refl, refl)
compare_found-Named (some l) (some r) left right scenario =
    elim (Bool-cases (l.exact_counts && r.exact_counts)) [
      | inl exact ↦ rw exact (refl, refl, refl)
      | inr bounded ↦ rw bounded (refl, refl, refl)
    ]

module _ (corpus : Corpus) (index : List (Text × ScenarioShape)) (maps : All HasMaps corpus.shapes)
    (indexed : (k : Text) → lookup k index ≡ shape_at corpus.shapes k) where
  compare_found-Compares :
      (l r : Option ScenarioShape) (left right scenario : Text)
      → shape_at corpus.shapes (pair_key left scenario) ≡ l
      → shape_at corpus.shapes (pair_key right scenario) ≡ r
      → Compares l r (compare_found l r (no_comparison left right scenario))
  compare_found-Compares none r left right scenario p q = refl
  compare_found-Compares (some l) none left right scenario p q = refl
  compare_found-Compares (some l) (some r) left right scenario p q =
      compare_shapes-WhenExact l r left right scenario
        (shape_at-All HasMaps corpus.shapes (pair_key left scenario) p maps)
        (shape_at-All HasMaps corpus.shapes (pair_key right scenario) q maps)

  compare_scenario-IsComparison :
      (left right scenario : Text)
      → IsComparison corpus (compare_scenario index left right scenario)
  unfolding compare_scenario
  compare_scenario-IsComparison left right scenario =
      let l = shape_at corpus.shapes (pair_key left scenario) in
      let r = shape_at corpus.shapes (pair_key right scenario) in
      let names = compare_found-Named l r left right scenario in
      rw
        (
          indexed (pair_key left scenario),
          indexed (pair_key right scenario),
          names.0,
          names.1,
          names.2,
        )
        (compare_found-Compares l r left right scenario refl refl)

  compare_scenarios-All :
      (left right : Text) (ss : List Text)
      → All (IsComparison corpus) (compare_scenarios index left right ss)
  unfolding compare_scenarios
  compare_scenarios-All left right [] = tt
  compare_scenarios-All left right (s ∷ ss) =
      (compare_scenario-IsComparison left right s, compare_scenarios-All left right ss)

  compare_rights-All :
      (left : Text) (rs ss : List Text)
      → All (IsComparison corpus) (compare_rights index left rs ss)
  unfolding compare_rights
  compare_rights-All left [] ss = tt
  compare_rights-All left (r ∷ rs) ss =
      All-append (IsComparison corpus) (compare_scenarios index left r ss)
        (compare_rights index left rs ss) (compare_scenarios-All left r ss)
        (compare_rights-All left rs ss)

  compare_profiles-All :
      (ps ss : List Text) → All (IsComparison corpus) (compare_profiles index ps ss)
  unfolding compare_profiles
  compare_profiles-All [] ss = tt
  compare_profiles-All (p ∷ ps) ss =
      All-append (IsComparison corpus) (compare_rights index p ps ss) (compare_profiles index ps ss)
        (compare_rights-All p ps ss) (compare_profiles-All ps ss)

-- For shapes in which no scope and no status is counted twice: every comparison of the report holds the differences of its two shapes, right less left, of
-- traces, spans, groups, scopes and statuses, when the corpus has both shapes and both are exact,
-- and is empty and not available otherwise.
pub build_model_for_profiles-IsComparison :
    (corpus : Corpus) (coverages : List ProfileProofCoverage) {model : ReportModel}
    → All HasMaps corpus.shapes
    → build_model_for_profiles corpus coverages ≡ ok model
    → All (IsComparison corpus) model.comparisons
unfolding lookup or_else
build_model_for_profiles-IsComparison corpus coverages {model} maps h =
    let b = build_model_for_profiles-Built corpus coverages h in
    subst (All (IsComparison corpus)) (sym b.comparisons) (
      compare_profiles-All corpus b.index maps
        (λ k. lookup-index_shapes b.known k corpus.shapes [] b.is_indexed) corpus.profiles
        corpus.scenarios)
