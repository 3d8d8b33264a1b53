-- ===== src/Report/Compare.antt =====
-- report/report/report.go: mergeDelta and the comparisons of BuildModelForProfiles, without their
-- alignments. An `int` is the number that its 64 bits spell, so a negative delta is 2^64 less its
-- size.
use rules_stests.Base.{
  ℕ, ◌+◌, ◌-◌, ◌%◌, ◌^◌, Bool, true, false, ◌&&◌, List, [], ◌∷◌, ◌++◌, Option, none, some, ◌==◌,
  if◌then◌else◌, Text, length, text_eq, lookup,
}
use rules_stests.Receipt.Types.{pair_key}
use rules_stests.Shape.Types.{add64}
use rules_stests.Shape.Totals.{ScenarioShape}

-- `a - b` on 64 bits.
unfoldable pub sub64 : ℕ → ℕ → ℕ
sub64 a b = (a + (2 ^ 64 - b % 2 ^ 64)) % 2 ^ 64

-- `if m[k] == 0 { delete(m, k) }`.
unfoldable pub put_nonzero : Text → ℕ → List (Text × ℕ) → List (Text × ℕ)
put_nonzero k v m = if v == 0 then m else (k, v) ∷ m

-- `m[k] += n`, and the key taken out when it holds 0.
unfoldable pub bump : Text → ℕ → List (Text × ℕ) → List (Text × ℕ)
bump k n [] = put_nonzero k (add64 0 n) []
bump k n ((j, v) ∷ m) = if text_eq j k then put_nonzero j (add64 v n) m else (j, v) ∷ bump k n m

-- With `sign` the multiplication by 1 or -1.
unfoldable pub merge_delta : (ℕ → ℕ) → List (Text × ℕ) → List (Text × ℕ) → List (Text × ℕ)
merge_delta sign destination [] = destination
merge_delta sign destination ((k, v) ∷ values) =
    merge_delta sign (bump k (sign v) destination) values

abbrev pub plus : ℕ → ℕ
plus n = n

abbrev pub minus : ℕ → ℕ
minus n = sub64 0 n

pub record Comparison : Type 0 where
  pub left_profile : Text
  pub right_profile : Text
  pub scenario : Text
  pub available : Bool
  pub trace_delta : ℕ
  pub span_delta : ℕ
  pub count_delta : ℕ
  pub scope_delta : List (Text × ℕ)
  pub status_delta : List (Text × ℕ)

abbrev pub no_comparison : Text → Text → Text → Comparison
no_comparison left right scenario = record {
  left_profile = left;
  right_profile = right;
  scenario = scenario;
  available = false;
  trace_delta = 0;
  span_delta = 0;
  count_delta = 0;
  scope_delta = [];
  status_delta = [];
}

-- The deltas of two shapes that are both exact.
unfoldable pub compare_shapes : ScenarioShape → ScenarioShape → Comparison → Comparison
compare_shapes l r c =
    if l.exact_counts && r.exact_counts
    then record c {
      available = true;
      trace_delta = add64 (sub64 c.trace_delta l.trace_count) r.trace_count;
      span_delta = add64 (sub64 c.span_delta l.totals.span_count) r.totals.span_count;
      count_delta = add64 (sub64 c.count_delta (length l.traces)) (length r.traces);
      scope_delta =
          merge_delta plus (merge_delta minus c.scope_delta l.totals.scopes) r.totals.scopes;
      status_delta =
          merge_delta plus (merge_delta minus c.status_delta l.totals.statuses) r.totals.statuses;
    }
    else c

abbrev pub compare_found : Option ScenarioShape → Option ScenarioShape → Comparison → Comparison
compare_found none r c = c
compare_found (some l) none c = c
compare_found (some l) (some r) c = compare_shapes l r c

unfoldable pub compare_scenario : List (Text × ScenarioShape) → Text → Text → Text → Comparison
compare_scenario index left right scenario =
    compare_found (lookup (pair_key left scenario) index) (lookup (pair_key right scenario) index)
      (no_comparison left right scenario)

unfoldable pub compare_scenarios :
    List (Text × ScenarioShape) → Text → Text → List Text → List Comparison
compare_scenarios index left right [] = []
compare_scenarios index left right (s ∷ ss) =
    compare_scenario index left right s ∷ compare_scenarios index left right ss

-- `right` runs through the profiles behind `left`.
unfoldable pub compare_rights :
    List (Text × ScenarioShape) → Text → List Text → List Text → List Comparison
compare_rights index left [] scenarios = []
compare_rights index left (r ∷ rs) scenarios =
    compare_scenarios index left r scenarios ++ compare_rights index left rs scenarios

unfoldable pub compare_profiles :
    List (Text × ScenarioShape) → List Text → List Text → List Comparison
compare_profiles index [] scenarios = []
compare_profiles index (l ∷ ls) scenarios =
    compare_rights index l ls scenarios ++ compare_profiles index ls scenarios
