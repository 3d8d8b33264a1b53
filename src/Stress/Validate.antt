-- ===== src/Stress/Validate.antt =====
-- harness/parallel_scenarios.go: validateStress. An `int64` of an interval is its excess over
-- -2^63, and the end of a span wraps around. `validate_spans` is the part that follows stressIndex.
use rules_stests.Base.{
  ℕ, ◌+◌, ◌-◌, ◌%◌, ◌^◌, not, List, [], ◌∷◌, ltb, Option, none, some, Text, Result, ◌>>=◌, ◌>>◌,
  guard,
}
use rules_stests.Stress.Ledger.{
  ℤ, pos, negsuc, RequestLedger, StressError, no_overlap, index_ledger,
}
use rules_stests.Stress.Contexts.{StressSpan, StressIdentity}
use rules_stests.Stress.Servers.{Spans, find_servers}
use rules_stests.Stress.Index.{stress_index}
use rules_stests.Stress.Owners.{find_span}
use rules_stests.Stress.Sql.{check_sql}
use rules_stests.Stress.Overlap.{overlap}

unfoldable pub excess : ℤ → ℕ
excess (pos n) = n + 2 ^ 63
excess (negsuc n) = 2 ^ 63 - (n + 1)

unfoldable pub interval_of : StressSpan → ℕ × ℕ
interval_of s = (excess s.start, (excess s.start + excess s.duration + 2 ^ 63) % 2 ^ 64)

-- A missing span reads as the zero span, from 0 to 0.
unfoldable pub interval_found : Option StressSpan → ℕ × ℕ
interval_found none = (excess (pos 0), excess (pos 0))
interval_found (some s) = interval_of s

unfoldable pub interval_at : Spans → StressIdentity → ℕ × ℕ
interval_at spans key = interval_found (find_span key spans)

unfoldable pub intervals_of : Spans → List (Text × StressIdentity) → List (ℕ × ℕ)
intervals_of spans [] = []
intervals_of spans ((id, key) ∷ servers) = interval_at spans key ∷ intervals_of spans servers

unfoldable pub validate_spans :
    (Text → Option Text)
    → (service : Text) → Spans
    → List RequestLedger
    → Result StressError (Unit {0})
validate_spans url_path service spans ledger = do
  requests ← index_ledger ledger
  servers ← find_servers url_path service spans requests
  check_sql spans requests
  guard (not (ltb (overlap (intervals_of spans servers)) 2)) no_overlap

unfoldable pub validate_stress :
    (decode : Text → Option (List (List (List StressSpan))))
    → (url_path : Text → Option Text) → (capture : Text) → List RequestLedger
    → (service : Text) → Result StressError (Unit {0})
validate_stress decode url_path capture ledger service =
    stress_index decode capture >>= λ spans. validate_spans url_path service spans ledger
