-- ===== src/Stress/Sql.antt =====
-- harness/parallel_scenarios.go: the loop of validateStress over the SQL spans, their markers, and
-- their count for each request. `strings.Count` and `strings.Contains` are written out for texts to
-- look for that are not empty.
use rules_stests.Base.{
  ℕ, zero, suc, ◌+◌, ◌-◌, Bool, true, false, ◌&&◌, ◌||◌, List, [], ◌∷◌, ◌++◌, ◌==◌, if◌then◌else◌,
  none, some, Text, codes, length, text_eq, lookup, Result, ok, ◌>>=◌, ◌>>◌, guard,
}
use rules_stests.Stress.Ledger.{
  pos, eq_int, RequestLedger, StressError, crossed_lifecycle, crossed_marker, lost_sql,
}
use rules_stests.Stress.Contexts.{StressSpan, value_at}
use rules_stests.Stress.Servers.{Spans}
use rules_stests.Stress.Owners.{Owners, owner}

unfoldable pub has_prefix : Text → Text → Bool
has_prefix [] t = true
has_prefix (c ∷ cs) [] = false
has_prefix (c ∷ cs) (d ∷ ds) = c == d && has_prefix cs ds

unfoldable pub contains : Text → Text → Bool
contains part [] = has_prefix part []
contains part (c ∷ cs) = has_prefix part (c ∷ cs) || contains part cs

-- The occurrences that do not overlap; `skip` runes belong to the last one.
unfoldable pub occurrences : Text → ℕ → Text → ℕ
occurrences part skip [] = 0
occurrences part (suc skip) (c ∷ cs) = occurrences part skip cs
occurrences part zero (c ∷ cs) = elim (has_prefix part (c ∷ cs)) [
  | true ↦ 1 + occurrences part (length part - 1) cs
  | false ↦ occurrences part 0 cs
]

-- `requests[id].SQLMarker`, empty where there is none.
unfoldable pub marker_of : Text → List (Text × RequestLedger) → Text
marker_of id requests = elim (lookup id requests) [ none ↦ [] | some r ↦ r.sql_marker ]

unfoldable pub marker_text : Text → Text → Text
marker_text id marker =
    codes "/* rules_stests_request=" ++ (id ++ (codes "; marker=" ++ (marker ++ codes " */")))

unfoldable pub is_lifecycle : StressSpan → Bool
is_lifecycle s =
    text_eq s.name (codes "sqlite3.query")
    && text_eq (value_at (codes "component") s.meta) (codes "database/sql")
    && (text_eq s.resource (codes "Begin")
        || text_eq s.resource (codes "Commit")
        || text_eq s.resource (codes "Rollback"))
    && text_eq (value_at (codes "sql.query_type") s.meta) s.resource

-- The marker of an SQL span of the request `id`.
unfoldable pub check_marker : Text → Text → StressSpan → Result StressError (Unit {0})
check_marker id marker s =
    if is_lifecycle s
    then guard
        (text_eq (value_at (codes "rules_stests.request_id") s.meta) id
          && text_eq (value_at (codes "rules_stests.sql_marker") s.meta) marker)
        crossed_lifecycle
    else guard
        (occurrences (codes "rules_stests_request=") 0 s.resource == 1
          && contains (marker_text id marker) s.resource)
        crossed_marker

-- `sqlCounts[id]++` and `sqlCounts[id]`.
unfoldable pub count_up : Text → List (Text × ℕ) → List (Text × ℕ)
count_up id [] = (id, 1) ∷ []
count_up id ((k, n) ∷ more) = if text_eq k id then (k, n + 1) ∷ more else (k, n) ∷ count_up id more

unfoldable pub count_at : Text → List (Text × ℕ) → ℕ
count_at id [] = 0
count_at id ((k, n) ∷ more) = if text_eq k id then n else count_at id more

unfoldable pub is_sql : StressSpan → Bool
is_sql s = text_eq s.kind (codes "sql")

-- The loop over the spans, of which `todo` are before it.
unfoldable pub count_sql :
    Spans
    → List (Text × RequestLedger)
    → Spans
    → Owners
    → List (Text × ℕ)
    → Result StressError (List (Text × ℕ))
count_sql spans requests [] owners counts = ok counts
count_sql spans requests ((key, s) ∷ todo) owners counts =
    owner spans 66 [] owners key >>= λ (more, id).
    (if is_sql s then check_marker id (marker_of id requests) s else ok tt)
    >> count_sql spans requests todo more (if is_sql s then count_up id counts else counts)

unfoldable pub check_counts :
    List (Text × ℕ) → List (Text × RequestLedger) → Result StressError (Unit {0})
check_counts counts [] = ok tt
check_counts counts ((id, r) ∷ requests) =
    guard (eq_int (pos (count_at id counts)) r.sql_count) lost_sql >> check_counts counts requests

unfoldable pub check_sql : Spans → List (Text × RequestLedger) → Result StressError (Unit {0})
check_sql spans requests =
    count_sql spans requests spans [] [] >>= λ counts. check_counts counts requests
