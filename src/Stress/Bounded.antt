-- ===== src/Stress/Bounded.antt =====
-- harness/parallel_scenarios.go: the depth of a span in its trace, which owner bounds, and its fuel.
use rules_stests.Base.{
  ℕ, ◌≢◌, inl, inr, Bool, true, false, ◌&&◌, List, [], ◌∷◌, ◌==◌, if◌then◌else◌, Text, text_eq,
  codes, ok, err, guard, >>=-ne-err, Bool-cases, arith,
}
use rules_stests.Stress.Ledger.{
  pos, eq_int, RequestLedger, StressError, crossed_lifecycle, crossed_marker, lost_sql, out_of_fuel,
}
use rules_stests.Stress.Contexts.{StressSpan, value_at}
use rules_stests.Stress.Servers.{Spans}
use rules_stests.Stress.Owners.{Owners, owner}
use rules_stests.Stress.Owned.{owner-ne-out_of_fuel}
use rules_stests.Stress.Sql.{
  contains, occurrences, marker_of, marker_text, is_lifecycle, check_marker, count_up, count_at,
  is_sql, count_sql, check_counts, check_sql,
}

guard-ne-out_of_fuel : (b : Bool) (f : StressError) → f ≢ out_of_fuel → guard b f ≢ err out_of_fuel
guard-ne-out_of_fuel true f n e = cc
guard-ne-out_of_fuel false f n e = n (cc e)

check_marker-ne-out_of_fuel :
    (b : Bool) (id marker : Text) (s : StressSpan)
    → (if b then check_marker id marker s else ok tt) ≢ err out_of_fuel
unfolding check_marker
check_marker-ne-out_of_fuel false id marker s e = cc
check_marker-ne-out_of_fuel true id marker s e = elim (Bool-cases (is_lifecycle s)) [
  | inl session ↦
      guard-ne-out_of_fuel
        (text_eq (value_at (codes "rules_stests.request_id") s.meta) id
          && text_eq (value_at (codes "rules_stests.sql_marker") s.meta) marker)
        crossed_lifecycle (λ bad. cc) (ground arith)
  | inr other ↦
      guard-ne-out_of_fuel
        (occurrences (codes "rules_stests_request=") 0 s.resource == 1
          && contains (marker_text id marker) s.resource)
        crossed_marker (λ bad. cc) (ground arith)
]

check_counts-ne-out_of_fuel :
    (counts : List (Text × ℕ)) (requests : List (Text × RequestLedger))
    → check_counts counts requests ≢ err out_of_fuel
unfolding check_counts
check_counts-ne-out_of_fuel counts [] e = cc
check_counts-ne-out_of_fuel counts ((id, r) ∷ requests) e =
    >>=-ne-err (guard (eq_int (pos (count_at id counts)) r.sql_count) lost_sql) _
      (guard-ne-out_of_fuel _ lost_sql (λ bad. cc))
      (λ u fits. check_counts-ne-out_of_fuel counts requests) e

count_sql-ne-out_of_fuel :
    (spans : Spans) (requests : List (Text × RequestLedger)) (todo : Spans) (owners : Owners)
    (counts : List (Text × ℕ))
    → count_sql spans requests todo owners counts ≢ err out_of_fuel
unfolding count_sql
count_sql-ne-out_of_fuel spans requests [] owners counts e = cc
count_sql-ne-out_of_fuel spans requests ((key, s) ∷ todo) owners counts e =
    >>=-ne-err (owner spans 66 [] owners key) _
      (owner-ne-out_of_fuel spans 66 [] owners key (omega arith) (omega arith))
      (λ (more, id) found.
        >>=-ne-err (if is_sql s then check_marker id (marker_of id requests) s else ok tt) _
          (check_marker-ne-out_of_fuel (is_sql s) id (marker_of id requests) s)
          (λ u checked.
            count_sql-ne-out_of_fuel spans requests todo more
              (if is_sql s then count_up id counts else counts)))
      e

-- The SQL loop never runs out of the fuel for the parents of a span: it accepts or names a fault.
pub check_sql-ne-out_of_fuel :
    (spans : Spans) (requests : List (Text × RequestLedger))
    → check_sql spans requests ≢ err out_of_fuel
unfolding check_sql
check_sql-ne-out_of_fuel spans requests e =
    >>=-ne-err (count_sql spans requests spans [] []) _
      (count_sql-ne-out_of_fuel spans requests spans [] [])
      (λ counts done. check_counts-ne-out_of_fuel counts requests) e
