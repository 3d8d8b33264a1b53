-- ===== src/Stress/Owners.antt =====
-- harness/parallel_scenarios.go: owner, which follows the parents of a span to its server span. The
-- map `visiting` is a list, and `owners` an association list. It visits 65 spans at most, so it has
-- 66 units of fuel.
use rules_stests.Base.{
  ℕ, zero, suc, Bool, false, not, ◌||◌, List, [], ◌∷◌, ◌==◌, ltb, if◌then◌else◌, Option, none, some,
  Text, codes, length, is_nil, Result, ok, err, ◌>>=◌, ◌>>◌, guard,
}
use rules_stests.Stress.Ledger.{
  StressError, cyclic_graph, missing_parent, unexpected_root, out_of_fuel,
}
use rules_stests.Stress.Contexts.{StressSpan, StressIdentity, value_at, or_error}
use rules_stests.Stress.Servers.{Spans, is_datadog_server, same_identity}

abbrev pub Owners : Type 0
Owners = List (StressIdentity × Text)

-- `owners[key]`, empty where there is none.
unfoldable pub owner_at : StressIdentity → Owners → Text
owner_at key [] = []
owner_at key ((k, id) ∷ more) = if same_identity k key then id else owner_at key more

unfoldable pub find_span : StressIdentity → Spans → Option StressSpan
find_span key [] = none
find_span key ((k, s) ∷ more) = if same_identity k key then some s else find_span key more

unfoldable pub is_visiting : StressIdentity → List StressIdentity → Bool
is_visiting key [] = false
is_visiting key (k ∷ ks) = same_identity k key || is_visiting key ks

-- The owner of a span that is not known, with the one of its parent in `above`.
unfoldable pub owner_of :
    StressIdentity
    → StressSpan
    → Owners
    → (above : Result StressError (Owners × Text)) → Result StressError (Owners × Text)
owner_of key s owners above =
    if is_datadog_server s.name
    then (let id = value_at (codes "rules_stests.request_id") s.meta in ok ((key, id) ∷ owners, id))
    else if s.parent_id == 0
    then err unexpected_root
    else above >>= λ (more, id). ok ((key, id) ∷ more, id)

-- The owner and the new `owners`.
unfoldable pub owner :
    Spans
    → (fuel : ℕ) → List StressIdentity
    → Owners
    → StressIdentity
    → Result StressError (Owners × Text)
owner spans zero visiting owners key = err out_of_fuel
owner spans (suc fuel) visiting owners key =
    let above = λ (s : StressSpan).
      owner spans fuel (key ∷ visiting) owners (record key { span = s.parent_id }) in
    if not (is_nil (owner_at key owners))
    then ok (owners, owner_at key owners)
    else guard (not (is_visiting key visiting || ltb 64 (length visiting))) cyclic_graph
      >> (or_error (find_span key spans) missing_parent >>= λ s. owner_of key s owners (above s))
