-- ===== src/Stress/Ledger.antt =====
-- harness/parallel_scenarios.go: the request ledger and the first loops of validateStress, which
-- index it. `sequences`, a map of maps to bool, is an association list of lists.
use rules_stests.Base.{
  ℕ, zero, suc, Bool, true, false, not, ◌||◌, List, [], ◌∷◌, ◌==◌, ltb, if◌then◌else◌, Text, length,
  is_nil, text_eq, mem, keys, Result, ok, ◌>>=◌, ◌>>◌, guard,
}

-- A Go integer: `pos n` is n, `negsuc n` is -(n + 1).
pub data ℤ : Type 0 where
  pos : ℕ → ℤ
  negsuc : ℕ → ℤ

unfoldable pub lt_int : ℤ → ℤ → Bool
lt_int (pos a) (pos b) = ltb a b
lt_int (pos a) (negsuc b) = false
lt_int (negsuc a) (pos b) = true
lt_int (negsuc a) (negsuc b) = ltb b a

unfoldable pub eq_int : ℤ → ℤ → Bool
eq_int (pos a) (pos b) = a == b
eq_int (pos a) (negsuc b) = false
eq_int (negsuc a) (pos b) = false
eq_int (negsuc a) (negsuc b) = a == b

unfoldable pub mem_int : ℤ → List ℤ → Bool
mem_int k [] = false
mem_int k (x ∷ xs) = eq_int x k || mem_int k xs

pub record RequestLedger : Type 0 where
  pub execution : Text
  pub scenario : Text
  pub sequence : ℤ
  pub id : Text
  pub method : Text
  pub path : Text
  pub status : ℤ
  pub sql_count : ℤ
  pub sql_marker : Text
  pub incoming : List (Text × Text)
  pub start : ℤ
  pub end : ℤ

pub data StressError : Type 0 where
  incomplete_ledger : StressError
  duplicate_identity : StressError
  repeated_sequence : StressError
  missing_sequence : StressError
  parent_in_capture : StressError
  unexpected_server : Text → StressError
  duplicate_server : StressError
  wrong_metadata : StressError
  wrong_error : StressError
  wrong_path : StressError
  malformed_context : StressError
  malformed_datadog : StressError
  wrong_parent : StressError
  wrong_caller : StressError
  stray_parent : StressError
  missing_servers : StressError
  cyclic_graph : StressError
  missing_parent : StressError
  unexpected_root : StressError
  crossed_lifecycle : StressError
  crossed_marker : StressError
  lost_sql : StressError
  no_overlap : StressError
  out_of_fuel : StressError
  bad_capture : StressError
  invalid_span : StressError
  conflicting_chunk : StressError
  malformed_tid : StressError
  ambiguous_chunk : StressError
  duplicate_span : StressError

abbrev pub Sequences : Type 0
Sequences = List (Text × List ℤ)

-- `sequences[execution]`, empty where there is none.
unfoldable pub sequence_set : Text → Sequences → List ℤ
sequence_set e [] = []
sequence_set e ((x, seen) ∷ m) = if text_eq x e then seen else sequence_set e m

-- `sequences[execution][sequence] = true`, of a sequence that is not there.
unfoldable pub put_sequence : Text → ℤ → Sequences → Sequences
put_sequence e s [] = (e, s ∷ []) ∷ []
put_sequence e s ((x, seen) ∷ m) =
    if text_eq x e then (x, s ∷ seen) ∷ m else (x, seen) ∷ put_sequence e s m

unfoldable pub is_complete : RequestLedger → Bool
is_complete r = not (
    lt_int r.sql_count (pos 0)
    || is_nil r.id
    || is_nil r.sql_marker
    || lt_int r.status (pos 100)
    || not (lt_int r.start r.end))

-- One step of the loop over the ledger.
unfoldable pub add_request :
    RequestLedger
    → List (Text × RequestLedger)
    → Sequences
    → Result StressError (List (Text × RequestLedger) × Sequences)
add_request r requests sequences = do
  guard (is_complete r) incomplete_ledger
  guard (not (mem r.id (keys requests))) duplicate_identity
  guard (not (mem_int r.sequence (sequence_set r.execution sequences))) repeated_sequence
  ok ((r.id, r) ∷ requests, put_sequence r.execution r.sequence sequences)

unfoldable pub add_requests :
    List RequestLedger
    → List (Text × RequestLedger)
    → Sequences
    → Result StressError (List (Text × RequestLedger) × Sequences)
add_requests [] requests sequences = ok (requests, sequences)
add_requests (r ∷ rs) requests sequences =
    add_request r requests sequences >>= λ (more, seen). add_requests rs more seen

-- `left` rounds of the loop over `i`.
unfoldable pub check_from : ℕ → ℕ → List ℤ → Result StressError (Unit {0})
check_from zero i seen = ok tt
check_from (suc left) i seen =
    guard (mem_int (pos i) seen) missing_sequence >> check_from left (suc i) seen

unfoldable pub check_sequences : Sequences → Result StressError (Unit {0})
check_sequences [] = ok tt
check_sequences ((e, seen) ∷ m) = check_from (length seen) 1 seen >> check_sequences m

-- `requests`, of a ledger that passes.
unfoldable pub index_ledger : List RequestLedger → Result StressError (List (Text × RequestLedger))
index_ledger ledger =
    add_requests ledger [] [] >>= λ (requests, sequences). check_sequences sequences >> ok requests
