-- ===== src/Stress/Indexed.antt =====
-- harness/parallel_scenarios.go: what a ledger that validateStress indexes holds.
use rules_stests.Base.{
  ◌+◌, ◌≡◌, refl, sym, ap, ◌∙◌, inl, inr, true, false, not, List, [], ◌∷◌, if◌then◌else◌, length,
  ok, Bool-cases, guard_iff, >>=-eq-ok, arith, Text, text_eq, text_eq_iff, text_eq_self, mem,
  lookup, keys, Distinct, All, some, lookup-cons_new,
}
use rules_stests.Stress.Ledger.{
  ℤ, pos, negsuc, mem_int, check_from, RequestLedger, incomplete_ledger, duplicate_identity,
  repeated_sequence, Sequences, sequence_set, put_sequence, is_complete, add_request, add_requests,
  check_sequences, index_ledger,
}
use rules_stests.Stress.Numbered.{is_numbered, covers_lem, check_from-Covers}

abbrev Requests : Type 0
Requests = List (Text × RequestLedger)

-- The sequence numbers of an execution, the last first.
abbrev gather : Text → List RequestLedger → List ℤ → List ℤ
gather e [] found = found
gather e (r ∷ rs) found = gather e rs (if text_eq r.execution e then r.sequence ∷ found else found)

abbrev pub sequences_of : Text → List RequestLedger → List ℤ
sequences_of e ledger = gather e ledger []

-- No number occurs twice.
abbrev pub Once : List ℤ → Type 0
Once [] = Unit
Once (x ∷ xs) = (mem_int x xs ≡ false) × Once xs

sequence_set-put_sequence :
    (j e : Text) (s : ℤ) (m : Sequences)
    → sequence_set j (put_sequence e s m)
      ≡ (if text_eq e j then s ∷ sequence_set j m else sequence_set j m)
unfolding sequence_set put_sequence
sequence_set-put_sequence j e s [] = ground arith
sequence_set-put_sequence j e s ((x, seen) ∷ m) =
    ground
      (arith, sequence_set-put_sequence j e s m, text_eq_iff x j, text_eq_iff x e, text_eq_iff e j)

-- What one request that passes leaves.
record Added (r : RequestLedger) (requests more : Requests) (sequences seen : Sequences)
    : Type 0 where
  complete : is_complete r ≡ true
  new : mem r.id (keys requests) ≡ false
  fresh : mem_int r.sequence (sequence_set r.execution sequences) ≡ false
  stored : more ≡ (r.id, r) ∷ requests
  counted : seen ≡ put_sequence r.execution r.sequence sequences

add_request-Added :
    (r : RequestLedger) (requests : Requests) (sequences : Sequences) {more : Requests}
    {seen : Sequences}
    → add_request r requests sequences ≡ ok (more, seen)
    → Added r requests more sequences seen
unfolding add_request
add_request-Added r requests sequences h =
    let (complete, h1) = (guard_iff (is_complete r) incomplete_ledger _).0 h in
    let (new, h2) = (guard_iff (not (mem r.id (keys requests))) duplicate_identity _).0 h1 in
    let (fresh, h3) =
      (guard_iff (not (mem_int r.sequence (sequence_set r.execution sequences))) repeated_sequence
          _).0
        h2 in
    record {
      complete = complete;
      new = ground arith;
      fresh = ground arith;
      stored = cc h3;
      counted = cc h3;
    }

-- What the loop over the ledger leaves, from any maps.
record Gathered (rs : List RequestLedger) (requests more : Requests) (sequences seen : Sequences)
    : Type 0 where
  complete : All (λ r. is_complete r ≡ true) rs
  kept : (k : Text) (r : RequestLedger) → lookup k requests ≡ some r → lookup k more ≡ some r
  found : All (λ r. lookup r.id more ≡ some r) rs
  size : length more ≡ length rs + length requests
  distinct : Distinct (keys requests) → Distinct (keys more)
  once : ((e : Text) → Once (sequence_set e sequences)) → (e : Text) → Once (sequence_set e seen)
  gathered : (e : Text) → sequence_set e seen ≡ gather e rs (sequence_set e sequences)

put_sequence-Once :
    (j e : Text) (s : ℤ) (m : Sequences)
    → mem_int s (sequence_set e m) ≡ false
    → Once (sequence_set j m)
    → Once (sequence_set j (put_sequence e s m))
put_sequence-Once j e s m fresh o =
    rw (sequence_set-put_sequence j e s m) (elim (Bool-cases (text_eq e j)) [
      | inl same ↦
          let fresh' : mem_int s (sequence_set j m) ≡ false =
            rw (sym ((text_eq_iff e j).0 same)) fresh in
          rw same (fresh', o)
      | inr other ↦ rw other o
    ])

add_requests-Gathered :
    (rs : List RequestLedger) (requests : Requests) (sequences : Sequences) {more : Requests}
    {seen : Sequences}
    → add_requests rs requests sequences ≡ ok (more, seen)
    → Gathered rs requests more sequences seen
unfolding add_requests
add_requests-Gathered [] requests sequences {more = more} {seen = seen} h =
    let same : requests ≡ more = cc h in
    let same' : sequences ≡ seen = cc h in
    rw (sym same, sym same')
      (record {
        complete = tt;
        kept = λ k r l. l;
        found = tt;
        size = omega arith;
        distinct = λ d. d;
        once = λ o. o;
        gathered = λ e. refl;
      })
add_requests-Gathered (r ∷ rs) requests sequences {more = more} {seen = seen} h =
    let ((first, then'), e, h') = >>=-eq-ok (add_request r requests sequences) _ h in
    let a = add_request-Added r requests sequences e in
    let g = add_requests-Gathered rs first then' h' in
    let stored : lookup r.id first ≡ some r =
      rw a.stored (unfold lookup in rw (text_eq_self r.id)) in
    record {
      complete = (a.complete, g.complete);
      kept = λ k s l. g.kept k s (rw a.stored (lookup-cons_new k r.id r s requests a.new l));
      found = (g.kept r.id r stored, g.found);
      size = omega (arith, g.size, ap length a.stored);
      distinct = λ d. g.distinct (rw a.stored (a.new, d));
      once = λ o.
          g.once (λ j.
            rw a.counted (put_sequence-Once j r.execution r.sequence sequences a.fresh (o j)));
      gathered = λ j.
          g.gathered j
          ∙ ap (gather j rs)
              (rw a.counted (sequence_set-put_sequence j r.execution r.sequence sequences));
    }

-- Behind the second loop each execution is numbered.
check_sequences-numbered :
    (e : Text) (m : Sequences)
    → check_sequences m ≡ ok tt
    → (k : ℤ) → mem_int k (sequence_set e m) ≡ is_numbered (length (sequence_set e m)) k
unfolding check_sequences sequence_set mem_int
check_sequences-numbered e [] h (pos n) = ground arith
check_sequences-numbered e [] h (negsuc n) = refl
check_sequences-numbered e ((x, seen) ∷ m) h k =
    let (done, h1, h2) = >>=-eq-ok (check_from (length seen) 1 seen) _ h in
    elim (Bool-cases (text_eq x e)) [
      | inl same ↦ rw same (
          covers_lem seen
            (λ i l u. check_from-Covers (length seen) 1 seen h1 i l (omega (arith, l, u))) k)
      | inr other ↦ rw other (check_sequences-numbered e m h2 k)
    ]

-- What an index of a ledger is.
pub record IsIndex (ledger : List RequestLedger) (requests : Requests) : Type 0 where
  pub complete : All (λ r. is_complete r ≡ true) ledger
  pub found : All (λ r. lookup r.id requests ≡ some r) ledger
  pub size : length requests ≡ length ledger
  pub distinct : Distinct (keys requests)
  pub once : (e : Text) → Once (sequences_of e ledger)
  pub numbered :
      (e : Text) (k : ℤ)
      → mem_int k (sequences_of e ledger) ≡ is_numbered (length (sequences_of e ledger)) k

-- When validateStress accepts a ledger, every request of it is complete, its identities are
-- distinct and each finds its own request in an index that holds no other, and in each execution
-- the sequence numbers of the requests are the numbers from 1 to their count, each of them once.
pub index_ledger-IsIndex :
    (ledger : List RequestLedger) {requests : Requests}
    → index_ledger ledger ≡ ok requests
    → IsIndex ledger requests
unfolding index_ledger
index_ledger-IsIndex ledger {requests = requests} h =
    let ((indexed, sequences), e, h') = >>=-eq-ok (add_requests ledger [] []) _ h in
    let (done, h1, h2) = >>=-eq-ok (check_sequences sequences) _ h' in
    let g = add_requests-Gathered ledger [] [] e in
    let same : indexed ≡ requests = cc h2 in
    let none_before : (j : Text) → sequence_set j [] ≡ [] = λ j. unfold sequence_set in refl in
    let all : (j : Text) → sequence_set j sequences ≡ sequences_of j ledger =
      λ j. g.gathered j ∙ ap (gather j ledger) (none_before j) in
    rw (sym same) (record {
      complete = g.complete;
      found = g.found;
      size = omega (arith, g.size);
      distinct = g.distinct tt;
      once = λ j. rw (sym (all j)) (g.once (λ i. rw (none_before i) tt) j);
      numbered = λ j k. rw (sym (all j)) (check_sequences-numbered j sequences h1 k);
    })
