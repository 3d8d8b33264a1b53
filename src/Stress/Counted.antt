-- ===== src/Stress/Counted.antt =====
-- harness/parallel_scenarios.go: the SQL spans that validateStress accepts, and their requests.
use rules_stests.Base.{
  ℕ, ◌+◌, ◌≡◌, refl, ap, ◌∙◌, inl, inr, true, ◌&&◌, List, [], ◌∷◌, ◌++◌, if◌then◌else◌, Text,
  text_eq, text_eq_iff, codes, All, ok, guard_iff, >>=-eq-ok, Bool-cases, arith,
}
use rules_stests.Receipt.Coverage.Claims.{All-imp}
use rules_stests.Stress.Ledger.{pos, eq_int, RequestLedger, lost_sql}
use rules_stests.Stress.Numbered.{eq_int_iff}
use rules_stests.Stress.Contexts.{StressSpan, StressIdentity, value_at}
use rules_stests.Stress.Servers.{Spans}
use rules_stests.Stress.Owners.{Owners, owner}
use rules_stests.Stress.Owned.{Owns, Remembers, owner-Owns}
use rules_stests.Stress.Sql.{
  has_prefix, contains, occurrences, marker_of, marker_text, is_lifecycle, check_marker, count_up,
  count_at, is_sql, count_sql, check_counts, check_sql,
}

has_prefix-append :
    (part t : Text) → has_prefix part t ≡ true → (after : Text) × (t ≡ part ++ after)
unfolding has_prefix
has_prefix-append [] t h = (t, refl)
has_prefix-append (c ∷ cs) [] h = cc
has_prefix-append (c ∷ cs) (d ∷ ds) h =
    let same : c ≡ d = ground arith in
    let (after, e) = has_prefix-append cs ds (ground arith) in (after, rw same (ap (λ t. d ∷ t) e))

contains-append :
    (part t : Text)
    → contains part t ≡ true
    → (before : Text) × (after : Text) × (t ≡ before ++ (part ++ after))
unfolding contains
contains-append part [] h = let (after, e) = has_prefix-append part [] h in ([], after, e)
contains-append part (c ∷ cs) h = elim (Bool-cases (has_prefix part (c ∷ cs))) [
  | inl here ↦ let (after, e) = has_prefix-append part (c ∷ cs) here in ([], after, e)
  | inr other ↦
      let (before, after, e) = contains-append part cs (ground arith) in
      (c ∷ before, after, ap (λ t. c ∷ t) e)
]

-- What marks an SQL span as one of the request `id`.
pub data IsMarked (id marker : Text) (s : StressSpan) : Type 0 where
  lifecycle :
      is_lifecycle s ≡ true
      → value_at (codes "rules_stests.request_id") s.meta ≡ id
      → value_at (codes "rules_stests.sql_marker") s.meta ≡ marker
      → IsMarked id marker s
  query :
      (before after : Text)
      → s.resource ≡ before ++ (marker_text id marker ++ after)
      → occurrences (codes "rules_stests_request=") 0 s.resource ≡ 1
      → IsMarked id marker s

check_marker-IsMarked :
    (id marker : Text) (s : StressSpan) → check_marker id marker s ≡ ok tt → IsMarked id marker s
unfolding check_marker
check_marker-IsMarked id marker s h = elim (Bool-cases (is_lifecycle s)) [
  | inl session ↦
      let own : text_eq (value_at (codes "rules_stests.request_id") s.meta) id ≡ true =
        ground arith in
      let marked : text_eq (value_at (codes "rules_stests.sql_marker") s.meta) marker ≡ true =
        ground arith in
      lifecycle session ((text_eq_iff _ _).0 own) ((text_eq_iff _ _).0 marked)
  | inr other ↦
      let held : contains (marker_text id marker) s.resource ≡ true = ground arith in
      let (before, after, e) = contains-append (marker_text id marker) s.resource held in
      query before after e (ground arith)
]

-- An owner for each span of a list, the SQL spans marked as the owner's.
pub data Attributed (spans : Spans) (requests : List (Text × RequestLedger))
    : Spans → List Text → Type 0 where
  done : Attributed spans requests [] []
  next :
      (key : StressIdentity) (s : StressSpan) (id : Text) (todo : Spans) (ids : List Text)
      → Owns spans key id
      → (is_sql s ≡ true → IsMarked id (marker_of id requests) s)
      → Attributed spans requests todo ids
      → Attributed spans requests ((key, s) ∷ todo) (id ∷ ids)

-- The SQL spans that have the owner `id`.
abbrev pub sql_of : Text → Spans → List Text → ℕ
sql_of id [] ids = 0
sql_of id (e ∷ todo) [] = 0
sql_of id (e ∷ todo) (i ∷ ids) = (if is_sql e.1 && text_eq i id then 1 else 0) + sql_of id todo ids

count_at-count_up :
    (j id : Text) (counts : List (Text × ℕ))
    → count_at j (count_up id counts) ≡ (if text_eq id j then 1 else 0) + count_at j counts
unfolding count_at count_up
count_at-count_up j id [] = ground arith
count_at-count_up j id ((k, n) ∷ more) =
    ground (arith, count_at-count_up j id more, text_eq_iff k j, text_eq_iff k id, text_eq_iff id j)

count_step :
    (j id : Text) (s : StressSpan) (counts : List (Text × ℕ)) (others : ℕ) {total : ℕ}
    → total ≡ others + count_at j (if is_sql s then count_up id counts else counts)
    → total ≡ (if is_sql s && text_eq id j then 1 else 0) + others + count_at j counts
count_step j id s counts others h = ground (arith, count_at-count_up j id counts)

-- What the loop over the spans leaves, from any counts.
count_sql-Attributed :
    (spans : Spans) (requests : List (Text × RequestLedger)) (todo : Spans) (owners : Owners)
    (counts : List (Text × ℕ)) {final : List (Text × ℕ)}
    → Remembers spans owners
    → count_sql spans requests todo owners counts ≡ ok final
    → (ids : List Text) × Attributed spans requests todo ids
      × ((id : Text) → count_at id final ≡ sql_of id todo ids + count_at id counts)
unfolding count_sql
count_sql-Attributed spans requests [] owners counts {final = final} r h =
    let same : counts ≡ final = cc h in ([], done, λ id. rw same (omega arith))
count_sql-Attributed spans requests ((key, s) ∷ todo) owners counts {final = final} r h =
    let ((more, id), e, h1) = >>=-eq-ok (owner spans 66 [] owners key) _ h in
    let (u, m, h2) =
      >>=-eq-ok (if is_sql s then check_marker id (marker_of id requests) s else ok tt) _ h1 in
    let (r', o) = owner-Owns spans 66 [] owners key r e in
    let (ids, rest, counted) =
      count_sql-Attributed spans requests todo more
        (if is_sql s then count_up id counts else counts) r' h2 in
    let marked : is_sql s ≡ true → IsMarked id (marker_of id requests) s =
      λ sql. check_marker-IsMarked id (marker_of id requests) s (ground arith) in
    (
      id ∷ ids,
      next key s id todo ids o marked rest,
      λ j. count_step j id s counts (sql_of j todo ids) (counted j),
    )

-- Each request has its number of SQL spans.
check_counts-All :
    (counts : List (Text × ℕ)) (requests : List (Text × RequestLedger))
    → check_counts counts requests ≡ ok tt
    → All (λ e. pos (count_at e.0 counts) ≡ e.1.sql_count) requests
unfolding check_counts
check_counts-All counts [] h = tt
check_counts-All counts ((id, r) ∷ requests) h =
    let (here, rest) = (guard_iff (eq_int (pos (count_at id counts)) r.sql_count) lost_sql _).0 h in
    ((eq_int_iff _ _).0 here, check_counts-All counts requests rest)

-- The spans with their owners, and the number of SQL spans of each request.
pub record IsCounted (spans : Spans) (requests : List (Text × RequestLedger)) : Type 0 where
  pub owners : List Text
  pub attributed : Attributed spans requests spans owners
  pub counted : All (λ e. pos (sql_of e.0 spans owners) ≡ e.1.sql_count) requests

-- When the SQL loop of validateStress passes, the parents of every captured span lead to a server
-- span, whose request is its owner; each SQL span is marked as its owner's, and each request owns
-- as many SQL spans as its sqlCount.
pub check_sql-IsCounted :
    (spans : Spans) (requests : List (Text × RequestLedger))
    → check_sql spans requests ≡ ok tt
    → IsCounted spans requests
unfolding check_sql count_at
check_sql-IsCounted spans requests h =
    let (counts, e, h1) = >>=-eq-ok (count_sql spans requests spans [] []) _ h in
    let (ids, attributed, counted) = count_sql-Attributed spans requests spans [] [] tt e in
    record {
      owners = ids;
      attributed = attributed;
      counted =
          All-imp requests (λ r c. ap pos (omega (arith, counted r.0)) ∙ c)
            (check_counts-All counts requests h1);
    }
