-- ===== src/Stress/Valid.antt =====
-- harness/parallel_scenarios.go: what a run that validateStress accepts has done.
use rules_stests.Base.{
  ap, ℕ, ◌+◌, ◌^◌, ◌≤◌, ◌<◌, ◌≡◌, sym, ◌∙◌, inl, inr, true, List, [], ◌∷◌, Option, some, Text,
  text_eq_self, All, ok, >>=-eq-ok, Bool-cases, arith,
}
use rules_stests.Stress.Ledger.{pos, RequestLedger, index_ledger}
use rules_stests.Stress.Contexts.{StressSpan, StressIdentity}
use rules_stests.Stress.Servers.{Spans, same_identity, find_servers}
use rules_stests.Stress.Owners.{find_span}
use rules_stests.Stress.Sql.{check_sql}
use rules_stests.Stress.Overlap.{overlap}
use rules_stests.Stress.Sorted.{count_open, IsProper}
use rules_stests.Stress.Peak.{overlap-IsPeak}
use rules_stests.Stress.Walked.{In, IsServer}
use rules_stests.Stress.Served.{IsServed, find_servers-All, find_servers-IsServed}
use rules_stests.Stress.Counted.{IsCounted, check_sql-IsCounted}
use rules_stests.Stress.Validate.{
  excess, interval_of, interval_at, interval_found, intervals_of, validate_spans,
}

-- A span that lasts, from an instant that is not negative to one that fits in 63 bits, as
-- stressIndex checks but for the end.
pub record IsTimed (s : StressSpan) : Type 0 where
  pub from : ℕ
  pub lasts : ℕ
  pub start_is : s.start ≡ pos from
  pub duration_is : s.duration ≡ pos lasts
  pub positive : 0 < lasts
  pub bounded : from + lasts < 2 ^ 63

interval_of_lem : (s : StressSpan) → IsTimed s → (interval_of s).0 < (interval_of s).1
unfolding interval_of excess
interval_of_lem s t = rw (t.start_is, t.duration_is) (omega (arith, t.positive, t.bounded))

same_identity_self : (key : StressIdentity) → same_identity key key ≡ true
unfolding same_identity
same_identity_self key = rw (text_eq_self key.high) (ground arith)

find_span-IsTimed :
    (spans : Spans) (key : StressIdentity) (x : StressSpan)
    → All (λ e. IsTimed e.1) spans
    → In key x spans
    → (s : StressSpan) × (find_span key spans ≡ some s) × IsTimed s
unfolding find_span
find_span-IsTimed [] key x t i = elim i [ ]
find_span-IsTimed ((k, s) ∷ spans) key x (t, ts) i = elim (Bool-cases (same_identity k key)) [
  | inl here ↦ (s, rw here, t)
  | inr other ↦ elim i [
    | inl (same, e) ↦
        let here : same_identity k key ≡ true = rw same (same_identity_self key) in
        cc (sym here ∙ other)
    | inr later ↦
        let (y, found, ty) = find_span-IsTimed spans key x ts later in (y, rw other found, ty)
  ]
]

interval_at-some :
    (spans : Spans) (key : StressIdentity) {s : StressSpan}
    → find_span key spans ≡ some s
    → interval_at spans key ≡ interval_of s
unfolding interval_at interval_found
interval_at-some spans key found = ap interval_found found

intervals-IsProper :
    (url_path : Text → Option Text) (service : Text) (spans : Spans)
    (requests : List (Text × RequestLedger)) (servers : List (Text × StressIdentity))
    → All (λ e. IsTimed e.1) spans
    → All (λ e. IsServer url_path service spans requests e.0 e.1) servers
    → IsProper (intervals_of spans servers)
unfolding intervals_of
intervals-IsProper url_path service spans requests [] t a = tt
intervals-IsProper url_path service spans requests ((id, key) ∷ servers) t (a, more) =
    let (s, found, timed) = find_span-IsTimed spans key a.span t a.inside in
    (
      rw (interval_at-some spans key found) (interval_of_lem s timed),
      intervals-IsProper url_path service spans requests servers t more,
    )

-- What an accepted run has done.
pub record IsRun (url_path : Text → Option Text) (service : Text) (spans : Spans)
    (ledger : List RequestLedger) : Type 0 where
  pub requests : List (Text × RequestLedger)
  pub servers : List (Text × StressIdentity)
  pub indexed : index_ledger ledger ≡ ok requests
  pub served : IsServed url_path service spans ledger servers
  pub counted : IsCounted spans requests
  pub instant : ℕ
  pub parallel : 2 ≤ count_open instant (intervals_of spans servers)

-- When validateStress accepts the indexed spans of a run, all of which last and end before 2^63,
-- the server spans are the requests of the ledger as the server loop says, the SQL spans are theirs
-- as the SQL loop says, and at one instant two of the server spans were open.
pub validate_spans-IsRun :
    (url_path : Text → Option Text) (service : Text) (spans : Spans) (ledger : List RequestLedger)
    → All (λ e. IsTimed e.1) spans
    → validate_spans url_path service spans ledger ≡ ok tt
    → IsRun url_path service spans ledger
unfolding validate_spans
validate_spans-IsRun url_path service spans ledger t h =
    let (requests, i, h1) = >>=-eq-ok (index_ledger ledger) _ h in
    let (servers, f, h2) = >>=-eq-ok (find_servers url_path service spans requests) _ h1 in
    let (d, c, h3) = >>=-eq-ok (check_sql spans requests) _ h2 in
    let intervals = intervals_of spans servers in
    let proper =
      intervals-IsProper url_path service spans requests servers t
        (find_servers-All url_path service spans requests f) in
    let peak = overlap-IsPeak intervals proper in
    let two : 2 ≤ overlap intervals = ground arith in
    record {
      requests = requests;
      servers = servers;
      indexed = i;
      served = find_servers-IsServed url_path service spans ledger requests i f;
      counted = check_sql-IsCounted spans requests c;
      instant = peak.reached.0;
      parallel = omega (arith, two, peak.reached.1);
    }
