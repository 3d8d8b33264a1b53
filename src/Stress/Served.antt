-- ===== src/Stress/Served.antt =====
-- harness/parallel_scenarios.go: the server spans that validateStress accepts are the requests of
-- the ledger, one for one.
use rules_stests.Base.{
  ◌≡◌, sym, ◌∙◌, inl, inr, true, false, not, ◌&&◌, List, [], ◌∷◌, ◌==◌, Option, some, Text, length,
  text_eq_iff, lookup, keys, lookup-present, length-keys, text_eq, mem-keys_of_lookup,
  Subset-of_length, Distinct, Subset, All, ok, guard_iff, ok-injective, >>=-eq-ok, Bool-cases,
  arith,
}
use rules_stests.Receipt.Coverage.Claims.{All-imp}
use rules_stests.Stress.Ledger.{RequestLedger, missing_servers, index_ledger}
use rules_stests.Stress.Indexed.{index_ledger-IsIndex}
use rules_stests.Stress.Contexts.{StressSpan, StressIdentity}
use rules_stests.Stress.Servers.{Spans, is_datadog_server, is_captured, add_servers, find_servers}
use rules_stests.Stress.Matched.{Matches}
use rules_stests.Stress.Walked.{Servers, id_of, In, IsServer, add_servers-Walked}

-- A request of the ledger, and the one server span that `servers` has for it.
pub record Answer (url_path : Text → Option Text) (service : Text) (spans : Spans)
    (servers : Servers) (r : RequestLedger) : Type 0 where
  pub key : StressIdentity
  pub span : StressSpan
  pub stored : lookup r.id servers ≡ some key
  pub inside : In key span spans
  pub server : is_datadog_server span.name ≡ true
  pub matches : Matches url_path service key span r

pub record IsServed (url_path : Text → Option Text) (service : Text) (spans : Spans)
    (ledger : List RequestLedger) (servers : Servers) : Type 0 where
  pub answered : All (Answer url_path service spans servers) ledger
  pub counted :
      All (λ e. is_datadog_server e.1.name ≡ true → lookup (id_of e.1) servers ≡ some e.0) spans
  pub apart :
      All
        (λ e.
          is_datadog_server e.1.name ≡ true
          → is_captured (record e.0 { span = e.1.parent_id }) spans ≡ false)
        spans
  pub distinct : Distinct (keys servers)
  pub size : length servers ≡ length ledger

module _ (url_path : Text → Option Text) (service : Text) (spans : Spans)
    (requests : List (Text × RequestLedger)) where
  entry-at :
      (id : Text) (servers : Servers) {key : StressIdentity}
      → All (λ e. IsServer url_path service spans requests e.0 e.1) servers
      → lookup id servers ≡ some key
      → IsServer url_path service spans requests id key
  unfolding lookup
  entry-at id [] a h = cc
  entry-at id ((j, k) ∷ servers) {key = key} (a, rest) h = elim (Bool-cases (text_eq j id)) [
    | inl same ↦
        let here : k ≡ key = ground arith in rw (sym ((text_eq_iff j id).0 same), sym here) a
    | inr other ↦ entry-at id servers rest (ground arith)
  ]

  servers-Subset :
      (servers : Servers)
      → All (λ e. IsServer url_path service spans requests e.0 e.1) servers
      → Subset (keys servers) (keys requests)
  servers-Subset servers a k h =
      let (key, e) = lookup-present k servers h in
      mem-keys_of_lookup k requests (entry-at k servers a e).known

  answer_lem :
      (servers : Servers) (r : RequestLedger)
      → All (λ e. IsServer url_path service spans requests e.0 e.1) servers
      → Subset (keys requests) (keys servers)
      → lookup r.id requests ≡ some r
      → Answer url_path service spans servers r
  answer_lem servers r a all known =
      let (key, e) =
        lookup-present r.id servers (all r.id (mem-keys_of_lookup r.id requests known)) in
      let x = entry-at r.id servers a e in
      let same : x.request ≡ r = cc (sym known ∙ x.known) in
      record {
        key = key;
        span = x.span;
        stored = e;
        inside = x.inside;
        server = x.server;
        matches = rw (sym same) x.matches;
      }

-- The entries of the map, of a server loop that passes.
pub find_servers-All :
    (url_path : Text → Option Text) (service : Text) (spans : Spans)
    (requests : List (Text × RequestLedger)) {servers : Servers}
    → find_servers url_path service spans requests ≡ ok servers
    → All (λ e. IsServer url_path service spans requests e.0 e.1) servers
unfolding find_servers
find_servers-All url_path service spans requests h =
    let (found, s, h1) = >>=-eq-ok (add_servers url_path service spans requests spans []) _ h in
    let (sized, h2) =
      (guard_iff (length found == length requests && not (length requests == 0)) missing_servers
          _).0
        h1 in
    rw (sym (ok-injective h2))
      ((add_servers-Walked url_path service spans requests spans [] (λ k x m. m) s).entries tt)

-- When validateStress gets past its servers, each request of the ledger has a captured server span
-- of its own: one with its method, status, error and path, which carries the trace and the parent
-- that its request brought and is a root where it brought none. Each captured server span is the
-- one of its request, none has its parent in the capture, and there are as many as requests.
pub find_servers-IsServed :
    (url_path : Text → Option Text) (service : Text) (spans : Spans) (ledger : List RequestLedger)
    (requests : List (Text × RequestLedger)) {servers : Servers}
    → index_ledger ledger ≡ ok requests
    → find_servers url_path service spans requests ≡ ok servers
    → IsServed url_path service spans ledger servers
unfolding find_servers
find_servers-IsServed url_path service spans ledger requests {servers = servers} i h =
    let (found, s, h2) = >>=-eq-ok (add_servers url_path service spans requests spans []) _ h in
    let (sized, h3) =
      (guard_iff (length found == length requests && not (length requests == 0)) missing_servers
          _).0
        h2 in
    let same : found ≡ servers = cc h3 in
    let index = index_ledger-IsIndex ledger i in
    let w = add_servers-Walked url_path service spans requests spans [] (λ k x m. m) s in
    let entries = w.entries tt in
    let distinct = w.distinct tt in
    let even : length found ≡ length requests = ground arith in
    let all : Subset (keys requests) (keys found) =
      Subset-of_length (keys found) (keys requests) distinct
        (servers-Subset url_path service spans requests found entries)
        (omega (arith, even, length-keys found, length-keys requests)) in
    rw (sym same) (record {
      answered =
          All-imp ledger
            (λ r known. answer_lem url_path service spans requests found r entries all known)
            index.found;
      counted = w.found;
      apart = w.apart;
      distinct = distinct;
      size = even ∙ index.size;
    })
