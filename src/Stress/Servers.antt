-- ===== src/Stress/Servers.antt =====
-- harness/parallel_scenarios.go: isDatadogServer and the loop of validateStress over the captured
-- spans that finds the server span of each request. `spans` is walked in the order of its list, and
-- `url_path` stands for `url.Parse` and the field Path.
use rules_stests.Base.{
  suc, Bool, false, not, ◌&&◌, ◌||◌, List, [], ◌∷◌, ◌==◌, if◌then◌else◌, Option, Text, codes,
  length, is_nil, text_eq, mem, lookup, keys, decimal, Result, ok, ◌>>=◌, ◌>>◌, guard,
}
use rules_stests.Stress.Ledger.{
  ℤ, pos, negsuc, lt_int, eq_int, RequestLedger, StressError, parent_in_capture, unexpected_server,
  duplicate_server, wrong_metadata, wrong_error, wrong_path, missing_servers,
}
use rules_stests.Stress.Contexts.{StressSpan, StressIdentity, value_at, or_error, check_parent}

abbrev pub Spans : Type 0
Spans = List (StressIdentity × StressSpan)

unfoldable pub is_datadog_server : Text → Bool
is_datadog_server name =
    text_eq name (codes "aiohttp.request")
    || text_eq name (codes "django.request")
    || text_eq name (codes "rack.request")
    || text_eq name (codes "gin.request")
    || text_eq name (codes "http.request")

unfoldable pub same_identity : StressIdentity → StressIdentity → Bool
same_identity a b = a.low == b.low && text_eq a.high b.high && a.span == b.span

-- `_, captured := spans[key]`.
unfoldable pub is_captured : StressIdentity → Spans → Bool
is_captured key [] = false
is_captured key ((k, s) ∷ more) = same_identity k key || is_captured key more

-- `strconv.Itoa`.
unfoldable pub itoa : ℤ → Text
itoa (pos n) = decimal n
itoa (negsuc n) = b'-' ∷ decimal (suc n)

-- `strings.SplitN(t, "?", 2)[0]`.
unfoldable pub before_query : Text → Text
before_query [] = []
before_query (c ∷ cs) = if c == b'?' then [] else c ∷ before_query cs

unfoldable pub check_metadata :
    (service : Text) → StressSpan → RequestLedger → Result StressError (Unit {0})
check_metadata service s r = do
  guard (text_eq s.kind (codes "web")) wrong_metadata
  guard (text_eq s.service service) wrong_metadata
  guard (text_eq (value_at (codes "http.method") s.meta) r.method) wrong_metadata
  guard (text_eq (value_at (codes "http.status_code") s.meta) (itoa r.status)) wrong_metadata

abbrev pub expected_error : ℤ → ℤ
expected_error status = if lt_int status (pos 500) then pos 0 else pos 1

unfoldable pub check_path :
    (Text → Option Text) → StressSpan → RequestLedger → Result StressError (Unit {0})
check_path url_path s r =
    let path = value_at (codes "http.url") s.meta in
    if is_nil path
    then ok tt
    else or_error (url_path path) wrong_path >>= λ parsed.
        guard (text_eq parsed (before_query r.path)) wrong_path

-- What the body of the loop tests of a server span and its request.
unfoldable pub check_span :
    (Text → Option Text)
    → (service : Text) → StressIdentity
    → StressSpan
    → RequestLedger
    → Result StressError (Unit {0})
check_span url_path service key s r = do
  check_metadata service s r
  guard (eq_int s.error (expected_error r.status)) wrong_error
  check_path url_path s r
  check_parent key s r

-- The body, behind the test for a server, with the new `servers`.
unfoldable pub add_server :
    (Text → Option Text)
    → (service : Text) → Spans
    → List (Text × RequestLedger)
    → List (Text × StressIdentity)
    → StressIdentity
    → StressSpan
    → Result StressError (List (Text × StressIdentity))
add_server url_path service spans requests servers key s =
    let id = value_at (codes "rules_stests.request_id") s.meta in
    do
      guard (not (is_captured (record key { span = s.parent_id }) spans)) parent_in_capture
      r ← or_error (lookup id requests) (unexpected_server id)
      guard (not (mem id (keys servers))) duplicate_server
      check_span url_path service key s r
      ok ((id, key) ∷ servers)

-- `todo` is the part of `spans` that the loop has before it.
unfoldable pub add_servers :
    (Text → Option Text)
    → (service : Text) → Spans
    → List (Text × RequestLedger)
    → Spans
    → List (Text × StressIdentity)
    → Result StressError (List (Text × StressIdentity))
add_servers url_path service spans requests [] servers = ok servers
add_servers url_path service spans requests ((key, s) ∷ todo) servers =
    let added =
      if is_datadog_server s.name
      then add_server url_path service spans requests servers key s
      else ok servers in
    added >>= λ more. add_servers url_path service spans requests todo more

unfoldable pub find_servers :
    (Text → Option Text)
    → (service : Text) → Spans
    → List (Text × RequestLedger)
    → Result StressError (List (Text × StressIdentity))
find_servers url_path service spans requests = do
  servers ← add_servers url_path service spans requests spans []
  guard (length servers == length requests && not (length requests == 0)) missing_servers
  ok servers
