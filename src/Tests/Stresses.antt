-- ===== src/Tests/Stresses.antt =====
-- harness/parallel_scenarios.go: the checks of a parallel run, on small runs.
use rules_stests.Base.{
  ◌+◌, ◌^◌, ◌<◌, ℕ, List, [], ◌∷◌, ◌≡◌, ◌≢◌, refl, arith, Text, codes, Option, some, err, ok, mem,
  text_eq, lookup, decimal, decimal_onto,
}
use rules_stests.Stress.Overlap.{events_of, precedes, insert_event, sort_events, sweep, overlap}
use rules_stests.Stress.Peak.{IsPeak, overlap-IsPeak}
use rules_stests.Stress.Ledger.{
  pos, RequestLedger, repeated_sequence, missing_sequence, lost_sql, no_overlap, out_of_fuel,
  index_ledger, add_requests, add_request, check_sequences, check_from, is_complete, mem_int,
  eq_int, lt_int, sequence_set, put_sequence,
}
use rules_stests.Stress.Indexed.{IsIndex, index_ledger-IsIndex}
use rules_stests.Stress.Contexts.{
  StressSpan, StressIdentity, check_parent, check_traceparent, check_numbers, compare_numbers,
  or_error, three_parts, parse_uint, parse_digits, digit_of, split_dash, take, drop, value_at,
}
use rules_stests.Stress.Servers.{
  Spans, find_servers, add_servers, add_server, check_span, check_metadata, check_path,
  is_datadog_server, is_captured, same_identity, itoa, before_query,
}
use rules_stests.Stress.Owners.{owner, owner_of, owner_at, find_span, is_visiting}
use rules_stests.Stress.Sql.{
  check_sql, count_sql, check_counts, count_at, count_up, check_marker, is_lifecycle, occurrences,
  contains, has_prefix, marker_of, marker_text, is_sql,
}
use rules_stests.Stress.Counted.{IsCounted, check_sql-IsCounted}
use rules_stests.Stress.Bounded.{check_sql-ne-out_of_fuel}
use rules_stests.Stress.Validate.{
  validate_spans, intervals_of, interval_at, interval_found, interval_of, excess,
}
use rules_stests.Stress.Valid.{IsTimed, IsRun, validate_spans-IsRun}
use rules_stests.Stress.Served.{IsServed, find_servers-IsServed}

-- Three intervals, of which two are open at a time; the third starts as the first ends.
abbrev intervals : List (ℕ × ℕ)
intervals = (10, 20) ∷ (15, 30) ∷ (20, 25) ∷ []

two_at_once : overlap intervals ≡ 2
unfolding overlap events_of precedes insert_event sort_events sweep
two_at_once = refl

overlap-IsPeak_example : IsPeak intervals (overlap intervals)
overlap-IsPeak_example = overlap-IsPeak intervals (omega arith, (omega arith, (omega arith, tt)))

-- A run of two requests, the first of them with a remote caller.
abbrev pub high : Text
high = codes "0123456789abcdef"

abbrev pub first_request : RequestLedger
first_request = record {
  execution = codes "e";
  scenario = codes "articles";
  sequence = pos 1;
  id = codes "r1";
  method = codes "GET";
  path = codes "/a?b";
  status = pos 500;
  sql_count = pos 0;
  sql_marker = codes "m";
  incoming =
      (codes "traceparent", codes "00-0123456789abcdef000000000000000F-0000000000000007-01") ∷ [];
  start = pos 1;
  end = pos 2;
}

abbrev pub second_request : RequestLedger
second_request = record first_request {
  sequence = pos 2;
  id = codes "r2";
  path = codes "/c";
  status = pos 200;
  sql_count = pos 1;
  incoming = [];
}

abbrev pub ledger : List RequestLedger
ledger = first_request ∷ second_request ∷ []

abbrev pub meta_of : Text → Text → Text → List (Text × Text)
meta_of id status url =
    (codes "rules_stests.request_id", id)
    ∷ (codes "http.method", codes "GET")
    ∷ (codes "http.status_code", status)
    ∷ (codes "http.url", url)
    ∷ []

abbrev pub first_span : StressSpan
first_span = record {
  trace_id = 15;
  span_id = 1;
  parent_id = 7;
  start = pos 1;
  duration = pos 1;
  service = codes "app";
  name = codes "gin.request";
  resource = codes "GET /a";
  kind = codes "web";
  error = pos 1;
  meta = meta_of (codes "r1") (codes "500") (codes "/a");
}

abbrev pub second_span : StressSpan
second_span = record first_span {
  trace_id = 16;
  span_id = 2;
  parent_id = 0;
  error = pos 0;
  meta = meta_of (codes "r2") (codes "200") [];
}

abbrev pub query_span : StressSpan
query_span = record second_span {
  span_id = 3;
  parent_id = 2;
  name = codes "sqlite3.query";
  kind = codes "sql";
  resource = codes "SELECT 1 /* rules_stests_request=r2; marker=m */";
}

abbrev first_key : StressIdentity
first_key = record { low = 15; high = high; span = 1 }

abbrev second_key : StressIdentity
second_key = record { low = 16; high = high; span = 2 }

abbrev spans : Spans
spans =
    (first_key, first_span)
    ∷ (second_key, second_span)
    ∷ (record second_key { span = 3 }, query_span)
    ∷ []

abbrev pub same_path : Text → Option Text
same_path t = some t

abbrev servers : List (Text × StressIdentity)
servers = (codes "r2", second_key) ∷ (codes "r1", first_key) ∷ []

abbrev indexed : List (Text × RequestLedger)
indexed = (codes "r2", second_request) ∷ (codes "r1", first_request) ∷ []

indexes_two :
    index_ledger ledger ≡ ok ((codes "r2", second_request) ∷ (codes "r1", first_request) ∷ [])
unfolding index_ledger add_requests add_request check_sequences check_from is_complete mem_int
    eq_int lt_int sequence_set put_sequence mem text_eq
indexes_two = refl

-- The second request of an execution cannot have the number of the first, or leave one out.
refuses_numbers :
    (index_ledger (first_request ∷ record second_request { sequence = pos 1 } ∷ [])
      ≡ err repeated_sequence)
    × (index_ledger (first_request ∷ record second_request { sequence = pos 3 } ∷ [])
        ≡ err missing_sequence)
unfolding index_ledger add_requests add_request check_sequences check_from is_complete mem_int
    eq_int lt_int sequence_set put_sequence mem text_eq
refuses_numbers = (refl, refl)

serves_two : find_servers same_path (codes "app") spans indexed ≡ ok servers
unfolding find_servers add_servers add_server check_span check_metadata check_path check_parent
    check_traceparent check_numbers compare_numbers or_error three_parts parse_uint parse_digits
    digit_of split_dash take drop value_at is_datadog_server is_captured same_identity itoa
    before_query index_ledger add_requests add_request check_sequences check_from is_complete
    mem_int eq_int lt_int sequence_set put_sequence mem text_eq lookup decimal decimal_onto
serves_two = refl

index_ledger-IsIndex_example :
    IsIndex ledger ((codes "r2", second_request) ∷ (codes "r1", first_request) ∷ [])
index_ledger-IsIndex_example = index_ledger-IsIndex ledger indexes_two

find_servers-IsServed_example : IsServed same_path (codes "app") spans ledger servers
find_servers-IsServed_example =
    find_servers-IsServed same_path (codes "app") spans ledger indexed indexes_two serves_two

-- The query belongs to the second request; without it that request has lost one.
counts_one :
    (check_sql spans indexed ≡ ok tt)
    × (check_sql ((first_key, first_span) ∷ (second_key, second_span) ∷ []) indexed ≡ err lost_sql)
unfolding check_sql count_sql check_counts count_at count_up owner owner_of owner_at find_span
    is_visiting check_marker is_lifecycle occurrences contains has_prefix marker_of marker_text
    is_sql or_error value_at is_datadog_server same_identity lookup text_eq eq_int
counts_one = (refl, refl)

check_sql-IsCounted_example : IsCounted spans indexed
check_sql-IsCounted_example = check_sql-IsCounted spans indexed counts_one.0

check_sql-ne-out_of_fuel_example : check_sql spans indexed ≢ err out_of_fuel
check_sql-ne-out_of_fuel_example = check_sql-ne-out_of_fuel spans indexed

-- The second request starts as the first is served.
abbrev parallel_spans : Spans
parallel_spans =
    (first_key, record first_span { duration = pos 5 })
    ∷ (second_key, record second_span { start = pos 3 })
    ∷ (record second_key { span = 3 }, query_span)
    ∷ []

-- Spans that do not overlap are refused.
validates_two :
    (validate_spans same_path (codes "app") parallel_spans ledger ≡ ok tt)
    × (validate_spans same_path
          (codes "app")
          ((first_key, first_span)
            ∷ (second_key, record second_span { start = pos 3 })
            ∷ (record second_key { span = 3 }, query_span)
            ∷ [])
          ledger
        ≡ err no_overlap)
unfolding validate_spans intervals_of interval_at interval_found interval_of excess overlap
    events_of precedes insert_event sort_events sweep find_servers add_servers add_server check_span
    check_metadata check_path check_parent check_traceparent check_numbers compare_numbers or_error
    three_parts parse_uint parse_digits digit_of split_dash take drop value_at is_datadog_server
    is_captured same_identity itoa before_query index_ledger add_requests add_request
    check_sequences check_from is_complete mem_int eq_int lt_int sequence_set put_sequence mem
    text_eq lookup decimal decimal_onto check_sql count_sql check_counts count_at count_up owner
    owner_of owner_at find_span is_visiting check_marker is_lifecycle occurrences contains
    has_prefix marker_of marker_text is_sql
validates_two = (refl, refl)

abbrev timed :
    (s : StressSpan) (a b : ℕ)
    → s.start ≡ pos a
    → s.duration ≡ pos b
    → 0 < b
    → a + b < 2 ^ 63
    → IsTimed s
timed s a b h k p l = record {
  from = a;
  lasts = b;
  start_is = h;
  duration_is = k;
  positive = p;
  bounded = l;
}

validate_spans-IsRun_example : IsRun same_path (codes "app") parallel_spans ledger
validate_spans-IsRun_example =
    validate_spans-IsRun same_path (codes "app") parallel_spans ledger
      (
        timed _ 1 5 refl refl (omega arith) (omega arith),
        (
          timed _ 3 1 refl refl (omega arith) (omega arith),
          (timed _ 1 1 refl refl (omega arith) (omega arith), tt),
        ),
      )
      validates_two.0
