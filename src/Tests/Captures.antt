-- ===== src/Tests/Captures.antt =====
-- harness/parallel_scenarios.go: stressIndex and validateStress on small captures.
use rules_stests.Base.{
  ℕ, List, [], ◌∷◌, ◌≡◌, ◌↔◌, refl, arith, Text, codes, Option, some, err, ok, true, false, mem,
  add, text_eq, lookup, decimal, decimal_onto, sym, ◌∙◌, ◌+◌, ◌<◌, ◌^◌,
}
use rules_stests.Stress.Overlap.{events_of, precedes, insert_event, sort_events, sweep, overlap}
use rules_stests.Stress.Ledger.{
  pos, ambiguous_chunk, index_ledger, add_requests, add_request, check_sequences, check_from,
  is_complete, mem_int, eq_int, lt_int, sequence_set, put_sequence,
}
use rules_stests.Stress.Contexts.{
  StressSpan, check_parent, check_traceparent, check_numbers, compare_numbers, or_error,
  three_parts, parse_uint, parse_digits, digit_of, split_dash, take, drop, value_at,
}
use rules_stests.Stress.Servers.{
  Spans, find_servers, add_servers, add_server, check_span, check_metadata, check_path,
  is_datadog_server, is_captured, same_identity, itoa, before_query,
}
use rules_stests.Stress.Owners.{owner, owner_of, owner_at, find_span, is_visiting}
use rules_stests.Stress.Sql.{
  check_sql, count_sql, check_counts, count_at, count_up, check_marker, is_lifecycle, occurrences,
  contains, has_prefix, marker_of, marker_text, is_sql,
}
use rules_stests.Stress.Union.{find_from, find, join}
use rules_stests.Stress.Index.{
  Chunk, is_ascii_hex, to_lower, tag_of, tag_with, tag_span, tag_spans, read_chunk, read_chunks,
  read_records, placed, chunk_at, join_found, join_span, join_spans, join_known, join_parent,
  join_parents, highs_at, add_high, collect_highs, inherit, resolve_high, store_spans,
  resolve_chunks, index_chunks, stress_index,
}
use rules_stests.Stress.Traces.{Joined}
use rules_stests.Stress.Components.{components_of}
use rules_stests.Stress.Tagged.{concat}
use rules_stests.Stress.Indexes.{IsIndexed, stress_index-IsIndexed}
use rules_stests.Stress.Validate.{
  validate_spans, validate_stress, intervals_of, interval_at, interval_found, interval_of, excess,
}
use rules_stests.Stress.Whole.{Fits, IsValidated, find-Joined_iff, validate_stress-IsValidated}
use rules_stests.Tests.Stresses.{high, ledger, same_path, first_span, second_span, query_span}

abbrev tag : Text × Text
tag = (codes "_dd.p.tid", codes "0123456789ABCDEF")

abbrev tagged_first : StressSpan
tagged_first = record first_span { duration = pos 5; meta = tag ∷ first_span.meta }

abbrev tagged_second : StressSpan
tagged_second = record second_span { start = pos 3; meta = tag ∷ second_span.meta }

-- Two records; the last chunk has no tag, and holds a child of the second span.
abbrev records : List (List (List StressSpan))
records =
    ((tagged_first ∷ []) ∷ (tagged_second ∷ []) ∷ [])
    ∷ ((record query_span { meta = [] } ∷ []) ∷ [])
    ∷ []

abbrev decode : Text → Option (List (List (List StressSpan)))
decode t = some records

abbrev chunks : List Chunk
chunks =
    record { spans = tagged_first ∷ []; high = high; tagged = true }
    ∷ record { spans = tagged_second ∷ []; high = high; tagged = true }
    ∷ record {
      spans = record query_span { meta = [] } ∷ [];
      high = codes "0000000000000000";
      tagged = false;
    }
    ∷ []

abbrev indexed_spans : Spans
indexed_spans =
    (record { low = 16; high = high; span = 3 }, record query_span { meta = [] })
    ∷ (record { low = 16; high = high; span = 2 }, tagged_second)
    ∷ (record { low = 15; high = high; span = 1 }, tagged_first)
    ∷ []

-- The untagged chunk is of the trace of its parent.
indexes_three : stress_index decode [] ≡ ok indexed_spans
unfolding stress_index index_chunks resolve_chunks store_spans resolve_high inherit collect_highs
    add_high highs_at join_parents join_parent join_known join_spans join_span join_found chunk_at
    placed read_records read_chunks read_chunk tag_spans tag_span tag_with tag_of to_lower
    is_ascii_hex find find_from join or_error value_at lookup lt_int text_eq mem add is_captured
    same_identity
indexes_three = refl

-- Chunks of one trace with two tags leave an untagged one of it open.
refuses_tags :
    index_chunks (
      record { spans = tagged_second ∷ []; high = high; tagged = true }
      ∷ record {
        spans = record tagged_second { span_id = 4; parent_id = 2 } ∷ [];
        high = codes "f123456789abcdef";
        tagged = true;
      }
      ∷ record { spans = query_span ∷ []; high = codes "0000000000000000"; tagged = false }
      ∷ [])
    ≡ err ambiguous_chunk
unfolding index_chunks resolve_chunks store_spans resolve_high inherit collect_highs add_high
    highs_at join_parents join_parent join_known join_spans join_span join_found chunk_at placed
    find find_from join text_eq mem add is_captured same_identity
refuses_tags = refl

stress_index-IsIndexed_example : IsIndexed (concat records) indexed_spans
stress_index-IsIndexed_example = stress_index-IsIndexed decode [] refl indexes_three

find-Joined_iff_example :
    ((find (components_of chunks) 1).1 ≡ (find (components_of chunks) 2).1) ↔ Joined chunks 1 2
find-Joined_iff_example = find-Joined_iff chunks 1 2 (omega arith) (omega arith)

validates_three : validate_stress decode same_path [] ledger (codes "app") ≡ ok tt
unfolding validate_stress stress_index index_chunks resolve_chunks store_spans resolve_high inherit
    collect_highs add_high highs_at join_parents join_parent join_known join_spans join_span
    join_found chunk_at placed read_records read_chunks read_chunk tag_spans tag_span tag_with
    tag_of to_lower is_ascii_hex find find_from join add validate_spans intervals_of interval_at
    interval_found interval_of excess overlap events_of precedes insert_event sort_events sweep
    find_servers add_servers add_server check_span check_metadata check_path check_parent
    check_traceparent check_numbers compare_numbers or_error three_parts parse_uint parse_digits
    digit_of split_dash take drop value_at is_datadog_server is_captured same_identity itoa
    before_query index_ledger add_requests add_request check_sequences check_from is_complete
    mem_int eq_int lt_int sequence_set put_sequence mem text_eq lookup decimal decimal_onto
    check_sql count_sql check_counts count_at count_up owner owner_of owner_at find_span is_visiting
    check_marker is_lifecycle occurrences contains has_prefix marker_of marker_text is_sql
validates_three = refl

fits : (s : StressSpan) (n m : ℕ) → s.start ≡ pos n → s.duration ≡ pos m → n + m < 2 ^ 63 → Fits s
fits s n m e f h a b e' f' =
    let x : n ≡ a = cc (sym e ∙ e') in let y : m ≡ b = cc (sym f ∙ f') in omega (arith, h, x, y)

validate_stress-IsValidated_example : IsValidated same_path (codes "app") (concat records) ledger
validate_stress-IsValidated_example =
    validate_stress-IsValidated decode same_path [] ledger (codes "app") refl
      (
        (fits tagged_first 1 5 refl refl (omega arith), tt),
        (
          (fits tagged_second 3 1 refl refl (omega arith), tt),
          ((fits (record query_span { meta = [] }) 1 1 refl refl (omega arith), tt), tt),
        ),
      )
      validates_three
