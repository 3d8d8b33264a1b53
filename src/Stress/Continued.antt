-- ===== src/Stress/Continued.antt =====
-- harness/parallel_scenarios.go: which requests a server span continues, apart from the order in
-- which validateStress tests it.
use rules_stests.Base.{
  ℕ, ◌≡◌, ◌≢◌, refl, sym, ap, ◌∙◌, inl, inr, true, not, ◌&&◌, ◌||◌, List, [], ◌∷◌, ◌++◌, ◌==◌,
  Option, none, some, Text, codes, length, is_nil, text_eq, text_eq_iff, join, ok, guard_iff,
  >>=-eq-ok, ==_iff, Bool-cases, arith,
}
use rules_stests.Stress.Ledger.{RequestLedger, StressError, malformed_context, malformed_datadog}
use rules_stests.Stress.Contexts.{
  StressSpan, StressIdentity, value_at, parse_uint, split_dash, take, drop, or_error,
  compare_numbers, check_numbers, compare_caller, three_parts, check_traceparent, check_datadog,
  check_parent,
}

abbrev pub dash : Text
dash = codes "-"

join-cons :
    (c : ℕ) (x : Text) (rest : List Text) → join dash ((c ∷ x) ∷ rest) ≡ c ∷ join dash (x ∷ rest)
unfolding join
join-cons c x [] = refl
join-cons c x (y ∷ rest) = refl

-- The parts, joined, are the text again.
join-split_dash : (t : Text) → join dash ((split_dash t).0 ∷ (split_dash t).1) ≡ t
unfolding split_dash join
join-split_dash [] = refl
join-split_dash (c ∷ cs) = elim (Bool-cases (c == b'-')) [
  | inl cut ↦ rw (cut, (==_iff c b'-').0 cut) (ap (λ t. b'-' ∷ t) (join-split_dash cs))
  | inr same ↦
      rw same
        (join-cons c (split_dash cs).0 (split_dash cs).1 ∙ ap (λ t. c ∷ t) (join-split_dash cs))
]

pub or_error-eq-ok {ℓ} :
    {A : Type ℓ} (o : Option A) (e : StressError) {a : A} → or_error o e ≡ ok a → o ≡ some a
unfolding or_error
or_error-eq-ok none e h = cc
or_error-eq-ok (some b) e h = cc

-- The context that a request carried, and the identity of the span that continues it.
pub data Continues (key : StressIdentity) (s : StressSpan) (incoming : List (Text × Text))
    : Type 0 where
  traced :
      (trace parent flags : Text)
      → value_at (codes "traceparent") incoming
        ≡ join dash (codes "00" ∷ trace ∷ parent ∷ flags ∷ [])
      → parse_uint 16 64 (drop 16 trace) ≡ some key.low
      → key.high ≡ take 16 trace
      → parse_uint 16 64 parent ≡ some s.parent_id
      → s.parent_id ≢ 0
      → Continues key s incoming
  called :
      value_at (codes "traceparent") incoming ≡ []
      → parse_uint 10 64 (value_at (codes "x-datadog-trace-id") incoming) ≡ some key.low
      → parse_uint 10 64 (value_at (codes "x-datadog-parent-id") incoming) ≡ some s.parent_id
      → value_at (codes "x-datadog-tags") incoming ≡ codes "_dd.p.tid=" ++ key.high
      → s.parent_id ≢ 0
      → Continues key s incoming
  rooted :
      value_at (codes "traceparent") incoming ≡ []
      → value_at (codes "x-datadog-trace-id") incoming ≡ []
      → s.parent_id ≡ 0
      → Continues key s incoming

three_parts-eq-some :
    (ts : List Text) {a b c : Text} → three_parts ts ≡ some (a, b, c) → ts ≡ a ∷ b ∷ c ∷ []
unfolding three_parts
three_parts-eq-some [] h = cc
three_parts-eq-some (x ∷ []) h = cc
three_parts-eq-some (x ∷ y ∷ []) h = cc
three_parts-eq-some (x ∷ y ∷ z ∷ []) h = cc
three_parts-eq-some (x ∷ y ∷ z ∷ w ∷ ts) h = cc

-- What the four numbers say of the span.
compare_numbers-eq-ok :
    (key : StressIdentity) (s : StressSpan) (high_text : Text) (low high caller flags : Option ℕ)
    → compare_numbers key s high_text low high caller flags ≡ ok tt
    → (low ≡ some key.low)
      × (key.high ≡ high_text)
      × (caller ≡ some s.parent_id)
      × (s.parent_id ≢ 0)
unfolding compare_numbers or_error
compare_numbers-eq-ok key s high_text none high caller flags h = cc
compare_numbers-eq-ok key s high_text (some l) none caller flags h = cc
compare_numbers-eq-ok key s high_text (some l) (some m) none flags h = cc
compare_numbers-eq-ok key s high_text (some l) (some m) (some c) none h = cc
compare_numbers-eq-ok key s high_text (some l) (some m) (some c) (some f) h =
    let (sane, h1) = (guard_iff (not (l == 0 && m == 0 || c == 0)) malformed_context _).0 h in
    let fits : key.low == l && text_eq key.high high_text && s.parent_id == c ≡ true =
      ground arith in
    let same : key.low ≡ l = ground arith in
    let same' : s.parent_id ≡ c = ground arith in
    let high : text_eq key.high high_text ≡ true = ground arith in
    (ap some (sym same), (text_eq_iff key.high high_text).0 high, ap some (sym same'), ground arith)

compare_caller-eq-ok :
    (key : StressIdentity) (s : StressSpan) (tags : Text) (low caller : Option ℕ)
    → compare_caller key s tags low caller ≡ ok tt
    → (low ≡ some key.low)
      × (caller ≡ some s.parent_id)
      × (tags ≡ codes "_dd.p.tid=" ++ key.high)
      × (s.parent_id ≢ 0)
unfolding compare_caller or_error
compare_caller-eq-ok key s tags none caller h = cc
compare_caller-eq-ok key s tags (some l) none h = cc
compare_caller-eq-ok key s tags (some l) (some c) h =
    let (sane, h1) = (guard_iff (not (l == 0 || c == 0)) malformed_datadog _).0 h in
    let same : key.low ≡ l = ground arith in
    let same' : s.parent_id ≡ c = ground arith in
    let tagged : text_eq tags (codes "_dd.p.tid=" ++ key.high) ≡ true = ground arith in
    (
      ap some (sym same),
      ap some (sym same'),
      (text_eq_iff tags (codes "_dd.p.tid=" ++ key.high)).0 tagged,
      ground arith,
    )

check_traceparent-Continues :
    (key : StressIdentity) (s : StressSpan) (incoming : List (Text × Text))
    → check_traceparent key s (value_at (codes "traceparent") incoming) ≡ ok tt
    → Continues key s incoming
unfolding check_traceparent check_numbers
check_traceparent-Continues key s incoming h =
    let remote = value_at (codes "traceparent") incoming in
    let ((trace, parent, flags), e, h1) =
      >>=-eq-ok (or_error (three_parts (split_dash remote).1) malformed_context) _ h in
    let parts = three_parts-eq-some (split_dash remote).1 (or_error-eq-ok _ malformed_context e) in
    let (version, h2) =
      (guard_iff (text_eq (split_dash remote).0 (codes "00")) malformed_context _).0 h1 in
    let (lengths, h3) =
      (guard_iff (length trace == 32 && length parent == 16 && length flags == 2) malformed_context
          _).0
        h2 in
    let (low, high, caller, present) = compare_numbers-eq-ok key s (take 16 trace) _ _ _ _ h3 in
    let joined : remote ≡ join dash (codes "00" ∷ trace ∷ parent ∷ flags ∷ []) =
      rw (sym ((text_eq_iff (split_dash remote).0 (codes "00")).0 version), sym parts)
        (sym (join-split_dash remote)) in
    traced trace parent flags joined low high caller present

is_nil-true : (t : Text) → is_nil t ≡ true → t ≡ []
is_nil-true [] h = refl
is_nil-true (c ∷ t) h = cc

pub check_parent-Continues :
    (key : StressIdentity) (s : StressSpan) (r : RequestLedger)
    → check_parent key s r ≡ ok tt
    → Continues key s r.incoming
unfolding check_parent check_datadog
check_parent-Continues key s r h =
    elim (Bool-cases (is_nil (value_at (codes "traceparent") r.incoming))) [
      | inr remote ↦ check_traceparent-Continues key s r.incoming (ground arith)
      | inl no_trace ↦
          elim (Bool-cases (is_nil (value_at (codes "x-datadog-trace-id") r.incoming))) [
            | inr remote ↦
                let (low, caller, tags, present) =
                  compare_caller-eq-ok key s (value_at (codes "x-datadog-tags") r.incoming)
                    (parse_uint 10 64 (value_at (codes "x-datadog-trace-id") r.incoming))
                    (parse_uint 10 64 (value_at (codes "x-datadog-parent-id") r.incoming))
                    (ground arith) in
                called (is_nil-true _ no_trace) low caller tags present
            | inl no_caller ↦
                let root : (s.parent_id == 0) ≡ true = ground arith in
                rooted (is_nil-true _ no_trace) (is_nil-true _ no_caller)
                  ((==_iff s.parent_id 0).0 root)
          ]
    ]
