-- ===== src/Stress/Owned.antt =====
-- harness/parallel_scenarios.go: the owner of a span is the request of the server span that its
-- parents lead to.
use rules_stests.Base.{
  ℕ, zero, suc, ◌+◌, ◌≤◌, ◌≡◌, ◌≢◌, sym, inl, inr, true, false, not, ◌||◌, List, [], ◌∷◌, ◌==◌, ltb,
  Option, none, some, Text, text_eq, text_eq_iff, length, is_nil, All, Result, ok, err, ◌>>=◌, ◌>>◌,
  guard, guard_iff, >>=-eq-ok, >>=-ne-err, Bool-cases, arith,
}
use rules_stests.Stress.Ledger.{
  StressError, cyclic_graph, missing_parent, unexpected_root, out_of_fuel,
}
use rules_stests.Stress.Contexts.{StressSpan, StressIdentity, or_error}
use rules_stests.Stress.Servers.{Spans, is_datadog_server, same_identity}
use rules_stests.Stress.Continued.{or_error-eq-ok}
use rules_stests.Stress.Walked.{id_of}
use rules_stests.Stress.Owners.{Owners, owner_at, find_span, is_visiting, owner_of, owner}

-- The parents of the span at `key` lead to the server span of the request `id`.
pub data Owns (spans : Spans) : StressIdentity → Text → Type 0 where
  at_server :
      (key : StressIdentity) (s : StressSpan)
      → find_span key spans ≡ some s
      → is_datadog_server s.name ≡ true
      → Owns spans key (id_of s)
  by_parent :
      (key : StressIdentity) (s : StressSpan) (id : Text)
      → find_span key spans ≡ some s
      → is_datadog_server s.name ≡ false
      → s.parent_id ≢ 0
      → Owns spans (record key { span = s.parent_id }) id
      → Owns spans key id

pub same_identity-eq : (a b : StressIdentity) → same_identity a b ≡ true → a ≡ b
unfolding same_identity
same_identity-eq a b h =
    let low : a.low ≡ b.low = ground arith in
    let high : text_eq a.high b.high ≡ true = ground arith in
    let span : a.span ≡ b.span = ground arith in
    let high' : a.high ≡ b.high = (text_eq_iff a.high b.high).0 high in
    λ i. record { low = low i; high = high' i; span = span i }

-- What is remembered is right.
abbrev pub Remembers : Spans → Owners → Type 0
Remembers spans owners = All (λ e. Owns spans e.0 e.1) owners

owner_at-Owns :
    (spans : Spans) (owners : Owners) (key : StressIdentity)
    → Remembers spans owners
    → is_nil (owner_at key owners) ≡ false
    → Owns spans key (owner_at key owners)
unfolding owner_at
owner_at-Owns spans [] key r h = cc
owner_at-Owns spans ((k, id) ∷ owners) key (o, r) h = elim (Bool-cases (same_identity k key)) [
  | inl here ↦ rw here (rw (sym (same_identity-eq k key here)) o)
  | inr other ↦ rw other (owner_at-Owns spans owners key r (ground arith))
]

owner_of-Owns :
    (spans : Spans) (owners : Owners) (key : StressIdentity) (s : StressSpan)
    (above : Result StressError (Owners × Text)) {more : Owners} {id : Text}
    → find_span key spans ≡ some s
    → Remembers spans owners
    → ((known : Owners) (i : Text)
        → above ≡ ok (known, i)
        → Remembers spans known × Owns spans (record key { span = s.parent_id }) i)
    → owner_of key s owners above ≡ ok (more, id)
    → Remembers spans more × Owns spans key id
unfolding owner_of
owner_of-Owns spans owners key s above {more = more} {id = id} found r up h =
    elim (Bool-cases (is_datadog_server s.name)) [
      | inl server ↦
          let done : ◌≡◌ {A = Result StressError (Owners × Text)}
              (ok ((key, id_of s) ∷ owners, id_of s)) (ok (more, id)) =
            ground arith in
          let here = at_server key s found server in
          let same : (key, id_of s) ∷ owners ≡ more = cc done in
          let same' : id_of s ≡ id = cc done in rw (sym same, sym same') ((here, r), here)
      | inr other ↦ elim (Bool-cases (s.parent_id == 0)) [
        | inl root ↦
            let bad : ◌≡◌ {A = Result StressError (Owners × Text)} (err unexpected_root)
                (ok (more, id)) =
              ground arith in
            cc
        | inr child ↦
            let rest : ◌>>=◌ {B = Owners × Text} above (λ (known, i). ok ((key, i) ∷ known, i))
                ≡ ok (more, id) =
              ground arith in
            let ((known, i), e, done) = >>=-eq-ok above _ rest in
            let (r', o) = up known i e in
            let here = by_parent key s i found other (ground arith) o in
            let same : (key, i) ∷ known ≡ more = cc done in
            let same' : i ≡ id = cc done in rw (sym same, sym same') ((here, r'), here)
      ]
    ]

pub owner-Owns :
    (spans : Spans) (fuel : ℕ) (visiting : List StressIdentity) (owners : Owners)
    (key : StressIdentity) {more : Owners} {id : Text}
    → Remembers spans owners
    → owner spans fuel visiting owners key ≡ ok (more, id)
    → Remembers spans more × Owns spans key id
unfolding owner
owner-Owns spans zero visiting owners key r h = cc
owner-Owns spans (suc fuel) visiting owners key {more = more} {id = id} r h =
    elim (Bool-cases (is_nil (owner_at key owners))) [
      | inl new ↦
          let above : StressSpan → Result StressError (Owners × Text) =
            λ s. owner spans fuel (key ∷ visiting) owners (record key { span = s.parent_id }) in
          let rest : (guard (not (is_visiting key visiting || ltb 64 (length visiting)))
                  cyclic_graph
                >> (or_error (find_span key spans) missing_parent >>= λ s.
                    owner_of key s owners (above s)))
              ≡ ok (more, id) =
            ground arith in
          let (apart, h1) =
            (guard_iff (not (is_visiting key visiting || ltb 64 (length visiting))) cyclic_graph
                _).0
              rest in
          let (s, found, h2) = >>=-eq-ok (or_error (find_span key spans) missing_parent) _ h1 in
          owner_of-Owns spans owners key s (above s) (or_error-eq-ok _ missing_parent found) r
            (λ known i e.
              owner-Owns spans fuel (key ∷ visiting) owners (record key { span = s.parent_id }) r e)
            h2
      | inr old ↦
          let done : ◌≡◌ {A = Result StressError (Owners × Text)} (ok (owners, owner_at key owners))
              (ok (more, id)) =
            ground arith in
          let same : owners ≡ more = cc done in
          let same' : owner_at key owners ≡ id = cc done in
          rw (sym same, sym same') (r, owner_at-Owns spans owners key r old)
    ]

owner_of-ne-out_of_fuel :
    (key : StressIdentity) (s : StressSpan) (owners : Owners)
    (above : Result StressError (Owners × Text))
    → above ≢ err out_of_fuel
    → owner_of key s owners above ≢ err out_of_fuel
unfolding owner_of
owner_of-ne-out_of_fuel key s owners above n e = elim (Bool-cases (is_datadog_server s.name)) [
  | inl server ↦
      let bad : ◌≡◌ {A = Result StressError (Owners × Text)} (ok ((key, id_of s) ∷ owners, id_of s))
          (err out_of_fuel) =
        ground arith in
      cc
  | inr other ↦ elim (Bool-cases (s.parent_id == 0)) [
    | inl root ↦
        let bad : ◌≡◌ {A = Result StressError (Owners × Text)} (err unexpected_root)
            (err out_of_fuel) =
          ground arith in
        cc
    | inr child ↦
        let rest : ◌>>=◌ {B = Owners × Text} above (λ (known, i). ok ((key, i) ∷ known, i))
            ≡ err out_of_fuel =
          ground arith in
        >>=-ne-err above _ n (λ a done bad. cc) rest
  ]
]

or_error-ne-out_of_fuel : (o : Option StressSpan) → or_error o missing_parent ≢ err out_of_fuel
unfolding or_error
or_error-ne-out_of_fuel none e = cc
or_error-ne-out_of_fuel (some s) e = cc

-- The depth that `visiting` allows is less than the fuel.
pub owner-ne-out_of_fuel :
    (spans : Spans) (fuel : ℕ) (visiting : List StressIdentity) (owners : Owners)
    (key : StressIdentity)
    → length visiting ≤ 65
    → 66 ≤ length visiting + fuel
    → owner spans fuel visiting owners key ≢ err out_of_fuel
unfolding owner
owner-ne-out_of_fuel spans zero visiting owners key l u e = omega (arith, l, u)
owner-ne-out_of_fuel spans (suc fuel) visiting owners key l u e =
    elim (Bool-cases (is_nil (owner_at key owners))) [
      | inr old ↦
          let bad : ◌≡◌ {A = Result StressError (Owners × Text)} (ok (owners, owner_at key owners))
              (err out_of_fuel) =
            ground arith in
          cc
      | inl new ↦ elim (Bool-cases (is_visiting key visiting || ltb 64 (length visiting))) [
        | inl cut ↦
            let bad : ◌≡◌ {A = Result StressError (Owners × Text)} (err cyclic_graph)
                (err out_of_fuel) =
              ground arith in
            cc
        | inr apart ↦
            let above : StressSpan → Result StressError (Owners × Text) =
              λ s. owner spans fuel (key ∷ visiting) owners (record key { span = s.parent_id }) in
            let rest : (or_error (find_span key spans) missing_parent >>= λ s.
            owner_of key s owners (above s))
                ≡ err out_of_fuel =
              ground arith in
            >>=-ne-err (or_error (find_span key spans) missing_parent) _
              (or_error-ne-out_of_fuel (find_span key spans))
              (λ s found. owner_of-ne-out_of_fuel key s owners (above s) (
                owner-ne-out_of_fuel spans fuel (key ∷ visiting) owners
                  (record key { span = s.parent_id }) (ground arith) (omega (arith, u))))
              rest
      ]
    ]
