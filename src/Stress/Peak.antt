-- ===== src/Stress/Peak.antt =====
-- harness/parallel_scenarios.go: overlap computes the greatest number of intervals that hold one
-- point in time.
use rules_stests.Base.{
  ℕ, ◌+◌, ◌-◌, ◌≤◌, ◌<◌, ◌≡◌, ◌⊎◌, refl, inl, inr, true, false, List, [], ◌∷◌, ltb, leb,
  if◌then◌else◌, Bool-cases, All, arith,
}
use rules_stests.Stress.Overlap.{Event, events_of, precedes, sort_events, sweep, overlap}
use rules_stests.Stress.Sorted.{
  opened, closed, count_open, IsSorted, IsProper, sort_events-IsSorted, count-sort_events,
  count_open_lem,
}

-- Nothing behind an event of a sorted list is earlier than it.
later_counts :
    (t : ℕ) (e : Event) (es : List Event)
    → t < e.time
    → All (λ x. precedes x e ≡ false) es
    → (opened t es ≡ 0) × (closed t es ≡ 0)
unfolding precedes
later_counts t e [] h a = (refl, refl)
later_counts t e (x ∷ es) h (p, a) =
    let (o, c) = later_counts t e es h a in (ground (arith, o), ground (arith, c))

-- Behind an opening no interval closes at its time.
no_closing :
    (e : Event) (es : List Event)
    → e.opens ≡ true
    → All (λ x. precedes x e ≡ false) es
    → closed e.time es ≡ 0
unfolding precedes
no_closing e [] h a = refl
no_closing e (x ∷ es) h (p, a) = ground (arith, no_closing e es h a)

-- The peak after a step, and the two bounds on it.
abbrev raise_peak : ℕ → ℕ → ℕ → ℕ
raise_peak added taken peak = if ltb (peak + taken) added then added - taken else peak

raise_peak-ge : (a t p : ℕ) → p ≤ raise_peak a t p
raise_peak-ge a t p = ground arith

raise_peak_bound : (a t p : ℕ) → a ≤ t + raise_peak a t p
raise_peak_bound a t p = ground arith

sweep-ge : (added taken peak : ℕ) (es : List Event) → peak ≤ sweep added taken peak es
unfolding sweep
sweep-ge added taken peak [] = omega arith
sweep-ge added taken peak (e ∷ es) = elim (Bool-cases e.opens) [
  | inl o ↦ rw o (
      omega (
        arith,
        raise_peak-ge (added + 1) taken peak,
        sweep-ge (added + 1) taken (raise_peak (added + 1) taken peak) es,
      ))
  | inr c ↦ rw c (
      omega (
        arith,
        raise_peak-ge added (taken + 1) peak,
        sweep-ge added (taken + 1) (raise_peak added (taken + 1) peak) es,
      ))
]

sweep_bound :
    (t added taken peak : ℕ) (es : List Event)
    → IsSorted es
    → added ≤ taken + peak
    → added + opened t es ≤ taken + closed t es + sweep added taken peak es
unfolding sweep
sweep_bound t added taken peak [] s h = omega arith
sweep_bound t added taken peak (e ∷ es) s h = elim (Bool-cases (leb e.time t)) [
  | inl now ↦ elim (Bool-cases e.opens) [
    | inl o ↦
        let ih =
          sweep_bound t (added + 1) taken (raise_peak (added + 1) taken peak) es s.1
            (raise_peak_bound (added + 1) taken peak) in
        rw (now, o) (omega (arith, ih))
    | inr c ↦
        let ih =
          sweep_bound t added (taken + 1) (raise_peak added (taken + 1) peak) es s.1
            (raise_peak_bound added (taken + 1) peak) in
        rw (now, c) (omega (arith, ih))
  ]
  | inr later ↦
      let (o, c) = later_counts t e es (ground arith) s.0 in
      let ge : peak ≤ sweep added taken peak (e ∷ es) = sweep-ge added taken peak (e ∷ es) in
      rw (later, o, c) (omega (arith, h, ge))
]

-- The peak was there before, or some point in time has that many intervals open.
sweep_reaches :
    (added taken peak : ℕ) (es : List Event)
    → IsSorted es
    → added ≤ taken + peak
    → (sweep added taken peak es ≡ peak)
      ⊎ (t : ℕ) × (sweep added taken peak es + taken + closed t es ≤ added + opened t es)
unfolding sweep
sweep_reaches added taken peak [] s h = inl refl
sweep_reaches added taken peak (e ∷ es) s h = elim (Bool-cases e.opens) [
  | inl o ↦
      let ih =
        sweep_reaches (added + 1) taken (raise_peak (added + 1) taken peak) es s.1
          (raise_peak_bound (added + 1) taken peak) in
      rw o (elim ih [
        | inl same ↦ elim (Bool-cases (ltb (peak + taken) (added + 1))) [
          | inl up ↦ inr (e.time, ground (arith, same, up, no_closing e es o s.0))
          | inr down ↦ inl (ground (arith, same, down))
        ]
        | inr (t, le) ↦ elim (Bool-cases (leb e.time t)) [
          | inl now ↦ inr (t, ground (arith, le, now))
          | inr later ↦
              let (on, cn) = later_counts t e es (ground arith) s.0 in
              inr (e.time, ground (arith, le, on, cn, no_closing e es o s.0))
        ]
      ])
  | inr c ↦
      let ih =
        sweep_reaches added (taken + 1) (raise_peak added (taken + 1) peak) es s.1
          (raise_peak_bound added (taken + 1) peak) in
      rw c (elim ih [
        | inl same ↦ inl (ground (arith, same, h))
        | inr (t, le) ↦ inr (t, ground (arith, le))
      ])
]

-- `n` is the most intervals open at one point in time.
pub record IsPeak (intervals : List (ℕ × ℕ)) (n : ℕ) : Type 0 where
  pub bound : (t : ℕ) → count_open t intervals ≤ n
  pub reached : (t : ℕ) × (count_open t intervals ≡ n)

-- For intervals that each end after they start, overlap is the greatest number of them that hold
-- one point in time: no point lies in more of them, and some point lies in that many.
pub overlap-IsPeak :
    (intervals : List (ℕ × ℕ)) → IsProper intervals → IsPeak intervals (overlap intervals)
unfolding overlap
overlap-IsPeak intervals p =
    let es = events_of intervals in
    let s = sort_events-IsSorted es in
    let counted : (t : ℕ)
        → opened t (sort_events es) ≡ count_open t intervals + closed t (sort_events es) =
      λ t.
        let (o, c) = count-sort_events t es in omega (arith, o, c, count_open_lem t intervals p) in
    let bound : (t : ℕ) → count_open t intervals ≤ overlap intervals =
      λ t. omega (arith, counted t, sweep_bound t 0 0 0 (sort_events es) s (omega arith)) in
    record {
      bound = bound;
      reached = elim (sweep_reaches 0 0 0 (sort_events es) s (omega arith)) [
        | inl none ↦ (0, omega (arith, none, bound 0))
        | inr (t, le) ↦ (t, omega (arith, le, counted t, bound t))
      ];
    }
