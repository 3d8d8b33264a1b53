-- ===== src/Stress/Sorted.antt =====
-- harness/parallel_scenarios.go: sorting the events of overlap keeps them, and the intervals that
-- hold a point in time are those that have opened and not closed by it.
use rules_stests.Base.{
  ℕ, ◌+◌, ◌<◌, ◌≡◌, refl, inl, inr, true, false, not, ◌&&◌, List, [], ◌∷◌, ltb, leb, if◌then◌else◌,
  Bool-cases, All, arith,
}
use rules_stests.Receipt.Coverage.Claims.{All-imp}
use rules_stests.Stress.Overlap.{Event, events_of, precedes, insert_event, sort_events}

-- The intervals that hold `t`, their ends left out.
abbrev pub count_open : ℕ → List (ℕ × ℕ) → ℕ
count_open t [] = 0
count_open t ((start, end) ∷ more) = (if leb start t && ltb t end then 1 else 0) + count_open t more

-- The openings, and the closings, up to `t`.
abbrev pub opened : ℕ → List Event → ℕ
opened t [] = 0
opened t (e ∷ es) = (if leb e.time t && e.opens then 1 else 0) + opened t es

abbrev pub closed : ℕ → List Event → ℕ
closed t [] = 0
closed t (e ∷ es) = (if leb e.time t && not e.opens then 1 else 0) + closed t es

-- No event precedes an earlier one.
abbrev pub IsSorted : List Event → Type 0
IsSorted [] = Unit
IsSorted (e ∷ es) = All (λ x. precedes x e ≡ false) es × IsSorted es

precedes_asymm : (a b : Event) → precedes a b ≡ true → precedes b a ≡ false
unfolding precedes
precedes_asymm a b h = ground arith

precedes_trans :
    (a b c : Event) → precedes a b ≡ false → precedes b c ≡ false → precedes a c ≡ false
unfolding precedes
precedes_trans a b c h k = ground arith

below_insert :
    (z e : Event) (es : List Event)
    → precedes e z ≡ false
    → All (λ y. precedes y z ≡ false) es
    → All (λ y. precedes y z ≡ false) (insert_event e es)
unfolding insert_event
below_insert z e [] h a = (h, tt)
below_insert z e (x ∷ es) h a = elim (Bool-cases (precedes x e)) [
  | inl lt ↦ rw lt (a.0, below_insert z e es h a.1)
  | inr ge ↦ rw ge (h, a)
]

insert_event-IsSorted : (e : Event) (es : List Event) → IsSorted es → IsSorted (insert_event e es)
unfolding insert_event
insert_event-IsSorted e [] s = (tt, tt)
insert_event-IsSorted e (x ∷ es) s = elim (Bool-cases (precedes x e)) [
  | inl lt ↦ rw lt (below_insert x e es (precedes_asymm x e lt) s.0, insert_event-IsSorted e es s.1)
  | inr ge ↦ rw ge ((ge, All-imp es (λ y h. precedes_trans y x e h ge) s.0), s)
]

pub sort_events-IsSorted : (es : List Event) → IsSorted (sort_events es)
unfolding sort_events
sort_events-IsSorted [] = tt
sort_events-IsSorted (e ∷ es) = insert_event-IsSorted e (sort_events es) (sort_events-IsSorted es)

-- Sorting loses no event.
count-insert_event :
    (t : ℕ) (e : Event) (es : List Event)
    → (opened t (insert_event e es) ≡ opened t (e ∷ es))
      × (closed t (insert_event e es) ≡ closed t (e ∷ es))
unfolding insert_event
count-insert_event t e [] = (refl, refl)
count-insert_event t e (x ∷ es) = elim (Bool-cases (precedes x e)) [
  | inl lt ↦ let (o, c) = count-insert_event t e es in rw lt (omega (arith, o), omega (arith, c))
  | inr ge ↦ rw ge (refl, refl)
]

pub count-sort_events :
    (t : ℕ) (es : List Event)
    → (opened t (sort_events es) ≡ opened t es) × (closed t (sort_events es) ≡ closed t es)
unfolding sort_events
count-sort_events t [] = (refl, refl)
count-sort_events t (e ∷ es) =
    let (o, c) = count-insert_event t e (sort_events es) in
    let (o', c') = count-sort_events t es in (omega (arith, o, o'), omega (arith, c, c'))

-- The intervals that hold `t` have opened and not closed.
abbrev pub IsProper : List (ℕ × ℕ) → Type 0
IsProper [] = Unit
IsProper ((start, end) ∷ more) = (start < end) × IsProper more

pub count_open_lem :
    (t : ℕ) (intervals : List (ℕ × ℕ))
    → IsProper intervals
    → opened t (events_of intervals) ≡ count_open t intervals + closed t (events_of intervals)
unfolding events_of
count_open_lem t [] p = omega arith
count_open_lem t ((start, end) ∷ more) (p, ps) = ground (arith, count_open_lem t more ps)
