-- ===== src/Stress/Overlap.antt =====
-- harness/parallel_scenarios.go: overlap, the most intervals that are open at once. An `int64` is
-- its excess over -2^63, which keeps the order. `active` is kept as what was added and what was
-- taken away, since it may be negative.
use rules_stests.Base.{
  ℕ, ◌+◌, ◌-◌, Bool, true, false, not, ◌&&◌, List, [], ◌∷◌, ◌==◌, ltb, if◌then◌else◌,
}

-- An event opens an interval (`delta` 1) or closes one (`delta` -1).
pub record Event : Type 0 where
  pub time : ℕ
  pub opens : Bool

unfoldable pub events_of : List (ℕ × ℕ) → List Event
events_of [] = []
events_of ((start, end) ∷ more) =
    record { time = start; opens = true } ∷ record { time = end; opens = false } ∷ events_of more

-- The order of the events: by time, and closing before opening.
unfoldable pub precedes : Event → Event → Bool
precedes a b = if a.time == b.time then not a.opens && b.opens else ltb a.time b.time

unfoldable pub insert_event : Event → List Event → List Event
insert_event e [] = e ∷ []
insert_event e (x ∷ xs) = if precedes x e then x ∷ insert_event e xs else e ∷ x ∷ xs

-- `sort.Slice`: events that neither precedes are equal, so the algorithm does not show.
unfoldable pub sort_events : List Event → List Event
unfolding insert_event
sort_events [] = []
sort_events (e ∷ es) = insert_event e (sort_events es)

-- The loop over the sorted events, with `active = added - taken`.
unfoldable pub sweep : ℕ → ℕ → ℕ → List Event → ℕ
sweep added taken peak [] = peak
sweep added taken peak (e ∷ es) =
    let added' = if e.opens then added + 1 else added in
    let taken' = if e.opens then taken else taken + 1 in
    sweep added' taken' (if ltb (peak + taken') added' then added' - taken' else peak) es

unfoldable pub overlap : List (ℕ × ℕ) → ℕ
overlap intervals = sweep 0 0 0 (sort_events (events_of intervals))
