-- ===== src/Stress/Union.antt =====
-- harness/parallel_scenarios.go: find and join of stressIndex, on the array `components`, which both
-- may change. A chain of components is shorter than the array, so find has its length as fuel.
use rules_stests.Base.{ℕ, zero, suc, List, true, false, ◌==◌, length, get_or, set}

unfoldable pub find_from : (fuel : ℕ) → List ℕ → ℕ → List ℕ × ℕ
find_from zero components i = (components, i)
find_from (suc fuel) components i = elim (get_or components i 0 == i) [
  | true ↦ (components, i)
  | false ↦
      let halved = set components i (get_or components (get_or components i 0) 0) in
      find_from fuel halved (get_or halved i 0)
]

unfoldable pub find : List ℕ → ℕ → List ℕ × ℕ
find components i = find_from (length components) components i

-- `components[find(a)] = find(b)`.
unfoldable pub join : List ℕ → ℕ → ℕ → List ℕ
join components a b =
    let (first, from) = find components a in let (second, to) = find first b in set second from to
