-- ===== src/Stress/Short.antt =====
-- harness/parallel_scenarios.go: a chain of `components` in stressIndex is shorter than the array,
-- so find has enough fuel.
use rules_stests.Base.{
  ℕ, zero, suc, ◌+◌, ◌≤◌, ◌<◌, ◌≡◌, refl, sym, ap, inl, inr, Bool, true, false, ◌||◌, List, [], ◌∷◌,
  ◌==◌, if◌then◌else◌, length, All, Bool-cases, ==_iff, arith,
}
use rules_stests.Stress.Union.{find}
use rules_stests.Stress.Forest.{
  parent, Leads, HasRoot, IsForest, Leads-unique, Same, find_from-Same,
}

has : ℕ → List ℕ → Bool
has k [] = false
has k (x ∷ xs) = x == k || has k xs

abbrev Once : List ℕ → Type 0
Once [] = Unit
Once (x ∷ xs) = (has x xs ≡ false) × Once xs

remove : ℕ → List ℕ → List ℕ
remove k [] = []
remove k (x ∷ xs) = let rest = remove k xs in if x == k then rest else x ∷ rest

remove-missing : (k : ℕ) (xs : List ℕ) → has k xs ≡ false → remove k xs ≡ xs
unfolding remove has
remove-missing k [] h = refl
remove-missing k (x ∷ xs) h = ground (arith, remove-missing k xs)

length-le-remove : (k : ℕ) (xs : List ℕ) → Once xs → length xs ≤ length (remove k xs) + 1
unfolding remove has
length-le-remove k [] o = omega arith
length-le-remove k (x ∷ xs) (n, o) = ground (arith, length-le-remove k xs o, remove-missing k xs)

has-remove : (j k : ℕ) (xs : List ℕ) → has j xs ≡ false → has j (remove k xs) ≡ false
unfolding remove has
has-remove j k [] h = refl
has-remove j k (x ∷ xs) h = ground (arith, has-remove j k xs)

remove-Once : (k : ℕ) (xs : List ℕ) → Once xs → Once (remove k xs)
unfolding remove
remove-Once k [] o = tt
remove-Once k (x ∷ xs) (n, o) = elim (Bool-cases (x == k)) [
  | inl here ↦ rw here (remove-Once k xs o)
  | inr other ↦ rw other (has-remove x k xs n, remove-Once k xs o)
]

remove-All : (n : ℕ) (xs : List ℕ) → All (λ x. x < suc n) xs → All (λ x. x < n) (remove n xs)
unfolding remove
remove-All n [] a = tt
remove-All n (x ∷ xs) (l, a) = elim (Bool-cases (x == n)) [
  | inl here ↦ rw here (remove-All n xs a)
  | inr other ↦ rw other (ground arith, remove-All n xs a)
]

-- Numbers below `n`, none of them twice, are at most `n`.
length-le : (n : ℕ) (xs : List ℕ) → Once xs → All (λ x. x < n) xs → length xs ≤ n
length-le n [] o a = omega arith
length-le zero (x ∷ xs) o (l, a) = absurd (omega (arith, l))
length-le (suc n) (x ∷ xs) o a = omega (
  arith,
  length-le n (remove n (x ∷ xs)) (remove-Once n (x ∷ xs) o) (remove-All n (x ∷ xs) a),
  length-le-remove n (x ∷ xs) o,
)

-- The indices of a chain, the component left out.
chain : List ℕ → ℕ → ℕ → List ℕ
chain c zero x = []
chain c (suc k) x = x ∷ chain c k (parent c x)

length-chain : (c : List ℕ) (k x : ℕ) → length (chain c k x) ≡ k
unfolding chain
length-chain c zero x = refl
length-chain c (suc k) x = ap suc (length-chain c k (parent c x))

chain-inside :
    (c : List ℕ) (k x : ℕ) → IsForest c → x < length c → All (λ y. y < length c) (chain c k x)
unfolding chain
chain-inside c zero x f h = tt
chain-inside c (suc k) x f h = (h, chain-inside c k (parent c x) f (f.inside x h))

-- An index of a chain has a shorter one itself.
has-chain :
    (c : List ℕ) (y k x : ℕ) {r : ℕ}
    → Leads c k x r
    → has y (chain c k x) ≡ true
    → (j : ℕ) × (j ≤ k) × Leads c j y r
unfolding chain has
has-chain c y zero x d h = cc
has-chain c y (suc k) x {r = r} (m, d) h = elim (Bool-cases (x == y)) [
  | inl here ↦ (suc k, omega arith, rw (sym ((==_iff x y).0 here)) (m, d))
  | inr other ↦
      let (j, le, d') = has-chain c y k (parent c x) d (ground arith) in (j, omega (arith, le), d')
]

chain-Once : (c : List ℕ) (k x r : ℕ) → Leads c k x r → Once (chain c k x)
unfolding chain
chain-Once c zero x r d = tt
chain-Once c (suc k) x r (m, d) = elim (Bool-cases (has x (chain c k (parent c x)))) [
  | inl back ↦
      let (j, le, d') = has-chain c x k (parent c x) d back in
      absurd (omega (arith, le, (Leads-unique c j (suc k) x d' (m, d)).0))
  | inr new ↦ (new, chain-Once c k (parent c x) r d)
]

Leads-le : (c : List ℕ) (k x r : ℕ) → IsForest c → x < length c → Leads c k x r → k ≤ length c
Leads-le c k x r f h d = omega (
  arith,
  length-le (length c) (chain c k x) (chain-Once c k x r d) (chain-inside c k x f h),
  length-chain c k x,
)

-- find answers the component, and what it leaves has the same ones.
pub find-Same :
    (c : List ℕ) (i r : ℕ)
    → IsForest c
    → i < length c
    → HasRoot c i r
    → Same c (find c i).0 × ((find c i).1 ≡ r)
unfolding find
find-Same c i r f h (k, d) = find_from-Same (length c) c i k r f h d (Leads-le c k i r f h d)
