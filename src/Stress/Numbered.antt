-- ===== src/Stress/Numbered.antt =====
-- harness/parallel_scenarios.go: sequence numbers that hold 1 to their own count hold nothing else.
use rules_stests.Base.{
  ℕ, zero, suc, ◌+◌, ◌≤◌, ◌<◌, ◌≡◌, ◌↔◌, refl, sym, ap, inl, inr, Bool, true, false, ◌&&◌, List, [],
  ◌∷◌, ◌==◌, leb, if◌then◌else◌, length, ok, Bool-cases, ==_iff, guard_iff, arith,
}
use rules_stests.Stress.Ledger.{ℤ, pos, negsuc, eq_int, mem_int, check_from, missing_sequence}

pub eq_int_iff : (a b : ℤ) → (eq_int a b ≡ true) ↔ (a ≡ b)
unfolding eq_int
eq_int_iff (pos a) (pos b) = (λ h. ap pos ((==_iff a b).0 h), λ h. (==_iff a b).1 (cc h))
eq_int_iff (pos a) (negsuc b) = (λ h. cc, λ h. cc)
eq_int_iff (negsuc a) (pos b) = (λ h. cc, λ h. cc)
eq_int_iff (negsuc a) (negsuc b) = (λ h. ap negsuc ((==_iff a b).0 h), λ h. (==_iff a b).1 (cc h))

-- `n` as a number from 1 to `count`.
abbrev pub is_numbered : ℕ → ℤ → Bool
is_numbered count (pos i) = leb 1 i && leb i count
is_numbered count (negsuc i) = false

-- 1 to `count` are all there.
abbrev pub Covers : ℕ → List ℤ → Type 0
Covers count xs = (i : ℕ) → 1 ≤ i → i ≤ count → mem_int (pos i) xs ≡ true

remove : ℤ → List ℤ → List ℤ
remove k [] = []
remove k (x ∷ xs) = if eq_int x k then remove k xs else x ∷ remove k xs

length-remove-le : (k : ℤ) (xs : List ℤ) → length (remove k xs) ≤ length xs
unfolding remove
length-remove-le k [] = omega arith
length-remove-le k (x ∷ xs) = ground (arith, length-remove-le k xs)

length-remove-lt : (k : ℤ) (xs : List ℤ) → mem_int k xs ≡ true → length (remove k xs) < length xs
unfolding remove mem_int
length-remove-lt k [] h = cc
length-remove-lt k (x ∷ xs) h = ground (arith, length-remove-le k xs, length-remove-lt k xs)

mem_int-remove :
    (j k : ℤ) (xs : List ℤ)
    → eq_int k j ≡ false
    → mem_int j xs ≡ true
    → mem_int j (remove k xs) ≡ true
unfolding remove mem_int
mem_int-remove j k [] n h = cc
mem_int-remove j k (x ∷ xs) n h =
    ground (arith, mem_int-remove j k xs, eq_int_iff x k, eq_int_iff x j, eq_int_iff k j)

length-ge_of_Covers : (count : ℕ) (xs : List ℤ) → Covers count xs → count ≤ length xs
length-ge_of_Covers zero xs c = omega arith
length-ge_of_Covers (suc n) xs c =
    let here : mem_int (pos (suc n)) xs ≡ true = c (suc n) (omega arith) (omega arith) in
    let rest : Covers n (remove (pos (suc n)) xs) = λ i l u.
      mem_int-remove (pos i) (pos (suc n)) xs (unfold eq_int in ground (arith, u))
        (c i l (omega (arith, u))) in
    omega (
      arith,
      length-ge_of_Covers n (remove (pos (suc n)) xs) rest,
      length-remove-lt (pos (suc n)) xs here,
    )

-- Numbers that cover their own count hold no number apart from these.
mem_int-eq-false :
    (xs : List ℤ) (k : ℤ)
    → Covers (length xs) xs
    → ((i : ℕ) → 1 ≤ i → i ≤ length xs → eq_int k (pos i) ≡ false)
    → mem_int k xs ≡ false
mem_int-eq-false xs k c apart = elim (Bool-cases (mem_int k xs)) [
  | inl there ↦
      let rest : Covers (length xs) (remove k xs) =
        λ i l u. mem_int-remove (pos i) k xs (apart i l u) (c i l u) in
      ground
        (arith, length-ge_of_Covers (length xs) (remove k xs) rest, length-remove-lt k xs there)
  | inr gone ↦ gone
]

pub covers_lem :
    (xs : List ℤ) → Covers (length xs) xs → (k : ℤ) → mem_int k xs ≡ is_numbered (length xs) k
unfolding eq_int
covers_lem xs c (pos n) = elim (Bool-cases (is_numbered (length xs) (pos n))) [
  | inl inside ↦ rw inside (c n (ground arith) (ground arith))
  | inr outside ↦ rw outside (mem_int-eq-false xs (pos n) c (λ i l u. ground arith))
]
covers_lem xs c (negsuc n) = mem_int-eq-false xs (negsuc n) c (λ i l u. refl)

pub check_from-Covers :
    (left start : ℕ) (xs : List ℤ)
    → check_from left start xs ≡ ok tt
    → (i : ℕ) → start ≤ i
    → i < start + left
    → mem_int (pos i) xs ≡ true
unfolding check_from
check_from-Covers zero start xs h i l u = ground arith
check_from-Covers (suc left) start xs h i l u =
    let (here, later) = (guard_iff (mem_int (pos start) xs) missing_sequence _).0 h in
    elim (Bool-cases (start == i)) [
      | inl same ↦ rw (sym ((==_iff start i).0 same)) here
      | inr other ↦ check_from-Covers left (suc start) xs later i (ground arith) (omega arith)
    ]
