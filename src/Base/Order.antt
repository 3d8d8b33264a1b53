-- ===== src/Base/Order.antt =====
-- Go's order on strings, sort.Strings, decimal numerals (`%d`) and strings.Join.
use Prim.Native.Nat.{ℕ, zero, suc, ◌+◌, ◌/◌, ◌%◌}
use mathlib.Core.Path.{◌≡◌, refl, ◌∙◌}
use mathlib.Core.Bool.{Bool, true, false, ◌&&◌, ◌||◌}
use mathlib.Core.Logic.{inl, inr}
use mathlib.Core.List.{List, [], ◌∷◌, ◌++◌}
use native.Mathlib.Omega.{arith}
use rules_stests.Base.Tests.{if◌then◌else◌, ltb, ◌==◌, Bool-cases}
use rules_stests.Base.Lists.{Text, All, text_eq, text_eq_iff}
use rules_stests.Base.Sets.{mem, Distinct}

-- `a < b` on strings: the first difference decides, and a prefix comes first.
unfoldable pub text_lt : Text → Text → Bool
text_lt [] [] = false
text_lt [] (y ∷ ys) = true
text_lt (x ∷ xs) [] = false
text_lt (x ∷ xs) (y ∷ ys) = ltb x y || (x == y && text_lt xs ys)

pub text_lt_irrefl : (a : Text) → text_lt a a ≡ false
unfolding text_lt
text_lt_irrefl [] = refl
text_lt_irrefl (x ∷ a) = ground (arith, text_lt_irrefl a)

pub text_lt_asymm : (a b : Text) → text_lt a b ≡ true → text_lt b a ≡ false
unfolding text_lt
text_lt_asymm [] [] h = cc
text_lt_asymm [] (y ∷ b) h = refl
text_lt_asymm (x ∷ a) [] h = cc
text_lt_asymm (x ∷ a) (y ∷ b) h = ground (arith, text_lt_asymm a b)

pub text_lt_trans : (a b c : Text) → text_lt a b ≡ true → text_lt b c ≡ true → text_lt a c ≡ true
unfolding text_lt
text_lt_trans [] [] c h k = cc
text_lt_trans [] (y ∷ b) [] h k = cc
text_lt_trans [] (y ∷ b) (z ∷ c) h k = refl
text_lt_trans (x ∷ a) [] c h k = cc
text_lt_trans (x ∷ a) (y ∷ b) [] h k = cc
text_lt_trans (x ∷ a) (y ∷ b) (z ∷ c) h k = ground (arith, text_lt_trans a b c)

-- Two texts neither of which is below the other are one.
pub text_lt_total : (a b : Text) → text_lt a b ≡ false → text_lt b a ≡ false → a ≡ b
unfolding text_lt
text_lt_total [] [] h k = refl
text_lt_total [] (y ∷ b) h k = cc
text_lt_total (x ∷ a) [] h k = cc
text_lt_total (x ∷ a) (y ∷ b) h k = ground (arith, text_lt_total a b)

unfoldable pub insert_text : Text → List Text → List Text
insert_text k [] = k ∷ []
insert_text k (x ∷ xs) = if text_lt x k then x ∷ insert_text k xs else k ∷ x ∷ xs

-- `sort.Strings`: equal strings cannot be told apart, so the algorithm does not show.
unfoldable pub sort_texts : List Text → List Text
unfolding insert_text
sort_texts [] = []
sort_texts (x ∷ xs) = insert_text x (sort_texts xs)

mem-insert_text :
    (j k : Text) (xs : List Text) → mem j (insert_text k xs) ≡ (text_eq k j || mem j xs)
unfolding insert_text mem
mem-insert_text j k [] = refl
mem-insert_text j k (x ∷ xs) = ground (arith, mem-insert_text j k xs)

pub mem-sort_texts : (j : Text) (xs : List Text) → mem j (sort_texts xs) ≡ mem j xs
unfolding sort_texts mem
mem-sort_texts j [] = refl
mem-sort_texts j (x ∷ xs) = ground (arith, mem-insert_text j x (sort_texts xs), mem-sort_texts j xs)

insert_text-Distinct :
    (k : Text) (xs : List Text) → mem k xs ≡ false → Distinct xs → Distinct (insert_text k xs)
unfolding insert_text mem
insert_text-Distinct k [] h d = (refl, tt)
insert_text-Distinct k (x ∷ xs) h d = elim (Bool-cases (text_lt x k)) [
  | inl lt ↦ rw lt (
    mem-insert_text x k xs ∙ ground (arith, d.0, text_eq_iff k x, text_eq_iff x k),
    insert_text-Distinct k xs (ground arith) d.1,
  )
  | inr ge ↦ rw ge (h, d)
]

pub sort_texts-Distinct : (xs : List Text) → Distinct xs → Distinct (sort_texts xs)
unfolding sort_texts
sort_texts-Distinct [] d = tt
sort_texts-Distinct (x ∷ xs) d =
    insert_text-Distinct x (sort_texts xs) (mem-sort_texts x xs ∙ d.0) (sort_texts-Distinct xs d.1)

-- No element is below an earlier one.
abbrev pub IsSorted : List Text → Type 0
IsSorted [] = Unit
IsSorted (x ∷ xs) = All (λ y. text_lt y x ≡ false) xs × IsSorted xs

below_insert :
    (z k : Text) (xs : List Text)
    → text_lt k z ≡ false
    → All (λ y. text_lt y z ≡ false) xs
    → All (λ y. text_lt y z ≡ false) (insert_text k xs)
unfolding insert_text
below_insert z k [] h a = (h, tt)
below_insert z k (x ∷ xs) h a = elim (Bool-cases (text_lt x k)) [
  | inl lt ↦ rw lt (a.0, below_insert z k xs h a.1)
  | inr ge ↦ rw ge (h, a)
]

-- What is not below `x` is not below any `k` that `x` is not below.
not_below_trans : (y x k : Text) → text_lt y x ≡ false → text_lt x k ≡ false → text_lt y k ≡ false
not_below_trans y x k h g = elim (Bool-cases (text_lt y k)) [
  | inr done ↦ done
  | inl lt ↦ elim (Bool-cases (text_lt k x)) [
    | inl kx ↦ ground (arith, text_lt_trans y k x lt kx)
    | inr xk ↦ ground (arith, text_lt_total k x xk g)
  ]
]

below_trans :
    (x k : Text) (xs : List Text)
    → text_lt x k ≡ false
    → All (λ y. text_lt y x ≡ false) xs
    → All (λ y. text_lt y k ≡ false) xs
below_trans x k [] h a = tt
below_trans x k (y ∷ xs) h a = (not_below_trans y x k a.0 h, below_trans x k xs h a.1)

insert_text-IsSorted : (k : Text) (xs : List Text) → IsSorted xs → IsSorted (insert_text k xs)
unfolding insert_text
insert_text-IsSorted k [] s = (tt, tt)
insert_text-IsSorted k (x ∷ xs) s = elim (Bool-cases (text_lt x k)) [
  | inl lt ↦ rw lt (below_insert x k xs (text_lt_asymm x k lt) s.0, insert_text-IsSorted k xs s.1)
  | inr ge ↦ rw ge ((ge, below_trans x k xs ge s.0), s)
]

pub sort_texts-IsSorted : (xs : List Text) → IsSorted (sort_texts xs)
unfolding sort_texts
sort_texts-IsSorted [] = tt
sort_texts-IsSorted (x ∷ xs) = insert_text-IsSorted x (sort_texts xs) (sort_texts-IsSorted xs)

-- `%d` of a number that is not negative; the fuel is above the number of digits.
unfoldable pub decimal_onto : ℕ → ℕ → Text → Text
decimal_onto zero n out = out
decimal_onto (suc f) n out =
    let digit = (b'0' + n % 10) ∷ out in
    let more = decimal_onto f (n / 10) digit in if ltb n 10 then digit else more

unfoldable pub decimal : ℕ → Text
unfolding decimal_onto
decimal n = decimal_onto (suc n) n []

-- `strings.Join`.
unfoldable pub join : Text → List Text → Text
join sep [] = []
join sep (x ∷ []) = x
join sep (x ∷ y ∷ ys) = x ++ (sep ++ join sep (y ∷ ys))
