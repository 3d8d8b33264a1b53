-- ===== src/Base/Lists.antt =====
-- Texts and lists measured by native numbers, and lists of texts as sets.
use Prim.Native.Char.{code}
use Prim.Native.Nat.{ℕ, zero, suc, ◌+◌}
use Prim.Native.String.{String}
use mathlib.Core.Path.{◌≡◌, refl, subst}
use mathlib.Core.Bool.{Bool, true, false, ◌&&◌, ◌||◌}
use mathlib.Core.Logic.{◌↔◌, ◌⊎◌, inl, inr}
use mathlib.Core.List.{List, [], ◌∷◌, ◌++◌}
use mathlib.Core.Option.{Option, none, some}
use native.Mathlib.Omega.{arith}
use rules_stests.Base.Tests.{◌==◌, Bool-cases}

abbrev pub Text : Type 0
Text = List ℕ

-- The code points of a literal.
abbrev pub codes : String → Text
codes String.[] = []
codes (String.◌∷◌ c s) = code c ∷ codes s

module _ {ℓ} {A : Type ℓ} where
  abbrev pub length : List A → ℕ
  length [] = 0
  length (x ∷ xs) = suc (length xs)

  abbrev pub get_elem? : List A → ℕ → Option A
  get_elem? [] i = none
  get_elem? (x ∷ xs) zero = some x
  get_elem? (x ∷ xs) (suc i) = get_elem? xs i

  pub length-append : (xs ys : List A) → length (xs ++ ys) ≡ length xs + length ys
  length-append [] ys = omega arith
  length-append (x ∷ xs) ys = omega (arith, length-append xs ys)

  -- `P` of every element: a predicate by recursion, which computes to a tuple.
  abbrev pub All {κ} : (A → Type κ) → List A → Type κ
  All P [] = Unit
  All P (x ∷ xs) = P x × All P xs

  abbrev pub is_nil : List A → Bool
  is_nil [] = true
  is_nil (_ ∷ _) = false

-- Go's `==` on strings.
unfoldable pub text_eq : Text → Text → Bool
text_eq [] [] = true
text_eq (x ∷ xs) (y ∷ ys) = x == y && text_eq xs ys
text_eq _ _ = false

pub text_eq_iff : (a b : Text) → (text_eq a b ≡ true) ↔ (a ≡ b)
unfolding text_eq
text_eq_iff (x ∷ a) (y ∷ b) = ground (arith, text_eq_iff a b)
text_eq_iff _ _ = ground arith

pub text_eq_self : (a : Text) → text_eq a a ≡ true
text_eq_self a = (text_eq_iff a a).1 refl

pub either_text : (t a b : Text) → (text_eq t a || text_eq t b) ≡ true → (t ≡ a) ⊎ (t ≡ b)
either_text t a b h = elim (Bool-cases (text_eq t a)) [
  | inl one ↦ inl ((text_eq_iff t a).0 one)
  | inr other ↦ inr ((text_eq_iff t b).0 (subst (λ c. (c || text_eq t b) ≡ true) other h))
]

module _ {ℓ κ} {A : Type ℓ} {B : Type κ} (R : A → B → Type 0) where
  -- Two lists of one length, related element by element.
  abbrev pub All2 : List A → List B → Type 0
  All2 [] [] = Unit
  All2 [] (y ∷ ys) = ⊥
  All2 (x ∷ xs) [] = ⊥
  All2 (x ∷ xs) (y ∷ ys) = R x y × All2 xs ys

  pub All2-append :
      (xs : List A) (ys : List B) (xs' : List A) (ys' : List B)
      → All2 xs ys
      → All2 xs' ys'
      → All2 (xs ++ xs') (ys ++ ys')
  All2-append [] [] xs' ys' a b = b
  All2-append [] (y ∷ ys) xs' ys' a b = absurd a
  All2-append (x ∷ xs) [] xs' ys' a b = absurd a
  All2-append (x ∷ xs) (y ∷ ys) xs' ys' a b = (a.0, All2-append xs ys xs' ys' a.1 b)
