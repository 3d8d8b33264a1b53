-- ===== src/Base/Sets.antt =====
-- Go maps as association lists, and `map[string]bool` as lists of the keys that hold true.
use mathlib.Core.Path.{◌≡◌, refl}
use mathlib.Core.Bool.{Bool, true, false, ◌||◌}
use mathlib.Core.Logic.{inl, inr}
use mathlib.Core.List.{List, [], ◌∷◌}
use mathlib.Core.Option.{Option, none, some}
use Prim.Native.Nat.{◌≤◌, ◌<◌}
use native.Mathlib.Omega.{arith}
use rules_stests.Base.Tests.{if◌then◌else◌, Bool-cases}
use rules_stests.Base.Lists.{Text, length, text_eq, text_eq_iff, text_eq_self}

unfoldable pub mem : Text → List Text → Bool
mem k [] = false
mem k (x ∷ xs) = text_eq x k || mem k xs

-- `set[k] = true`.
unfoldable pub add : Text → List Text → List Text
add k xs = if mem k xs then xs else k ∷ xs

unfoldable pub lookup {ℓ} : {V : Type ℓ} → Text → List (Text × V) → Option V
lookup k [] = none
lookup k ((j, v) ∷ m) = if text_eq j k then some v else lookup k m

abbrev pub keys {ℓ} : {V : Type ℓ} → List (Text × V) → List Text
keys [] = []
keys ((j, v) ∷ m) = j ∷ keys m

pub length-keys {ℓ} : {V : Type ℓ} (m : List (Text × V)) → length (keys m) ≡ length m
length-keys [] = refl
length-keys (e ∷ m) = omega (arith, length-keys m)

-- No key occurs twice.
abbrev pub Distinct : List Text → Type 0
Distinct [] = Unit
Distinct (x ∷ xs) = (mem x xs ≡ false) × Distinct xs

abbrev pub Subset : List Text → List Text → Type 0
Subset xs ys = (k : Text) → mem k xs ≡ true → mem k ys ≡ true

pub lookup-missing {ℓ} :
    {V : Type ℓ} (k : Text) (m : List (Text × V)) → mem k (keys m) ≡ false → lookup k m ≡ none
unfolding lookup mem
lookup-missing k [] h = refl
lookup-missing k ((j, v) ∷ m) h = ground (arith, lookup-missing k m)

pub lookup-present {ℓ} :
    {V : Type ℓ} (k : Text) (m : List (Text × V))
    → mem k (keys m) ≡ true
    → (v : V) × (lookup k m ≡ some v)
unfolding lookup mem
lookup-present k [] h = cc
lookup-present k ((j, v) ∷ m) h = elim (Bool-cases (text_eq j k)) [
  | inl here ↦ (v, rw here)
  | inr other ↦ let (w, e) = lookup-present k m (ground arith) in (w, rw other e)
]

pub mem-keys_of_lookup {ℓ} :
    {V : Type ℓ} (k : Text) (m : List (Text × V)) {v : V}
    → lookup k m ≡ some v
    → mem k (keys m) ≡ true
mem-keys_of_lookup k m h = elim (Bool-cases (mem k (keys m))) [
  | inl there ↦ there
  | inr missing ↦ let e = lookup-missing k m missing in cc
]

-- An entry with a new key hides no other.
pub lookup-cons_new {ℓ} :
    {V : Type ℓ} (k j : Text) (v w : V) (m : List (Text × V))
    → mem j (keys m) ≡ false
    → lookup k m ≡ some w
    → lookup k ((j, v) ∷ m) ≡ some w
unfolding lookup
lookup-cons_new k j v w m new h = elim (Bool-cases (text_eq j k)) [
  | inl same ↦
      let missing : lookup j m ≡ none = lookup-missing j m new in
      let h' : lookup j m ≡ some w = rw ((text_eq_iff j k).0 same) h in cc
  | inr other ↦ rw other h
]

pub mem-cons_self : (k : Text) (xs : List Text) → mem k (k ∷ xs) ≡ true
unfolding mem
mem-cons_self k xs = rw (text_eq_self k)

pub mem-add : (k j : Text) (xs : List Text) → mem k (add j xs) ≡ (text_eq j k || mem k xs)
unfolding add mem
mem-add k j xs = ground (arith, text_eq_iff j k)

pub add-Distinct : (k : Text) (xs : List Text) → Distinct xs → Distinct (add k xs)
unfolding add
add-Distinct k xs d = elim (Bool-cases (mem k xs)) [
  | inl old ↦ rw old d
  | inr new ↦ rw new (new, d)
]

-- Every occurrence of `k` taken out.
remove : Text → List Text → List Text
remove k [] = []
remove k (x ∷ xs) = if text_eq x k then remove k xs else x ∷ remove k xs

length-remove-le : (k : Text) (xs : List Text) → length (remove k xs) ≤ length xs
unfolding remove
length-remove-le k [] = omega arith
length-remove-le k (x ∷ xs) = ground (arith, length-remove-le k xs)

length-remove-lt : (k : Text) (xs : List Text) → mem k xs ≡ true → length (remove k xs) < length xs
unfolding remove mem
length-remove-lt k [] h = cc
length-remove-lt k (x ∷ xs) h = ground (arith, length-remove-le k xs, length-remove-lt k xs)

mem-remove :
    (j k : Text) (xs : List Text)
    → text_eq k j ≡ false
    → mem j xs ≡ true
    → mem j (remove k xs) ≡ true
unfolding remove mem
mem-remove j k [] n h = cc
mem-remove j k (x ∷ xs) n h =
    ground (arith, mem-remove j k xs, text_eq_iff x k, text_eq_iff x j, text_eq_iff k j)

-- A list with no repetition that lies inside another is no longer than it.
pub length-le_of_Subset : (xs ys : List Text) → Distinct xs → Subset xs ys → length xs ≤ length ys
length-le_of_Subset [] ys d s = omega arith
length-le_of_Subset (x ∷ xs) ys d s =
    let inside : Subset xs (remove x ys) =
      λ k h. mem-remove k x ys (apart k h) (s k (unfold mem in rw h (or_true (text_eq x k)))) in
    omega (
      arith,
      length-le_of_Subset xs (remove x ys) d.1 inside,
      length-remove-lt x ys (s x (mem-cons_self x xs)),
    )
  where
    or_true : (b : Bool) → (b || true) ≡ true
    or_true true = refl
    or_true false = refl

    apart : (k : Text) → mem k xs ≡ true → text_eq x k ≡ false
    apart k h = ground (arith, text_eq_iff x k, d.0)

-- A list with no repetition, inside another that is no longer, holds all of it.
pub Subset-of_length :
    (xs ys : List Text) → Distinct xs → Subset xs ys → length ys ≤ length xs → Subset ys xs
Subset-of_length xs ys d s le k h = elim (Bool-cases (mem k xs)) [
  | inl there ↦ there
  | inr missing ↦
      let wider : Subset (k ∷ xs) ys = λ j m. unfold mem in ground (arith, text_eq_iff k j, s j) in
      ground (arith, length-le_of_Subset (k ∷ xs) ys (missing, d) wider)
]
