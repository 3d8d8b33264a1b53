-- ===== src/Report/Deltas.antt =====
-- report/report/report.go: what mergeDelta and the comparisons of BuildModelForProfiles compute.
use rules_stests.Base.{
  ℕ, Bool, true, false, ◌≡◌, refl, ap, ◌∙◌, inl, inr, List, [], ◌∷◌, none, some, ◌==◌,
  if◌then◌else◌, Bool-cases, Text, All, text_eq, text_eq_iff, mem, lookup, keys, Distinct, arith,
}
use rules_stests.Shape.Types.{add64}
use rules_stests.Report.Compare.{sub64, put_nonzero, bump, merge_delta, plus, minus}

-- `m[k]` on a map of numbers.
abbrev pub count_at : Text → List (Text × ℕ) → ℕ
count_at k m = elim (lookup k m) [ none ↦ 0 | some v ↦ v ]

abbrev pub NonZero : List (Text × ℕ) → Type 0
NonZero m = All (λ e. (e.1 == 0) ≡ false) m

count_at-cons :
    (k j : Text) (v : ℕ) (m : List (Text × ℕ))
    → count_at k ((j, v) ∷ m) ≡ (if text_eq j k then v else count_at k m)
unfolding lookup
count_at-cons k j v m = ground arith

count_at-missing : (k : Text) (m : List (Text × ℕ)) → mem k (keys m) ≡ false → count_at k m ≡ 0
unfolding lookup mem
count_at-missing k [] h = refl
count_at-missing k ((j, v) ∷ m) h = ground (arith, count_at-missing k m)

count_at-put_nonzero :
    (k j : Text) (v : ℕ) (m : List (Text × ℕ))
    → mem j (keys m) ≡ false
    → count_at k (put_nonzero j v m) ≡ (if text_eq j k then v else count_at k m)
unfolding put_nonzero
count_at-put_nonzero k j v m new = elim (Bool-cases (v == 0)) [
  | inl zero_left ↦ rw zero_left (ground (arith, text_eq_iff j k, count_at-missing j m, zero_left))
  | inr some_left ↦ rw some_left (count_at-cons k j v m)
]

count_at-bump :
    (k j : Text) (n : ℕ) (m : List (Text × ℕ))
    → Distinct (keys m)
    → count_at k (bump j n m) ≡ (if text_eq j k then add64 (count_at k m) n else count_at k m)
unfolding bump mem lookup
count_at-bump k j n [] d = count_at-put_nonzero k j (add64 0 n) [] refl
count_at-bump k j n ((i, v) ∷ m) (new, d) = ground (
  arith,
  text_eq_iff i j,
  text_eq_iff i k,
  text_eq_iff j k,
  count_at-cons k i v m,
  count_at-put_nonzero k i (add64 v n) m,
  count_at-cons k i v (bump j n m),
  count_at-bump k j n m d,
)

put_nonzero-Distinct :
    (j : Text) (v : ℕ) (m : List (Text × ℕ))
    → mem j (keys m) ≡ false
    → Distinct (keys m)
    → Distinct (keys (put_nonzero j v m))
unfolding put_nonzero
put_nonzero-Distinct j v m new d = elim (Bool-cases (v == 0)) [
  | inl zero_left ↦ rw zero_left d
  | inr some_left ↦ rw some_left (new, d)
]

put_nonzero-NonZero :
    (j : Text) (v : ℕ) (m : List (Text × ℕ)) → NonZero m → NonZero (put_nonzero j v m)
unfolding put_nonzero
put_nonzero-NonZero j v m z = elim (Bool-cases (v == 0)) [
  | inl zero_left ↦ rw zero_left z
  | inr some_left ↦ rw some_left (some_left, z)
]

mem-keys-bump :
    (k j : Text) (n : ℕ) (m : List (Text × ℕ))
    → mem k (keys m) ≡ false
    → text_eq j k ≡ false
    → mem k (keys (bump j n m)) ≡ false
unfolding bump mem put_nonzero
mem-keys-bump k j n [] h e = ground arith
mem-keys-bump k j n ((i, v) ∷ m) h e = ground (arith, mem-keys-bump k j n m)

bump-Distinct :
    (j : Text) (n : ℕ) (m : List (Text × ℕ)) → Distinct (keys m) → Distinct (keys (bump j n m))
unfolding bump mem
bump-Distinct j n [] d = put_nonzero-Distinct j (add64 0 n) [] refl tt
bump-Distinct j n ((i, v) ∷ m) (new, d) = elim (Bool-cases (text_eq i j)) [
  | inl same ↦ rw same (put_nonzero-Distinct i (add64 v n) m new d)
  | inr other ↦ rw other (
    mem-keys-bump i j n m new (ground (arith, text_eq_iff i j, text_eq_iff j i, other)),
    bump-Distinct j n m d,
  )
]

bump-NonZero : (j : Text) (n : ℕ) (m : List (Text × ℕ)) → NonZero m → NonZero (bump j n m)
unfolding bump
bump-NonZero j n [] z = put_nonzero-NonZero j (add64 0 n) [] tt
bump-NonZero j n ((i, v) ∷ m) (p, z) = elim (Bool-cases (text_eq i j)) [
  | inl same ↦ rw same (put_nonzero-NonZero i (add64 v n) m z)
  | inr other ↦ rw other (p, bump-NonZero j n m z)
]

-- What a merge leaves under each key.
count_at-merge_delta :
    (sign : ℕ → ℕ) (k : Text) (destination values : List (Text × ℕ))
    → Distinct (keys destination)
    → Distinct (keys values)
    → count_at k (merge_delta sign destination values) ≡ (
        if mem k (keys values)
        then add64 (count_at k destination) (sign (count_at k values))
        else count_at k destination)
unfolding merge_delta mem
count_at-merge_delta sign k m [] d e = refl
count_at-merge_delta sign k m ((j, v) ∷ values) d (new, e) = ground (
  arith,
  text_eq_iff j k,
  count_at-cons k j v values,
  count_at-bump k j (sign v) m d,
  count_at-merge_delta sign k (bump j (sign v) m) values (bump-Distinct j (sign v) m d) e,
)

merge_delta-Distinct :
    (sign : ℕ → ℕ) (m values : List (Text × ℕ))
    → Distinct (keys m)
    → Distinct (keys (merge_delta sign m values))
unfolding merge_delta
merge_delta-Distinct sign m [] d = d
merge_delta-Distinct sign m ((j, v) ∷ values) d =
    merge_delta-Distinct sign (bump j (sign v) m) values (bump-Distinct j (sign v) m d)

merge_delta-NonZero :
    (sign : ℕ → ℕ) (m values : List (Text × ℕ)) → NonZero m → NonZero (merge_delta sign m values)
unfolding merge_delta
merge_delta-NonZero sign m [] z = z
merge_delta-NonZero sign m ((j, v) ∷ values) z =
    merge_delta-NonZero sign (bump j (sign v) m) values (bump-NonZero j (sign v) m z)

-- Taking away `l` and adding `r`, each skipped where it is missing.
net :
    (l r : ℕ) (has_l has_r : Bool)
    → (has_l ≡ false → l ≡ 0)
    → (has_r ≡ false → r ≡ 0)
    → (if has_r
        then add64 (if has_l then add64 0 (minus l) else 0) r
        else if has_l
        then add64 0 (minus l)
        else 0)
      ≡ sub64 r l
unfolding sub64
net l r true true p q = omega arith
net l r true false p q = omega (arith, q refl)
net l r false true p q = omega (arith, p refl)
net l r false false p q = omega (arith, p refl, q refl)

-- A delta of two maps: the difference under each key on 64 bits, with no key that holds 0.
pub record IsDelta (l r d : List (Text × ℕ)) : Type 0 where
  pub differs : (k : Text) → count_at k d ≡ sub64 (count_at k r) (count_at k l)
  pub non_zero : NonZero d
  pub distinct : Distinct (keys d)

pub merge_delta-IsDelta :
    (l r : List (Text × ℕ))
    → Distinct (keys l)
    → Distinct (keys r)
    → IsDelta l r (merge_delta plus (merge_delta minus [] l) r)
unfolding lookup
merge_delta-IsDelta l r dl dr =
    let d = merge_delta-Distinct minus [] l tt in
    record {
      differs = λ k.
          let first = count_at-merge_delta minus k [] l tt dl in
          let second = count_at-merge_delta plus k (merge_delta minus [] l) r d dr in
          second
          ∙ ap (λ x. if mem k (keys r) then add64 x (count_at k r) else x) (first ∙ empty_at k)
          ∙ net (count_at k l) (count_at k r) (mem k (keys l)) (mem k (keys r))
              (count_at-missing k l) (count_at-missing k r);
      non_zero =
          merge_delta-NonZero plus (merge_delta minus [] l) r (merge_delta-NonZero minus [] l tt);
      distinct = merge_delta-Distinct plus (merge_delta minus [] l) r d;
    }
  where
    empty_at :
        (k : Text)
        → (if mem k (keys l) then add64 (count_at k []) (minus (count_at k l)) else count_at k [])
          ≡ (if mem k (keys l) then add64 0 (minus (count_at k l)) else 0)
    empty_at k = refl
