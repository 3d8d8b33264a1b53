-- ===== src/Shape/Decimals.antt =====
-- `strconv.Atoi` reads back what `%d` prints, for the numbers of a 64-bit integer that are not
-- negative.
use rules_stests.Base.{
  ℕ, zero, suc, ◌+◌, ◌*◌, ◌/◌, ◌%◌, ◌^◌, ◌<◌, ◌≡◌, refl, ap, ◌∙◌, inl, inr, Bool, true, false, ◌&&◌,
  ◌||◌, [], ◌∷◌, some, ◌==◌, ltb, leb, Bool-cases, Text, All, decimal, decimal_onto, arith,
}
use rules_stests.Shape.Cardinality.{digits_value, parse_number}

abbrev pub is_digit : ℕ → Bool
is_digit c = leb b'0' c && leb c b'9'

digits_value-digit :
    (d n : ℕ) (out : Text)
    → d < 10
    → digits_value ((b'0' + d) ∷ out) n ≡ digits_value out (n * 10 + d)
unfolding digits_value
digits_value-digit d n out h =
    let inside : is_digit (b'0' + d) ≡ true = ground arith in
    rw inside (ap (digits_value out) (omega arith))

digits_value-decimal_onto :
    (f n : ℕ) (out : Text) → n < f → digits_value (decimal_onto f n out) 0 ≡ digits_value out n
unfolding decimal_onto
digits_value-decimal_onto zero n out h = elim h [ ]
digits_value-decimal_onto (suc f) n out h = elim (Bool-cases (ltb n 10)) [
  | inl small ↦
      rw small
        (digits_value-digit (n % 10) 0 out (omega arith) ∙ ap (digits_value out) (ground arith))
  | inr large ↦ rw large (
      digits_value-decimal_onto f (n / 10) ((b'0' + n % 10) ∷ out) (ground arith)
      ∙ digits_value-digit (n % 10) (n / 10) out (omega arith)
      ∙ ap (digits_value out) (omega arith))
]

decimal_onto-All :
    (f n : ℕ) (out : Text)
    → All (λ c. is_digit c ≡ true) out
    → All (λ c. is_digit c ≡ true) (decimal_onto f n out)
unfolding decimal_onto
decimal_onto-All zero n out a = a
decimal_onto-All (suc f) n out a = elim (Bool-cases (ltb n 10)) [
  | inl small ↦ rw small (ground arith, a)
  | inr large ↦ rw large (decimal_onto-All f (n / 10) ((b'0' + n % 10) ∷ out) (ground arith, a))
]

-- A numeral is not empty, and all of it is digits.
pub decimal-All : (n : ℕ) → All (λ c. is_digit c ≡ true) (decimal n)
unfolding decimal
decimal-All n = decimal_onto-All (suc n) n [] tt

decimal_onto-cons :
    (f n : ℕ) (c : ℕ) (out : Text) → (d : ℕ) × (ds : Text) × (decimal_onto f n (c ∷ out) ≡ d ∷ ds)
unfolding decimal_onto
decimal_onto-cons zero n c out = (c, out, refl)
decimal_onto-cons (suc f) n c out = elim (Bool-cases (ltb n 10)) [
  | inl small ↦ (b'0' + n % 10, c ∷ out, rw small)
  | inr large ↦
      let (d, ds, e) = decimal_onto-cons f (n / 10) (b'0' + n % 10) (c ∷ out) in (d, ds, rw large e)
]

pub decimal_cons : (n : ℕ) → (d : ℕ) × (ds : Text) × (decimal n ≡ d ∷ ds)
unfolding decimal decimal_onto
decimal_cons n = elim (Bool-cases (ltb n 10)) [
  | inl small ↦ (b'0' + n % 10, [], rw small)
  | inr large ↦
      let (d, ds, e) = decimal_onto-cons n (n / 10) (b'0' + n % 10) [] in (d, ds, rw large e)
]

digits_value-decimal : (n : ℕ) → digits_value (decimal n) 0 ≡ some n
unfolding decimal digits_value
digits_value-decimal n = digits_value-decimal_onto (suc n) n [] (omega arith)

-- Digits in range are read as what they spell.
parse_number_digits :
    (t : Text) (n : ℕ)
    → All (λ c. is_digit c ≡ true) t
    → digits_value t 0 ≡ some n
    → n < 2 ^ 63
    → (d : ℕ) (ds : Text) → t ≡ d ∷ ds
    → parse_number t ≡ some n
unfolding parse_number
parse_number_digits [] n a v h d ds e = cc
parse_number_digits (c ∷ []) n a v h d ds e = v
parse_number_digits (c ∷ x ∷ xs) n a v h d ds e =
    let plain : (c == b'+' || c == b'-') ≡ false = ground (arith, a.0) in
    let positive : (c == b'-') ≡ false = ground (arith, a.0) in
    let small : leb (2 ^ 63) n ≡ false = ground arith in
    rw (plain, parse_number) (rw v (rw (positive, small)))

pub parse_number-decimal : (n : ℕ) → n < 2 ^ 63 → parse_number (decimal n) ≡ some n
parse_number-decimal n h =
    let (d, ds, e) = decimal_cons n in
    parse_number_digits (decimal n) n (decimal-All n) (digits_value-decimal n) h d ds e
