-- ===== src/Base/Errors.antt =====
-- Fallible code: a value or an error, chained by `do`.
use mathlib.Core.Path.{◌≡◌, refl}
use mathlib.Core.Bool.{Bool, true, false}
use mathlib.Core.Logic.{◌↔◌, ◌≢◌}

pub data Result {ℓ κ} (E : Type ℓ) (A : Type κ) : Type (ℓ ⊔ κ) where
  err : E → Result E A
  ok : A → Result E A

-- `if !b { return e }`.
abbrev pub guard {ℓ} : {E : Type ℓ} → (passes : Bool) → (otherwise : E) → Result E (Unit {0})
guard false failure = err failure
guard true failure = ok tt

infixl 5 ◌>>=◌ ◌>>◌
abbrev pub ◌>>=◌ {ℓ κ ι} :
    {E : Type ℓ} {A : Type κ} {B : Type ι} (step : Result E A) (next : A → Result E B) → Result E B
err failure >>= next = err failure
ok value >>= next = next value

pub ok-injective {ℓ κ} :
    {E : Type ℓ} {A : Type κ} {a b : A} → ◌≡◌ {A = Result E A} (ok a) (ok b) → a ≡ b
ok-injective e = cc e

abbrev pub ◌>>◌ {ℓ ι} :
    {E : Type ℓ} {B : Type ι} (check : Result E (Unit {0})) (next : Result E B) → Result E B
check >> next = check >>= (λ done. next)

pub guard_iff {ℓ ι} :
    {E : Type ℓ} {B : Type ι} (b : Bool) (e : E) (k : Result E B) {x : B}
    → ((guard b e >> k) ≡ ok x) ↔ (b ≡ true) × (k ≡ ok x)
guard_iff true e k = (λ h. (refl, h), λ h. h.1)
guard_iff false e k = (λ h. cc, λ h. cc)

pub guard-eq-ok {ℓ} :
    {E : Type ℓ} (b : Bool) (e : E) {done : Unit {0}} → guard b e ≡ ok done → b ≡ true
guard-eq-ok true e h = refl
guard-eq-ok false e h = cc h

-- A chain that ends well has a first step that does.
pub >>=-eq-ok {ℓ κ ι} :
    {E : Type ℓ} {A : Type κ} {B : Type ι} (step : Result E A) (next : A → Result E B) {result : B}
    → (step >>= next) ≡ ok result
    → (value : A) × (step ≡ ok value) × (next value ≡ ok result)
>>=-eq-ok (err failure) next ended = cc
>>=-eq-ok (ok value) next ended = (value, refl, ended)

-- A chain does not end in an error that none of its parts ends in.
pub >>=-ne-err {ℓ κ ι} :
    {E : Type ℓ} {A : Type κ} {B : Type ι} (m : Result E A) (f : A → Result E B) {x : E}
    → m ≢ err x
    → ((a : A) → m ≡ ok a → f a ≢ err x)
    → (m >>= f) ≢ err x
>>=-ne-err (ok a) f n k = k a refl
>>=-ne-err (err y) f n k = λ e. n (cc e)
