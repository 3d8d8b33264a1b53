-- ===== src/Stress/Forest.antt =====
-- harness/parallel_scenarios.go: the chains of `components` in stressIndex, what find and join make
-- of them, and that they end.
use rules_stests.Base.{
  ℕ, zero, suc, ◌≤◌, ◌<◌, ◌≡◌, ◌≢◌, refl, sym, ap, ◌∙◌, inl, inr, List, ◌==◌, if◌then◌else◌, length,
  get_or, set, length-set, get_or-set, Bool-cases, ==_iff, arith,
}
use mathlib.Core.Path.{subst}
use rules_stests.Stress.Union.{find_from}

abbrev pub parent : List ℕ → ℕ → ℕ
parent c x = get_or c x 0

-- From `x`, `k` steps lead to the component `r`.
abbrev pub Leads : List ℕ → ℕ → ℕ → ℕ → Type 0
Leads c zero x r = (parent c x ≡ x) × (r ≡ x)
Leads c (suc k) x r = (parent c x ≢ x) × Leads c k (parent c x) r

abbrev pub HasRoot : List ℕ → ℕ → ℕ → Type 0
HasRoot c x r = (k : ℕ) × Leads c k x r

-- Every index leads to a component, inside the array.
pub record IsForest (c : List ℕ) : Type 0 where
  pub inside : (x : ℕ) → x < length c → parent c x < length c
  pub rooted : (x : ℕ) → x < length c → (r : ℕ) × HasRoot c x r

pub Leads-unique :
    (c : List ℕ) (k j x : ℕ) {r s : ℕ} → Leads c k x r → Leads c j x s → (k ≡ j) × (r ≡ s)
Leads-unique c zero zero x a b = (refl, a.1 ∙ sym b.1)
Leads-unique c zero (suc j) x a b = absurd (b.0 a.0)
Leads-unique c (suc k) zero x a b = absurd (a.0 b.0)
Leads-unique c (suc k) (suc j) x a b =
    let (e, f) = Leads-unique c k j (parent c x) a.1 b.1 in (ap suc e, f)

-- The component that `x` leads to is one, and inside.
pub root-of_Leads : (c : List ℕ) (k x : ℕ) {r : ℕ} → Leads c k x r → parent c r ≡ r
root-of_Leads c zero x a = rw a.1 a.0
root-of_Leads c (suc k) x a = root-of_Leads c k (parent c x) a.1

pub root-inside :
    (c : List ℕ) (k x : ℕ) {r : ℕ} → IsForest c → x < length c → Leads c k x r → r < length c
root-inside c zero x f h a = rw a.1 h
root-inside c (suc k) x f h a = root-inside c k (parent c x) f (f.inside x h) a.1

-- Path halving: `i` is moved to the parent of its parent.
halve : List ℕ → ℕ → List ℕ
halve c i = set c i (parent c (parent c i))

parent-halve :
    (c : List ℕ) (i x : ℕ)
    → i < length c
    → parent (halve c i) x ≡ (if i == x then parent c (parent c i) else parent c x)
unfolding halve
parent-halve c i x h = get_or-set c i x (parent c (parent c i)) 0 h

-- It keeps where a chain leads, and makes none longer.
Leads-halve :
    (c : List ℕ) (i k x : ℕ) {r : ℕ}
    → i < length c
    → parent c i ≢ i
    → Leads c k x r
    → (j : ℕ) × (j ≤ k) × Leads (halve c i) j x r
Leads-halve c i zero x h n (e, s) = (0, omega arith, (ground (arith, parent-halve c i x h), s))
Leads-halve c i (suc zero) x {r = r} h n (m, (e, s)) =
    let far : parent (halve c i) (parent c x) ≡ parent c x =
      ground (arith, parent-halve c i (parent c x) h) in
    let near : parent (halve c i) x ≡ parent c x = ground (arith, parent-halve c i x h) in
    (1, omega arith, rw near (m, (far, s)))
Leads-halve c i (suc (suc k)) x {r = r} h n (m, (m', d)) = elim (Bool-cases (i == x)) [
  | inr other ↦
      let (j, le, d') = Leads-halve c i (suc k) (parent c x) h n (m', d) in
      let same : parent (halve c i) x ≡ parent c x = ground (arith, parent-halve c i x h) in
      (suc j, omega (arith, le), rw same (m, d'))
  | inl here ↦
      let (j, le, d') = Leads-halve c i k (parent c (parent c x)) h n d in
      let near : parent (halve c i) x ≡ parent c (parent c x) =
        ground (arith, parent-halve c i x h) in
      elim (Bool-cases (parent c (parent c x) == x)) [
        | inl back ↦
            let same : parent c (parent c x) ≡ x = (==_iff _ _).0 back in
            (j, omega (arith, le), subst (λ y. Leads (halve c i) j y r) same d')
        | inr away ↦
            let apart : parent c (parent c x) ≢ x = ground arith in
            (suc j, omega (arith, le), rw near (apart, d'))
      ]
]

halve-IsForest :
    (c : List ℕ) (i : ℕ) → i < length c → parent c i ≢ i → IsForest c → IsForest (halve c i)
halve-IsForest c i h n f = record {
  inside = λ x l.
      let l' : x < length c = omega (arith, l, same) in
      ground (
        arith,
        parent-halve c i x h,
        f.inside x l',
        f.inside i h,
        f.inside (parent c i) (f.inside i h),
        same,
      );
  rooted = λ x l.
      let (r, (k, d)) = f.rooted x (omega (arith, l, same)) in
      let (j, le, d') = Leads-halve c i k x h n d in (r, (j, d'));
}
  where
    same : length (halve c i) ≡ length c
    same = unfold halve in length-set c i (parent c (parent c i))

-- `d` is an array with the same components as `c`.
pub record Same (c d : List ℕ) : Type 0 where
  pub size : length d ≡ length c
  pub forest : IsForest d
  pub keeps : (x r : ℕ) → HasRoot c x r → HasRoot d x r

halve-Same : (c : List ℕ) (i : ℕ) → i < length c → parent c i ≢ i → IsForest c → Same c (halve c i)
halve-Same c i h n f = record {
  size = unfold halve in length-set c i (parent c (parent c i));
  forest = halve-IsForest c i h n f;
  keeps = λ x r (k, d). let (j, le, d') = Leads-halve c i k x h n d in (j, d');
}

pub Same-trans : (c d e : List ℕ) → Same c d → Same d e → Same c e
Same-trans c d e s t = record {
  size = t.size ∙ s.size;
  forest = t.forest;
  keeps = λ x r a. t.keeps x r (s.keeps x r a);
}

-- Behind a halving the chain of `i` is shorter.
Leads-parent-halve :
    (c : List ℕ) (i k : ℕ) {r : ℕ}
    → i < length c
    → parent c i ≢ i
    → Leads c k i r
    → (j : ℕ) × (j < k) × Leads (halve c i) j (parent (halve c i) i) r
Leads-parent-halve c i zero h n d = absurd (n d.0)
Leads-parent-halve c i (suc k) {r = r} h n (m, d) =
    let near : parent (halve c i) i ≡ parent c (parent c i) =
      ground (arith, parent-halve c i i h) in
    go k d near
  where
    go :
        (k : ℕ)
        → Leads c k (parent c i) r
        → parent (halve c i) i ≡ parent c (parent c i)
        → (j : ℕ) × (j < suc k) × Leads (halve c i) j (parent (halve c i) i) r
    go zero (e, s) near =
        let far : parent (halve c i) (parent c i) ≡ parent c i =
          ground (arith, parent-halve c i (parent c i) h) in
        (0, omega arith, rw (near, e) (far, s))
    go (suc k) (m', d') near =
        let (j, le, a) = Leads-halve c i k (parent c (parent c i)) h n d' in
        (j, omega (arith, le), rw near a)

pub find_from-Same :
    (fuel : ℕ) (c : List ℕ) (i k r : ℕ)
    → IsForest c
    → i < length c
    → Leads c k i r
    → k ≤ fuel
    → Same c (find_from fuel c i).0 × ((find_from fuel c i).1 ≡ r)
unfolding find_from halve
find_from-Same zero c i zero r f h d l =
    (record { size = refl; forest = f; keeps = λ x s a. a }, sym d.1)
find_from-Same zero c i (suc k) r f h d l = absurd (omega (arith, l))
find_from-Same (suc fuel) c i k r f h d l = elim (Bool-cases (parent c i == i)) [
  | inl root ↦
      let (e, same) = Leads-unique c k 0 i d ((==_iff _ _).0 root, refl) in
      rw (root, find_from) (record { size = refl; forest = f; keeps = λ x s a. a }, sym same)
  | inr child ↦
      let n : parent c i ≢ i = ground arith in
      let (j, le, d') = Leads-parent-halve c i k h n d in
      let s = halve-Same c i h n f in
      let next : parent (halve c i) i < length (halve c i) =
        s.forest.inside i (omega (arith, h, s.size)) in
      let (t, e) =
        find_from-Same fuel (halve c i) (parent (halve c i) i) j r s.forest next d'
          (omega (arith, le, l)) in
      rw (child, find_from) (Same-trans c (halve c i) _ s t, e)
]
