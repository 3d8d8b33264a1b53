-- ===== src/Stress/Linked.antt =====
-- harness/parallel_scenarios.go: join of stressIndex makes one component of two, and changes no
-- other.
use rules_stests.Base.{
  ℕ, zero, suc, ◌<◌, ◌≡◌, ◌≢◌, refl, sym, ◌∙◌, inl, inr, List, ◌==◌, if◌then◌else◌, length, set,
  length-set, get_or-set, Bool-cases, ==_iff, arith, range_from, length-range_from,
  get_or-range_from,
}
use rules_stests.Stress.Union.{find, join}
use rules_stests.Stress.Forest.{
  parent, Leads, HasRoot, IsForest, root-of_Leads, root-inside, Same-trans,
}
use rules_stests.Stress.Short.{find-Same}

-- Two indices lead to one component.
pub record SameRoot (c : List ℕ) (x y : ℕ) : Type 0 where
  pub root : ℕ
  pub from : HasRoot c x root
  pub to : HasRoot c y root

parent-set :
    (c : List ℕ) (a b x : ℕ)
    → a < length c
    → parent (set c a b) x ≡ (if a == x then b else parent c x)
parent-set c a b x h = get_or-set c a x b 0 h

-- The component `a` is put under another one, `b`.
Leads-link :
    (c : List ℕ) (a b k x r : ℕ)
    → a < length c
    → parent c a ≡ a
    → parent c b ≡ b
    → a ≢ b
    → Leads c k x r
    → HasRoot (set c a b) x (if r == a then b else r)
Leads-link c a b zero x r h ra rb n (e, s) = elim (Bool-cases (r == a)) [
  | inl here ↦
      let near : parent (set c a b) x ≡ b = ground (arith, parent-set c a b x h) in
      let far : parent (set c a b) b ≡ b = ground (arith, parent-set c a b b h) in
      let apart : b ≢ x = ground arith in rw here (1, rw near (apart, (far, refl)))
  | inr other ↦
      let near : parent (set c a b) x ≡ x = ground (arith, parent-set c a b x h) in
      rw other (0, (near, s))
]
Leads-link c a b (suc k) x r h ra rb n (m, d) =
    let near : parent (set c a b) x ≡ parent c x = ground (arith, parent-set c a b x h) in
    let (j, d') = Leads-link c a b k (parent c x) r h ra rb n d in (suc j, rw near (m, d'))

-- Under itself it stays what it was.
Leads-self :
    (c : List ℕ) (a k x r : ℕ)
    → a < length c
    → parent c a ≡ a
    → Leads c k x r
    → Leads (set c a a) k x r
Leads-self c a zero x r h ra (e, s) = (ground (arith, parent-set c a a x h), s)
Leads-self c a (suc k) x r h ra (m, d) =
    let near : parent (set c a a) x ≡ parent c x = ground (arith, parent-set c a a x h) in
    rw near (m, Leads-self c a k (parent c x) r h ra d)

-- The component that each index has behind a join of the components `a` and `b`.
abbrev pub merged : ℕ → ℕ → ℕ → ℕ
merged a b r = if r == a then b else r

set-HasRoot :
    (c : List ℕ) (a b x r : ℕ)
    → a < length c
    → parent c a ≡ a
    → parent c b ≡ b
    → HasRoot c x r
    → HasRoot (set c a b) x (merged a b r)
set-HasRoot c a b x r h ra rb (k, d) = elim (Bool-cases (a == b)) [
  | inl same ↦
      let e : merged a b r ≡ r = ground arith in
      rw (e, sym ((==_iff a b).0 same)) (k, Leads-self c a k x r h ra d)
  | inr other ↦ Leads-link c a b k x r h ra rb (ground arith) d
]

set-IsForest :
    (c : List ℕ) (a b : ℕ)
    → a < length c
    → b < length c
    → parent c a ≡ a
    → parent c b ≡ b
    → IsForest c
    → IsForest (set c a b)
set-IsForest c a b ha hb ra rb f = record {
  inside = λ x l.
      let l' : x < length c = omega (arith, l, length-set c a b) in
      ground (arith, parent-set c a b x ha, f.inside x l', length-set c a b);
  rooted = λ x l.
      let (r, d) = f.rooted x (omega (arith, l, length-set c a b)) in
      (merged a b r, set-HasRoot c a b x r ha ra rb d);
}

-- What a join leaves: a forest of that size, in which the component of `i` is merged with that of
-- `j`.
pub record Joins (c d : List ℕ) (i j : ℕ) : Type 0 where
  pub a : ℕ
  pub b : ℕ
  pub of_i : HasRoot c i a
  pub of_j : HasRoot c j b
  pub size : length d ≡ length c
  pub forest : IsForest d
  pub roots : (x r : ℕ) → HasRoot c x r → HasRoot d x (merged a b r)

pub join-Joins :
    (c : List ℕ) (i j : ℕ) → IsForest c → i < length c → j < length c → Joins c (join c i j) i j
unfolding join
join-Joins c i j f hi hj =
    let (a, of_i) = f.rooted i hi in
    let (b, of_j) = f.rooted j hj in
    let (s, e) = find-Same c i a f hi of_i in
    let (t, g) =
      find-Same (find c i).0 j b s.forest (omega (arith, hj, s.size)) (s.keeps j b of_j) in
    let u = Same-trans c (find c i).0 (find (find c i).0 j).0 s t in
    let d = (find (find c i).0 j).0 in
    let ka = u.keeps i a of_i in
    let kb = u.keeps j b of_j in
    let ra = root-of_Leads d ka.0 i ka.1 in
    let rb = root-of_Leads d kb.0 j kb.1 in
    let ha : a < length d = root-inside d ka.0 i u.forest (omega (arith, hi, u.size)) ka.1 in
    let hb : b < length d = root-inside d kb.0 j u.forest (omega (arith, hj, u.size)) kb.1 in
    rw (e, g)
      (record {
        a = a;
        b = b;
        of_i = of_i;
        of_j = of_j;
        size = length-set d a b ∙ u.size;
        forest = set-IsForest d a b ha hb ra rb u.forest;
        roots = λ x r h. set-HasRoot d a b x r ha ra rb (u.keeps x r h);
      })

-- The array that maps each index to itself.
pub range_from-IsForest : (n : ℕ) → IsForest (range_from 0 n)
range_from-IsForest n = record {
  inside =
      λ x l. omega (arith, get_or-range_from 0 n x 0 (omega (arith, l, length-range_from 0 n)), l);
  rooted = λ x l. (
    x,
    (0, (omega (arith, get_or-range_from 0 n x 0 (omega (arith, l, length-range_from 0 n))), refl)),
  );
}
