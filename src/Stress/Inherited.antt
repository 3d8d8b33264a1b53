-- ===== src/Stress/Inherited.antt =====
-- harness/parallel_scenarios.go: the tags that stressIndex collects for each component.
use rules_stests.Base.{
  ℕ, suc, ◌+◌, ◌<◌, ◌≡◌, sym, ap, ◌∙◌, inl, inr, true, false, ◌&&◌, ◌||◌, List, [], ◌∷◌, ◌==◌,
  if◌then◌else◌, Text, text_eq, text_eq_iff, mem, mem-add, length, get_elem?, some, Bool-cases,
  ==_iff, arith,
}
use mathlib.Core.Path.{subst}
use rules_stests.Stress.Union.{find}
use rules_stests.Stress.Forest.{HasRoot, Leads-unique, Same}
use rules_stests.Stress.Short.{find-Same}
use rules_stests.Stress.Index.{Chunk, Highs, highs_at, add_high, collect_highs}
use rules_stests.Stress.Traces.{Joined, lt-length, Rest, Rest-here, Rest-next}
use rules_stests.Stress.Components.{IsGrouped}

pub Same-IsGrouped :
    (chunks : List Chunk) (c d : List ℕ) → IsGrouped chunks c → Same c d → IsGrouped chunks d
Same-IsGrouped chunks c d g s = record {
  grouping = record {
    size = s.size ∙ g.grouping.size;
    forest = s.forest;
    sound = λ x r l (k, e).
        let l' : x < length c = omega (arith, l, s.size) in
        let (r', h) = g.grouping.forest.rooted x l' in
        let (j, e') = s.keeps x r' h in
        let same : r' ≡ r = (Leads-unique d j k x e' e).1 in
        subst (λ z. Joined chunks x z) same (g.grouping.sound x r' l' h);
  };
  whole = λ i j h.
      let t = g.whole i j h in
      record { root = t.root; from = s.keeps i t.root t.from; to = s.keeps j t.root t.to };
}

highs_at-add_high :
    (q r : ℕ) (h t : Text) (highs : Highs)
    → mem t (highs_at r (add_high q h highs))
      ≡ (if q == r then text_eq h t || mem t (highs_at r highs) else mem t (highs_at r highs))
unfolding highs_at add_high mem
highs_at-add_high q r h t [] = ground arith
highs_at-add_high q r h t ((x, hs) ∷ more) =
    ground (arith, highs_at-add_high q r h t more, mem-add t h hs)

-- `highs` holds tags of the chunks before `i` and no others, at their components.
pub record Collected (chunks : List Chunk) (i : ℕ) (c : List ℕ) (highs : Highs) : Type 0 where
  pub grouped : IsGrouped chunks c
  pub from :
      (r : ℕ) (h : Text)
      → mem h (highs_at r highs) ≡ true
      → (j : ℕ) × (d : Chunk) × (get_elem? chunks j ≡ some d)
        × (d.tagged ≡ true)
        × (d.high ≡ h)
        × HasRoot c j r
  pub all :
      (j : ℕ) (d : Chunk) (r : ℕ)
      → j < i
      → get_elem? chunks j ≡ some d
      → d.tagged ≡ true
      → HasRoot c j r
      → mem d.high (highs_at r highs) ≡ true

pub root-at :
    (chunks : List Chunk) (c : List ℕ) (i : ℕ)
    → IsGrouped chunks c
    → i < length chunks
    → (r : ℕ) × HasRoot c i r
root-at chunks c i g h = g.grouping.forest.rooted i (omega (arith, h, g.grouping.size))

pub find-at :
    (chunks : List Chunk) (c : List ℕ) (i r : ℕ)
    → IsGrouped chunks c
    → i < length chunks
    → HasRoot c i r
    → Same c (find c i).0 × ((find c i).1 ≡ r)
find-at chunks c i r g h d = find-Same c i r g.grouping.forest (omega (arith, h, g.grouping.size)) d

-- A component behind a find is the one before it.
Same-HasRoot :
    (c d : List ℕ) (x r : ℕ) → Same c d → (s : ℕ) → HasRoot c x s → HasRoot d x r → HasRoot c x r
Same-HasRoot c d x r s q h (k, e) =
    let (j, e') = s.keeps x q h in subst (λ z. HasRoot c x z) (Leads-unique d j k x e' e).1 h

module _ (chunks : List Chunk) (i : ℕ) (c : List ℕ) (highs : Highs) (d : Chunk)
    (here : get_elem? chunks i ≡ some d) (t : d.tagged ≡ true) (w : Collected chunks i c highs)
    (r : ℕ) (root : HasRoot c i r) (c' : List ℕ) (s : Same c c') where
  added_from :
      (q : ℕ) (h : Text)
      → mem h (highs_at q (add_high r d.high highs)) ≡ true
      → (j : ℕ) × (x : Chunk) × (get_elem? chunks j ≡ some x)
        × (x.tagged ≡ true)
        × (x.high ≡ h)
        × HasRoot c' j q
  added_from q h m = elim (Bool-cases (r == q && text_eq d.high h)) [
    | inl mine ↦
        let same : r ≡ q = ground arith in
        let e : text_eq d.high h ≡ true = ground arith in
        (i, d, here, t, (text_eq_iff _ _).0 e, subst (λ z. HasRoot c' i z) same (s.keeps i r root))
    | inr other ↦
        let old : mem h (highs_at q highs) ≡ true =
          ground (arith, highs_at-add_high r q d.high h highs) in
        let (j, x, at, tag, e, root') = w.from q h old in (j, x, at, tag, e, s.keeps j q root')
  ]

  added_all :
      (j : ℕ) (x : Chunk) (q : ℕ)
      → j < suc i
      → get_elem? chunks j ≡ some x
      → x.tagged ≡ true
      → HasRoot c' j q
      → mem x.high (highs_at q (add_high r d.high highs)) ≡ true
  added_all j x q l at tag root' =
      let (q', old) = root-at chunks c j w.grouped (lt-length chunks j at) in
      let back' = Same-HasRoot c c' j q s q' old root' in
      elim (Bool-cases (j == i)) [
        | inl mine ↦
            let e : j ≡ i = (==_iff j i).0 mine in
            let at' : get_elem? chunks i ≡ some x = rw (sym e) at in
            let same : d ≡ x = cc (sym here ∙ at') in
            let root'' : HasRoot c i q = subst (λ z. HasRoot c z q) e back' in
            let one : r ≡ q = (Leads-unique c root.0 root''.0 i root.1 root''.1).1 in
            let eq : text_eq d.high x.high ≡ true =
              (text_eq_iff _ _).1 (ap (λ (y : Chunk). y.high) same) in
            ground (arith, highs_at-add_high r q d.high x.high highs, one, eq)
        | inr other ↦
            let before : mem x.high (highs_at q highs) ≡ true =
              w.all j x q (ground arith) at tag back' in
            ground (arith, highs_at-add_high r q d.high x.high highs, before)
      ]

tagged-Collected :
    (chunks : List Chunk) (i : ℕ) (c : List ℕ) (highs : Highs) (d : Chunk)
    → get_elem? chunks i ≡ some d
    → d.tagged ≡ true
    → Collected chunks i c highs
    → Collected chunks (suc i) (find c i).0 (add_high (find c i).1 d.high highs)
tagged-Collected chunks i c highs d here t w =
    let hi = lt-length chunks i here in
    let (r, root) = root-at chunks c i w.grouped hi in
    let (s, e) = find-at chunks c i r w.grouped hi root in
    rw e (record {
      grouped = Same-IsGrouped chunks c (find c i).0 w.grouped s;
      from = added_from chunks i c highs d here t w r root (find c i).0 s;
      all = added_all chunks i c highs d here t w r root (find c i).0 s;
    })

untagged-Collected :
    (chunks : List Chunk) (i : ℕ) (c : List ℕ) (highs : Highs) (d : Chunk)
    → get_elem? chunks i ≡ some d
    → d.tagged ≡ false
    → Collected chunks i c highs
    → Collected chunks (suc i) c highs
untagged-Collected chunks i c highs d here t w = record {
  grouped = w.grouped;
  from = w.from;
  all = λ j x q l at tag root. elim (Bool-cases (j == i)) [
    | inl mine ↦
        let at' : get_elem? chunks i ≡ some x = rw (sym ((==_iff j i).0 mine)) at in
        let same : d ≡ x = cc (sym here ∙ at') in
        let t' : d.tagged ≡ true = rw same tag in cc (sym t ∙ t')
    | inr other ↦ w.all j x q (ground arith) at tag root
  ];
}

pub collect_highs-Collected :
    (chunks cs : List Chunk) (i : ℕ) (c : List ℕ) (highs : Highs)
    → Rest chunks i cs
    → Collected chunks i c highs
    → Collected chunks (i + length cs) (collect_highs i cs c highs).0 (collect_highs i cs c highs).1
unfolding collect_highs
collect_highs-Collected chunks [] i c highs rest w = let e : i + 0 ≡ i = omega arith in rw e w
collect_highs-Collected chunks (d ∷ cs) i c highs rest w =
    let here = Rest-here chunks i d cs rest in
    let later = Rest-next chunks i d cs rest in
    let e : i + suc (length cs) ≡ suc i + length cs = omega arith in
    rw e (elim (Bool-cases d.tagged) [
      | inl t ↦ rw t (
          collect_highs-Collected chunks cs (suc i) _ _ later
            (tagged-Collected chunks i c highs d here t w))
      | inr t ↦ rw t (
          collect_highs-Collected chunks cs (suc i) c highs later
            (untagged-Collected chunks i c highs d here t w))
    ])

-- A find leaves what is collected.
pub Same-Collected :
    (chunks : List Chunk) (i : ℕ) (c d : List ℕ) (highs : Highs)
    → Collected chunks i c highs
    → Same c d
    → Collected chunks i d highs
Same-Collected chunks i c d highs w s = record {
  grouped = Same-IsGrouped chunks c d w.grouped s;
  from = λ r h m. let (j, x, at, t, e, root) = w.from r h m in (j, x, at, t, e, s.keeps j r root);
  all = λ j x r l at t root.
      let (q, old) = root-at chunks c j w.grouped (lt-length chunks j at) in
      w.all j x r l at t (Same-HasRoot c d j r s q old root);
}

pub found-Collected :
    (chunks : List Chunk) (i : ℕ) (c : List ℕ) (highs : Highs) (d : Chunk)
    → Collected chunks (length chunks) c highs
    → i < length chunks
    → Collected chunks (length chunks) (if d.tagged then c else (find c i).0) highs
found-Collected chunks i c highs d w h = elim (Bool-cases d.tagged) [
  | inl t ↦ rw t w
  | inr t ↦
      let (r, root) = root-at chunks c i w.grouped h in
      rw t (
        Same-Collected chunks (length chunks) c (find c i).0 highs w
          (find-at chunks c i r w.grouped h root).0)
]

pub start-Collected :
    (chunks : List Chunk) (c : List ℕ) → IsGrouped chunks c → Collected chunks 0 c []
unfolding highs_at mem
start-Collected chunks c g = record {
  grouped = g;
  from = λ r h m. cc m;
  all = λ j x r l at t root. absurd (omega (arith, l));
}
