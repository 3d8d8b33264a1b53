-- ===== src/Stress/Resolved.antt =====
-- harness/parallel_scenarios.go: the high bits that stressIndex gives the spans of a chunk.
use rules_stests.Base.{
  ℕ, ◌≡◌, refl, sym, ◌∙◌, inl, inr, true, false, List, [], ◌∷◌, Text, text_eq, text_eq_iff, mem,
  mem-cons_self, length, get_elem?, some, Result, ok, Bool-cases, arith,
}
use mathlib.Core.Path.{subst}
use rules_stests.Stress.Ledger.{StressError}
use rules_stests.Stress.Union.{find}
use rules_stests.Stress.Forest.{HasRoot, Leads-unique}
use rules_stests.Stress.Index.{Chunk, Highs, highs_at, inherit, resolve_high}
use rules_stests.Stress.Traces.{Joined, through, back, lt-length}
use rules_stests.Stress.Inherited.{Collected, root-at, find-at}

-- The high bits of the chunk at `i`: its own tag, or the tag of a chunk of its trace where all
-- tagged ones have that, or zeros where none is tagged.
pub data HighOf (chunks : List Chunk) (i : ℕ) (c : Chunk) (high : Text) : Type 0 where
  own : c.tagged ≡ true → high ≡ c.high → HighOf chunks i c high
  inherited :
      c.tagged ≡ false
      → (j : ℕ) (d : Chunk) → get_elem? chunks j ≡ some d
      → d.tagged ≡ true
      → Joined chunks i j
      → d.high ≡ high
      → ((k : ℕ) (e : Chunk)
          → get_elem? chunks k ≡ some e
          → e.tagged ≡ true
          → Joined chunks i k
          → e.high ≡ high)
      → HighOf chunks i c high
  unknown :
      c.tagged ≡ false
      → high ≡ c.high
      → ((k : ℕ) (e : Chunk) → get_elem? chunks k ≡ some e → Joined chunks i k → e.tagged ≡ false)
      → HighOf chunks i c high

module _ (chunks : List Chunk) (c : List ℕ) (highs : Highs)
    (w : Collected chunks (length chunks) c highs) (i : ℕ) (d : Chunk)
    (here : get_elem? chunks i ≡ some d) (r : ℕ) (root : HasRoot c i r) where
  joined-mem :
      (k : ℕ) (e : Chunk)
      → get_elem? chunks k ≡ some e
      → e.tagged ≡ true
      → Joined chunks i k
      → mem e.high (highs_at r highs) ≡ true
  joined-mem k e at tag j =
      let t = w.grouped.whole i k j in
      let same : t.root ≡ r = (Leads-unique c t.from.0 root.0 i t.from.1 root.1).1 in
      w.all k e r (lt-length chunks k at) at tag (subst (λ z. HasRoot c k z) same t.to)

  root-Joined :
      (j : ℕ) (x : Chunk) → get_elem? chunks j ≡ some x → HasRoot c j r → Joined chunks i j
  root-Joined j x at root' =
      let g = w.grouped.grouping in
      through i r j (g.sound i r (omega (arith, lt-length chunks i here, g.size)) root)
        (back j r (g.sound j r (omega (arith, lt-length chunks j at, g.size)) root'))

  inherit-HighOf :
      (hs : List Text) {high : Text}
      → d.tagged ≡ false
      → highs_at r highs ≡ hs
      → inherit d.high hs ≡ ok high
      → HighOf chunks i d high
  unfolding inherit mem
  inherit-HighOf [] t eq given = unknown t (sym (cc given)) λ k e at j. elim (Bool-cases e.tagged) [
    | inl tag ↦
        let m : mem e.high [] ≡ true =
          subst (λ z. mem e.high z ≡ true) eq (joined-mem k e at tag j) in
        cc m
    | inr bare ↦ bare
  ]
  inherit-HighOf (h ∷ []) {high = high} t eq given =
      let same : h ≡ high = cc given in
      let m : mem h (highs_at r highs) ≡ true =
        subst (λ z. mem h z ≡ true) (sym eq) (mem-cons_self h []) in
      let (j, x, at, tag, e, root') = w.from r h m in
      inherited t j x at tag (root-Joined j x at root') (e ∙ same) λ k y at' tag' joined.
        let n : mem y.high (h ∷ []) ≡ true =
          subst (λ z. mem y.high z ≡ true) eq (joined-mem k y at' tag' joined) in
        let one : text_eq h y.high ≡ true = ground arith in sym ((text_eq_iff _ _).0 one) ∙ same
  inherit-HighOf (h ∷ k ∷ hs) t eq given = cc given

-- What resolving one chunk gives.
pub resolve_high-HighOf :
    (chunks : List Chunk) (i : ℕ) (c : List ℕ) (highs : Highs) (d : Chunk) {high : Text}
    → Collected chunks (length chunks) c highs
    → get_elem? chunks i ≡ some d
    → resolve_high i d c highs ≡ ok high
    → HighOf chunks i d high
unfolding resolve_high
resolve_high-HighOf chunks i c highs d {high = high} w here h = elim (Bool-cases d.tagged) [
  | inl t ↦
      let done : ◌≡◌ {A = Result StressError Text} (ok d.high) (ok high) = ground arith in
      own t (sym (cc done))
  | inr t ↦
      let hi = lt-length chunks i here in
      let (r, root) = root-at chunks c i w.grouped hi in
      let (s, e) = find-at chunks c i r w.grouped hi root in
      let given : inherit d.high (highs_at (find c i).1 highs) ≡ ok high = ground arith in
      let given' : inherit d.high (highs_at r highs) ≡ ok high =
        subst (λ z. inherit d.high (highs_at z highs) ≡ ok high) e given in
      inherit-HighOf chunks c highs w i d here r root (highs_at r highs) t refl given'
]
