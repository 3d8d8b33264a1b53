-- ===== src/Bytecode/Shards.antt =====
-- harness/schemebytecode/schemebytecode.go: Shard splits the programs into parts that lose and
-- repeat none.
use mathlib.Core.List.{Perm, perm_middle}
use mathlib.Core.List.Perm
use rules_stests.Base.{
  ℕ, zero, suc, ◌+◌, ◌%◌, ◌^◌, ◌≤◌, ◌<◌, ◌≡◌, ◌⊎◌, refl, inl, inr, true, false, List, [], ◌∷◌, ◌++◌,
  some, ◌==◌, ltb, Bool-cases, Text, All, decimal, Result, ok, ◌>>=◌, arith,
}
use rules_stests.Shape.Decimals.{is_digit, decimal-All, decimal_cons, parse_number-decimal}
use rules_stests.Bytecode.{Program, BundleError, select, cut, shard_of, shard}

-- The programs of the shards below `j`.
gather : ℕ → ℕ → ℕ → List Program → List Program
gather zero n position ps = []
gather (suc j) n position ps = select j n position ps ++ gather j n position ps

-- A program goes into the one shard that its position names.
gather-cons :
    (j n position : ℕ) (p : Program) (ps : List Program)
    → ((j ≤ position % n) × (gather j n position (p ∷ ps) ≡ gather j n (position + 1) ps))
      ⊎ ((position % n < j)
          × Perm (gather j n position (p ∷ ps)) (p ∷ gather j n (position + 1) ps))
unfolding gather select
gather-cons zero n position p ps = inl (omega arith, refl)
gather-cons (suc j) n position p ps = elim (gather-cons j n position p ps) [
  | inl (above, same) ↦ elim (Bool-cases (position % n == j)) [
    | inl here ↦ inr (ground (arith, here), rw (here, same) (Perm.refl _))
    | inr there ↦ inl (ground (arith, there), rw (there, same) refl)
  ]
  | inr (below, moved) ↦
      let there : (position % n == j) ≡ false = ground arith in
      inr (
        omega arith,
        rw there (
            Perm.trans (Perm.append_left (select j n (position + 1) ps) moved)
              (perm_middle (select j n (position + 1) ps) (gather j n (position + 1) ps))),
      )
]

gather-nil : (j n position : ℕ) → gather j n position [] ≡ []
unfolding gather select
gather-nil zero n position = refl
gather-nil (suc j) n position = gather-nil j n position

gather-perm : (n position : ℕ) (ps : List Program) → 0 < n → Perm (gather n n position ps) ps
gather-perm n position [] h = rw (gather-nil n n position) (Perm.refl [])
gather-perm n position (p ∷ ps) h = elim (gather-cons n n position p ps) [
  | inl (above, same) ↦ absurd (omega arith)
  | inr (below, moved) ↦ Perm.trans moved (Perm.cons p (gather-perm n (position + 1) ps h))
]

-- `k/n`.
abbrev pub spec_of : ℕ → ℕ → Text
spec_of k n = decimal k ++ (b'/' ∷ decimal n)

cut-append :
    (t rest : Text) → All (λ c. is_digit c ≡ true) t → cut (t ++ (b'/' ∷ rest)) ≡ some (t, rest)
unfolding cut
cut-append [] rest a = refl
cut-append (c ∷ t) rest a =
    let plain : (c == b'/') ≡ false = ground (arith, a.0) in rw (plain, cut-append t rest a.1) refl

shard_cons :
    (programs : List Program) (k n c : ℕ) (t : Text)
    → k < n
    → n < 2 ^ 63
    → spec_of k n ≡ c ∷ t
    → shard programs (c ∷ t) ≡ ok (select k n 0 programs)
unfolding shard shard_of
shard_cons programs k n c t h m e =
    let parts : cut (c ∷ t) ≡ some (decimal k, decimal n) =
      rw (← e) (cut-append (decimal k) (decimal n) (decimal-All k)) in
    let above : ltb 0 n ≡ true = ground arith in
    let below : ltb k n ≡ true = ground arith in
    rw (parts, shard)
      (rw (parse_number-decimal k (omega arith), parse_number-decimal n m) (rw (above, below)))

shard-spec :
    (programs : List Program) (k n : ℕ)
    → k < n
    → n < 2 ^ 63
    → shard programs (spec_of k n) ≡ ok (select k n 0 programs)
shard-spec programs k n h m =
    let (d, ds, e) = decimal_cons k in
    rw e (shard_cons programs k n d (ds ++ (b'/' ∷ decimal n)) h m (rw e))

-- The shards `k/n` for the numbers `k` below `j`, one behind the other.
pub every_shard : List Program → ℕ → ℕ → Result BundleError (List Program)
every_shard programs n zero = ok []
every_shard programs n (suc j) = do
  part ← shard programs (spec_of j n)
  rest ← every_shard programs n j
  ok (part ++ rest)

every_shard-gather :
    (programs : List Program) (n j : ℕ)
    → j ≤ n
    → n < 2 ^ 63
    → every_shard programs n j ≡ ok (gather j n 0 programs)
unfolding every_shard gather
every_shard-gather programs n zero h m = refl
every_shard-gather programs n (suc j) h m =
    rw (shard-spec programs j n (omega arith) m, every_shard-gather programs n j (omega arith) m)
      refl

-- For a positive number of shards below 2^63, every shard of the programs is there, and all
-- shards together hold each program as often as it was given.
pub shard_partition :
    (programs : List Program) (n : ℕ)
    → 0 < n
    → n < 2 ^ 63
    → (out : List Program) × (every_shard programs n n ≡ ok out) × Perm out programs
shard_partition programs n h m = (
  gather n n 0 programs,
  every_shard-gather programs n n (omega arith) m,
  gather-perm n 0 programs h,
)
