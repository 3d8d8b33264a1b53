-- ===== src/Bytecode/Merged.antt =====
-- harness/schemebytecode/schemebytecode.go: what ReadBundles merges.
use rules_stests.Base.{
  ℕ, ◌+◌, ◌≤◌, ◌≡◌, refl, sym, ap, ◌∙◌, not, ◌||◌, List, [], ◌∷◌, Option, none, some, if◌then◌else◌,
  Text, text_eq_iff, mem, lookup, lookup-missing, keys, Result, ok, guard_iff, >>=-eq-ok,
  ok-injective, ◌>>=◌, arith,
}
use rules_stests.Bytecode.{
  Compiled, Bundle, BundleError, read_bundle, merge_bundle, merge_bundles, read_bundles,
}

-- The bundles at the paths.
pub bundles_at :
    (Text → Option Text) → (Text → Option Bundle) → List Text → Result BundleError (List Bundle)
bundles_at read decode [] = ok []
bundles_at read decode (path ∷ paths) = do
  bundle ← read_bundle read decode path
  bundles ← bundles_at read decode paths
  ok (bundle ∷ bundles)

-- The program of the first bundle that has one of the name.
abbrev pub find_compiled : Text → List Bundle → Option Compiled
find_compiled name [] = none
find_compiled name (b ∷ bs) = if mem name (keys b) then lookup name b else find_compiled name bs

abbrev pub count_holding : Text → List Bundle → ℕ
count_holding name [] = 0
count_holding name (b ∷ bs) = (if mem name (keys b) then 1 else 0) + count_holding name bs

merge_bundle-lookup :
    (name : Text) (bundle merged : Bundle) {out : Bundle}
    → merge_bundle bundle merged ≡ ok out
    → (lookup name out
        ≡ (if mem name (keys bundle) then lookup name bundle else lookup name merged))
      × (mem name (keys out) ≡ (mem name (keys bundle) || mem name (keys merged)))
      × ((if mem name (keys bundle) then 1 else 0) + (if mem name (keys merged) then 1 else 0) ≤ 1)
unfolding merge_bundle lookup mem
merge_bundle-lookup name [] merged h = (
  ap (lookup name) (sym (ok-injective h)),
  ap (λ m. mem name (keys m)) (sym (ok-injective h)),
  ground arith,
)
merge_bundle-lookup name ((j, c) ∷ bundle) merged h =
    let (new, rest) = (guard_iff (not (mem j (keys merged))) _ _).0 h in
    let (found, there, once) = merge_bundle-lookup name bundle ((j, c) ∷ merged) rest in
    let same = text_eq_iff j name in (ground arith, ground arith, ground (arith, same))

-- What a merge holds, told from the bundles: the program of the one bundle that has the name.
pub record IsMerge (bundles : List Bundle) (merged : Bundle) : Type 0 where
  pub found : (name : Text) → lookup name merged ≡ find_compiled name bundles
  pub once : (name : Text) → count_holding name bundles ≤ 1

merge_bundles-lookup :
    (read : Text → Option Text) (decode : Text → Option Bundle) (paths : List Text)
    (merged : Bundle) {out : Bundle}
    → merge_bundles read decode paths merged ≡ ok out
    → (bundles : List Bundle) × (bundles_at read decode paths ≡ ok bundles)
      × ((name : Text)
          → (lookup name out
              ≡ (if mem name (keys merged) then lookup name merged else find_compiled name bundles))
            × (count_holding name bundles + (if mem name (keys merged) then 1 else 0) ≤ 1))
unfolding merge_bundles bundles_at
merge_bundles-lookup read decode [] merged {out} h = (
  [],
  refl,
  λ name. (
    ap (lookup name) (sym (ok-injective h)) ∙ ground (arith, lookup-missing name merged),
    ground arith,
  ),
)
merge_bundles-lookup read decode (path ∷ paths) merged {out} h =
    let (bundle, one, h₁) = >>=-eq-ok (read_bundle read decode path) _ h in
    let (merged', joined, rest) = >>=-eq-ok (merge_bundle bundle merged) _ h₁ in
    let (bundles, all, each) = merge_bundles-lookup read decode paths merged' rest in
    (
      bundle ∷ bundles,
      rw (one, all) refl,
      λ name.
          let (found, there, once) = merge_bundle-lookup name bundle merged joined in
          let (later, few) = each name in (ground arith, ground arith),
    )

-- When ReadBundles merges bundles, all of them could be read and decoded, no program is in two of
-- them, and the merge holds each program of theirs and nothing else.
pub read_bundles-IsMerge :
    (read : Text → Option Text) (decode : Text → Option Bundle) (paths : List Text)
    {merged : Bundle}
    → read_bundles read decode paths ≡ ok (some merged)
    → (bundles : List Bundle) × (bundles_at read decode paths ≡ ok bundles) × IsMerge bundles merged
unfolding read_bundles mem
read_bundles-IsMerge read decode [] h = absurd (cc h)
read_bundles-IsMerge read decode (path ∷ paths) {merged} h =
    let (out, joined, same) = >>=-eq-ok (merge_bundles read decode (path ∷ paths) []) _ h in
    let (bundles, all, each) = merge_bundles-lookup read decode (path ∷ paths) [] joined in
    let is_out : out ≡ merged = cc same in
    (
      bundles,
      all,
      record {
        found = λ name. ap (lookup name) (sym is_out) ∙ (each name).0;
        once = λ name. omega (arith, (each name).1);
      },
    )
