-- ===== src/Bytecode/Compiling.antt =====
-- harness/schemebytecode/schemebytecode.go: what CompileAll and the loop of WriteBundle collect.
use mathlib.Core.Path.{subst}
use rules_stests.Base.{
  ◌≡◌, refl, sym, ap, ◌∙◌, inl, inr, true, false, not, List, [], ◌∷◌, Option, none, some,
  if◌then◌else◌, Bool-cases, Text, text_eq, text_eq_iff, text_eq_self, mem, lookup, keys, Distinct,
  Result, ok, guard_iff, >>=-eq-ok, ok-injective, arith,
}
use rules_stests.Receipt.Coverage.{assign}
use rules_stests.Bytecode.{
  Program, Compiled, Bundle, BundleError, collect_programs, code_of, bundle_programs,
}

-- The first program of the name.
abbrev pub find_program : Text → List Program → Option Program
find_program name [] = none
find_program name (p ∷ ps) = if text_eq p.name name then some p else find_program name ps

abbrev names_of : List Program → List Text
names_of [] = []
names_of (p ∷ ps) = p.name ∷ names_of ps

lookup-assign {ℓ} :
    {V : Type ℓ} (k j : Text) (v : V) (m : List (Text × V))
    → lookup k (assign j v m) ≡ (if text_eq j k then some v else lookup k m)
unfolding lookup assign
lookup-assign k j v [] = refl
lookup-assign k j v ((i, w) ∷ m) =
    ground (arith, text_eq_iff i j, text_eq_iff i k, text_eq_iff j k, lookup-assign k j v m)

find_program-missing :
    (name : Text) (ps : List Program) → mem name (names_of ps) ≡ false → find_program name ps ≡ none
unfolding mem
find_program-missing name [] h = refl
find_program-missing name (p ∷ ps) h = ground (arith, find_program-missing name ps)

module _ (compile : Program → Result BundleError Text) where
  collect_programs-step :
      (p : Program) (ps : List Program) (compiled : List (Text × Text)) {out : List (Text × Text)}
      → collect_programs compile (p ∷ ps) compiled ≡ ok out
      → (code : Text) × (compile p ≡ ok code)
        × (mem p.name (keys compiled) ≡ false)
        × (collect_programs compile ps ((p.name, code) ∷ compiled) ≡ ok out)
  unfolding collect_programs
  collect_programs-step p ps compiled h =
      let (code, one, h₁) = >>=-eq-ok (compile p) _ h in
      let (new, rest) = (guard_iff (not (mem p.name (keys compiled))) _ _).0 h₁ in
      (code, one, ground arith, rest)

  -- A name that is there already belongs to none of the programs, and keeps its code.
  collect_programs-old :
      (name : Text) (ps : List Program) (compiled : List (Text × Text)) {out : List (Text × Text)}
      → collect_programs compile ps compiled ≡ ok out
      → mem name (keys compiled) ≡ true
      → (mem name (names_of ps) ≡ false) × (lookup name out ≡ lookup name compiled)
  unfolding collect_programs mem lookup
  collect_programs-old name [] compiled h m = (refl, sym (ap (lookup name) (ok-injective h)))
  collect_programs-old name (p ∷ ps) compiled h m =
      let (code, one, new, rest) = collect_programs-step p ps compiled h in
      let (absent, kept) =
        collect_programs-old name ps ((p.name, code) ∷ compiled) rest (ground arith) in
      (ground (arith, text_eq_iff p.name name), kept ∙ ground (arith, text_eq_iff p.name name))

  pub collect_programs-Distinct :
      (ps : List Program) (compiled : List (Text × Text)) {out : List (Text × Text)}
      → collect_programs compile ps compiled ≡ ok out
      → Distinct (names_of ps)
  unfolding mem
  collect_programs-Distinct [] compiled h = tt
  collect_programs-Distinct (p ∷ ps) compiled h =
      let (code, one, new, rest) = collect_programs-step p ps compiled h in
      (
        (collect_programs-old p.name ps ((p.name, code) ∷ compiled) rest
            (ground (arith, text_eq_self p.name))).0,
        collect_programs-Distinct ps ((p.name, code) ∷ compiled) rest,
      )

  -- Each program's own code is what is kept under its name.
  pub collect_programs-found :
      (name : Text) (ps : List Program) (compiled : List (Text × Text)) {out : List (Text × Text)}
      {q : Program}
      → collect_programs compile ps compiled ≡ ok out
      → find_program name ps ≡ some q
      → (code : Text) × (compile q ≡ ok code) × (lookup name out ≡ some code)
  unfolding mem lookup
  collect_programs-found name [] compiled h f = absurd (cc f)
  collect_programs-found name (p ∷ ps) compiled {out = out} {q = q} h f =
      let (code, one, new, rest) = collect_programs-step p ps compiled h in
      elim (Bool-cases (text_eq p.name name)) [
        | inl same ↦
            let found : p ≡ q = cc (rw same at f) in
            let named = (text_eq_iff p.name name).0 same in
            let (_, kept) =
              collect_programs-old p.name ps ((p.name, code) ∷ compiled) rest
                (ground (arith, text_eq_self p.name)) in
            (
              code,
              subst (λ r. compile r ≡ ok code) found one,
              subst (λ n. lookup n out ≡ some code) named
                  (kept ∙ ground (arith, text_eq_self p.name)),
            )
        | inr other ↦
            collect_programs-found name ps ((p.name, code) ∷ compiled) rest (rw other at f)
      ]

unfoldable pub compiled_of : (Text → Text) → List (Text × Text) → Program → Compiled
compiled_of digest compiled p = record {
  source_sha256 = digest p.source;
  bytecode = code_of p.name compiled;
}

pub lookup-bundle_programs :
    (digest : Text → Text) (compiled : List (Text × Text)) (name : Text) (ps : List Program)
    (bundle : Bundle)
    → Distinct (names_of ps)
    → lookup name (bundle_programs digest compiled ps bundle) ≡ elim (find_program name ps) [
      | none ↦ lookup name bundle
      | some p ↦ some (compiled_of digest compiled p)
    ]
unfolding bundle_programs compiled_of
lookup-bundle_programs digest compiled name [] bundle d = refl
lookup-bundle_programs digest compiled name (p ∷ ps) bundle (new, d) = ground (
  arith,
  text_eq_iff p.name name,
  find_program-missing name ps,
  lookup-assign name p.name (compiled_of digest compiled p) bundle,
  lookup-bundle_programs digest compiled name ps
      (assign p.name (compiled_of digest compiled p) bundle) d,
)
