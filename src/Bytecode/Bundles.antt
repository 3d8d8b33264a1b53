-- ===== src/Bytecode/Bundles.antt =====
-- harness/schemebytecode/schemebytecode.go: what Bundle.Bytecode gives out of a bundle that
-- WriteBundle has built.
use mathlib.Core.Path.{subst}
use rules_stests.Base.{
  ◌≡◌, ◌↔◌, ◌⊎◌, sym, ap, ◌∙◌, inl, inr, false, not, ◌&&◌, List, [], ◌∷◌, none, some, Bool-cases,
  Option-cases, Text, is_nil, text_eq, text_eq_iff, lookup, Result, ok, >>=-eq-ok, ok-injective,
  arith,
}
use rules_stests.Bytecode.{
  Program, Compiled, Bundle, BundleError, collect_programs, compile_all, code_of, write_bundle,
  bytecode,
}
use rules_stests.Bytecode.Compiling.{
  find_program, collect_programs-Distinct, collect_programs-found, compiled_of,
  lookup-bundle_programs,
}

-- What the bundle holds under a name: nothing, or the digest and the code of its program.
record Holds (digest : Text → Text) (compile : Program → Result BundleError Text)
    (programs : List Program) (name : Text) (bundle : Bundle) : Type 0 where
  program : Program
  code : Text
  is_found : find_program name programs ≡ some program
  is_compiled : compile program ≡ ok code
  is_there :
      lookup name bundle ≡ some (record { source_sha256 = digest program.source; bytecode = code })

code_of-some :
    (name code : Text) (compiled : List (Text × Text))
    → lookup name compiled ≡ some code
    → code_of name compiled ≡ code
unfolding code_of
code_of-some name code compiled h = rw (h, code_of)

find_program-name :
    (name : Text) (ps : List Program) {p : Program} → find_program name ps ≡ some p → p.name ≡ name
find_program-name name [] h = absurd (cc h)
find_program-name name (q ∷ ps) {p = p} h = elim (Bool-cases (text_eq q.name name)) [
  | inl same ↦
      let found : q ≡ p = cc (rw same at h) in
      subst (λ r. r.name ≡ name) found ((text_eq_iff q.name name).0 same)
  | inr other ↦ find_program-name name ps (rw other at h)
]

lookup-write_bundle :
    (digest : Text → Text) (compile : Program → Result BundleError Text) (programs : List Program)
    (name : Text) {bundle : Bundle}
    → write_bundle digest compile programs ≡ ok bundle
    → ((find_program name programs ≡ none) × (lookup name bundle ≡ none))
      ⊎ Holds digest compile programs name bundle
unfolding write_bundle compile_all compiled_of lookup
lookup-write_bundle digest compile programs name {bundle} h =
    let (compiled, collected, made) = >>=-eq-ok (collect_programs compile programs []) _ h in
    let d = collect_programs-Distinct compile programs [] collected in
    let there =
      ap (lookup name) (sym (ok-injective made))
      ∙ lookup-bundle_programs digest compiled name programs [] d in
    elim (Option-cases (find_program name programs)) [
      | inl missing ↦ inl (missing, rw missing at there)
      | inr (p, found) ↦
          let (code, one, kept) = collect_programs-found compile name programs [] collected found in
          let named = find_program-name name programs found in
          inr (record {
            program = p;
            code = code;
            is_found = found;
            is_compiled = one;
            is_there =
                (rw found at there)
                ∙ ap (λ c. some (record { source_sha256 = digest p.source; bytecode = c }))
                    (code_of-some p.name code compiled (rw named kept));
          })
    ]

-- What Bytecode gives for a name and a source, told from the programs: the code of the first
-- program of the name, if its source has the digest of the one asked for.
pub record Gives (digest : Text → Text) (compile : Program → Result BundleError Text)
    (programs : List Program) (name source code : Text) : Type 0 where
  pub program : Program
  pub is_found : find_program name programs ≡ some program
  pub same_digest : digest program.source ≡ digest source
  pub is_compiled : compile program ≡ ok code
  pub has_code : is_nil code ≡ false

bytecode-lookup_iff :
    (digest : Text → Text) (bundle : Bundle) (name source code : Text) {c : Compiled}
    → lookup name bundle ≡ some c
    → (bytecode digest bundle name source ≡ ok code)
      ↔ (c.source_sha256 ≡ digest source) × (is_nil c.bytecode ≡ false) × (c.bytecode ≡ code)
unfolding bytecode
bytecode-lookup_iff digest bundle name source code {c} h =
    rw (h, bytecode)
      (elim (Bool-cases (text_eq c.source_sha256 (digest source) && not (is_nil c.bytecode))) [
        | inl fresh ↦ rw fresh (
          λ e. (
            (text_eq_iff c.source_sha256 (digest source)).0 (ground (arith, fresh)),
            ground (arith, fresh),
            ok-injective e,
          ),
          λ (same, full, given). ap ok given,
        )
        | inr old ↦ rw old (
          λ e. absurd (cc e),
          λ (same, full, given).
              absurd (ground (arith, old, full, text_eq_iff c.source_sha256 (digest source), same)),
        )
      ])

-- When WriteBundle succeeds, Bundle.Bytecode on its bundle returns a code for a name and a source
-- exactly when a program of that name was compiled to that code, the code is not empty, and the
-- program's source has the digest of the source.
pub bytecode-write_bundle_iff :
    (digest : Text → Text) (compile : Program → Result BundleError Text) (programs : List Program)
    (name source code : Text) {bundle : Bundle}
    → write_bundle digest compile programs ≡ ok bundle
    → (bytecode digest bundle name source ≡ ok code)
      ↔ Gives digest compile programs name source code
unfolding bytecode
bytecode-write_bundle_iff digest compile programs name source code {bundle} h =
    elim (lookup-write_bundle digest compile programs name h) [
      | inl (unknown, missing) ↦
          (λ e. absurd (nothing missing e), λ g. absurd (let found = g.is_found in cc))
      | inr k ↦
          let there = bytecode-lookup_iff digest bundle name source code k.is_there in
          (λ e. gives k (there.0 e), λ g. there.1 (back k g))
    ]
  where
    nothing : lookup name bundle ≡ none → bytecode digest bundle name source ≡ ok code → ⊥
    nothing missing e = let wrong = rw (missing, bytecode) at e in cc

    gives :
        (k : Holds digest compile programs name bundle)
        → (digest k.program.source ≡ digest source) × (is_nil k.code ≡ false) × (k.code ≡ code)
        → Gives digest compile programs name source code
    gives k (same, full, given) = record {
      program = k.program;
      is_found = k.is_found;
      same_digest = same;
      is_compiled = k.is_compiled ∙ ap ok given;
      has_code = subst (λ c. is_nil c ≡ false) given full;
    }

    back :
        (k : Holds digest compile programs name bundle)
        → Gives digest compile programs name source code
        → (digest k.program.source ≡ digest source) × (is_nil k.code ≡ false) × (k.code ≡ code)
    back k g =
        let there = k.is_found in
        let same : g.program ≡ k.program = let here = g.is_found in cc in
        let given : k.code ≡ code =
          ok-injective (sym k.is_compiled ∙ ap compile (sym same) ∙ g.is_compiled) in
        (
          ap (λ p. digest p.source) (sym same) ∙ g.same_digest,
          subst (λ c. is_nil c ≡ false) (sym given) g.has_code,
          given,
        )
