-- ===== src/Bytecode.antt =====
-- harness/schemebytecode/schemebytecode.go: bundles of compiled Scheme programs. Running the
-- compiler, the file system, JSON and SHA-256 are parameters; the workers of CompileAll fill
-- separate cells of one slice, so their order does not show.
pub mod Shards
pub mod Compiling
pub mod Bundles
pub mod Merged
use rules_stests.Base.{
  ℕ, suc, ◌+◌, ◌%◌, Bool, not, ◌&&◌, List, [], ◌∷◌, Option, none, some, ◌==◌, ltb, if◌then◌else◌,
  Text, codes, is_nil, text_eq, mem, lookup, keys, sort_texts, Result, ok, err, ◌>>=◌, ◌>>◌, guard,
}
use rules_stests.Receipt.Coverage.{assign}
use rules_stests.Shape.Cardinality.{parse_number}

pub record Program : Type 0 where
  pub name : Text
  pub source : Text

pub record Compiled : Type 0 where
  pub source_sha256 : Text
  pub bytecode : Text

-- `Bundle.Programs`.
abbrev pub Bundle : Type 0
Bundle = List (Text × Compiled)

pub data BundleError : Type 0 where
  not_compiled unreadable undecodable : Text → BundleError
  duplicate_program not_precompiled stale in_two_bundles : Text → BundleError
  invalid_shard : Text → BundleError

-- CompileAll: the first program, in order, that fails or repeats a name ends it.
unfoldable pub collect_programs :
    (Program → Result BundleError Text)
    → List Program
    → List (Text × Text)
    → Result BundleError (List (Text × Text))
collect_programs compile [] compiled = ok compiled
collect_programs compile (p ∷ ps) compiled = do
  code ← compile p
  guard (not (mem p.name (keys compiled))) (duplicate_program p.name)
  collect_programs compile ps ((p.name, code) ∷ compiled)

unfoldable pub compile_all :
    (Program → Result BundleError Text) → List Program → Result BundleError (List (Text × Text))
compile_all compile programs = collect_programs compile programs []

-- `compiled[name]` on a map of byte slices.
unfoldable pub code_of : Text → List (Text × Text) → Text
code_of name compiled = elim (lookup name compiled) [ none ↦ [] | some code ↦ code ]

unfoldable pub bundle_programs : (Text → Text) → List (Text × Text) → List Program → Bundle → Bundle
bundle_programs digest compiled [] bundle = bundle
bundle_programs digest compiled (p ∷ ps) bundle = bundle_programs digest compiled ps (
    assign p.name (record { source_sha256 = digest p.source; bytecode = code_of p.name compiled })
      bundle)

-- The bundle that WriteBundle encodes and writes.
unfoldable pub write_bundle :
    (Text → Text) → (Program → Result BundleError Text) → List Program → Result BundleError Bundle
write_bundle digest compile programs = do
  compiled ← compile_all compile programs
  ok (bundle_programs digest compiled programs [])

-- Bundle.Bytecode.
unfoldable pub bytecode : (Text → Text) → Bundle → Text → Text → Result BundleError Text
bytecode digest bundle name source = elim (lookup name bundle) [
  | none ↦ err (not_precompiled name)
  | some c ↦
      if text_eq c.source_sha256 (digest source) && not (is_nil c.bytecode)
      then ok c.bytecode
      else err (stale name)
]

-- ReadBundle on the contents of a file, if it can be read.
unfoldable pub read_bundle :
    (Text → Option Text) → (Text → Option Bundle) → Text → Result BundleError Bundle
read_bundle read decode path = elim (read path) [
  | none ↦ err (unreadable path)
  | some contents ↦ elim (decode contents) [
    | none ↦ err (undecodable path)
    | some bundle ↦ ok bundle
  ]
]

unfoldable pub merge_bundle : Bundle → Bundle → Result BundleError Bundle
merge_bundle [] merged = ok merged
merge_bundle ((name, c) ∷ programs) merged =
    guard (not (mem name (keys merged))) (in_two_bundles name)
    >> merge_bundle programs ((name, c) ∷ merged)

unfoldable pub merge_bundles :
    (Text → Option Text) → (Text → Option Bundle) → List Text → Bundle → Result BundleError Bundle
merge_bundles read decode [] merged = ok merged
merge_bundles read decode (path ∷ paths) merged = do
  bundle ← read_bundle read decode path
  merged' ← merge_bundle bundle merged
  merge_bundles read decode paths merged'

-- ReadBundles: none when there are no paths.
unfoldable pub read_bundles :
    (Text → Option Text) → (Text → Option Bundle) → List Text → Result BundleError (Option Bundle)
read_bundles read decode [] = ok none
read_bundles read decode (path ∷ paths) = do
  merged ← merge_bundles read decode (path ∷ paths) []
  ok (some merged)

-- The programs at the positions that leave the remainder `shard`.
unfoldable pub select : ℕ → ℕ → ℕ → List Program → List Program
select shard shards position [] = []
select shard shards position (p ∷ ps) =
    let rest = select shard shards (position + 1) ps in
    if position % shards == shard then p ∷ rest else rest

-- `strings.Cut(spec, "/")`.
unfoldable pub cut : Text → Option (Text × Text)
cut [] = none
cut (c ∷ cs) =
    let rest = cut cs in
    if c == b'/'
    then some ([], cs)
    else elim rest [ none ↦ none | some (before, after) ↦ some (c ∷ before, after) ]

unfoldable pub shard_of :
    List Program → Text → Option ℕ → Option ℕ → Result BundleError (List Program)
shard_of programs spec (some k) (some n) =
    if ltb 0 n && ltb k n then ok (select k n 0 programs) else err (invalid_shard spec)
shard_of programs spec _ _ = err (invalid_shard spec)

unfoldable pub shard : List Program → Text → Result BundleError (List Program)
shard programs [] = ok programs
shard programs (c ∷ cs) = elim (cut (c ∷ cs)) [
  | none ↦ err (invalid_shard (c ∷ cs))
  | some (index, count) ↦ shard_of programs (c ∷ cs) (parse_number index) (parse_number count)
]

-- Bundle.Names.
unfoldable pub names : Bundle → List Text
names bundle = sort_texts (keys bundle)
