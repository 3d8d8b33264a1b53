-- ===== src/Tests/Bytecodes.antt =====
-- harness/schemebytecode/schemebytecode.go on three programs. The compiler puts an x in front of a
-- source, the digest of a text is the text, and a file holds the name of its one program.
use mathlib.Core.List.{Perm}
use rules_stests.Base.{
  arith, ◌≡◌, ◌↔◌, refl, [], ◌∷◌, List, Option, some, Text, codes, text_eq, mem, lookup, Result, ok,
  err,
}
use rules_stests.Receipt.Coverage.{assign}
use rules_stests.Shape.Cardinality.{parse_number}
use rules_stests.Bytecode.{
  Program, Bundle, BundleError, stale, duplicate_program, invalid_shard, in_two_bundles,
  collect_programs, compile_all, code_of, bundle_programs, write_bundle, bytecode, read_bundle,
  merge_bundle, merge_bundles, read_bundles, select, cut, shard_of, shard,
}
use rules_stests.Bytecode.Shards.{every_shard, shard_partition}
use rules_stests.Bytecode.Bundles.{Gives, bytecode-write_bundle_iff}
use rules_stests.Bytecode.Merged.{bundles_at, IsMerge, read_bundles-IsMerge}

abbrev first : Program
first = record { name = codes "a"; source = codes "(a)" }

abbrev second : Program
second = record { name = codes "b"; source = codes "(b)" }

abbrev third : Program
third = record { name = codes "c"; source = codes "(c)" }

abbrev programs : List Program
programs = first ∷ second ∷ third ∷ []

-- Shard 1 of 2 holds the program in the middle; there is no shard 2 of 2.
shards_two :
    (shard programs (codes "1/2") ≡ ok (second ∷ []))
    × (shard programs (codes "0/2") ≡ ok (first ∷ third ∷ []))
    × (shard programs (codes "2/2") ≡ err (invalid_shard (codes "2/2")))
unfolding shard shard_of cut select parse_number
shards_two = (refl, refl, refl)

shard_partition_example :
    (out : List Program) × (every_shard programs 2 2 ≡ ok out) × Perm out programs
shard_partition_example = shard_partition programs 2 (omega arith) (omega arith)

abbrev identity : Text → Text
identity t = t

abbrev compile : Program → Result BundleError Text
compile p = ok (b'x' ∷ p.source)

abbrev bundle : Bundle
bundle =
    (codes "a", record { source_sha256 = codes "(a)"; bytecode = codes "x(a)" })
    ∷ (codes "b", record { source_sha256 = codes "(b)"; bytecode = codes "x(b)" })
    ∷ []

writes_two : write_bundle identity compile (first ∷ second ∷ []) ≡ ok bundle
unfolding write_bundle compile_all collect_programs bundle_programs code_of assign lookup mem
    text_eq
writes_two = refl

-- Two programs of one name, and a source that has changed.
refuses_two :
    (write_bundle identity compile (first ∷ first ∷ []) ≡ err (duplicate_program (codes "a")))
    × (bytecode identity bundle (codes "a") (codes "(b)") ≡ err (stale (codes "a")))
unfolding write_bundle compile_all collect_programs bytecode lookup mem text_eq
refuses_two = (refl, refl)

bytecode-write_bundle_iff_example :
    (bytecode identity bundle (codes "a") (codes "(a)") ≡ ok (codes "x(a)"))
    ↔ Gives identity compile (first ∷ second ∷ []) (codes "a") (codes "(a)") (codes "x(a)")
bytecode-write_bundle_iff_example =
    bytecode-write_bundle_iff identity compile (first ∷ second ∷ []) (codes "a") (codes "(a)")
      (codes "x(a)") writes_two

abbrev read : Text → Option Text
read path = some path

abbrev decode : Text → Option Bundle
decode contents = some ((contents, record { source_sha256 = contents; bytecode = contents }) ∷ [])

abbrev merged : Bundle
merged =
    (codes "b", record { source_sha256 = codes "b"; bytecode = codes "b" })
    ∷ (codes "a", record { source_sha256 = codes "a"; bytecode = codes "a" })
    ∷ []

merges_two :
    (read_bundles read decode (codes "a" ∷ codes "b" ∷ []) ≡ ok (some merged))
    × (read_bundles read decode (codes "a" ∷ codes "a" ∷ []) ≡ err (in_two_bundles (codes "a")))
unfolding read_bundles merge_bundles merge_bundle read_bundle mem text_eq
merges_two = (refl, refl)

read_bundles-IsMerge_example :
    (bundles : List Bundle) × (bundles_at read decode (codes "a" ∷ codes "b" ∷ []) ≡ ok bundles)
    × IsMerge bundles merged
read_bundles-IsMerge_example =
    read_bundles-IsMerge read decode (codes "a" ∷ codes "b" ∷ []) {merged = merged} merges_two.0
