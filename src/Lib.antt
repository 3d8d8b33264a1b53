-- ===== src/Lib.antt =====
-- Verification of the report generator of rules_stests (report/report, in Go) and of two parts of
-- its harness (harness/schemebytecode and harness/parallel_scenarios.go).
--
-- A build of the repository runs conformance scenarios against telemetry implementations. Each run
-- leaves a validation receipt and a capture; authored Scheme files hold the profiles, from which the
-- proof plans are compiled, and the expected trace shapes. The report generator reads the Scheme
-- files, checks that the receipts are a complete and current set, and only then derives feature
-- claims and compares the shapes of implementations.
--
-- Modules:
--   Base       shared names: Boolean tests, texts, results, sets and maps as lists, sorting.
--   Receipt    report/report/receipt.go. Types: the records. Validate: ValidateReceiptSet and
--              ValidateReceiptSetForProfiles, a function for each stage of the loop. Spec: what
--              they promise (Defs) and the proof that they keep it. Decode: DecodeReceipt.
--              Coverage: CoveragesFromPlans, CoveragesFromPlansForProfiles and
--              PartitionExercisedProfiles.
--   Scheme     report/report/scheme.go, the reader. Expr: sexpr, atomValue, head, findDefinition,
--              renderMatcher. Lexer: tokenizeScheme. Parser: parseScheme, its grammar and the
--              proofs about both.
--   Shape      report/report/scheme.go, from expressions to scenario shapes: parseCardinality and
--              the cardinality rules, parseSpanGroup, parseTraceGroup, ParseScenarioShape and
--              accumulateSpan; the types of report/report/model.go.
--   Report     report/report/report.go, BuildModelForProfiles. Evidence: validateEvidence and
--              validateImmutableSource. Claims and Manifests: the checks, in the order of the
--              source. Compare: mergeDelta and the comparisons. Build: the tables and the whole.
--              Built, Stored, Declared, Members and Deltas hold the lemmas; Backed, Cells, Compared and
--              Complete say what a report that is built holds. Checks: the planned checks of
--              report/report/projections.go; Shown and Checked: what they count.
--   Profile    report/report/profile.go, CompileTelemetryProfile. Lookup: lists, maps and definitions.
--              Rules: parseKnownShapes, clauseValue and the proof rules; Ruled: what they are.
--              Claims: parseProfileClaim; Founded and Claimed: what its proofs rest on. Clauses: the
--              loop over the clauses; Sourced and Gathered: what holds in it. Compile: the registry,
--              the checks at the end and the whole; Identity, Ordered, Compiled and Bounded: what a
--              plan that it returns holds. Warranted and Composed: the feature claims made
--              from such plans.
--   Bytecode   harness/schemebytecode: CompileAll, WriteBundle, ReadBundles, Bytecode and Shard.
--              Compiling and Bundles: what a bundle gives back. Merged: several bundles. Shards:
--              the parts of a list of programs.
--   Stress     harness/parallel_scenarios.go, the checks of a parallel run. Overlap: overlap; Sorted
--              and Peak: what it computes. Ledger: the request ledger of validateStress; Numbered
--              and Indexed: what an accepted ledger holds. Contexts and Servers: the loop over the
--              server spans; Continued, Matched, Walked and Served: what they say of the requests.
--              Owners and Sql: owner and the count of SQL spans; Owned, Counted and Bounded: whose
--              they are, and how deep. Union: find and join of stressIndex; Forest, Short and
--              Linked: what they do to the array. Index: stressIndex; Traces, Grouped and
--              Components: which chunks are of one trace; Tagged, Inherited, Resolved, Stored and
--              Indexes: the high bits of each chunk, and what the index holds. Validate:
--              validateStress; Valid and Whole: what an accepted run has done.
--   Tests      runs on small inputs, and the theorems applied at them.
--
-- Conventions. A Go string or byte slice is a list of numbers, its code points. A Go map is an
-- association list, walked in its own order; a map to bool is the list of its true keys. An error
-- is a constructor that stands for its message. SHA-256, the JSON decoder (of a receipt, a
-- bundle, a capture and the registry of features) and url.Parse are parameters. A Go `int` in a
-- shape or a comparison is the number that its 64 bits spell, and arithmetic on it wraps around. In
-- Stress an integer that may be negative is `pos` or `negsuc`.
--
-- Fuel. The tokenizer has one unit for each rune and one more, the parser two for each token and
-- two more, and owner in validateStress 66 units, one more than the depth that it accepts; all are
-- proved to be enough for every input. find in stressIndex has a unit for each chunk: the chains of
-- the array that join builds are shorter, which Short proves.
--
-- Not modelled: rendering to HTML, the commands around the package, the decoding of captures, the
-- alignment of shapes, the version labels of a profile, the matrix import, the launchers and probes
-- of harness/, and the fixtures. The rendering, the commands and the launchers are input and output
-- for the most part.
pub mod Base
pub mod Receipt
pub mod Report
pub mod Scheme
pub mod Shape
pub mod Profile
pub mod Bytecode
pub mod Stress
mod Tests
