-- ===== src/Report/Evidence.antt =====
-- report/report/report.go: validateEvidence; report/report/scheme.go: validateImmutableSource.
-- Links are ASCII text, so that `strings.ToLower` changes the letters A to Z alone.
use rules_stests.Base.{
  ℕ, ◌+◌, Bool, true, false, not, ◌&&◌, ◌||◌, List, [], ◌∷◌, Option, none, some, ◌==◌, leb,
  if◌then◌else◌, Text, codes, length, is_nil, mem, Result, ok, err, ◌>>◌, guard,
}
use rules_stests.Receipt.Types.{Evidence}
use rules_stests.Receipt.Validate.{all_hex}
use rules_stests.Report.Types.{
  ModelError, missing_evidence, incomplete_evidence, invalid_href, broken_path, not_https,
  mutable_url, unpinned_url, short_revision, bad_revision,
}

-- The rest of a text behind a prefix.
unfoldable pub strip_prefix : Text → Text → Option Text
strip_prefix [] t = some t
strip_prefix (p ∷ ps) [] = none
strip_prefix (p ∷ ps) (c ∷ cs) = let rest = strip_prefix ps cs in if p == c then rest else none

unfoldable pub has_prefix : Text → Text → Bool
has_prefix p t = elim (strip_prefix p t) [ none ↦ false | some rest ↦ true ]

-- What follows the first occurrence of a separator.
unfoldable pub after : Text → Text → Option Text
after sep [] = none
after sep (c ∷ cs) =
    let later = after sep cs in
    elim (strip_prefix sep (c ∷ cs)) [ none ↦ later | some rest ↦ some rest ]

-- `strings.Contains`, of a text that is not empty.
unfoldable pub contains : Text → Text → Bool
contains sub t = elim (after sub t) [ none ↦ false | some rest ↦ true ]

unfoldable pub up_to : ℕ → Text → Text
up_to stop [] = []
up_to stop (c ∷ cs) = let more = up_to stop cs in if c == stop then [] else c ∷ more

unfoldable pub lower : Text → Text
lower [] = []
lower (c ∷ cs) = (if leb b'A' c && leb c b'Z' then c + 32 else c) ∷ lower cs

-- The one test of an item of evidence, in the order of the source.
unfoldable pub validate_item : List Text → Evidence → Result ModelError (Unit {0})
validate_item paths item = do
  guard (not (is_nil item.label || is_nil item.href)) incomplete_evidence
  guard
      (has_prefix (codes "https://") item.href
        || has_prefix (codes "http://") item.href
        || has_prefix (codes "//") item.href)
      (invalid_href item.href)
  guard (is_nil item.path || mem item.path paths) (broken_path item.path)

unfoldable pub validate_items : List Text → List Evidence → Result ModelError (Unit {0})
validate_items paths [] = ok tt
validate_items paths (item ∷ items) = validate_item paths item >> validate_items paths items

unfoldable pub validate_evidence : List Text → List Evidence → Result ModelError (Unit {0})
validate_evidence paths items =
    guard (not (is_nil items)) missing_evidence >> validate_items paths items

unfoldable pub is_mutable : Text → Bool
is_mutable url =
    contains (codes "/main/") url
    || contains (codes "/master/") url
    || contains (codes "/head/") url
    || contains (codes "/latest/") url

unfoldable pub check_revision : Option Text → Result ModelError (Unit {0})
check_revision none = err unpinned_url
check_revision (some rest) = do
  guard (length (up_to b'/' rest) == 40) short_revision
  guard (all_hex (up_to b'/' rest)) bad_revision

unfoldable pub check_pinned : Text → Result ModelError (Unit {0})
check_pinned url =
    let marker = if contains (codes "/blob/") url then codes "/blob/" else codes "/tree/" in
    if contains (codes "github.com/") url then check_revision (after marker url) else ok tt

unfoldable pub validate_immutable_source : Text → Result ModelError (Unit {0})
validate_immutable_source href = do
  guard (has_prefix (codes "https://") href) not_https
  guard (not (is_mutable (lower href))) mutable_url
  check_pinned (lower href)

-- `for _, item := range items { validateImmutableSource(item.Href) }`.
unfoldable pub validate_sources : List Evidence → Result ModelError (Unit {0})
validate_sources [] = ok tt
validate_sources (item ∷ items) = validate_immutable_source item.href >> validate_sources items
