-- ===== src/Report/Declared.antt =====
-- report/report/report.go: a profile that BuildModelForProfiles accepts declares a scenario.
use rules_stests.Base.{
  true, false, not, ◌≡◌, ◌⊎◌, refl, sym, List, [], ◌∷◌, if◌then◌else◌, Text, is_nil, text_eq,
  text_eq_iff, Bool-cases, inl, inr, mem, mem-add, lookup, keys, Distinct, ok, guard_iff, >>=-eq-ok,
  ok-injective, arith,
}
use rules_stests.Receipt.Coverage.{assign, entries_of}
use rules_stests.Report.Claims.{string_set, collect_scenarios, collect_members, check_members}

pub mem-string_set : (k : Text) (vs : List Text) → mem k (string_set vs) ≡ mem k vs
unfolding string_set mem
mem-string_set k [] = refl
mem-string_set k (v ∷ vs) = ground (arith, mem-add k v (string_set vs), mem-string_set k vs)

-- The map holds something under the key.
abbrev pub IsInhabited : Text → List (Text × List Text) → Type 0
IsInhabited k m = is_nil (entries_of k m) ≡ false

pub entries_of-cons :
    (k j : Text) (v : List Text) (m : List (Text × List Text))
    → entries_of k ((j, v) ∷ m) ≡ (if text_eq j k then v else entries_of k m)
unfolding entries_of lookup
entries_of-cons k j v m = ground arith

pub entries_of-assign :
    (k j : Text) (v : List Text) (m : List (Text × List Text))
    → entries_of k (assign j v m) ≡ (if text_eq j k then v else entries_of k m)
unfolding assign
entries_of-assign k j v [] = entries_of-cons k j v []
entries_of-assign k j v ((i, w) ∷ m) = ground (
  arith,
  text_eq_iff i j,
  text_eq_iff i k,
  text_eq_iff j k,
  entries_of-assign k j v m,
  entries_of-cons k j v m,
  entries_of-cons k i w m,
  entries_of-cons k i w (assign j v m),
)

pub IsInhabited-keys :
    (k : Text) (m : List (Text × List Text)) → IsInhabited k m → mem k (keys m) ≡ true
unfolding entries_of lookup mem
IsInhabited-keys k [] h = cc
IsInhabited-keys k ((j, v) ∷ m) h = ground (arith, IsInhabited-keys k m)

-- The set of a profile that declares nothing stays empty.
collect_scenarios-nil :
    (known : List Text) (profile : Text) (ss : List Text) {out : List Text}
    → collect_scenarios known profile ss [] ≡ ok out
    → is_nil out ≡ false
    → is_nil ss ≡ false
unfolding collect_scenarios
collect_scenarios-nil known profile [] h n = cc
collect_scenarios-nil known profile (s ∷ ss) h n = refl

collect_members-IsInhabited :
    (profiles scenarios : List Text) (k : Text) (entries sets : List (Text × List Text))
    {out : List (Text × List Text)}
    → collect_members profiles scenarios entries sets ≡ ok out
    → Distinct (keys entries)
    → IsInhabited k out
    → IsInhabited k entries ⊎ IsInhabited k sets
unfolding collect_members
collect_members-IsInhabited profiles scenarios k [] sets h d n =
    inr (rw (sym (ok-injective h)) at n)
collect_members-IsInhabited profiles scenarios k ((p, ss) ∷ more) sets h (new, d) n =
    let (_, h₁) = (guard_iff (mem p profiles) _ _).0 h in
    let (set, one, rest) = >>=-eq-ok (collect_scenarios scenarios p ss []) _ h₁ in
    let known = collect_scenarios-nil scenarios p ss one in
    elim (collect_members-IsInhabited profiles scenarios k more (assign p set sets) rest d n) [
      | inl later ↦ inl (
          ground (
            arith,
            entries_of-cons k p ss more,
            text_eq_iff p k,
            IsInhabited-keys k more later,
            new,
            later,
          ))
      | inr earlier ↦ elim (Bool-cases (text_eq p k)) [
        | inl same ↦ inl (
            ground (
              arith,
              same,
              entries_of-cons k p ss more,
              entries_of-assign k p set sets,
              known,
              earlier,
            ))
        | inr other ↦ inr (ground (arith, other, entries_of-assign k p set sets, earlier))
      ]
    ]

pub check_members-IsInhabited :
    (sets : List (Text × List Text)) (k : Text) (profiles : List Text)
    → check_members sets profiles ≡ ok tt
    → mem k profiles ≡ true
    → IsInhabited k sets
unfolding check_members mem
check_members-IsInhabited sets k [] h m = cc
check_members-IsInhabited sets k (p ∷ ps) h m =
    let (full, rest) = (guard_iff (not (is_nil (entries_of p sets))) _ _).0 h in
    ground (arith, text_eq_iff p k, full, check_members-IsInhabited sets k ps rest, m)

-- Every profile that is accepted declares a scenario of its own.
pub declared_by :
    (profiles scenarios : List Text) (entries : List (Text × List Text)) (k : Text)
    {sets : List (Text × List Text)}
    → collect_members profiles scenarios entries [] ≡ ok sets
    → Distinct (keys entries)
    → IsInhabited k sets
    → IsInhabited k entries
unfolding entries_of lookup
declared_by profiles scenarios entries k h d n =
    elim (collect_members-IsInhabited profiles scenarios k entries [] h d n) [
      | inl here ↦ here
      | inr there ↦ cc
    ]
