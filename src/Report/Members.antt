-- ===== src/Report/Members.antt =====
-- report/report/report.go: the shapes and the declared scenarios that BuildModelForProfiles looks up.
use rules_stests.Base.{
  Bool, false, ◌||◌, ◌≡◌, refl, sym, ap, ◌∙◌, List, [], ◌∷◌, if◌then◌else◌, Text, text_eq,
  text_eq_iff, mem, mem-add, add, lookup, keys, Distinct, ok, guard_iff, >>=-eq-ok, ok-injective,
  arith,
}
use rules_stests.Receipt.Types.{pair_key}
use rules_stests.Receipt.Coverage.{assign, entries_of}
use rules_stests.Shape.Totals.{ScenarioShape}
use rules_stests.Report.Claims.{
  Known, collect_scenarios, collect_members, check_members, collect_features,
}
use rules_stests.Report.Build.{Corpus, known_of, index_shapes}
use rules_stests.Report.Built.{index_shapes-step}
use rules_stests.Report.Declared.{entries_of-cons, entries_of-assign}

-- Some shape is of the profile and scenario.
abbrev pub has_shape : List ScenarioShape → Text → Text → Bool
has_shape [] profile scenario = false
has_shape (s ∷ ss) profile scenario =
    text_eq (pair_key s.profile s.scenario) (pair_key profile scenario)
    || has_shape ss profile scenario

pub mem-index_shapes :
    (known : Known) (p s : Text) (ss : List ScenarioShape) (index : List (Text × ScenarioShape))
    {out : List (Text × ScenarioShape)}
    → index_shapes known ss index ≡ ok out
    → mem (pair_key p s) (keys out) ≡ (has_shape ss p s || mem (pair_key p s) (keys index))
unfolding index_shapes mem
mem-index_shapes known p s [] index h = sym (ap (λ o. mem (pair_key p s) (keys o)) (ok-injective h))
mem-index_shapes known p s (x ∷ ss) index h =
    let (_, h₄) = index_shapes-step known x ss index h in
    ground (arith, mem-index_shapes known p s ss ((pair_key x.profile x.scenario, x) ∷ index) h₄)

mem-collect_scenarios :
    (known : List Text) (profile s : Text) (ss set : List Text) {out : List Text}
    → collect_scenarios known profile ss set ≡ ok out
    → mem s out ≡ (mem s ss || mem s set)
unfolding collect_scenarios mem
mem-collect_scenarios known profile s [] set h = sym (ap (mem s) (ok-injective h))
mem-collect_scenarios known profile s (x ∷ ss) set h =
    let (_, rest) = (guard_iff (mem x known) _ _).0 h in
    ground (arith, mem-collect_scenarios known profile s ss (add x set) rest, mem-add s x set)

-- The sets hold the declared scenarios of each profile.
mem-collect_members :
    (profiles scenarios : List Text) (k s : Text) (ps sets : List (Text × List Text))
    {out : List (Text × List Text)}
    → collect_members profiles scenarios ps sets ≡ ok out
    → Distinct (keys ps)
    → mem s (entries_of k out)
      ≡ (if mem k (keys ps) then mem s (entries_of k ps) else mem s (entries_of k sets))
unfolding collect_members mem
mem-collect_members profiles scenarios k s [] sets h d =
    sym (ap (λ o. mem s (entries_of k o)) (ok-injective h))
mem-collect_members profiles scenarios k s ((p, ss) ∷ more) sets h (new, d) =
    let (_, h₁) = (guard_iff (mem p profiles) _ _).0 h in
    let (set, one, rest) = >>=-eq-ok (collect_scenarios scenarios p ss []) _ h₁ in
    ground (
      arith,
      new,
      text_eq_iff p k,
      mem-collect_scenarios scenarios p s ss [] one,
      mem-collect_members profiles scenarios k s more (assign p set sets) rest d,
      entries_of-cons k p ss more,
      entries_of-assign k p set sets,
    )

mem-undeclared :
    (k s : Text) (ps : List (Text × List Text))
    → mem k (keys ps) ≡ false
    → mem s (entries_of k ps) ≡ false
unfolding mem entries_of lookup
mem-undeclared k s [] h = refl
mem-undeclared k s ((p, ss) ∷ ps) h =
    ground (arith, entries_of-cons k p ss ps, mem-undeclared k s ps)

-- The members of the declaration, as known_of collects them.
pub mem-members :
    (corpus : Corpus) (k s : Text) {known : Known}
    → known_of corpus ≡ ok known
    → Distinct (keys corpus.profile_scenarios)
    → mem s (entries_of k known.members) ≡ mem s (entries_of k corpus.profile_scenarios)
unfolding known_of mem
mem-members corpus k s {known} h d =
    let (members, collected, h₁) =
      >>=-eq-ok (collect_members _ _ corpus.profile_scenarios []) _ h in
    let (_, checked, h₂) = >>=-eq-ok (check_members members corpus.profiles) _ h₁ in
    let (features, _, h₃) = >>=-eq-ok (collect_features corpus.features []) _ h₂ in
    sym (ap (λ o. mem s (entries_of k o.members)) (ok-injective h₃))
    ∙ declared_members members (mem-collect_members _ _ k s corpus.profile_scenarios [] collected d)
  where
    declared_members :
        (members : List (Text × List Text))
        → mem s (entries_of k members) ≡ (
            if mem k (keys corpus.profile_scenarios)
            then mem s (entries_of k corpus.profile_scenarios)
            else mem s (entries_of k []))
        → mem s (entries_of k members) ≡ mem s (entries_of k corpus.profile_scenarios)
    declared_members members e =
        ground (arith, mem-undeclared k s corpus.profile_scenarios, mem-undeclared k s [] refl)
