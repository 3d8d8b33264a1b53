-- ===== src/Profile/Identity.antt =====
-- report/report/profile.go: the checks behind the loop of CompileTelemetryProfile, on what a plan
-- says of its profile.
use rules_stests.Base.{
  Bool, true, false, not, ◌&&◌, ◌||◌, List, [], ◌∷◌, ◌≡◌, refl, ap, ◌⊎◌, inl, inr, Text, codes,
  text_eq, text_eq_iff, either_text, is_nil, ok, guard, guard-eq-ok, >>=-eq-ok, mem, All, if-cases,
  arith, ok-injective,
}
use mathlib.Core.Path.{subst}
use rules_stests.Profile.Types.{
  ProfileFields, ProfilePlan, bad_signal, bad_identity, only_traces, needs_operation, needs_family,
}
use rules_stests.Profile.Compile.{
  is_complete_plan, known_signals, check_signals, has_identity, traces_only, check_datadog_plan,
  has_no_identity, check_identity,
}

-- What the plan says of the profile is all there.
abbrev pub IsFilled : ProfilePlan → Type 0
IsFilled plan =
    let f = plan.fields in
    All (λ t. is_nil t ≡ false)
      (f.profile ∷ f.display_name ∷ f.language ∷ f.framework ∷ f.service_name ∷ [])
    × (is_nil plan.signals ≡ false)
    × (is_nil plan.implementations ≡ false)
    × (is_nil plan.proofs ≡ false)

-- A plan of no family, of version 1 and with no identity.
abbrev pub IsPlain : ProfilePlan → Type 0
IsPlain plan =
    let f = plan.fields in
    (plan.schema_version ≡ 1)
    × All (λ t. t ≡ [])
        (f.family ∷ f.wire_version ∷ f.application ∷ f.shape_namespace ∷ f.tracer_language
          ∷ f.tracer_version ∷ f.server_operation ∷ [])

-- A Datadog plan, of version 2: its identity is all there, and it has traces only.
abbrev pub IsDatadog : ProfilePlan → Type 0
IsDatadog plan =
    let f = plan.fields in
    (plan.schema_version ≡ 2)
    × (f.family ≡ codes "datadog")
    × ((f.wire_version ≡ codes "v0.4") ⊎ (f.wire_version ≡ codes "v0.5"))
    × All (λ t. is_nil t ≡ false) (f.application ∷ f.shape_namespace ∷ f.tracer_version ∷ [])
    × (plan.signals ≡ codes "traces" ∷ [])
    × (f.application ≡ codes "rails" → f.server_operation ≡ codes "rack.request")

pub filled : (plan : ProfilePlan) → is_complete_plan plan ≡ true → IsFilled plan
unfolding is_complete_plan
filled plan h = ground arith

pub checked_signals :
    (signals : List Text)
    → check_signals signals ≡ ok tt
    → All (λ s. mem s known_signals ≡ true) signals
unfolding check_signals
checked_signals [] h = tt
checked_signals (s ∷ signals) h =
    let (d, e, h') = >>=-eq-ok (guard (mem s known_signals) (bad_signal s)) _ h in
    (guard-eq-ok (mem s known_signals) (bad_signal s) e, checked_signals signals h')

nil_of_is_nil : (t : Text) → is_nil t ≡ true → t ≡ []
nil_of_is_nil [] h = refl
nil_of_is_nil (c ∷ t) h = cc h

traces_only-eq : (signals : List Text) → traces_only signals ≡ true → signals ≡ codes "traces" ∷ []
unfolding traces_only
traces_only-eq [] h = cc h
traces_only-eq (s ∷ []) h = ap (λ t. t ∷ []) ((text_eq_iff s (codes "traces")).0 h)
traces_only-eq (s ∷ t ∷ signals) h = cc h

abbrev no_operation : ProfileFields → Bool
no_operation f =
    text_eq f.application (codes "rails") && not (text_eq f.server_operation (codes "rack.request"))

is_datadog :
    (plan : ProfilePlan)
    → check_datadog_plan plan ≡ ok tt
    → IsDatadog (record plan { schema_version = 2 })
unfolding check_datadog_plan has_identity
is_datadog plan h =
    let f = plan.fields in
    let (d, e, h1) = >>=-eq-ok (guard (has_identity f) bad_identity) _ h in
    let (d', e', h2) = >>=-eq-ok (guard (traces_only plan.signals) only_traces) _ h1 in
    let has = guard-eq-ok (has_identity f) bad_identity e in
    let operation = guard-eq-ok (not (no_operation f)) needs_operation h2 in
    let (family, wire, application, namespace, version) = parts has in
    (
      refl,
      (text_eq_iff f.family (codes "datadog")).0 family,
      either_text f.wire_version (codes "v0.4") (codes "v0.5") wire,
      (application, (namespace, (version, tt))),
      traces_only-eq plan.signals (guard-eq-ok (traces_only plan.signals) only_traces e'),
      λ rails.
          (text_eq_iff f.server_operation (codes "rack.request")).0
            (ground (arith, operation, (text_eq_iff f.application (codes "rails")).1 rails)),
    )
  where
    parts :
        has_identity plan.fields ≡ true
        → (text_eq plan.fields.family (codes "datadog") ≡ true)
          × ((text_eq plan.fields.wire_version (codes "v0.4")
                || text_eq plan.fields.wire_version (codes "v0.5"))
              ≡ true)
          × (is_nil plan.fields.application ≡ false)
          × (is_nil plan.fields.shape_namespace ≡ false)
          × (is_nil plan.fields.tracer_version ≡ false)
    parts h = ground arith

is_plain :
    (plan : ProfilePlan)
    → plan.schema_version ≡ 1
    → is_nil plan.fields.family ≡ true
    → has_no_identity plan.fields ≡ true
    → IsPlain plan
unfolding has_no_identity
is_plain plan v n h =
    let f = plan.fields in
    let (a, b, c, d, e, g) = parts in
    let identity : All (λ t. t ≡ [])
        (f.shape_namespace ∷ f.tracer_language ∷ f.tracer_version ∷ f.server_operation ∷ []) =
      (
        nil_of_is_nil f.shape_namespace c,
        (
          nil_of_is_nil f.tracer_language d,
          (nil_of_is_nil f.tracer_version e, (nil_of_is_nil f.server_operation g, tt)),
        ),
      ) in
    (
      v,
      (
        nil_of_is_nil f.family n,
        (nil_of_is_nil f.wire_version a, (nil_of_is_nil f.application b, identity)),
      ),
    )
  where
    parts :
        (is_nil plan.fields.wire_version ≡ true)
        × (is_nil plan.fields.application ≡ true)
        × (is_nil plan.fields.shape_namespace ≡ true)
        × (is_nil plan.fields.tracer_language ≡ true)
        × (is_nil plan.fields.tracer_version ≡ true)
        × (is_nil plan.fields.server_operation ≡ true)
    parts = ground arith

pub is_identity :
    (plan : ProfilePlan) {checked : ProfilePlan}
    → plan.schema_version ≡ 1
    → check_identity plan ≡ ok checked
    → (IsPlain checked ⊎ IsDatadog checked)
      × (checked ≡ record plan { schema_version = checked.schema_version })
unfolding check_identity
is_identity plan {checked = checked} v h = elim (if-cases (is_nil plan.fields.family) _ _ h) [
  | inl (none_named, h1) ↦
      let (d, e, same) = >>=-eq-ok (guard (has_no_identity plan.fields) needs_family) _ h1 in
      subst Good (ok-injective same) (
        inl (is_plain plan v none_named (guard-eq-ok (has_no_identity plan.fields) needs_family e)),
        refl,
      )
  | inr (named, h1) ↦
      let (d, e, same) = >>=-eq-ok (check_datadog_plan plan) _ h1 in
      subst Good (ok-injective same) (inr (is_datadog plan e), refl)
]
  where
    Good : ProfilePlan → Type 0
    Good z = (IsPlain z ⊎ IsDatadog z) × (z ≡ record plan { schema_version = z.schema_version })
