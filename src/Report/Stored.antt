-- ===== src/Report/Stored.antt =====
-- report/report/report.go: what the maps of BuildModelForProfiles hold.
use mathlib.Core.Path.{subst}
use rules_stests.Base.{
  not, ◌≡◌, List, [], ◌∷◌, some, Text, All, text_eq, text_eq_iff, Bool-cases, Option-cases, inl,
  inr, mem, lookup, keys, ok, guard_iff, >>=-eq-ok, ok-injective,
}
use rules_stests.Receipt.Coverage.{FeatureClaim, ProfileProofCoverage, assign}
use rules_stests.Report.Claims.{Known, check_claim, store_claims, collect_claims}
use rules_stests.Report.Evidence.{validate_evidence}
use rules_stests.Report.Manifests.{claim_at}

-- Every entry of a map satisfies `P`.
abbrev pub Entries {ℓ κ} : {V : Type ℓ} → (Text → V → Type κ) → List (Text × V) → Type κ
Entries P m = All (λ e. P e.0 e.1) m

pub lookup-Entries {ℓ κ} :
    {V : Type ℓ} (P : Text → V → Type κ) (k : Text) (m : List (Text × V)) {v : V}
    → lookup k m ≡ some v
    → Entries P m
    → P k v
unfolding lookup
lookup-Entries P k [] {v = v} h e = absurd (cc h)
lookup-Entries P k ((j, w) ∷ m) {v = v} h (p, e) = elim (Bool-cases (text_eq j k)) [
  | inl same ↦
      let found : w ≡ v = cc (rw same at h) in
      subst (λ i. P i v) ((text_eq_iff j k).0 same) (subst (P j) found p)
  | inr other ↦ lookup-Entries P k m (rw other at h) e
]

pub assign-Entries {ℓ κ} :
    {V : Type ℓ} (P : Text → V → Type κ) (k : Text) (v : V) (m : List (Text × V))
    → P k v
    → Entries P m
    → Entries P (assign k v m)
unfolding assign
assign-Entries P k v [] p e = (p, tt)
assign-Entries P k v ((j, w) ∷ m) p (q, e) = elim (Bool-cases (text_eq j k)) [
  | inl same ↦ rw same (p, e)
  | inr other ↦ rw other (q, assign-Entries P k v m p e)
]

-- `P` of each claim that is stored under its profile.
abbrev pub Stored {κ} :
    (Text → FeatureClaim → Type κ) → List (Text × List (Text × FeatureClaim)) → Type κ
Stored P claims = Entries (λ profile stored. Entries (λ feature c. P profile c) stored) claims

store_claims-Entries {κ} :
    (known : Known) (profile : Text) (P : FeatureClaim → Type κ) (cs : List FeatureClaim)
    (stored : List (Text × FeatureClaim)) {out : List (Text × FeatureClaim)}
    → store_claims known profile cs stored ≡ ok out
    → All P cs
    → Entries (λ feature c. P c) stored
    → Entries (λ feature c. P c) out
unfolding store_claims
store_claims-Entries known profile P [] stored h a e =
    subst (Entries λ feature c. P c) (ok-injective h) e
store_claims-Entries known profile P (c ∷ cs) stored h (p, a) e =
    let (_, one, rest) = >>=-eq-ok (check_claim known profile stored c) _ h in
    store_claims-Entries known profile P cs ((c.feature_id, c) ∷ stored) rest a (p, e)

pub collect_claims-Stored {κ} :
    (known : Known) (P : Text → FeatureClaim → Type κ) (cs : List ProfileProofCoverage)
    (claims : List (Text × List (Text × FeatureClaim)))
    {out : List (Text × List (Text × FeatureClaim))}
    → collect_claims known cs claims ≡ ok out
    → All (λ c. All (P c.profile) c.claims) cs
    → Stored P claims
    → Stored P out
unfolding collect_claims
collect_claims-Stored known P [] claims h a e = subst (Stored P) (ok-injective h) e
collect_claims-Stored known P (c ∷ cs) claims h (p, a) e =
    let (_, h₁) = (guard_iff (mem c.profile known.profile_set) _ _).0 h in
    let (_, h₂) = (guard_iff (not (mem c.profile (keys claims))) _ _).0 h₁ in
    let (_, _, h₃) = >>=-eq-ok (validate_evidence known.paths (c.source ∷ [])) _ h₂ in
    let (stored, one, rest) = >>=-eq-ok (store_claims known c.profile c.claims []) _ h₃ in
    collect_claims-Stored known P cs ((c.profile, stored) ∷ claims) rest a
      (store_claims-Entries known c.profile (P c.profile) c.claims [] one p tt, e)

pub claim_at-Stored {κ} :
    (P : Text → FeatureClaim → Type κ) (profile feature : Text)
    (claims : List (Text × List (Text × FeatureClaim))) {c : FeatureClaim}
    → claim_at profile feature claims ≡ some c
    → Stored P claims
    → P profile c
unfolding claim_at
claim_at-Stored P profile feature claims h e = elim (Option-cases (lookup profile claims)) [
  | inl missing ↦ cc (rw (missing, claim_at) at h)
  | inr (stored, found) ↦
      lookup-Entries (λ feature c. P profile c) feature stored (rw (found, claim_at) at h)
        (lookup-Entries (λ profile stored. Entries (λ feature c. P profile c) stored) profile claims
          found e)
]
