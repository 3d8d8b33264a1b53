-- ===== src/Receipt/Spec/One.antt =====
-- One receipt: the body of the loop in report/report/receipt.go against the specification.
use rules_stests.Base.{
  true, false, not, ◌≡◌, ◌≢◌, ◌↔◌, ◌⊎◌, refl, sym, ◌∙◌, inl, inr, List, [], map, Option, none, some,
  Text, All, text_eq, text_eq_iff, mem, lookup, ok, guard_iff, ◌>>=◌, >>=-eq-ok, arith,
}
use rules_stests.Receipt.Types.{
  ValidationReceipt, ProofPlanProof, NormalizedProfilePlan, PlanArtifact, receipt_key,
}
use rules_stests.Receipt.Validate.{
  verified, xfail, exact, contract, pass, key_of_proof, Build, check_outcome, check_mode,
  check_capture, check_plan, check_proofs, check_receipt, wanted_proofs, actual_proofs,
  compare_proofs,
}
use rules_stests.Receipt.Spec.Defs.{
  Fresh, planned_keys, SameMembers, FitsOutcome, FitsMode, IsBacked,
}
use rules_stests.Receipt.Spec.Proofs.{
  pushed, mem-pushed, pushed-Distinct, mem-wanted_proofs, wanted_proofs-Distinct,
  actual_proofs-eq-ok, actual_proofs_accepts, compare_proofs_iff,
}

abbrev pub OutcomeFits : ValidationReceipt → Type 0
OutcomeFits r =
    ((r.outcome ≡ xfail) × (r.xfail_reason ≢ [])) ⊎ ((r.outcome ≡ verified) × (r.xfail_reason ≡ []))

pub check_outcome_iff : (r : ValidationReceipt) → (check_outcome r ≡ ok tt) ↔ OutcomeFits r
unfolding check_outcome
check_outcome_iff r = (
  λ h. ground (arith, text_eq_iff r.outcome xfail, text_eq_iff r.outcome verified),
  λ h. ground (arith, text_eq_iff r.outcome xfail, text_eq_iff r.outcome verified),
)

pub check_mode_iff :
    (digest : Text → Text) (shape : Option Text) (r : ValidationReceipt)
    → (check_mode digest shape r ≡ ok tt) ↔ FitsMode digest shape r
unfolding check_mode
check_mode_iff digest none r = (
  λ h. ground (arith, text_eq_iff r.validation_mode contract),
  λ h. ground (arith, text_eq_iff r.validation_mode contract),
)
check_mode_iff digest (some s) r =
    let read = text_eq_iff r.scenario_shape_sha256 (digest s) in
    (
      λ h. ground (arith, text_eq_iff r.validation_mode exact, read),
      λ h. ground (arith, text_eq_iff r.validation_mode exact, read),
    )

pub check_capture_iff :
    (digest : Text → Text) (capture : Option Text) (r : ValidationReceipt)
    → (check_capture digest capture r ≡ ok tt)
      ↔ ((c : Text) × (capture ≡ some c) × (digest c ≡ r.capture_sha256))
unfolding check_capture
check_capture_iff digest none r = (λ h. cc, λ h. cc (h.1))
check_capture_iff digest (some c) r = (
  λ h. (c, refl, ground (arith, text_eq_iff (digest c) r.capture_sha256)),
  λ (d, e, f). ground (arith, text_eq_iff (digest c) r.capture_sha256),
)

pub check_plan_iff :
    (digest : Text → Text) (found : Option PlanArtifact) (r : ValidationReceipt) (a : PlanArtifact)
    → (check_plan digest found r ≡ ok a)
      ↔ ((found ≡ some a) × (a.plan.profile ≡ r.profile) × (digest a.bytes ≡ r.proof_plan_sha256))
unfolding check_plan
check_plan_iff digest none r a = (λ h. cc, λ h. cc (h.0))
check_plan_iff digest (some b) r a =
    let profiles = text_eq_iff b.plan.profile r.profile in
    let digests = text_eq_iff (digest b.bytes) r.proof_plan_sha256 in
    (λ h. ground (arith, profiles, digests), λ h. ground (arith, profiles, digests))

-- The wanted set built by the loop has the members of the planned keys.
wanted-SameMembers :
    (k scenario : Text) (ps : List ProofPlanProof)
    → mem k (wanted_proofs scenario ps []) ≡ mem k (planned_keys scenario ps)
unfolding mem
wanted-SameMembers k scenario ps = ground (arith, mem-wanted_proofs k scenario ps [])

pushed-SameMembers : (k : Text) (ks : List Text) → mem k (pushed ks []) ≡ mem k ks
unfolding mem
pushed-SameMembers k ks = ground (arith, mem-pushed k ks [])

abbrev ProofsFit : NormalizedProfilePlan → ValidationReceipt → Type 0
ProofsFit plan r =
    All (λ p. p.result ≡ pass) r.proofs
    × Fresh [] (map key_of_proof r.proofs)
    × SameMembers (map key_of_proof r.proofs) (planned_keys r.scenario plan.proofs)

compared :
    (plan : NormalizedProfilePlan) (r : ValidationReceipt)
    → Fresh [] (map key_of_proof r.proofs)
    → (compare_proofs r
          (wanted_proofs r.scenario plan.proofs [])
          (pushed (map key_of_proof r.proofs) [])
        ≡ ok tt)
      ↔ SameMembers (map key_of_proof r.proofs) (planned_keys r.scenario plan.proofs)
compared plan r f =
    let both =
      compare_proofs_iff r (wanted_proofs r.scenario plan.proofs [])
        (pushed (map key_of_proof r.proofs) [])
        (wanted_proofs-Distinct r.scenario plan.proofs [] tt)
        (pushed-Distinct (map key_of_proof r.proofs) [] f tt) in
    (
      λ h k.
          sym (pushed-SameMembers k _) ∙ both.0 h k ∙ wanted-SameMembers k r.scenario plan.proofs,
      λ h.
          both.1
            λ k. pushed-SameMembers k _ ∙ h k ∙ sym (wanted-SameMembers k r.scenario plan.proofs),
    )

verified_proofs_iff :
    (plan : NormalizedProfilePlan) (r : ValidationReceipt)
    → ((actual_proofs r r.proofs [] >>= compare_proofs r (wanted_proofs r.scenario plan.proofs []))
        ≡ ok tt)
      ↔ ProofsFit plan r
verified_proofs_iff plan r = (accepted, accepts)
  where
    accepted :
        (actual_proofs r r.proofs [] >>= compare_proofs r (wanted_proofs r.scenario plan.proofs []))
          ≡ ok tt
        → ProofsFit plan r
    accepted h =
        let (actual, read, same) = >>=-eq-ok (actual_proofs r r.proofs []) _ h in
        let (passed, fresh, e) = actual_proofs-eq-ok r r.proofs [] actual read in
        (passed, fresh, (compared plan r fresh).0 (rw e at same))

    accepts :
        ProofsFit plan r
        → (actual_proofs r r.proofs []
            >>= compare_proofs r (wanted_proofs r.scenario plan.proofs []))
          ≡ ok tt
    accepts (passed, fresh, same) =
        rw (actual_proofs_accepts r r.proofs [] passed fresh) ((compared plan r fresh).1 same)

-- With an outcome that fits its reason, the proof check is what the specification says.
pub check_proofs_iff :
    (plan : NormalizedProfilePlan) (r : ValidationReceipt)
    → OutcomeFits r
    → (check_proofs plan r ≡ ok tt) ↔ FitsOutcome plan r
unfolding check_proofs
check_proofs_iff plan r (inl (out, reason)) =
    let failed = (text_eq_iff r.outcome xfail).1 out in
    (λ h. inl (out, reason, ground (arith, h, failed)), λ h. ground (arith, failed))
check_proofs_iff plan r (inr (out, reason)) =
    let passed : text_eq r.outcome xfail ≡ false =
      ground (arith, text_eq_iff r.outcome xfail, out) in
    let both = verified_proofs_iff plan r in
    (
      λ h. let (p, f, m) = both.0 (rw passed at h) in inr (out, reason, p, f, m),
      λ h. rw passed (both.1 (proofs_of h)),
    )
  where
    proofs_of : FitsOutcome plan r → ProofsFit plan r
    proofs_of (inl h) = cc (h.0)
    proofs_of (inr h) = (h.2, h.3, h.4)

-- A receipt passes exactly when its key is declared and not yet seen, and the build backs it.
pub check_receipt_iff :
    (digest : Text → Text) (b : Build) (expected seen : List Text) (r : ValidationReceipt)
    → (check_receipt digest b expected seen r ≡ ok tt) ↔ (
        (mem (receipt_key r) expected ≡ true)
        × (mem (receipt_key r) seen ≡ false)
        × IsBacked digest b r)
unfolding check_receipt
check_receipt_iff digest b expected seen r = (accepted, accepts)
  where
    accepted :
        check_receipt digest b expected seen r ≡ ok tt
        → (mem (receipt_key r) expected ≡ true)
          × (mem (receipt_key r) seen ≡ false)
          × IsBacked digest b r
    accepted h =
        let (_, out, h₁) = >>=-eq-ok (check_outcome r) _ h in
        let (known, h₂) = (guard_iff (mem (receipt_key r) expected) _ _).0 h₁ in
        let (fresh, h₃) = (guard_iff (not (mem (receipt_key r) seen)) _ _).0 h₂ in
        let (now, h₄) = (guard_iff (text_eq r.revision b.revision) _ _).0 h₃ in
        let (a, plan, h₅) = >>=-eq-ok (check_plan digest (lookup r.profile b.plans) r) _ h₄ in
        let (_, cap, h₆) = >>=-eq-ok (check_capture digest _ r) _ h₅ in
        let (_, mode, proofs) = >>=-eq-ok (check_mode digest _ r) _ h₆ in
        let (found, own, same) = (check_plan_iff digest _ r a).0 plan in
        let (c, taken, recorded) = (check_capture_iff digest _ r).0 cap in
        (
          known,
          ground (arith, fresh),
          record {
            current = (text_eq_iff r.revision b.revision).0 now;
            artifact = a;
            planned = found;
            own_plan = own;
            plan_digest = same;
            capture = c;
            captured = taken;
            capture_digest = recorded;
            fits_mode = (check_mode_iff digest _ r).0 mode;
            fits_outcome = (check_proofs_iff a.plan r ((check_outcome_iff r).0 out)).0 proofs;
          },
        )

    outcome_of : (plan : NormalizedProfilePlan) → FitsOutcome plan r → OutcomeFits r
    outcome_of plan (inl h) = inl (h.0, h.1)
    outcome_of plan (inr h) = inr (h.0, h.1)

    accepts :
        (mem (receipt_key r) expected ≡ true)
          × (mem (receipt_key r) seen ≡ false)
          × IsBacked digest b r
        → check_receipt digest b expected seen r ≡ ok tt
    accepts (known, fresh, v) =
        rw
          (
            (check_outcome_iff r).1 (outcome_of v.artifact.plan v.fits_outcome),
            known,
            fresh,
            (text_eq_iff r.revision b.revision).1 v.current,
            (check_plan_iff digest _ r v.artifact).1 (v.planned, v.own_plan, v.plan_digest),
            (check_capture_iff digest _ r).1 (v.capture, v.captured, v.capture_digest),
            (check_mode_iff digest _ r).1 v.fits_mode,
          )
          ((check_proofs_iff v.artifact.plan r (outcome_of v.artifact.plan v.fits_outcome)).1
            v.fits_outcome)
