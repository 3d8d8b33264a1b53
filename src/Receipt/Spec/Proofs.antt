-- ===== src/Receipt/Spec/Proofs.antt =====
-- The proof set of one verified receipt: the checks of report/report/receipt.go against the
-- specification.
use rules_stests.Base.{
  true, not, ◌||◌, ◌≡◌, ◌↔◌, refl, sym, ◌∙◌, inl, inr, List, [], ◌∷◌, map, ◌==◌, ==_iff, Bool-cases,
  Bool_ext, Text, All, length, text_eq, text_eq_iff, text_eq_self, mem, add, mem-add, add-Distinct,
  Distinct, Subset, length-le_of_Subset, ok, guard_iff, arith,
}
use rules_stests.Receipt.Types.{ReceiptProof, ValidationReceipt, ProofPlanProof}
use rules_stests.Receipt.Validate.{
  pass, key_of_plan, key_of_proof, applies, wanted_proofs, actual_proofs, all_in, compare_proofs,
}
use rules_stests.Receipt.Spec.Defs.{Fresh, planned_keys, SameMembers}

-- `keys` pushed one by one in front of `acc`.
abbrev pub pushed : List Text → List Text → List Text
pushed [] acc = acc
pushed (k ∷ ks) acc = pushed ks (k ∷ acc)

pub mem-pushed : (k : Text) (ks acc : List Text) → mem k (pushed ks acc) ≡ (mem k ks || mem k acc)
unfolding mem
mem-pushed k [] acc = refl
mem-pushed k (j ∷ ks) acc = ground (arith, mem-pushed k ks (j ∷ acc))

pub pushed-Distinct : (ks acc : List Text) → Fresh acc ks → Distinct acc → Distinct (pushed ks acc)
pushed-Distinct [] acc f d = d
pushed-Distinct (k ∷ ks) acc f d = pushed-Distinct ks (k ∷ acc) f.1 (f.0, d)

pub mem-wanted_proofs :
    (k scenario : Text) (ps : List ProofPlanProof) (wanted : List Text)
    → mem k (wanted_proofs scenario ps wanted) ≡ (mem k (planned_keys scenario ps) || mem k wanted)
unfolding wanted_proofs mem
mem-wanted_proofs k scenario [] wanted = refl
mem-wanted_proofs k scenario (p ∷ ps) wanted = ground (
  arith,
  mem-wanted_proofs k scenario ps wanted,
  mem-wanted_proofs k scenario ps (add (key_of_plan p) wanted),
  mem-add k (key_of_plan p) wanted,
)

pub wanted_proofs-Distinct :
    (scenario : Text) (ps : List ProofPlanProof) (wanted : List Text)
    → Distinct wanted
    → Distinct (wanted_proofs scenario ps wanted)
unfolding wanted_proofs
wanted_proofs-Distinct scenario [] wanted d = d
wanted_proofs-Distinct scenario (p ∷ ps) wanted d = elim (Bool-cases (applies scenario p)) [
  | inl on ↦ rw on (wanted_proofs-Distinct scenario ps _ (add-Distinct (key_of_plan p) wanted d))
  | inr off ↦ rw off (wanted_proofs-Distinct scenario ps wanted d)
]

abbrev AllPass : List ReceiptProof → Type 0
AllPass ps = All (λ p. p.result ≡ pass) ps

pub actual_proofs-eq-ok :
    (r : ValidationReceipt) (ps : List ReceiptProof) (acc actual : List Text)
    → actual_proofs r ps acc ≡ ok actual
    → AllPass ps × Fresh acc (map key_of_proof ps) × (actual ≡ pushed (map key_of_proof ps) acc)
unfolding actual_proofs
actual_proofs-eq-ok r [] acc actual h = (tt, tt, cc)
actual_proofs-eq-ok r (p ∷ ps) acc actual h =
    let (passed, h₁) = (guard_iff (text_eq p.result pass) _ _).0 h in
    let (fresh, h₂) = (guard_iff (not (mem (key_of_proof p) acc)) _ _).0 h₁ in
    let (a, f, e) = actual_proofs-eq-ok r ps (key_of_proof p ∷ acc) actual h₂ in
    (((text_eq_iff p.result pass).0 passed, a), (ground (arith, fresh), f), e)

pub actual_proofs_accepts :
    (r : ValidationReceipt) (ps : List ReceiptProof) (acc : List Text)
    → AllPass ps
    → Fresh acc (map key_of_proof ps)
    → actual_proofs r ps acc ≡ ok (pushed (map key_of_proof ps) acc)
unfolding actual_proofs
actual_proofs_accepts r [] acc a f = refl
actual_proofs_accepts r (p ∷ ps) acc a f =
    rw ((text_eq_iff p.result pass).1 a.0, f.0)
      (actual_proofs_accepts r ps (key_of_proof p ∷ acc) a.1 f.1)

all_in-mem :
    (k : Text) (xs ys : List Text) → all_in xs ys ≡ true → mem k xs ≡ true → mem k ys ≡ true
unfolding all_in mem
all_in-mem k [] ys h m = cc
all_in-mem k (x ∷ xs) ys h m = ground (arith, text_eq_iff x k, all_in-mem k xs ys)

Subset→all_in : (xs ys : List Text) → Subset xs ys → all_in xs ys ≡ true
unfolding all_in mem
Subset→all_in [] ys s = refl
Subset→all_in (x ∷ xs) ys s =
    let rest = Subset→all_in xs ys (λ k m. s k (ground (arith, m))) in
    ground (arith, s x, text_eq_self x, rest)

SameMembers→length :
    (xs ys : List Text) → Distinct xs → Distinct ys → SameMembers xs ys → length xs ≡ length ys
SameMembers→length xs ys dx dy same = omega (
  arith,
  length-le_of_Subset xs ys dx (λ k m. sym (same k) ∙ m),
  length-le_of_Subset ys xs dy (λ k m. same k ∙ m),
)

pub compare_proofs_iff :
    (r : ValidationReceipt) (wanted actual : List Text)
    → Distinct wanted
    → Distinct actual
    → (compare_proofs r wanted actual ≡ ok tt) ↔ SameMembers actual wanted
unfolding compare_proofs
compare_proofs_iff r wanted actual dw da = (accepted, accepts)
  where
    accepted : compare_proofs r wanted actual ≡ ok tt → SameMembers actual wanted
    accepted h k =
        let (_, h₁) = (guard_iff (length actual == length wanted) _ _).0 h in
        let (sub, h₂) = (guard_iff (all_in wanted actual) _ _).0 h₁ in
        let sup : all_in actual wanted ≡ true = ground (arith, h₂) in
        Bool_ext _ _ (all_in-mem k actual wanted sup) (all_in-mem k wanted actual sub)

    accepts : SameMembers actual wanted → compare_proofs r wanted actual ≡ ok tt
    accepts same = rw (
      (==_iff _ _).1 (SameMembers→length actual wanted da dw same),
      Subset→all_in wanted actual (λ k m. same k ∙ m),
      Subset→all_in actual wanted (λ k m. sym (same k) ∙ m),
    )
