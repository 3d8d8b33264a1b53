-- ===== src/Report/Shown.antt =====
-- report/report/projections.go: which receipts an execution of AddReportProjections rests on.
use rules_stests.Base.{
  ℕ, ◌+◌, ◌≡◌, refl, inl, inr, Bool, true, false, ◌&&◌, ◌||◌, List, [], ◌∷◌, ◌++◌, if◌then◌else◌,
  Option-cases, Text, All, text_eq, text_eq_self, lookup, arith,
}
use rules_stests.Receipt.Types.{ReceiptProof, ValidationReceipt, pair_key, receipt_key}
use rules_stests.Receipt.Validate.{verified, xfail, pass}
use rules_stests.Receipt.Coverage.{assign}
use rules_stests.Receipt.Coverage.Claims.{All-imp}
use rules_stests.Report.Stored.{Entries, lookup-Entries, assign-Entries}
use rules_stests.Report.Checks.{
  CheckExecution, PlannedCheck, receipt_index, receipt_at, zero_receipt, matches, some_match,
  missing,
}

-- The executions of one outcome.
abbrev pub count_outcome : Text → List CheckExecution → ℕ
count_outcome outcome [] = 0
count_outcome outcome (e ∷ es) =
    (if text_eq e.outcome outcome then 1 else 0) + count_outcome outcome es

-- Some proof is of this feature, assertion and basis, and passes.
abbrev pub has_passing : (feature_id assertion basis : Text) → List ReceiptProof → Bool
has_passing feature_id assertion basis [] = false
has_passing feature_id assertion basis (p ∷ ps) =
    text_eq p.result pass
      && text_eq p.feature_id feature_id
      && text_eq p.assertion assertion
      && text_eq p.basis basis
    || has_passing feature_id assertion basis ps

pub some_match-has_passing :
    (feature_id assertion basis : Text) (ps : List ReceiptProof)
    → some_match feature_id assertion basis ps ≡ has_passing feature_id assertion basis ps
unfolding some_match matches
some_match-has_passing feature_id assertion basis [] = refl
some_match-has_passing feature_id assertion basis (p ∷ ps) =
    ground (arith, some_match-has_passing feature_id assertion basis ps)

-- Some receipt with the key has the outcome and, if it is `verified`, the planned proof.
abbrev pub is_shown : PlannedCheck → Text → CheckExecution → ValidationReceipt → Bool
is_shown c key e r =
    text_eq (receipt_key r) key
    && text_eq r.outcome e.outcome
    && (text_eq e.outcome xfail || has_passing c.feature_id c.assertion c.basis r.proofs)

abbrev pub some_shown : PlannedCheck → Text → CheckExecution → List ValidationReceipt → Bool
some_shown c key e [] = false
some_shown c key e (r ∷ rs) = is_shown c key e r || some_shown c key e rs

-- An execution is missing, or a receipt shows it.
abbrev pub is_backed : List ValidationReceipt → PlannedCheck → CheckExecution → Bool
is_backed receipts c e =
    text_eq e.outcome missing || some_shown c (pair_key c.profile e.scenario) e receipts

pub record IsTallied (receipts : List ValidationReceipt) (c : PlannedCheck) : Type 0 where
  pub passes : c.passed ≡ count_outcome verified c.executions
  pub failures : c.expected_failure ≡ count_outcome xfail c.executions
  pub others : c.no_result ≡ count_outcome missing c.executions
  pub each_backed : All (λ e. is_backed receipts c e ≡ true) c.executions

pub count_outcome-append :
    (o : Text) (xs ys : List CheckExecution)
    → count_outcome o (xs ++ ys) ≡ count_outcome o xs + count_outcome o ys
count_outcome-append o [] ys = omega arith
count_outcome-append o (x ∷ xs) ys = ground (arith, count_outcome-append o xs ys)

-- What holds under the key of a receipt of the list.
abbrev pub Shows : List ValidationReceipt → Text → ValidationReceipt → Type 0
Shows receipts key r =
    (c : PlannedCheck) (e : CheckExecution)
    → (text_eq r.outcome e.outcome
        && (text_eq e.outcome xfail || has_passing c.feature_id c.assertion c.basis r.proofs))
      ≡ true
    → some_shown c key e receipts ≡ true

Shows-self :
    (receipts : List ValidationReceipt) → All (λ r. Shows receipts (receipt_key r) r) receipts
Shows-self [] = tt
Shows-self (r ∷ rs) = (
  λ c e h. ground (arith, text_eq_self (receipt_key r), h),
  All-imp rs (λ x s c e h. ground (arith, s c e h)) (Shows-self rs),
)

receipt_index-Entries :
    (P : Text → ValidationReceipt → Type 0) (rs : List ValidationReceipt)
    (m : List (Text × ValidationReceipt))
    → All (λ r. P (receipt_key r) r) rs
    → Entries P m
    → Entries P (receipt_index rs m)
unfolding receipt_index
receipt_index-Entries P [] m a e = e
receipt_index-Entries P (r ∷ rs) m (p, a) e =
    receipt_index-Entries P rs (assign (receipt_key r) r m) a
      (assign-Entries P (receipt_key r) r m p e)

-- With no receipt there is nothing to show.
Shows-zero : (receipts : List ValidationReceipt) (key : Text) → Shows receipts key zero_receipt
unfolding text_eq
Shows-zero receipts key c e h = absurd (nothing e.outcome h)
  where
    nothing : (o : Text) → (text_eq [] o && (text_eq o xfail || false)) ≡ true → ⊥
    nothing [] g = cc g
    nothing (x ∷ xs) g = cc g

pub receipt_at-Shows :
    (receipts : List ValidationReceipt) (key : Text)
    → Shows receipts key (receipt_at key (receipt_index receipts []))
unfolding receipt_at
receipt_at-Shows receipts key = elim (Option-cases (lookup key (receipt_index receipts []))) [
  | inl none_there ↦ rw (none_there, receipt_at) (Shows-zero receipts key)
  | inr (r, found) ↦
      rw (found, receipt_at)
        (lookup-Entries (Shows receipts) key (receipt_index receipts []) found
          (receipt_index-Entries (Shows receipts) receipts [] (Shows-self receipts) tt))
]
