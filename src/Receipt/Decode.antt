-- ===== src/Receipt/Decode.antt =====
-- report/report/receipt.go: DecodeReceipt. The strict JSON decoder is a parameter: `decode` reads
-- one receipt and leaves the rest of the input, `at_end` says that nothing but space is left.
-- `schema_version` is a number here: a negative one is refused like any other than 1.
use rules_stests.Base.{
  Bool, true, not, ◌&&◌, ◌||◌, ◌≡◌, ◌≢◌, ◌↔◌, ◌⊎◌, refl, [], Option, none, some, ◌==◌, ==_iff, Text,
  length, is_nil, text_eq, text_eq_iff, Result, ok, err, guard, guard_iff, ◌>>◌, arith,
}
use mathlib.Core.Path.{subst}
use rules_stests.Receipt.Types.{
  ValidationReceipt, Failure, bad_json, trailing_json, malformed_identity, malformed_digest,
  bad_mode, bad_outcome, no_reason, stray_reason,
}
use rules_stests.Receipt.Validate.{
  verified, xfail, exact, contract, all_hex, is_hex_text, check_outcome,
}
use rules_stests.Receipt.Spec.One.{OutcomeFits, check_outcome_iff}
use rules_stests.Receipt.Spec.Sound.{is_hex_text_iff}

abbrev names_itself : ValidationReceipt → Bool
names_itself r =
    r.schema_version == 1
    && is_hex_text 40 r.revision
    && not (is_nil r.profile)
    && not (is_nil r.scenario)

abbrev has_digests : ValidationReceipt → Bool
has_digests r = is_hex_text 64 r.proof_plan_sha256 && is_hex_text 64 r.capture_sha256

abbrev has_mode : ValidationReceipt → Bool
has_mode r = text_eq r.validation_mode exact || text_eq r.validation_mode contract

-- The tests behind the decoder.
unfoldable pub check_decoded : ValidationReceipt → Result Failure ValidationReceipt
check_decoded r = do
  guard (names_itself r) malformed_identity
  guard (has_digests r) malformed_digest
  guard (has_mode r) (bad_mode r.validation_mode)
  guard (text_eq r.outcome verified || text_eq r.outcome xfail) (bad_outcome r.outcome)
  guard (not (text_eq r.outcome xfail && is_nil r.xfail_reason)) (no_reason r.profile r.scenario)
  guard (not (text_eq r.outcome verified && not (is_nil r.xfail_reason)))
      (stray_reason r.profile r.scenario)
  ok r

unfoldable pub decode_receipt :
    (Text → Option (ValidationReceipt × Text))
    → (Text → Bool)
    → Text
    → Result Failure ValidationReceipt
unfolding check_decoded
decode_receipt decode at_end input = elim (decode input) [
  | none ↦ err bad_json
  | some (r, rest) ↦ guard (at_end rest) trailing_json >> check_decoded r
]

-- The shape of a receipt that is let in, field by field.
pub record IsWellFormed (r : ValidationReceipt) : Type 0 where
  pub version : r.schema_version ≡ 1
  pub revision : (length r.revision ≡ 40) × (all_hex r.revision ≡ true)
  pub named : (r.profile ≢ []) × (r.scenario ≢ [])
  pub plan_digest : (length r.proof_plan_sha256 ≡ 64) × (all_hex r.proof_plan_sha256 ≡ true)
  pub capture_digest : (length r.capture_sha256 ≡ 64) × (all_hex r.capture_sha256 ≡ true)
  pub mode : (r.validation_mode ≡ exact) ⊎ (r.validation_mode ≡ contract)
  pub outcome : OutcomeFits r

module _ (r : ValidationReceipt) where
  check_decoded-IsWellFormed :
      {s : ValidationReceipt} → check_decoded r ≡ ok s → IsWellFormed r × (r ≡ s)
  unfolding check_decoded check_outcome
  check_decoded-IsWellFormed h =
      let (identity, h₁) = (guard_iff (names_itself r) _ _).0 h in
      let (digests, h₂) = (guard_iff (has_digests r) _ _).0 h₁ in
      let (mode, h₃) = (guard_iff (has_mode r) _ _).0 h₂ in
      (
        record {
          version = ground (arith, ==_iff r.schema_version 1, identity);
          revision = (is_hex_text_iff 40 r.revision).0 (ground (arith, identity));
          named = ground (arith, identity);
          plan_digest = (is_hex_text_iff 64 r.proof_plan_sha256).0 (ground (arith, digests));
          capture_digest = (is_hex_text_iff 64 r.capture_sha256).0 (ground (arith, digests));
          mode = ground (
            arith,
            text_eq_iff r.validation_mode exact,
            text_eq_iff r.validation_mode contract,
            mode,
          );
          outcome = (check_outcome_iff r).0 (ground (arith, h₃));
        },
        ground (arith, h₃),
      )

  check_decoded_accepts : IsWellFormed r → check_decoded r ≡ ok r
  unfolding check_decoded
  check_decoded_accepts w = ground (
    arith,
    (is_hex_text_iff 40 r.revision).1 w.revision,
    (is_hex_text_iff 64 r.proof_plan_sha256).1 w.plan_digest,
    (is_hex_text_iff 64 r.capture_sha256).1 w.capture_digest,
    text_eq_iff r.validation_mode exact,
    text_eq_iff r.validation_mode contract,
    text_eq_iff r.outcome xfail,
    text_eq_iff r.outcome verified,
    w.version,
    w.named,
    w.mode,
    w.outcome,
  )

-- DecodeReceipt returns a receipt exactly when the decoder reads that receipt with nothing behind
-- it and the receipt is well formed: schema version 1, a 40-digit revision, a profile and a
-- scenario, two 64-digit digests, a known mode, and a known outcome with a reason just when it is
-- an expected failure.
pub decode_receipt_iff :
    (decode : Text → Option (ValidationReceipt × Text)) (at_end : Text → Bool) (input : Text)
    (r : ValidationReceipt)
    → (decode_receipt decode at_end input ≡ ok r)
      ↔ ((rest : Text) × (decode input ≡ some (r, rest)) × (at_end rest ≡ true) × IsWellFormed r)
unfolding decode_receipt
decode_receipt_iff decode at_end input r = (accepted (decode input) refl, accepts)
  where
    accepted :
        (found : Option (ValidationReceipt × Text))
        → decode input ≡ found
        → decode_receipt decode at_end input ≡ ok r
        → (rest : Text) × (decode input ≡ some (r, rest)) × (at_end rest ≡ true) × IsWellFormed r
    accepted none e h = cc (rw (e, decode_receipt) at h)
    accepted (some (s, rest)) e h =
        let (end, h₁) = (guard_iff (at_end rest) _ _).0 (rw (e, decode_receipt) at h) in
        let (w, same) = check_decoded-IsWellFormed s h₁ in
        (rest, rw (← same) e, end, subst IsWellFormed same w)

    accepts :
        ((rest : Text) × (decode input ≡ some (r, rest)) × (at_end rest ≡ true) × IsWellFormed r)
        → decode_receipt decode at_end input ≡ ok r
    accepts (rest, e, end, w) = rw (e, decode_receipt) (rw end (check_decoded_accepts r w))
