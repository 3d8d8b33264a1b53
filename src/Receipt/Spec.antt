-- ===== src/Receipt/Spec.antt =====
-- What ValidateReceiptSetForProfiles of report/report/receipt.go promises: a description of the
-- receipt sets that a build may be reported from, with no mention of the order of the checks.
pub mod Defs
pub mod Proofs
pub mod One
pub mod Members
pub mod Sound
