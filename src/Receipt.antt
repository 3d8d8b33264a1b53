-- ===== src/Receipt.antt =====
-- report/report/receipt.go: the receipts of a report, what they prove, and the report's trust
-- boundary, with the types of report/report/model.go that they read.
pub mod Types
pub mod Validate
pub mod Spec
pub mod Decode
pub mod Coverage
