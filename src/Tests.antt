-- ===== src/Tests.antt =====
-- Runs of the code on small inputs, and the theorems applied at them.
mod Receipts
mod Schemes
mod Shapes
mod Reports
mod Checks
mod Bytecodes
mod Stresses
mod Captures
mod Profiles
