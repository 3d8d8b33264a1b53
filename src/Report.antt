-- ===== src/Report.antt =====
-- report/report/report.go: BuildModelForProfiles, which checks the corpus and fills the tables of
-- the report.
pub mod Types
pub mod Evidence
pub mod Claims
pub mod Manifests
pub mod Compare
pub mod Build
pub mod Stored
pub mod Declared
pub mod Built
pub mod Backed
pub mod Members
pub mod Cells
pub mod Complete
pub mod Deltas
pub mod Compared
pub mod Checks
pub mod Shown
pub mod Checked
