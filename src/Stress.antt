-- ===== src/Stress.antt =====
-- harness/parallel_scenarios.go: the checks of a parallel run of the scenarios.
pub mod Union
pub mod Forest
pub mod Short
pub mod Linked
pub mod Overlap
pub mod Sorted
pub mod Peak
pub mod Ledger
pub mod Numbered
pub mod Indexed
pub mod Contexts
pub mod Servers
pub mod Index
pub mod Traces
pub mod Grouped
pub mod Components
pub mod Tagged
pub mod Inherited
pub mod Resolved
pub mod Continued
pub mod Matched
pub mod Walked
pub mod Served
pub mod Owners
pub mod Owned
pub mod Sql
pub mod Counted
pub mod Bounded
pub mod Validate
pub mod Valid
pub mod Stored
pub mod Indexes
pub mod Whole
