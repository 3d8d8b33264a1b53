-- ===== src/Profile.antt =====
-- report/report/profile.go: the compiler of profiles, from authored Scheme to the proof plan that
-- receipts are held against.
pub mod Types
pub mod Lookup
pub mod Rules
pub mod Claims
pub mod Clauses
pub mod Compile
pub mod Ruled
pub mod Founded
pub mod Claimed
pub mod Sourced
pub mod Gathered
pub mod Identity
pub mod Ordered
pub mod Compiled
pub mod Bounded
pub mod Warranted
pub mod Composed
