-- ===== src/Shape.antt =====
-- report/report/scheme.go: the trace shapes of a scenario, parsed from Scheme data.
pub mod Types
pub mod Cardinality
pub mod Decimals
pub mod Parse
pub mod Exact
pub mod Totals
