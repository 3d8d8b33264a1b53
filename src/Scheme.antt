-- ===== src/Scheme.antt =====
-- report/report/scheme.go: the reader of Scheme data, from text to expressions.
pub mod Expr
pub mod Lexer
pub mod Parser
