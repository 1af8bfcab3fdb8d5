-- ===== src/Policy.antt =====
-- internal/policy/policy.go: policies over the graph, their validation, and their evaluation.
-- Regular expressions are a parameter; a message is the value that its format string is filled with.
pub mod Selector
pub mod Paths
pub mod Rules
pub mod Evaluate
