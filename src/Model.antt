-- ===== src/Model.antt =====
-- internal/model/model.go: the evidence graph, its evidence levels and summaries, and the claims
-- that a node retains for each of its mutable fields.
pub mod Level
pub mod Texts
pub mod Evidence
pub mod Graph
pub mod FieldKey
pub mod Claims
pub mod Resolve
pub mod Canonicalize
pub mod Identity
pub mod Invariant
