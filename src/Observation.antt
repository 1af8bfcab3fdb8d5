-- ===== src/Observation.antt =====
-- internal/input/input.go: an observation, the span or record that evidence is built from.
use ai_evidence_bom.Text.{Text}
use ai_evidence_bom.Time.{Instant}
use ai_evidence_bom.Model.Level.{EvidenceLevel}
use ai_evidence_bom.Model.Graph.{TextMap}

pub record Observation : Type 0 where
  pub timestamp : Instant
  pub level : EvidenceLevel
  pub source : Text
  pub trace_id : Text
  pub span_id : Text
  pub parent_span_id : Text
  pub attributes : TextMap
