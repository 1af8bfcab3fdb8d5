-- ===== src/Model/Invariant.antt =====
-- A property of evidence, for everything in a graph.
pub mod Claims
pub mod Resolve
use ai_evidence_bom.Prelude.{List, All}
use ai_evidence_bom.Time.{Instant, zero_time}
use ai_evidence_bom.Model.Level.{evidence_inferred}
use ai_evidence_bom.Model.Evidence.{
  EvidenceSummary, no_evidence, merge_evidence_summary, canonicalize_evidence,
}
use ai_evidence_bom.Model.Graph.{FieldValueEvidence, FieldEvidence, Node, Edge, Graph}

-- The property survives every way in which the program makes evidence from evidence.
pub record IsClosed (P : EvidenceSummary → Type 0) : Type 0 where
  pub nothing : P no_evidence
  pub merged : (a b : EvidenceSummary) → P a → P b → P (merge_evidence_summary a b)
  pub canonical : (a : EvidenceSummary) → P a → P (canonicalize_evidence a)
  -- Legacy evidence is inferred, was seen once, and may have no times.
  pub legacy :
      (a : EvidenceSummary) (first last : Instant)
      → P a
      → P (record a {
        level = evidence_inferred;
        observation_count = 1;
        first_seen = first;
        last_seen = last;
      })

module _ (P : EvidenceSummary → Type 0) where
  abbrev pub ValuesHold : List FieldValueEvidence → Type 0
  ValuesHold values = All (λ v. P v.evidence) values

  abbrev pub ClaimsHold : List FieldEvidence → Type 0
  ClaimsHold claims = All (λ c. ValuesHold c.values) claims

  pub record NodeHolds (n : Node) : Type 0 where
    pub summary : P n.evidence
    pub claims : ClaimsHold n.field_evidence

  pub record GraphHolds (g : Graph) : Type 0 where
    pub nodes : All NodeHolds g.nodes
    pub edges : All (λ e. P e.evidence) g.edges
