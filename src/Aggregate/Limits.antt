-- ===== src/Aggregate/Limits.antt =====
-- The trace IDs of the summaries of a merged graph.
use ai_evidence_bom.Prelude.{
  ℕ, ◌≤◌, List, [], ◌∷◌, All, length, length-take-le, ltb, ltb→le, Bool-cases, inl, inr, map,
}
use ai_evidence_bom.Text.{Text, text_less}
use ai_evidence_bom.Time.{Instant}
use ai_evidence_bom.Sorting.{sort_slice}
use ai_evidence_bom.Model.Texts.{collect}
use ai_evidence_bom.Model.Evidence.{EvidenceSummary}
use ai_evidence_bom.Model.Graph.{FieldValueEvidence, FieldEvidence, Node, Edge, Graph}
use ai_evidence_bom.Model.Invariant.{ValuesHold, ClaimsHold, NodeHolds, GraphHolds}
use ai_evidence_bom.Aggregate.{
  max_trace_ids, limited, limit_evidence, limit_value, limit_claim, limit_node, limit_edge, merge,
}

abbrev pub IsLimited : EvidenceSummary → Type 0
IsLimited s = length s.trace_ids ≤ max_trace_ids

length-limited : (values : List Text) (limit : ℕ) → length (limited values limit) ≤ limit
unfolding limited
length-limited values limit =
    let result = sort_slice text_less (collect values []) in
    elim (Bool-cases (ltb limit (length result))) [
      | inl e ↦ rw e (length-take-le limit result)
      | inr e ↦ rw e (ltb→le _ _ e)
    ]

limit_evidence-IsLimited : (s : EvidenceSummary) → IsLimited (limit_evidence s)
unfolding limit_evidence
limit_evidence-IsLimited s = length-limited s.trace_ids max_trace_ids

limit_values-hold : (vs : List FieldValueEvidence) → ValuesHold IsLimited (map limit_value vs)
unfolding limit_value
limit_values-hold [] = tt
limit_values-hold (v ∷ vs) = (limit_evidence-IsLimited v.evidence, limit_values-hold vs)

limit_claims-hold : (cs : List FieldEvidence) → ClaimsHold IsLimited (map limit_claim cs)
unfolding limit_claim
limit_claims-hold [] = tt
limit_claims-hold (c ∷ cs) = (limit_values-hold c.values, limit_claims-hold cs)

limit_nodes-hold : (ns : List Node) → All (NodeHolds IsLimited) (map limit_node ns)
unfolding limit_node
limit_nodes-hold [] = tt
limit_nodes-hold (n ∷ ns) = (
  record {
    summary = limit_evidence-IsLimited n.evidence;
    claims = limit_claims-hold n.field_evidence;
  },
  limit_nodes-hold ns,
)

limit_edges-hold : (es : List Edge) → All (λ e. IsLimited e.evidence) (map limit_edge es)
unfolding limit_edge
limit_edges-hold [] = tt
limit_edges-hold (e ∷ es) = (limit_evidence-IsLimited e.evidence, limit_edges-hold es)

-- Every summary of a merged graph, of a node, of an edge or of a value of a node's field, has at most
-- 20 trace IDs.
pub merge-IsLimited :
    (current incoming : Graph) (now : Instant) → GraphHolds IsLimited (merge current incoming now)
unfolding merge
merge-IsLimited current incoming now = record {
  nodes = limit_nodes-hold _;
  edges = limit_edges-hold _;
}
