-- ===== src/Model/Canonicalize.antt =====
-- internal/model/model.go: `Canonicalize` sorts a graph's nodes and edges by ID and puts each into
-- canonical form. (The sort is stable here; Go leaves the order of equal IDs open.)
use ai_evidence_bom.Prelude.{Bool, map}
use ai_evidence_bom.Text.{text_less}
use ai_evidence_bom.Sorting.{sort_slice}
use ai_evidence_bom.Model.Texts.{unique_sorted}
use ai_evidence_bom.Model.Evidence.{canonicalize_evidence}
use ai_evidence_bom.Model.Graph.{Node, Edge, Graph}
use ai_evidence_bom.Model.Resolve.{resolve_field_evidence}

abbrev pub less_node : Node → Node → Bool
less_node a b = text_less a.id b.id

abbrev pub less_edge : Edge → Edge → Bool
less_edge a b = text_less a.id b.id

-- The body of the loop over the nodes.
unfoldable pub canonicalize_node : Node → Node
canonicalize_node n = resolve_field_evidence (record n {
  observed_versions = unique_sorted n.observed_versions;
  evidence = canonicalize_evidence n.evidence;
})

unfoldable pub canonicalize_edge : Edge → Edge
canonicalize_edge e = record e { evidence = canonicalize_evidence e.evidence }

unfoldable pub canonicalize : Graph → Graph
unfolding canonicalize_node canonicalize_edge
canonicalize g = record g {
  nodes = map canonicalize_node (sort_slice less_node g.nodes);
  edges = map canonicalize_edge (sort_slice less_edge g.edges);
}
