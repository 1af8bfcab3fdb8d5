-- ===== src/Signing/Identified.antt =====
-- What `validateGraphIdentity` accepts.
use ai_evidence_bom.Prelude.{
  ◌≡◌, ◌↔◌, refl, false, List, [], ◌∷◌, Option, none, All, arith, is_empty,
}
use ai_evidence_bom.Text.{Text}
use ai_evidence_bom.Text.Order.{text_order, text_eq_iff}
use ai_evidence_bom.Maps.{elem, add}
use ai_evidence_bom.Maps.Laws.{elem-add}
use ai_evidence_bom.Sorting.{find}
use ai_evidence_bom.Sorting.Keys.{IsDistinct}
use ai_evidence_bom.Model.Graph.{Graph, Node, Edge}
use ai_evidence_bom.Aggregate.{node_id, edge_id}
use ai_evidence_bom.Signing.Identity.{
  validate_field_evidence, validate_nodes, validate_edges, validate_graph_identity,
}

module _ {ℓ} {A : Type ℓ} (id : A → Text) where
  -- No element has one of the IDs.
  abbrev Avoids : List Text → List A → Type 0
  Avoids seen xs = All (λ x. elem (id x) seen ≡ false) xs

  abbrev AreNamed : List A → Type 0
  AreNamed xs = All (λ x. is_empty (id x) ≡ false) xs

  Avoids-add :
      (t : Text) (seen : List Text) (xs : List A)
      → Avoids (add t seen) xs ↔ (Avoids seen xs × (find id t xs ≡ none))
  unfolding find
  Avoids-add t seen [] = (λ h. (tt, refl), λ h. tt)
  Avoids-add t seen (x ∷ xs) = ground (
    arith,
    Avoids-add t seen xs,
    elem-add t (id x) seen,
    text_eq_iff t (id x),
    text_eq_iff (id x) t,
  )

  Avoids-nothing : (xs : List A) → Avoids [] xs
  unfolding elem
  Avoids-nothing [] = tt
  Avoids-nothing (x ∷ xs) = (refl, Avoids-nothing xs)

-- The IDs are there and distinct, and the claims of every node pass `validateFieldEvidence`.
pub record IsIdentified (copy_node : Node → Option Node) (graph : Graph) : Type 0 where
  pub named_nodes : AreNamed node_id graph.nodes
  pub distinct_nodes : IsDistinct node_id graph.nodes
  pub claims : All (λ n. validate_field_evidence copy_node n ≡ none) graph.nodes
  pub named_edges : AreNamed edge_id graph.edges
  pub distinct_edges : IsDistinct edge_id graph.edges

validate_edges_iff :
    (seen : List Text) (es : List Edge)
    → (validate_edges seen es ≡ none)
      ↔ (AreNamed edge_id es × Avoids edge_id seen es × IsDistinct edge_id es)
unfolding validate_edges
validate_edges_iff seen [] = (λ h. (tt, tt, tt), λ h. refl)
validate_edges_iff seen (e ∷ es) =
    ground (arith, validate_edges_iff (add e.id seen) es, Avoids-add edge_id e.id seen es)

module _ (copy_node : Node → Option Node) where
  validate_nodes_iff :
      (seen : List Text) (ns : List Node)
      → (validate_nodes copy_node seen ns ≡ none) ↔ (
          AreNamed node_id ns
          × Avoids node_id seen ns
          × IsDistinct node_id ns
          × All (λ n. validate_field_evidence copy_node n ≡ none) ns)
  unfolding validate_nodes
  validate_nodes_iff seen [] = (λ h. (tt, tt, tt, tt), λ h. refl)
  validate_nodes_iff seen (n ∷ ns) =
      ground (arith, validate_nodes_iff (add n.id seen) ns, Avoids-add node_id n.id seen ns)

  -- `validateGraphIdentity` reports no problem exactly where every node and every edge has an ID, no
  -- two nodes and no two edges have the same one, and the claims of every node are consistent.
  pub validate_graph_identity_iff :
      (graph : Graph)
      → (validate_graph_identity copy_node graph ≡ none) ↔ IsIdentified copy_node graph
  unfolding validate_graph_identity
  validate_graph_identity_iff graph =
      let nodes = validate_nodes_iff [] graph.nodes in
      let edges = validate_edges_iff [] graph.edges in
      let node_avoids = Avoids-nothing node_id graph.nodes in
      let edge_avoids = Avoids-nothing edge_id graph.edges in
      (
        λ h.
            let n : validate_nodes copy_node [] graph.nodes ≡ none = ground arith in
            let e : validate_edges [] graph.edges ≡ none = ground arith in
            record {
              named_nodes = (nodes.0 n).0;
              distinct_nodes = (nodes.0 n).2;
              claims = (nodes.0 n).3;
              named_edges = (edges.0 e).0;
              distinct_edges = (edges.0 e).2;
            },
        λ h.
            rw (nodes.1 (h.named_nodes, node_avoids, h.distinct_nodes, h.claims))
              (edges.1 (h.named_edges, edge_avoids, h.distinct_edges)),
      )
