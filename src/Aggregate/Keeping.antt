-- ===== src/Aggregate/Keeping.antt =====
-- Merging two graphs, for closed properties of their evidence.
use ai_evidence_bom.Prelude.{
  ℕ, zero, suc, List, [], ◌∷◌, ◌++◌, All, All-append, All-map, map, Option-cases, inl, inr,
}
use ai_evidence_bom.Text.{Text}
use ai_evidence_bom.Text.Order.{text_order}
use ai_evidence_bom.Time.{Instant}
use ai_evidence_bom.Maps.{lookup}
use ai_evidence_bom.Model.Evidence.{EvidenceSummary}
use ai_evidence_bom.Model.Graph.{FieldValueEvidence, FieldEvidence, Node, Edge, Graph}
use ai_evidence_bom.Model.Invariant.{IsClosed, ValuesHold, ClaimsHold, NodeHolds, GraphHolds}
use ai_evidence_bom.Model.Invariant.Claims.{add_field_evidence-holds, ensure_field_evidence-holds}
use ai_evidence_bom.Model.Invariant.Resolve.{resolve_field_evidence-holds, canonicalize-holds}
use ai_evidence_bom.Aggregate.Steps.{merge_all-new, merge_all-known}
use ai_evidence_bom.Aggregate.{
  add_values, add_claims, merge_node, update_at, Indices, merge_all, prepare_node, merge_edge,
  node_id, edge_id, merge_nodes, merge_edges, limit_evidence, limit_value, limit_claim, limit_node,
  limit_edge, merge,
}

module _ {ℓ κ} {A : Type ℓ} (Q : A → Type κ) where
  update_at-holds :
      (i : ℕ) (f : A → A) (xs : List A)
      → ((x : A) → Q x → Q (f x))
      → All Q xs
      → All Q (update_at i f xs)
  unfolding update_at
  update_at-holds i f [] g h = h
  update_at-holds zero f (x ∷ xs) g h = (g x h.0, h.1)
  update_at-holds (suc i) f (x ∷ xs) g h = (h.0, update_at-holds i f xs g h.1)

  -- The loops over the incoming elements keep what joining two elements keeps.
  pub merge_all-holds :
      (id : A → Text) (join : A → A → A)
      → ((x y : A) → Q x → Q y → Q (join x y))
      → (candidates : List A) (indices : Indices) (result : List A) → All Q candidates
      → All Q result
      → All Q (merge_all id join candidates indices result)
  unfolding merge_all
  merge_all-holds id join g [] indices result hc h = h
  merge_all-holds id join g (c ∷ cs) indices result hc h =
      elim (Option-cases (lookup (id c) indices)) [
        | inl e ↦ rw (merge_all-new id join c cs indices result e) (
            merge_all-holds id join g cs _ (result ++ c ∷ []) hc.1
              (All-append Q result (c ∷ []) h (hc.0, tt)))
        | inr (i, e) ↦ rw (merge_all-known id join c cs indices result i e) (
            merge_all-holds id join g cs indices (update_at i (λ x. join x c) result) hc.1
              (update_at-holds i (λ x. join x c) result (λ x q. g x c q hc.0) h))
      ]

module _ (P : EvidenceSummary → Type 0) (closed : IsClosed P) where
  add_values-holds :
      (field key : Text) (vs : List FieldValueEvidence) (n : Node)
      → ValuesHold P vs
      → NodeHolds P n
      → NodeHolds P (add_values field key vs n)
  unfolding add_values
  add_values-holds field key [] n hv h = h
  add_values-holds field key (v ∷ vs) n hv h =
      add_values-holds field key vs _ hv.1
        (add_field_evidence-holds P closed n field key v.value v.evidence hv.0 h)

  add_claims-holds :
      (cs : List FieldEvidence) (n : Node)
      → ClaimsHold P cs
      → NodeHolds P n
      → NodeHolds P (add_claims cs n)
  unfolding add_claims
  add_claims-holds [] n hc h = h
  add_claims-holds (c ∷ cs) n hc h =
      add_claims-holds cs _ hc.1 (add_values-holds c.field c.key c.values n hc.0 h)

  merge_node-holds : (n m : Node) → NodeHolds P n → NodeHolds P m → NodeHolds P (merge_node n m)
  unfolding merge_node
  merge_node-holds n m h k =
      let claimed = add_claims-holds m.field_evidence n k.claims h in
      resolve_field_evidence-holds P closed _ (record {
        summary = closed.merged _ m.evidence claimed.summary k.summary;
        claims = claimed.claims;
      })

  prepare_node-holds : (n : Node) → NodeHolds P n → NodeHolds P (prepare_node n)
  unfolding prepare_node
  prepare_node-holds n h =
      resolve_field_evidence-holds P closed _ (ensure_field_evidence-holds P closed n h)

  merge_nodes-holds :
      (ns ms : List Node)
      → All (NodeHolds P) ns
      → All (NodeHolds P) ms
      → All (NodeHolds P) (merge_nodes ns ms)
  unfolding merge_nodes
  merge_nodes-holds ns ms h k =
      merge_all-holds (NodeHolds P) node_id merge_node merge_node-holds (map prepare_node ms) _
        (map prepare_node ns)
        (All-map (NodeHolds P) (NodeHolds P) prepare_node ms prepare_node-holds k)
        (All-map (NodeHolds P) (NodeHolds P) prepare_node ns prepare_node-holds h)

  merge_edge-holds : (d e : Edge) → P d.evidence → P e.evidence → P (merge_edge d e).evidence
  unfolding merge_edge
  merge_edge-holds d e h k = closed.merged d.evidence e.evidence h k

  merge_edges-holds :
      (ds es : List Edge)
      → All (λ e. P e.evidence) ds
      → All (λ e. P e.evidence) es
      → All (λ e. P e.evidence) (merge_edges ds es)
  unfolding merge_edges
  merge_edges-holds ds es h k =
      merge_all-holds (λ e. P e.evidence) edge_id merge_edge merge_edge-holds es _ ds k h

  module _ (limits : (a : EvidenceSummary) → P a → P (limit_evidence a)) where
    limit_claim-holds :
        (c : FieldEvidence) → ValuesHold P c.values → ValuesHold P (limit_claim c).values
    unfolding limit_claim limit_value
    limit_claim-holds c h =
        All-map (λ v. P v.evidence) (λ v. P v.evidence) limit_value c.values
          (λ v p. limits v.evidence p) h

    limit_node-holds : (n : Node) → NodeHolds P n → NodeHolds P (limit_node n)
    unfolding limit_node
    limit_node-holds n h = record {
      summary = limits n.evidence h.summary;
      claims =
          All-map (λ c. ValuesHold P c.values) (λ c. ValuesHold P c.values) limit_claim
            n.field_evidence limit_claim-holds h.claims;
    }

    limit_edge-holds : (e : Edge) → P e.evidence → P (limit_edge e).evidence
    unfolding limit_edge
    limit_edge-holds e h = limits e.evidence h

    -- A closed property that cutting the trace IDs keeps, and that both graphs have, is one of the
    -- merged graph.
    pub merge-holds :
        (g h : Graph) (now : Instant)
        → GraphHolds P g
        → GraphHolds P h
        → GraphHolds P (merge g h now)
    unfolding merge
    merge-holds g h now hg hh =
        let merged = canonicalize-holds P closed _ (record {
          nodes = merge_nodes-holds g.nodes h.nodes hg.nodes hh.nodes;
          edges = merge_edges-holds g.edges h.edges hg.edges hh.edges;
        }) in
        record {
          nodes = All-map (NodeHolds P) (NodeHolds P) limit_node _ limit_node-holds merged.nodes;
          edges =
              All-map (λ e. P e.evidence) (λ e. P e.evidence) limit_edge _ limit_edge-holds
                merged.edges;
        }
