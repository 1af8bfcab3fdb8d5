-- ===== src/Model/Invariant/Resolve.antt =====
-- Resolving claims and the canonical form of a graph, for a closed property of its evidence.
use ai_evidence_bom.Prelude.{
  ◌≡◌, List, [], ◌∷◌, All, All-append, All-map, map, Bool-cases, Option-cases, inl, inr, is_empty,
  subst, sym, arith,
}
use ai_evidence_bom.Text.{Text, trim_space}
use ai_evidence_bom.Text.Order.{text_order}
use ai_evidence_bom.Maps.{lookup}
use ai_evidence_bom.Maps.Laws.{All-put, lookup-All}
use ai_evidence_bom.Sorting.{sort_slice}
use ai_evidence_bom.Sorting.Keys.{All-sort_slice}
use ai_evidence_bom.Model.Evidence.{EvidenceSummary}
use ai_evidence_bom.Model.Graph.{FieldValueEvidence, FieldEvidence, Node, Edge, Graph}
use ai_evidence_bom.Model.FieldKey.{FieldKey, field_key_order, less_claim}
use ai_evidence_bom.Model.Resolve.{
  ValueGroup, Groups, read_evidence, read_group, group_values, group_claims, values_of_group,
  less_value, canonical_value, claim_of, claims_of, resolve_claims, apply_claim, apply_claims,
  resolve_field_evidence,
}
use ai_evidence_bom.Model.Canonicalize.{
  canonicalize_node, canonicalize_edge, canonicalize, less_node, less_edge,
}
use ai_evidence_bom.Model.Invariant.{IsClosed, ValuesHold, ClaimsHold, NodeHolds, GraphHolds}

apply_claim-keeps :
    (c : FieldEvidence) (n : Node)
    → ((apply_claim c n).evidence ≡ n.evidence)
      × ((apply_claim c n).field_evidence ≡ n.field_evidence)
unfolding apply_claim
apply_claim-keeps c n = (ground arith, ground arith)

module _ (P : EvidenceSummary → Type 0) (closed : IsClosed P) where
  abbrev GroupHolds : ValueGroup → Type 0
  GroupHolds group = All (λ g. P g.1) group

  read_evidence-holds : (v : Text) (g : ValueGroup) → GroupHolds g → P (read_evidence (lookup v g))
  read_evidence-holds v g h = elim (Option-cases (lookup v g)) [
    | inl e ↦ rw e closed.nothing
    | inr (s, e) ↦ rw e (lookup-All (λ _ x. P x) v g h e)
  ]

  group_values-holds :
      (cs : List FieldValueEvidence) (g : ValueGroup)
      → ValuesHold P cs
      → GroupHolds g
      → GroupHolds (group_values cs g)
  unfolding group_values
  group_values-holds [] g hc h = h
  group_values-holds (c ∷ cs) g hc h = elim (Bool-cases (is_empty (trim_space c.value))) [
    | inl t ↦ rw t (group_values-holds cs g hc.1 h)
    | inr f ↦ rw f (
        group_values-holds cs _ hc.1 (
          All-put (λ _ x. P x) (trim_space c.value) _ g
            (closed.merged _ c.evidence (read_evidence-holds (trim_space c.value) g h) hc.0) h))
  ]

  read_group-holds :
      (k : FieldKey) (gs : Groups)
      → All (λ g. GroupHolds g.1) gs
      → GroupHolds (read_group (lookup k gs))
  read_group-holds k gs h = elim (Option-cases (lookup k gs)) [
    | inl e ↦ rw e tt
    | inr (g, e) ↦ rw e (lookup-All (λ _ x. GroupHolds x) k gs h e)
  ]

  group_claims-holds :
      (cs : List FieldEvidence) (gs : Groups)
      → ClaimsHold P cs
      → All (λ g. GroupHolds g.1) gs
      → All (λ g. GroupHolds g.1) (group_claims cs gs)
  unfolding group_claims
  group_claims-holds [] gs hc h = h
  group_claims-holds (c ∷ cs) gs hc h = elim (Bool-cases (is_empty (trim_space c.field))) [
    | inl t ↦ rw t (group_claims-holds cs gs hc.1 h)
    | inr f ↦ rw f (
        group_claims-holds cs _ hc.1 (
          All-put (λ _ x. GroupHolds x) _ _ gs
            (group_values-holds c.values _ hc.0 (read_group-holds _ gs h)) h))
  ]

  values_of_group-holds : (g : ValueGroup) → GroupHolds g → ValuesHold P (values_of_group g)
  unfolding values_of_group
  values_of_group-holds g h =
      All-sort_slice (λ v. P v.evidence) less_value (map canonical_value g)
        (All-map (λ x. P x.1) (λ v. P v.evidence) canonical_value g (λ x p. closed.canonical x.1 p)
          h)

  claim_of-holds :
      (k : FieldKey) (vs : List FieldValueEvidence) → ValuesHold P vs → ClaimsHold P (claim_of k vs)
  unfolding claim_of
  claim_of-holds k [] h = tt
  claim_of-holds k (v ∷ vs) h = (h, tt)

  claims_of-holds : (gs : Groups) → All (λ g. GroupHolds g.1) gs → ClaimsHold P (claims_of gs)
  unfolding claims_of
  claims_of-holds [] h = tt
  claims_of-holds ((k, g) ∷ gs) h =
      All-append (λ c. ValuesHold P c.values) (claim_of k (values_of_group g)) (claims_of gs)
        (claim_of-holds k (values_of_group g) (values_of_group-holds g h.0))
        (claims_of-holds gs h.1)

  pub resolve_claims-holds :
      (cs : List FieldEvidence) → ClaimsHold P cs → ClaimsHold P (resolve_claims cs)
  unfolding resolve_claims
  resolve_claims-holds cs h =
      All-sort_slice (λ c. ValuesHold P c.values) less_claim (claims_of (group_claims cs []))
        (claims_of-holds _ (group_claims-holds cs [] h tt))

  apply_claim-holds : (c : FieldEvidence) (n : Node) → NodeHolds P n → NodeHolds P (apply_claim c n)
  apply_claim-holds c n h =
      let (same_summary, same_claims) = apply_claim-keeps c n in
      record {
        summary = subst P (sym same_summary) h.summary;
        claims = subst (ClaimsHold P) (sym same_claims) h.claims;
      }

  apply_claims-holds :
      (cs : List FieldEvidence) (n : Node) → NodeHolds P n → NodeHolds P (apply_claims cs n)
  unfolding apply_claims
  apply_claims-holds [] n h = h
  apply_claims-holds (c ∷ cs) n h =
      apply_claims-holds cs (apply_claim c n) (apply_claim-holds c n h)

  pub resolve_field_evidence-holds :
      (n : Node) → NodeHolds P n → NodeHolds P (resolve_field_evidence n)
  unfolding resolve_field_evidence
  resolve_field_evidence-holds n h = elim (Bool-cases (is_empty n.field_evidence)) [
    | inl t ↦ rw t h
    | inr f ↦
        let applied =
          apply_claims-holds (resolve_claims n.field_evidence)
            (record n { field_evidence = resolve_claims n.field_evidence })
            (record {
              summary = h.summary;
              claims = resolve_claims-holds n.field_evidence h.claims;
            }) in
        rw f (record { summary = applied.summary; claims = applied.claims })
  ]

  canonicalize_node-holds : (n : Node) → NodeHolds P n → NodeHolds P (canonicalize_node n)
  unfolding canonicalize_node
  canonicalize_node-holds n h =
      resolve_field_evidence-holds _
        (record { summary = closed.canonical n.evidence h.summary; claims = h.claims })

  canonicalize_edge-holds : (e : Edge) → P e.evidence → P (canonicalize_edge e).evidence
  unfolding canonicalize_edge
  canonicalize_edge-holds e h = closed.canonical e.evidence h

  -- The canonical form of a graph keeps the property.
  pub canonicalize-holds : (g : Graph) → GraphHolds P g → GraphHolds P (canonicalize g)
  unfolding canonicalize
  canonicalize-holds g h = record {
    nodes =
        All-map (NodeHolds P) (NodeHolds P) canonicalize_node (sort_slice less_node g.nodes)
          canonicalize_node-holds (All-sort_slice (NodeHolds P) less_node g.nodes h.nodes);
    edges =
        All-map (λ e. P e.evidence) (λ e. P e.evidence) canonicalize_edge
          (sort_slice less_edge g.edges) canonicalize_edge-holds
          (All-sort_slice (λ e. P e.evidence) less_edge g.edges h.edges);
  }
