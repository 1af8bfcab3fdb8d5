-- ===== src/Normalize/Builder/Keeping.antt =====
-- The builder of a graph, for closed properties of evidence.
use ai_evidence_bom.Prelude.{
  ℕ, List, [], ◌∷◌, ◌++◌, Option, none, some, All, All-map, inl, inr, Bool-cases, Option-cases,
  is_empty, ltb, length, take, map,
}
use ai_evidence_bom.Text.{Text}
use ai_evidence_bom.Text.Order.{text_order}
use ai_evidence_bom.Time.{Instant}
use ai_evidence_bom.Maps.{lookup}
use ai_evidence_bom.Maps.Laws.{All-put, lookup-All}
use ai_evidence_bom.Model.Evidence.{EvidenceSummary, merge_evidence_summary}
use ai_evidence_bom.Model.Graph.{
  Node, Edge, FieldEvidence, FieldValueEvidence, TextMap, field_version, field_digest,
  field_property,
}
use ai_evidence_bom.Model.Identity.{stable_node_id, stable_edge_id}
use ai_evidence_bom.Model.Invariant.{IsClosed, ValuesHold, NodeHolds, GraphHolds}
use ai_evidence_bom.Model.Invariant.Claims.{add_field_evidence-holds}
use ai_evidence_bom.Model.Invariant.Resolve.{resolve_field_evidence-holds, canonicalize-holds}
use ai_evidence_bom.Observation.{Observation}
use ai_evidence_bom.Platform.{Platform}
use ai_evidence_bom.Normalize.{
  observation_evidence, cut_trace_ids, merge_evidence, max_trace_ids, first_non_empty,
}
use ai_evidence_bom.Normalize.Inputs.{
  NodeInput, agent_input, model_input, mcp_input, tool_input, data_input, prompt_input,
}
use ai_evidence_bom.Normalize.Builder.{
  Builder, new_builder, node_or_new, edge_or_new, add_entries, add_version, observe_node,
  observe_edge, entries_of, cut_value, cut_claim, cut_node, add_node, add_edge, report_node,
  connect, add_observation, add_observations, build_prepared,
}

pub entries_of-holds {ℓ} :
    {A : Type ℓ} (Q : A → Type 0) (m : List (Text × A)) → All (λ e. Q e.1) m → All Q (entries_of m)
unfolding entries_of
entries_of-holds Q [] h = tt
entries_of-holds Q ((k, x) ∷ m) h = (h.0, entries_of-holds Q m h.1)

module _ (P : EvidenceSummary → Type 0) (closed : IsClosed P) where
  -- Every summary of the builder has the property.
  pub record BuilderHolds (b : Builder) : Type 0 where
    pub nodes : All (λ e. NodeHolds P e.1) b.nodes
    pub edges : All (λ e. P e.1.evidence) b.edges

  node_or_new-holds :
      (id : Text) (value : NodeInput) (found : List (Text × Node))
      → All (λ e. NodeHolds P e.1) found
      → NodeHolds P (node_or_new id value (lookup id found))
  node_or_new-holds id value found h = elim (Option-cases (lookup id found)) [
    | inl e ↦ rw e (record { summary = closed.nothing; claims = tt })
    | inr (n, e) ↦ rw e (lookup-All (λ k n. NodeHolds P n) id found h e)
  ]

  pub edge_or_new-holds :
      (id from to relation : Text) (found : List (Text × Edge))
      → All (λ e. P e.1.evidence) found
      → P (edge_or_new id from to relation (lookup id found)).evidence
  edge_or_new-holds id from to relation found h = elim (Option-cases (lookup id found)) [
    | inl e ↦ rw e closed.nothing
    | inr (n, e) ↦ rw e (lookup-All (λ k (n : Edge). P n.evidence) id found h e)
  ]

  add_entries-holds :
      (field : Text) (entries : TextMap) (e : EvidenceSummary) (n : Node)
      → P e
      → NodeHolds P n
      → NodeHolds P (add_entries field entries e n)
  unfolding add_entries
  add_entries-holds field [] e n p h = h
  add_entries-holds field ((key, candidate) ∷ entries) e n p h =
      add_entries-holds field entries e _ p
        (add_field_evidence-holds P closed n field key candidate e p h)

  add_version-holds :
      (version : Text) (e : EvidenceSummary) (n : Node)
      → P e
      → NodeHolds P n
      → NodeHolds P (add_version version e n)
  unfolding add_version
  add_version-holds version e n p h = elim (Bool-cases (is_empty version)) [
    | inl t ↦ rw t h
    | inr f ↦
        let observed = record n { observed_versions = n.observed_versions ++ version ∷ [] } in
        rw f (
          add_field_evidence-holds P closed observed field_version [] version e p
            (record { summary = h.summary; claims = h.claims }))
  ]

  module _
      (limits : (a : EvidenceSummary) (ids : List Text)
        → P a
        → P (record a { trace_ids = ids })) where
    cut_trace_ids-holds : (a : EvidenceSummary) → P a → P (cut_trace_ids a)
    unfolding cut_trace_ids
    cut_trace_ids-holds a p = elim (Bool-cases (ltb max_trace_ids (length a.trace_ids))) [
      | inl e ↦ rw e (limits a (take max_trace_ids a.trace_ids) p)
      | inr e ↦ rw e p
    ]

    cut_values-hold :
        (vs : List FieldValueEvidence) → ValuesHold P vs → ValuesHold P (map cut_value vs)
    unfolding cut_value
    cut_values-hold [] h = tt
    cut_values-hold (v ∷ vs) h = (cut_trace_ids-holds v.evidence h.0, cut_values-hold vs h.1)

    cut_node-holds : (n : Node) → NodeHolds P n → NodeHolds P (cut_node n)
    unfolding cut_node cut_claim
    cut_node-holds n h = record {
      summary = h.summary;
      claims =
          All-map (λ (c : FieldEvidence). ValuesHold P c.values)
            (λ (c : FieldEvidence). ValuesHold P c.values) cut_claim n.field_evidence
            (λ c k. cut_values-hold c.values k) h.claims;
    }

    module _ (o : Observation) (p : P (observation_evidence o)) where
      merge_evidence-holds : (a : EvidenceSummary) → P a → P (merge_evidence a o)
      unfolding merge_evidence
      merge_evidence-holds a h =
          cut_trace_ids-holds (merge_evidence_summary a (observation_evidence o))
            (closed.merged a (observation_evidence o) h p)

      observe_node-holds :
          (value : NodeInput) (n : Node) → NodeHolds P n → NodeHolds P (observe_node value o n)
      unfolding observe_node
      observe_node-holds value n h =
          let claimed = add_entries-holds field_property value.properties _ _ p (
            add_entries-holds field_digest value.digests _ _ p
              (add_version-holds value.version _ n p h)) in
          resolve_field_evidence-holds P closed _
            (record { summary = merge_evidence-holds _ claimed.summary; claims = claimed.claims })

      module _ (platform : Platform) (key : List ℕ) where
        report_node-holds :
            (value : Option NodeInput) (b : Builder)
            → BuilderHolds b
            → BuilderHolds (report_node platform key value o b).1
        unfolding report_node add_node
        report_node-holds none b h = h
        report_node-holds (some value) b h =
            let id =
              stable_node_id platform value.node_type value.provider
                (first_non_empty (value.identity ∷ value.name ∷ [])) in
            record {
              nodes =
                  All-put (λ k n. NodeHolds P n) id _ b.nodes
                    (observe_node-holds value _ (node_or_new-holds id value b.nodes h.nodes))
                    h.nodes;
              edges = h.edges;
            }

        connect-holds :
            (from to : Option Text) (relation : Text) (b : Builder)
            → BuilderHolds b
            → BuilderHolds (connect platform key from to relation o b)
        unfolding connect add_edge observe_edge
        connect-holds none to relation b h = h
        connect-holds (some from) none relation b h = h
        connect-holds (some from) (some to) relation b h =
            let id = stable_edge_id platform from relation to in
            record {
              nodes = h.nodes;
              edges =
                  All-put (λ k (e : Edge). P e.evidence) id _ b.edges
                    (merge_evidence-holds _ (edge_or_new-holds id from to relation b.edges h.edges))
                    h.edges;
            }

        add_observation-holds :
            (b : Builder) → BuilderHolds b → BuilderHolds (add_observation platform key o b)
        unfolding add_observation
        add_observation-holds b h =
            let attrs = o.attributes in
            let h2 =
              report_node-holds (model_input attrs) _ (report_node-holds (agent_input attrs) b h) in
            let h4 = report_node-holds (mcp_input attrs) _ (connect-holds _ _ _ _ h2) in
            let h6 = report_node-holds (tool_input attrs) _ (connect-holds _ _ _ _ h4) in
            let h9 =
              report_node-holds (data_input attrs) _
                (connect-holds _ _ _ _ (connect-holds _ _ _ _ h6)) in
            connect-holds _ _ _ _
              (report_node-holds (prompt_input platform key attrs) _ (connect-holds _ _ _ _ h9))

    module _ (platform : Platform) (key : List ℕ) where
      add_observations-holds :
          (os : List Observation) (b : Builder)
          → All (λ o. P (observation_evidence o)) os
          → BuilderHolds b
          → BuilderHolds (add_observations platform key os b)
      unfolding add_observations
      add_observations-holds [] b p h = h
      add_observations-holds (o ∷ os) b p h =
          add_observations-holds os _ p.1 (add_observation-holds o p.0 platform key b h)

      -- A closed property that cutting the trace IDs keeps, and that the evidence of every observation
      -- has, is one of the graph that is built from them.
      pub build_prepared-holds :
          (os : List Observation) (source : Text) (now : Instant)
          → All (λ o. P (observation_evidence o)) os
          → GraphHolds P (build_prepared platform key os source now)
      unfolding build_prepared
      build_prepared-holds os source now p =
          let built = add_observations-holds os new_builder p (record { nodes = tt; edges = tt }) in
          let graph = canonicalize-holds P closed _ (record {
            nodes = entries_of-holds (NodeHolds P) _ built.nodes;
            edges = entries_of-holds (λ (e : Edge). P e.evidence) _ built.edges;
          }) in
          record {
            nodes = All-map (NodeHolds P) (NodeHolds P) cut_node _ cut_node-holds graph.nodes;
            edges = graph.edges;
          }
