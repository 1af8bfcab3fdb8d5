-- ===== src/Normalize/Builder.antt =====
-- internal/normalize/normalize.go: the graph that is built from observations. A pointer to a node or
-- an edge of the builder is its ID, the only part of it that is read afterwards.
pub mod Keeping
pub mod Building
use ai_evidence_bom.Prelude.{
  ℕ, List, [], ◌∷◌, ◌++◌, Option, none, some, if◌then◌else◌, is_empty, map,
}
use ai_evidence_bom.Text.{Text, codes}
use ai_evidence_bom.Text.Order.{text_order}
use ai_evidence_bom.Time.{Instant}
use ai_evidence_bom.Maps.{lookup, put}
use ai_evidence_bom.Model.Evidence.{EvidenceSummary, no_evidence}
use ai_evidence_bom.Model.Graph.{
  Graph, Node, Edge, FieldEvidence, FieldValueEvidence, TextMap, schema_version, field_version,
  field_digest, field_property,
}
use ai_evidence_bom.Model.Claims.{add_field_evidence}
use ai_evidence_bom.Model.Resolve.{resolve_field_evidence}
use ai_evidence_bom.Model.Canonicalize.{canonicalize}
use ai_evidence_bom.Model.Identity.{stable_node_id, stable_edge_id}
use ai_evidence_bom.Observation.{Observation}
use ai_evidence_bom.Platform.{Platform}
use ai_evidence_bom.Normalize.{first_non_empty, observation_evidence, merge_evidence, cut_trace_ids}
use ai_evidence_bom.Normalize.Prepare.{prepare_observations}
use ai_evidence_bom.Normalize.Inputs.{
  NodeInput, agent_input, model_input, mcp_input, tool_input, data_input, prompt_input,
}

pub record Builder : Type 0 where
  pub nodes : List (Text × Node)
  pub edges : List (Text × Edge)

abbrev pub new_builder : Builder
new_builder = record { nodes = []; edges = [] }

-- The node under the ID, or a new one.
abbrev pub node_or_new : Text → NodeInput → Option Node → Node
node_or_new id value none = record {
  id = id;
  node_type = value.node_type;
  name = value.name;
  version = [];
  observed_versions = [];
  provider = value.provider;
  digests = [];
  properties = [];
  field_evidence = [];
  evidence = no_evidence;
}
node_or_new id value (some node) = node

-- The loops over `value.Digests` and over `value.Properties`.
unfoldable pub add_entries : Text → TextMap → EvidenceSummary → Node → Node
add_entries field [] evidence node = node
add_entries field ((key, candidate) ∷ entries) evidence node =
    add_entries field entries evidence (add_field_evidence node field key candidate evidence)

unfoldable pub add_version : Text → EvidenceSummary → Node → Node
add_version version evidence node =
    if is_empty version
    then node
    else add_field_evidence
        (record node { observed_versions = node.observed_versions ++ version ∷ [] }) field_version
        [] version evidence

-- What `addNode` does to the node.
unfoldable pub observe_node : NodeInput → Observation → Node → Node
unfolding add_entries add_version
observe_node value observation node =
    let evidence = observation_evidence observation in
    let claimed =
      add_entries field_property value.properties evidence (
        add_entries field_digest value.digests evidence
          (add_version value.version evidence node)) in
    resolve_field_evidence
      (record claimed { evidence = merge_evidence claimed.evidence observation })

abbrev pub edge_or_new : Text → (from to relation : Text) → Option Edge → Edge
edge_or_new id from to relation none = record {
  id = id;
  from = from;
  to = to;
  relation = relation;
  evidence = no_evidence;
}
edge_or_new id from to relation (some edge) = edge

unfoldable pub observe_edge : Observation → Edge → Edge
observe_edge observation edge = record edge { evidence = merge_evidence edge.evidence observation }

-- The elements of a map, in the order of the list.
unfoldable pub entries_of {ℓ} : {A : Type ℓ} → List (Text × A) → List A
entries_of [] = []
entries_of ((k, x) ∷ m) = x ∷ entries_of m

-- The loops that cut the trace IDs of every value of a built graph.
unfoldable pub cut_value : FieldValueEvidence → FieldValueEvidence
cut_value v = record v { evidence = cut_trace_ids v.evidence }

unfoldable pub cut_claim : FieldEvidence → FieldEvidence
unfolding cut_value
cut_claim claim = record claim { values = map cut_value claim.values }

unfoldable pub cut_node : Node → Node
unfolding cut_claim
cut_node node = record node { field_evidence = map cut_claim node.field_evidence }

module _ (platform : Platform) (key : List ℕ) where
  -- `addNode`, with the ID of the node.
  unfoldable pub add_node : NodeInput → Observation → Builder → Text × Builder
  unfolding observe_node
  add_node value observation builder =
      let identity = first_non_empty (value.identity ∷ value.name ∷ []) in
      let id = stable_node_id platform value.node_type value.provider identity in
      let node = node_or_new id value (lookup id builder.nodes) in
      (id, record builder { nodes = put id (observe_node value observation node) builder.nodes })

  unfoldable pub add_edge : (from to relation : Text) → Observation → Builder → Builder
  unfolding observe_edge
  add_edge from to relation observation builder =
      let id = stable_edge_id platform from relation to in
      let edge = edge_or_new id from to relation (lookup id builder.edges) in
      record builder { edges = put id (observe_edge observation edge) builder.edges }

  -- A node that the observation may report, with its ID where it does.
  unfoldable pub report_node : Option NodeInput → Observation → Builder → Option Text × Builder
  unfolding add_node
  report_node none observation builder = (none, builder)
  report_node (some value) observation builder =
      let (id, added) = add_node value observation builder in (some id, added)

  -- An edge between two nodes, where the observation reports both.
  unfoldable pub connect : (from to : Option Text) → Text → Observation → Builder → Builder
  unfolding add_edge
  connect (some from) (some to) relation observation builder =
      add_edge from to relation observation builder
  connect _ _ relation observation builder = builder

  -- `addObservation`, `addPromptEvidence` included.
  unfoldable pub add_observation : Observation → Builder → Builder
  add_observation observation b =
      let attrs = observation.attributes in
      let (agent, b1) = report_node (agent_input attrs) observation b in
      let (model, b2) = report_node (model_input attrs) observation b1 in
      let b3 = connect agent model (codes "uses") observation b2 in
      let (server, b4) = report_node (mcp_input attrs) observation b3 in
      let b5 = connect agent server (codes "connects_to") observation b4 in
      let (tool, b6) = report_node (tool_input attrs) observation b5 in
      let b7 = connect agent tool (codes "invokes") observation b6 in
      let b8 = connect server tool (codes "provides") observation b7 in
      let (data_source, b9) = report_node (data_input attrs) observation b8 in
      let b10 = connect agent data_source (codes "reads_from") observation b9 in
      let (prompt, b11) = report_node (prompt_input platform key attrs) observation b10 in
      connect agent prompt (codes "uses_prompt") observation b11

  unfoldable pub add_observations : List Observation → Builder → Builder
  unfolding add_observation
  add_observations [] builder = builder
  add_observations (observation ∷ observations) builder =
      add_observations observations (add_observation observation builder)

  -- `BuildWithOptions` on observations that `prepareObservations` has returned.
  unfoldable pub build_prepared : List Observation → (source : Text) → Instant → Graph
  unfolding add_observations entries_of cut_node
  build_prepared observations source generated_at =
      let builder = add_observations observations new_builder in
      let graph = canonicalize (record {
        schema = schema_version;
        generated_at = generated_at;
        source = source;
        nodes = entries_of builder.nodes;
        edges = entries_of builder.edges;
        metadata =
            (codes "privacy.mode", codes "metadata-only")
            ∷ (codes "normalizer.version", schema_version)
            ∷ [];
      }) in
      record graph { nodes = map cut_node graph.nodes }

  -- `BuildWithOptions`.
  unfoldable pub build_with_options : List Observation → (source : Text) → Instant → Option Graph
  build_with_options observations source generated_at =
      elim (prepare_observations platform observations) [
        | none ↦ none
        | some prepared ↦ some (build_prepared prepared source generated_at)
      ]
