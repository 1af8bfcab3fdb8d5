-- ===== src/Aggregate.antt =====
-- internal/aggregate/merge.go: `Merge` combines a new snapshot into an existing graph. Deep copies
-- (`cloneGraph` and its helpers) are the values themselves here.
pub mod Steps
pub mod Keeping
pub mod Limits
pub mod Indices
pub mod Identity
pub mod NodeIds
pub mod Merged
pub mod MergedEdges
use ai_evidence_bom.Prelude.{
  ℕ, zero, suc, ◌+◌, Bool, List, [], ◌∷◌, ◌++◌, Option, none, some, map, if◌then◌else◌, is_empty,
  length, take, ltb,
}
use ai_evidence_bom.Text.{Text, codes, text_less}
use ai_evidence_bom.Text.Order.{text_order}
use ai_evidence_bom.Time.{Instant}
use ai_evidence_bom.Maps.{lookup, put}
use ai_evidence_bom.Sorting.{sort_slice}
use ai_evidence_bom.Model.Texts.{collect}
use ai_evidence_bom.Model.Evidence.{EvidenceSummary, merge_evidence_summary}
use ai_evidence_bom.Model.Graph.{
  Graph, Node, Edge, FieldEvidence, FieldValueEvidence, TextMap, schema_version,
}
use ai_evidence_bom.Model.Claims.{add_field_evidence, ensure_field_evidence}
use ai_evidence_bom.Model.Resolve.{resolve_field_evidence}
use ai_evidence_bom.Model.Canonicalize.{canonicalize}

abbrev pub max_trace_ids : ℕ
max_trace_ids = 20

-- The loops of `mergeNode` over the incoming claims and their values.
unfoldable pub add_values : Text → Text → List FieldValueEvidence → Node → Node
add_values field key [] n = n
add_values field key (v ∷ vs) n =
    add_values field key vs (add_field_evidence n field key v.value v.evidence)

unfoldable pub add_claims : List FieldEvidence → Node → Node
unfolding add_values
add_claims [] n = n
add_claims (claim ∷ claims) n = add_claims claims (add_values claim.field claim.key claim.values n)

-- `if current.F == "" { current.F = incoming.F }`.
abbrev pub or_else : Text → Text → Text
or_else current incoming = if is_empty current then incoming else current

unfoldable pub merge_node : Node → Node → Node
unfolding add_claims
merge_node current incoming =
    let claimed = add_claims incoming.field_evidence current in
    let observed = claimed.observed_versions ++ incoming.observed_versions in
    resolve_field_evidence (record claimed {
      node_type = or_else claimed.node_type incoming.node_type;
      name = or_else claimed.name incoming.name;
      provider = or_else claimed.provider incoming.provider;
      observed_versions =
          if is_empty incoming.version then observed else observed ++ incoming.version ∷ [];
      evidence = merge_evidence_summary claimed.evidence incoming.evidence;
    })

-- A write through a pointer to an element of a slice.
unfoldable pub update_at {ℓ} : {A : Type ℓ} → ℕ → (A → A) → List A → List A
update_at i f [] = []
update_at zero f (x ∷ xs) = f x ∷ xs
update_at (suc i) f (x ∷ xs) = x ∷ update_at i f xs

-- The indices of a slice by ID, written in order: the last of two equal IDs stays.
abbrev pub Indices : Type 0
Indices = List (Text × ℕ)

unfoldable pub index_by {ℓ} : {A : Type ℓ} → (A → Text) → ℕ → List A → Indices → Indices
index_by id i [] indices = indices
index_by id i (x ∷ xs) indices = index_by id (i + 1) xs (put (id x) i indices)

-- The loops over the incoming nodes and over the incoming edges: `join` merges a candidate into
-- the element with its ID, and a candidate with a new ID is appended.
module _ {ℓ} {A : Type ℓ} (id : A → Text) (join : A → A → A) where
  unfoldable pub merge_all : List A → Indices → List A → List A
  unfolding update_at
  merge_all [] indices result = result
  merge_all (candidate ∷ candidates) indices result = elim (lookup (id candidate) indices) [
    | none ↦
        merge_all candidates (put (id candidate) (length result) indices) (result ++ candidate ∷ [])
    | some index ↦ merge_all candidates indices (update_at index (λ x. join x candidate) result)
  ]

-- What a node goes through before it is merged.
unfoldable pub prepare_node : Node → Node
prepare_node n = resolve_field_evidence (ensure_field_evidence n)

unfoldable pub merge_edge : Edge → Edge → Edge
merge_edge current incoming = record current {
  evidence = merge_evidence_summary current.evidence incoming.evidence;
}

abbrev pub node_id : Node → Text
node_id n = n.id

abbrev pub edge_id : Edge → Text
edge_id e = e.id

unfoldable pub merge_nodes : List Node → List Node → List Node
unfolding merge_all index_by prepare_node merge_node
merge_nodes current incoming =
    let result = map prepare_node current in
    merge_all node_id merge_node (map prepare_node incoming) (index_by node_id 0 result []) result

unfoldable pub merge_edges : List Edge → List Edge → List Edge
unfolding merge_all index_by merge_edge
merge_edges current incoming =
    merge_all edge_id merge_edge incoming (index_by edge_id 0 current []) current

unfoldable pub put_all : TextMap → TextMap → TextMap
put_all [] metadata = metadata
put_all ((key, value) ∷ entries) metadata = put_all entries (put key value metadata)

-- `limited`: the sorted set of the texts, cut at the limit.
unfoldable pub limited : List Text → ℕ → List Text
limited values limit =
    let result = sort_slice text_less (collect values []) in
    if ltb limit (length result) then take limit result else result

unfoldable pub limit_evidence : EvidenceSummary → EvidenceSummary
unfolding limited
limit_evidence evidence = record evidence { trace_ids = limited evidence.trace_ids max_trace_ids }

unfoldable pub limit_value : FieldValueEvidence → FieldValueEvidence
unfolding limit_evidence
limit_value v = record v { evidence = limit_evidence v.evidence }

unfoldable pub limit_claim : FieldEvidence → FieldEvidence
unfolding limit_value
limit_claim claim = record claim { values = map limit_value claim.values }

unfoldable pub limit_node : Node → Node
unfolding limit_claim limit_evidence
limit_node n = record n {
  field_evidence = map limit_claim n.field_evidence;
  evidence = limit_evidence n.evidence;
}

unfoldable pub limit_edge : Edge → Edge
unfolding limit_evidence
limit_edge e = record e { evidence = limit_evidence e.evidence }

unfoldable pub merge : Graph → Graph → Instant → Graph
unfolding merge_nodes merge_edges put_all limit_node limit_edge
merge current incoming generated_at =
    let merged = canonicalize (record current {
      schema = schema_version;
      generated_at = generated_at;
      source = or_else current.source incoming.source;
      nodes = merge_nodes current.nodes incoming.nodes;
      edges = merge_edges current.edges incoming.edges;
      metadata =
          put (codes "aggregation.mode") (codes "continuous")
            (put_all incoming.metadata current.metadata);
    }) in
    record merged { nodes = map limit_node merged.nodes; edges = map limit_edge merged.edges }
