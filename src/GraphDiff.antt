-- ===== src/GraphDiff.antt =====
-- internal/graphdiff/diff.go: what two snapshots of a graph differ in. The two loops over the nodes and
-- over the edges are one function of what counts as a change.
pub mod Entries
pub mod Unchanged
use ai_evidence_bom.Prelude.{
  ◌+◌, Bool, true, not, ◌&&◌, ◌||◌, List, [], ◌∷◌, ◌++◌, Option, none, some, if◌then◌else◌,
  is_empty, length, ltb,
}
use ai_evidence_bom.Text.{Text, codes, text_eq}
use ai_evidence_bom.Text.Order.{text_order}
use ai_evidence_bom.Time.{Instant}
use ai_evidence_bom.Maps.{lookup, put}
use ai_evidence_bom.Sorting.{sort_slice, by_key}
use ai_evidence_bom.Normalize.Builder.{entries_of}
use ai_evidence_bom.Model.Graph.{TextMap, FieldEvidence, Node, Edge, Graph}

-- `reflect.DeepEqual` at the types that it is called with. It also tells a nil slice from an empty one
-- and one location of a time from another, which the values here do not show.
pub record Deeply : Type 0 where
  pub versions : List Text → List Text → Bool
  pub texts : TextMap → TextMap → Bool
  pub claims : List FieldEvidence → List FieldEvidence → Bool

pub record NodeChange : Type 0 where
  pub id : Text
  pub fields : List Text
  pub before : Node
  pub after : Node

pub record EdgeChange : Type 0 where
  pub id : Text
  pub fields : List Text
  pub before : Edge
  pub after : Edge

pub record Diff : Type 0 where
  pub generated_at : Instant
  pub before_source : Text
  pub after_source : Text
  pub added_nodes : List Node
  pub removed_nodes : List Node
  pub changed_nodes : List NodeChange
  pub added_edges : List Edge
  pub removed_edges : List Edge
  pub changed_edges : List EdgeChange

-- `indexNodes` into the entries that are there already.
unfoldable pub index_nodes : List (Text × Node) → List Node → List (Text × Node)
index_nodes out [] = out
index_nodes out (node ∷ nodes) = index_nodes (put node.id node out) nodes

unfoldable pub index_edges : List (Text × Edge) → List Edge → List (Text × Edge)
index_edges out [] = out
index_edges out (edge ∷ edges) = index_edges (put edge.id edge out) edges

module _ (deeply : Deeply) where
  -- The fields in which two nodes differ.
  unfoldable pub changed_fields : Node → Node → List Text
  changed_fields before after =
      let same_versions =
        text_eq before.version after.version
        && deeply.versions before.observed_versions after.observed_versions in
      (if text_eq before.name after.name then [] else codes "name" ∷ [])
      ++ (if same_versions then [] else codes "version" ∷ [])
      ++ (if text_eq before.provider after.provider then [] else codes "provider" ∷ [])
      ++ (if deeply.texts before.digests after.digests then [] else codes "digests" ∷ [])
      ++ (if deeply.texts before.properties after.properties then [] else codes "properties" ∷ [])
      ++ (if deeply.claims before.field_evidence after.field_evidence
          then []
          else codes "fieldEvidence" ∷ [])
      ++ (if text_eq before.evidence.level after.evidence.level
          then []
          else codes "evidence.level" ∷ [])

  -- What the loop over the new nodes appends to the changed ones.
  unfoldable pub node_change : Text → Node → Node → Option NodeChange
  node_change id previous node =
      let fields = changed_fields previous node in
      if is_empty fields
      then none
      else some (record { id = id; fields = fields; before = previous; after = node })

-- What the loop over the new edges appends to the changed ones.
unfoldable pub edge_change : Text → Edge → Edge → Option EdgeChange
edge_change id previous edge =
    if text_eq previous.evidence.level edge.evidence.level
    then none
    else some
        (record { id = id; fields = codes "evidence.level" ∷ []; before = previous; after = edge })

-- What a loop over the new entries collects.
pub record Compared (B C : Type 0) : Type 0 where
  pub added : List B
  pub changed : List C

module _ {B C : Type 0} where
  unfoldable pub add_change : Option C → Compared B C → Compared B C
  add_change none r = r
  add_change (some c) r = record r { changed = c ∷ r.changed }

  unfoldable pub compare_entry : (B → B → Option C) → B → Option B → Compared B C → Compared B C
  compare_entry change node none r = record r { added = node ∷ r.added }
  compare_entry change node (some previous) r = add_change (change previous node) r

  -- The loop over the new entries.
  unfoldable pub compare_entries :
      (Text → B → B → Option C) → List (Text × B) → List (Text × B) → Compared B C
  compare_entries change before [] = record { added = []; changed = [] }
  compare_entries change before ((id, node) ∷ after) =
      compare_entry (change id) node (lookup id before) (compare_entries change before after)

module _ {B : Type 0} where
  unfoldable pub removed_entry : B → Option B → List B → List B
  removed_entry node none removed = node ∷ removed
  removed_entry node (some kept) removed = removed

  -- The loop over the old entries.
  unfoldable pub removed_entries : List (Text × B) → List (Text × B) → List B
  removed_entries after [] = []
  removed_entries after ((id, node) ∷ before) =
      removed_entry node (lookup id after) (removed_entries after before)

unfoldable pub compare : Deeply → Graph → Graph → Instant → Diff
compare deeply before after generated_at =
    let before_nodes = index_nodes [] before.nodes in
    let after_nodes = index_nodes [] after.nodes in
    let nodes = compare_entries (node_change deeply) before_nodes after_nodes in
    let before_edges = index_edges [] before.edges in
    let after_edges = index_edges [] after.edges in
    let edges = compare_entries edge_change before_edges after_edges in
    record {
      generated_at = generated_at;
      before_source = before.source;
      after_source = after.source;
      added_nodes = sort_slice (by_key (λ n. n.id)) nodes.added;
      removed_nodes = sort_slice (by_key (λ n. n.id)) (removed_entries after_nodes before_nodes);
      changed_nodes = sort_slice (by_key (λ c. c.id)) nodes.changed;
      added_edges = sort_slice (by_key (λ e. e.id)) edges.added;
      removed_edges = sort_slice (by_key (λ e. e.id)) (removed_entries after_edges before_edges);
      changed_edges = sort_slice (by_key (λ c. c.id)) edges.changed;
    }

unfoldable pub has_changes : Diff → Bool
has_changes d = ltb 0 (
    length d.added_nodes
    + length d.removed_nodes
    + length d.changed_nodes
    + length d.added_edges
    + length d.removed_edges
    + length d.changed_edges)
