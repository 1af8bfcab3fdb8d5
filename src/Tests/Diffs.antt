-- ===== src/Tests/Diffs.antt =====
-- Two snapshots that are compared.
use ai_evidence_bom.Prelude.{◌≡◌, refl, ◌↔◌, Bool, true, false, ◌&&◌, List, [], ◌∷◌, map}
use ai_evidence_bom.Text.{Text, codes, text_eq, text_less}
use ai_evidence_bom.Text.Order.{text_order}
use ai_evidence_bom.Time
use ai_evidence_bom.Maps.{lookup, put}
use ai_evidence_bom.Sorting.{insert, sort_slice}
use ai_evidence_bom.Model.Graph.{TextMap, FieldEvidence, Node, Graph}
use ai_evidence_bom.GraphDiff.{
  Deeply, add_change, index_nodes, index_edges, changed_fields, node_change, edge_change,
  compare_entry, compare_entries, removed_entry, removed_entries, compare, has_changes,
}
use ai_evidence_bom.GraphDiff.Unchanged.{SameNode, SameEdge, compare-has_changes_iff}
use ai_evidence_bom.Maps.Last.{last_with}
use ai_evidence_bom.Tests.Policies.{claimed_graph}

abbrev same_texts : List Text → List Text → Bool
same_texts [] [] = true
same_texts (s ∷ ss) (t ∷ ts) = text_eq s t && same_texts ss ts
same_texts _ _ = false

abbrev same_entries : TextMap → TextMap → Bool
same_entries a b =
    same_texts (map (λ e. e.0) a) (map (λ e. e.0) b)
    && same_texts (map (λ e. e.1) a) (map (λ e. e.1) b)

abbrev same_claims : List FieldEvidence → List FieldEvidence → Bool
same_claims a b = same_texts (map (λ c. c.selected_value) a) (map (λ c. c.selected_value) b)

abbrev by_value : Deeply
by_value = record { versions = same_texts; texts = same_entries; claims = same_claims }

abbrev renamed_graph : Graph
renamed_graph = record claimed_graph {
  nodes = map {A = Node} (λ n. record n { name = codes "renamed" }) claimed_graph.nodes;
}

renamed-has_changes : has_changes (compare by_value claimed_graph renamed_graph (Time.pos 9)) ≡ true
unfolding has_changes compare index_nodes index_edges compare_entries compare_entry add_change
    removed_entries removed_entry node_change edge_change changed_fields text_eq text_less lookup
    put insert sort_slice
renamed-has_changes = refl

same-has_changes : has_changes (compare by_value claimed_graph claimed_graph (Time.pos 9)) ≡ false
unfolding has_changes compare index_nodes index_edges compare_entries compare_entry add_change
    removed_entries removed_entry node_change edge_change changed_fields text_eq text_less lookup
    put insert sort_slice
same-has_changes = refl

compare-has_changes_iff_example :
    (has_changes (compare by_value claimed_graph renamed_graph (Time.pos 9)) ≡ false) ↔ (
      ((id : Text)
        → SameNode by_value
            (last_with (λ n. n.id) id claimed_graph.nodes)
            (last_with (λ n. n.id) id renamed_graph.nodes))
      × ((id : Text)
          → SameEdge
              (last_with (λ e. e.id) id claimed_graph.edges)
              (last_with (λ e. e.id) id renamed_graph.edges)))
compare-has_changes_iff_example =
    compare-has_changes_iff by_value claimed_graph renamed_graph (Time.pos 9)
