-- ===== src/Tests/Graphs.antt =====
-- Claims and merged graphs at concrete values.
use mathlib.Core.List.{Permᴰ}
use ai_evidence_bom.Prelude.{◌≡◌, refl, List, [], ◌∷◌, none, All, map}
use ai_evidence_bom.Text.{codes, text_eq}
use ai_evidence_bom.Text.Order.{text_order}
use ai_evidence_bom.Time.{pos}
use ai_evidence_bom.Sorting.{find}
use ai_evidence_bom.Sorting.Keys.{IsAscending, IsDistinct}
use ai_evidence_bom.Model.Graph.{FieldEvidence, field_version}
use ai_evidence_bom.Model.FieldKey.{field_key_order, claim_key}
use ai_evidence_bom.Model.Resolve.{resolve_claims, resolve_field_evidence}
use ai_evidence_bom.Model.Resolve.Gather.{claim_evidences, pile}
use ai_evidence_bom.Model.Resolve.Canonical.{canonical_evidence}
use ai_evidence_bom.Model.Resolve.Independence.{
  SameEvidence, perm-SameEvidence, resolve_claims_independent,
}
use ai_evidence_bom.Model.Resolve.Complete.{evidence_at, evidence_at-resolve_claims}
use ai_evidence_bom.Model.Resolve.Shape.{IsResolved, resolve_claims_lem}
use ai_evidence_bom.Model.Resolve.Apply.{Mirrors, resolve_field_evidence-Mirrors}
use ai_evidence_bom.Model.Invariant.{GraphHolds}
use ai_evidence_bom.Model.Canonicalize.{canonicalize_node}
use ai_evidence_bom.Aggregate.{merge, merge_node, prepare_node, node_id, limit_node}
use ai_evidence_bom.Aggregate.Identity.{joined}
use ai_evidence_bom.Aggregate.Limits.{IsLimited, merge-IsLimited}
use ai_evidence_bom.Aggregate.Merged.{mapped, merge-nodes}
use ai_evidence_bom.Tests.{
  seen, guessed, version_claim, version_claims, model_node, small_graph, other_graph,
}

-- The same claims in another order.
abbrev swapped_claims : List FieldEvidence
swapped_claims =
    version_claim (codes "2.0") seen
    ∷ version_claim (codes "1.0") guessed
    ∷ version_claim (codes "1.0") guessed
    ∷ []

version_claims-SameEvidence : SameEvidence version_claims swapped_claims
version_claims-SameEvidence = perm-SameEvidence (Permᴰ.swap refl refl)

resolve_claims_independent_example : resolve_claims version_claims ≡ resolve_claims swapped_claims
resolve_claims_independent_example =
    resolve_claims_independent version_claims swapped_claims version_claims-SameEvidence

evidence_at-resolve_claims_example :
    evidence_at (field_version, []) (codes "1.0") (resolve_claims version_claims)
    ≡ canonical_evidence
        (pile none (claim_evidences (field_version, []) (codes "1.0") version_claims))
evidence_at-resolve_claims_example =
    evidence_at-resolve_claims (field_version, []) (codes "1.0") version_claims

resolve_claims_lem_example :
    All IsResolved (resolve_claims version_claims)
    × IsAscending claim_key (resolve_claims version_claims)
resolve_claims_lem_example = resolve_claims_lem version_claims

resolve_field_evidence-Mirrors_example :
    ((resolve_field_evidence model_node).field_evidence ≡ resolve_claims version_claims)
    × Mirrors model_node (resolve_field_evidence model_node)
resolve_field_evidence-Mirrors_example = resolve_field_evidence-Mirrors model_node refl

merge-IsLimited_example : GraphHolds IsLimited (merge small_graph other_graph (pos 11))
merge-IsLimited_example = merge-IsLimited small_graph other_graph (pos 11)

small_graph-nodes-IsDistinct : IsDistinct node_id small_graph.nodes
unfolding find text_eq
small_graph-nodes-IsDistinct = (refl, (refl, tt))

merge-nodes_example :
    (find node_id (codes "m") (merge small_graph other_graph (pos 11)).nodes
      ≡ mapped limit_node (
          mapped canonicalize_node (
            joined node_id merge_node
              (codes "m")
              (mapped prepare_node (find node_id (codes "m") small_graph.nodes))
              (map prepare_node other_graph.nodes))))
    × IsAscending node_id (merge small_graph other_graph (pos 11)).nodes
merge-nodes_example =
    merge-nodes small_graph other_graph (pos 11) (codes "m") small_graph-nodes-IsDistinct
