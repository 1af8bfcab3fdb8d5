-- ===== src/Aggregate/NodeIds.antt =====
-- Steps on a node, and the node's ID.
use ai_evidence_bom.Prelude.{◌≡◌, refl, ◌∙◌, List, [], ◌∷◌, arith, is_empty, if◌then◌else◌}
use ai_evidence_bom.Text.{Text}
use ai_evidence_bom.Model.Evidence.{EvidenceSummary}
use ai_evidence_bom.Model.Graph.{Node, FieldEvidence, FieldValueEvidence, TextMap, field_version}
use ai_evidence_bom.Model.Claims.{
  add_field_evidence, ensure_value, ensure_versions, ensure_entries, ensure_field_evidence,
}
use ai_evidence_bom.Model.Resolve.{
  apply_claim, apply_claims, resolve_claims, resolve_field_evidence,
}
use ai_evidence_bom.Model.Canonicalize.{canonicalize_node}
use ai_evidence_bom.Aggregate.{add_values, add_claims, merge_node, prepare_node, limit_node}

id-add_field_evidence :
    (n : Node) (field key value : Text) (e : EvidenceSummary)
    → (add_field_evidence n field key value e).id ≡ n.id
unfolding add_field_evidence
id-add_field_evidence n field key value e = ground arith

id-ensure_value :
    (field key value : Text) (e : EvidenceSummary) (n : Node)
    → (ensure_value field key value e n).id ≡ n.id
unfolding ensure_value
id-ensure_value field key value e n = ground (arith, id-add_field_evidence n field key value e)

id-ensure_versions :
    (vs : List Text) (e : EvidenceSummary) (n : Node) → (ensure_versions vs e n).id ≡ n.id
unfolding ensure_versions
id-ensure_versions [] e n = refl
id-ensure_versions (v ∷ vs) e n = ground (
  arith,
  id-ensure_versions vs e n,
  id-ensure_versions vs e (ensure_value field_version [] v e n),
  id-ensure_value field_version [] v e n,
)

id-ensure_entries :
    (field : Text) (entries : TextMap) (e : EvidenceSummary) (n : Node)
    → (ensure_entries field entries e n).id ≡ n.id
unfolding ensure_entries
id-ensure_entries field [] e n = refl
id-ensure_entries field ((k, v) ∷ entries) e n =
    id-ensure_entries field entries e _ ∙ id-ensure_value field k v e n

id-ensure_version :
    (field : Text) (e : EvidenceSummary) (n : Node)
    → (if is_empty n.version then n else ensure_value field [] n.version e n).id ≡ n.id
id-ensure_version field e n = ground (arith, id-ensure_value field [] n.version e n)

id-ensure_field_evidence : (n : Node) → (ensure_field_evidence n).id ≡ n.id
unfolding ensure_field_evidence
id-ensure_field_evidence n =
    id-ensure_entries _ n.properties _ _
    ∙ id-ensure_entries _ n.digests _ _
    ∙ id-ensure_versions n.observed_versions _ _
    ∙ id-ensure_version _ _ n

id-apply_claim : (c : FieldEvidence) (n : Node) → (apply_claim c n).id ≡ n.id
unfolding apply_claim
id-apply_claim c n = ground arith

id-apply_claims : (cs : List FieldEvidence) (n : Node) → (apply_claims cs n).id ≡ n.id
unfolding apply_claims
id-apply_claims [] n = refl
id-apply_claims (c ∷ cs) n = id-apply_claims cs (apply_claim c n) ∙ id-apply_claim c n

id-resolve_field_evidence : (n : Node) → (resolve_field_evidence n).id ≡ n.id
unfolding resolve_field_evidence
id-resolve_field_evidence n =
    let resolved = record n { field_evidence = resolve_claims n.field_evidence } in
    ground (arith, id-apply_claims (resolve_claims n.field_evidence) resolved)

pub id-prepare_node : (n : Node) → (prepare_node n).id ≡ n.id
unfolding prepare_node
id-prepare_node n = id-resolve_field_evidence _ ∙ id-ensure_field_evidence n

id-add_values :
    (field key : Text) (vs : List FieldValueEvidence) (n : Node)
    → (add_values field key vs n).id ≡ n.id
unfolding add_values
id-add_values field key [] n = refl
id-add_values field key (v ∷ vs) n =
    id-add_values field key vs _ ∙ id-add_field_evidence n field key v.value v.evidence

id-add_claims : (cs : List FieldEvidence) (n : Node) → (add_claims cs n).id ≡ n.id
unfolding add_claims
id-add_claims [] n = refl
id-add_claims (c ∷ cs) n = id-add_claims cs _ ∙ id-add_values c.field c.key c.values n

pub id-merge_node : (n m : Node) → (merge_node n m).id ≡ n.id
unfolding merge_node
id-merge_node n m = id-resolve_field_evidence _ ∙ id-add_claims m.field_evidence n

pub id-canonicalize_node : (n : Node) → (canonicalize_node n).id ≡ n.id
unfolding canonicalize_node
id-canonicalize_node n = id-resolve_field_evidence _

pub id-limit_node : (n : Node) → (limit_node n).id ≡ n.id
unfolding limit_node
id-limit_node n = refl
