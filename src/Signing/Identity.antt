-- ===== src/Signing/Identity.antt =====
-- internal/signing/signing.go: `validateGraphIdentity` and `validateFieldEvidence`.
use ai_evidence_bom.Prelude.{
  Bool, true, false, not, ◌&&◌, ◌||◌, List, [], ◌∷◌, ◌++◌, Option, none, some, if◌then◌else◌,
  is_empty, length, all, ◌==◌,
}
use ai_evidence_bom.Text.{Text, codes, text_eq, trim_space}
use ai_evidence_bom.Text.Order.{text_order}
use ai_evidence_bom.Maps.{lookup, put, elem, add}
use ai_evidence_bom.Platform.{read_text}
use ai_evidence_bom.Model.Level.{EvidenceLevel, valid}
use ai_evidence_bom.Model.Texts.{collect}
use ai_evidence_bom.Model.Graph.{
  Graph, Node, Edge, FieldEvidence, FieldValueEvidence, field_version, field_digest, field_property,
}
use ai_evidence_bom.Model.FieldKey.{FieldKey, claim_key, field_key_order}
use ai_evidence_bom.Model.Resolve.{resolve_field_evidence, values_of}

-- The errors on the claims of a node. The first argument of most is the name of the claim.
pub data ClaimProblem : Type 0 where
  surrounding_whitespace : ClaimProblem
  version_with_key : ClaimProblem
  no_key : Text → ClaimProblem
  unsupported_field : Text → ClaimProblem
  duplicate_claim : Text → ClaimProblem
  no_values : Text → ClaimProblem
  untrimmed_value : Text → ClaimProblem
  duplicate_value : Text → Text → ClaimProblem
  invalid_level : Text → Text → EvidenceLevel → ClaimProblem
  cannot_copy : ClaimProblem
  inconsistent_selection : Text → ClaimProblem
  inconsistent_version : Text → ClaimProblem
  inconsistent_digests : Text → ClaimProblem
  inconsistent_properties : Text → ClaimProblem

pub data Problem : Type 0 where
  empty_node_id : Problem
  duplicate_node_id : Text → Problem
  invalid_claims : Text → ClaimProblem → Problem
  empty_edge_id : Problem
  duplicate_edge_id : Text → Problem

unfoldable pub field_evidence_name : (field key : Text) → Text
field_evidence_name field key = if is_empty key then field else field ++ codes ":" ++ key

-- `left` and `right` trimmed, as sets: as many, and each of the first in the second.
unfoldable pub same_string_set : (left right : List Text) → Bool
same_string_set left right =
    let left_set = collect left [] in
    let right_set = collect right [] in
    length left_set == length right_set && all (λ value. elem value right_set) left_set

-- The loop over the values of a claim.
unfoldable pub validate_values :
    (name : Text) (seen : List Text) → List FieldValueEvidence → Option ClaimProblem
validate_values name seen [] = none
validate_values name seen (v ∷ vs) =
    let rest = validate_values name (add v.value seen) vs in
    if is_empty v.value || not (text_eq v.value (trim_space v.value))
    then some (untrimmed_value name)
    else if elem v.value seen
    then some (duplicate_value name v.value)
    else if not (valid v.evidence.level)
    then some (invalid_level name v.value v.evidence.level)
    else rest

-- The `switch` on the field of a claim.
unfoldable pub validate_field : FieldEvidence → Option ClaimProblem
validate_field claim =
    if text_eq claim.field field_version
    then if not (is_empty claim.key) then some version_with_key else none
    else if text_eq claim.field field_digest || text_eq claim.field field_property
    then if is_empty claim.key then some (no_key claim.field) else none
    else some (unsupported_field claim.field)

-- The first check that fails.
abbrev pub or_problem {ℓ} : {A : Type ℓ} → Option A → Option A → Option A
or_problem none next = next
or_problem (some problem) next = some problem

-- The body of the first loop over the claims, but for the set of seen fields.
unfoldable pub validate_claim : (seen : List FieldKey) → FieldEvidence → Option ClaimProblem
unfolding validate_values validate_field field_evidence_name
validate_claim seen claim =
    let name = field_evidence_name claim.field claim.key in
    if not (text_eq claim.field (trim_space claim.field))
      || not (text_eq claim.key (trim_space claim.key))
    then some surrounding_whitespace
    else or_problem (validate_field claim) (
        if elem (claim_key claim) seen
        then some (duplicate_claim name)
        else if is_empty claim.values
        then some (no_values name)
        else validate_values name [] claim.values)

unfoldable pub validate_claims : (seen : List FieldKey) → List FieldEvidence → Option ClaimProblem
validate_claims seen [] = none
validate_claims seen (claim ∷ claims) =
    or_problem (validate_claim seen claim) (validate_claims (add (claim_key claim) seen) claims)

-- `resolvedClaims`.
unfoldable pub index_claims :
    List FieldEvidence → List (FieldKey × FieldEvidence) → List (FieldKey × FieldEvidence)
index_claims [] index = index
index_claims (claim ∷ claims) index = index_claims claims (put (claim_key claim) claim index)

-- The zero value for a missing key.
abbrev pub read_claim : Option FieldEvidence → FieldEvidence
read_claim none = record {
  field = [];
  key = [];
  selected_value = [];
  conflict = false;
  values = [];
}
read_claim (some claim) = claim

abbrev pub bool_eq : Bool → Bool → Bool
bool_eq true b = b
bool_eq false b = not b

-- The body of the second loop: what is stored agrees with what the claims resolve to.
unfoldable pub check_claim : Node → (expected : FieldEvidence) → FieldEvidence → Option ClaimProblem
unfolding same_string_set
check_claim node expected claim =
    let name = field_evidence_name claim.field claim.key in
    if not (text_eq claim.selected_value expected.selected_value)
      || not (bool_eq claim.conflict expected.conflict)
    then some (inconsistent_selection name)
    else if text_eq claim.field field_version
    then if not (text_eq node.version expected.selected_value)
        || not (same_string_set node.observed_versions (values_of expected.values))
      then some (inconsistent_version name)
      else none
    else if text_eq claim.field field_digest
    then if not (text_eq (read_text (lookup claim.key node.digests)) expected.selected_value)
      then some (inconsistent_digests name)
      else none
    else if text_eq claim.field field_property
    then if not (text_eq (read_text (lookup claim.key node.properties)) expected.selected_value)
      then some (inconsistent_properties name)
      else none
    else none

unfoldable pub check_claims :
    Node → List (FieldKey × FieldEvidence) → List FieldEvidence → Option ClaimProblem
check_claims node index [] = none
check_claims node index (claim ∷ claims) =
    or_problem (check_claim node (read_claim (lookup (claim_key claim) index)) claim)
      (check_claims node index claims)

unfoldable pub validate_edges : (seen : List Text) → List Edge → Option Problem
validate_edges seen [] = none
validate_edges seen (edge ∷ edges) =
    let rest = validate_edges (add edge.id seen) edges in
    if is_empty edge.id
    then some empty_edge_id
    else if elem edge.id seen
    then some (duplicate_edge_id edge.id)
    else rest

module _ (copy_node : Node → Option Node) where
  -- `validateFieldEvidence`. `copy_node` encodes a node as JSON and decodes it.
  unfoldable pub validate_field_evidence : Node → Option ClaimProblem
  validate_field_evidence node =
      if is_empty node.field_evidence
      then none
      else or_problem (validate_claims [] node.field_evidence) (elim (copy_node node) [
        | none ↦ some cannot_copy
        | some copy ↦
            check_claims node (index_claims (resolve_field_evidence copy).field_evidence [])
              node.field_evidence
      ])

  unfoldable pub validate_nodes : (seen : List Text) → List Node → Option Problem
  validate_nodes seen [] = none
  validate_nodes seen (node ∷ nodes) =
      let rest = validate_nodes (add node.id seen) nodes in
      if is_empty node.id
      then some empty_node_id
      else if elem node.id seen
      then some (duplicate_node_id node.id)
      else elim (validate_field_evidence node) [
        | some problem ↦ some (invalid_claims node.id problem)
        | none ↦ rest
      ]

  unfoldable pub validate_graph_identity : Graph → Option Problem
  unfolding validate_nodes validate_edges
  validate_graph_identity graph =
      or_problem (validate_nodes [] graph.nodes) (validate_edges [] graph.edges)
