-- ===== src/Model/Resolve.antt =====
-- internal/model/model.go: `ResolveFieldEvidence` groups the claims of a node by field and key,
-- merges the evidence of equal values, and selects one value for each.
pub mod Gather
pub mod Canonical
pub mod Select
pub mod Shape
pub mod Complete
pub mod Apply
pub mod Pile
pub mod Independence
use ai_evidence_bom.Prelude.{
  ℕ, Bool, true, false, not, ◌&&◌, ◌||◌, List, [], ◌∷◌, ◌++◌, if◌then◌else◌, is_empty, map, Option,
  none, some, ltb, ◌==◌, length, ◌≡◌, LinearOrder,
}
use ai_evidence_bom.Text.{Text, codes, text_eq, text_less, trim_space}
use ai_evidence_bom.Text.Order.{text_order}
use ai_evidence_bom.Time.{equal, before}
use ai_evidence_bom.Maps.{lookup, put}
use ai_evidence_bom.Sorting.{sort_slice}
use ai_evidence_bom.Model.Level.{rank}
use ai_evidence_bom.Model.Texts.{unique_sorted}
use ai_evidence_bom.Model.Evidence.{
  EvidenceSummary, no_evidence, merge_evidence_summary, canonicalize_evidence,
}
use ai_evidence_bom.Model.Graph.{
  FieldValueEvidence, FieldEvidence, Node, Edge, Graph, TextMap, field_version, field_digest,
  field_property,
}
use ai_evidence_bom.Model.FieldKey.{FieldKey, field_key_order, less_claim}

-- `map[string]EvidenceSummary`, and the map of those by field and key.
abbrev pub ValueGroup : Type 0
ValueGroup = List (Text × EvidenceSummary)

abbrev pub Groups : Type 0
Groups = List (FieldKey × ValueGroup)

-- What `m[k]` reads: the zero value for a missing key.
abbrev pub read_evidence : Option EvidenceSummary → EvidenceSummary
read_evidence none = no_evidence
read_evidence (some evidence) = evidence

abbrev pub read_group : Option ValueGroup → ValueGroup
read_group none = []
read_group (some group) = group

-- The loop over the values of one claim.
unfoldable pub group_values : List FieldValueEvidence → ValueGroup → ValueGroup
group_values [] group = group
group_values (candidate ∷ candidates) group =
    let value = trim_space candidate.value in
    let summary = read_evidence (lookup value group) in
    group_values candidates (
      if is_empty value
      then group
      else put value (merge_evidence_summary summary candidate.evidence) group)

-- The loop over the claims.
unfoldable pub group_claims : List FieldEvidence → Groups → Groups
unfolding group_values
group_claims [] groups = groups
group_claims (claim ∷ claims) groups =
    let k : FieldKey = (trim_space claim.field, trim_space claim.key) in
    let group = read_group (lookup k groups) in
    group_claims claims (
      if is_empty (trim_space claim.field)
      then groups
      else put k (group_values claim.values group) groups)

-- Whether the first value wins over the second: by level, then by recency, then by spelling.
unfoldable pub field_value_preferred : FieldValueEvidence → FieldValueEvidence → Bool
field_value_preferred candidate selected =
    if not (rank candidate.evidence.level == rank selected.evidence.level)
    then ltb (rank selected.evidence.level) (rank candidate.evidence.level)
    else if not (equal candidate.evidence.last_seen selected.evidence.last_seen)
    then before selected.evidence.last_seen candidate.evidence.last_seen
    else text_less candidate.value selected.value

unfoldable pub select_value : FieldValueEvidence → List FieldValueEvidence → FieldValueEvidence
select_value selected [] = selected
select_value selected (candidate ∷ candidates) =
    select_value (if field_value_preferred candidate selected then candidate else selected)
      candidates

-- The values of a group, each with its canonical evidence, by their spelling.
abbrev pub less_value : FieldValueEvidence → FieldValueEvidence → Bool
less_value a b = text_less a.value b.value

abbrev pub canonical_value : Text × EvidenceSummary → FieldValueEvidence
canonical_value entry = record { value = entry.0; evidence = canonicalize_evidence entry.1 }

unfoldable pub values_of_group : ValueGroup → List FieldValueEvidence
values_of_group group = sort_slice less_value (map canonical_value group)

-- One round of the loop over the groups: a group with no value makes no claim.
unfoldable pub claim_of : FieldKey → List FieldValueEvidence → List FieldEvidence
unfolding select_value
claim_of k [] = []
claim_of k (v ∷ vs) =
    record {
      field = k.0;
      key = k.1;
      selected_value = (select_value v vs).value;
      conflict = ltb 1 (length (v ∷ vs));
      values = v ∷ vs;
    }
    ∷ []

unfoldable pub claims_of : Groups → List FieldEvidence
unfolding claim_of values_of_group
claims_of [] = []
claims_of ((k, group) ∷ groups) = claim_of k (values_of_group group) ++ claims_of groups

-- The claims of a node after grouping and sorting.
unfoldable pub resolve_claims : List FieldEvidence → List FieldEvidence
unfolding claims_of group_claims
resolve_claims claims = sort_slice less_claim (claims_of (group_claims claims []))

unfoldable pub values_of : List FieldValueEvidence → List Text
values_of [] = []
values_of (v ∷ vs) = v.value ∷ values_of vs

-- The `switch` of the last loop.
unfoldable pub apply_claim : FieldEvidence → Node → Node
unfolding values_of
apply_claim claim n =
    if text_eq claim.field field_version
    then if is_empty claim.key
      then record n {
        version = claim.selected_value;
        observed_versions = n.observed_versions ++ values_of claim.values;
      }
      else n
    else if text_eq claim.field field_digest
    then record n { digests = put claim.key claim.selected_value n.digests }
    else if text_eq claim.field field_property
    then record n { properties = put claim.key claim.selected_value n.properties }
    else n

unfoldable pub apply_claims : List FieldEvidence → Node → Node
unfolding apply_claim
apply_claims [] n = n
apply_claims (claim ∷ claims) n = apply_claims claims (apply_claim claim n)

unfoldable pub resolve_field_evidence : Node → Node
unfolding apply_claims resolve_claims
resolve_field_evidence n =
    let claims = resolve_claims n.field_evidence in
    let applied = apply_claims claims (record n { field_evidence = claims }) in
    if is_empty n.field_evidence
    then n
    else record applied { observed_versions = unique_sorted applied.observed_versions }
