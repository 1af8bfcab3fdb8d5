-- ===== src/Model/Resolve/Complete.antt =====
-- What the resolved claims hold for a value, and what was claimed for it.
use ai_evidence_bom.Prelude.{◌≡◌, refl, ◌∙◌, ap, List, [], ◌∷◌, Option, none, some, map}
use ai_evidence_bom.Text.{Text}
use ai_evidence_bom.Text.Order.{text_order}
use ai_evidence_bom.Maps.{lookup}
use ai_evidence_bom.Sorting.{find}
use ai_evidence_bom.Sorting.Keys.{find-sort_slice}
use ai_evidence_bom.Model.Evidence.{EvidenceSummary}
use ai_evidence_bom.Model.Graph.{FieldEvidence, FieldValueEvidence}
use ai_evidence_bom.Model.FieldKey.{FieldKey, field_key_order, claim_key}
use ai_evidence_bom.Model.Resolve.{
  ValueGroup, group_claims, claims_of, claim_of, read_group, resolve_claims, values_of_group,
  canonical_value,
}
use ai_evidence_bom.Model.Resolve.Gather.{
  claim_evidences, pile, lookup-group_claims, group_claims-IsDistinct,
}
use ai_evidence_bom.Model.Resolve.Canonical.{
  canonical_evidence, find-claims_of, first_claim, value_key, value_for, find-map-canonical_value,
}

abbrev pub evidence_of_value : Option FieldValueEvidence → Option EvidenceSummary
evidence_of_value none = none
evidence_of_value (some v) = some v.evidence

-- The evidence that a claim holds for a value.
abbrev pub evidence_in : Text → Option FieldEvidence → Option EvidenceSummary
evidence_in v none = none
evidence_in v (some c) = evidence_of_value (find value_key v c.values)

-- The evidence that is held for a value of a field and key.
unfoldable pub evidence_at : FieldKey → Text → List FieldEvidence → Option EvidenceSummary
evidence_at k v cs = evidence_in v (find claim_key k cs)

evidence_in-claim_of :
    (k : FieldKey) (v : Text) (vs : List FieldValueEvidence)
    → evidence_in v (first_claim (claim_of k vs)) ≡ evidence_of_value (find value_key v vs)
unfolding claim_of find
evidence_in-claim_of k v [] = refl
evidence_in-claim_of k v (w ∷ vs) = refl

evidence_of_value_for :
    (v : Text) (e : Option EvidenceSummary) → evidence_of_value (value_for v e) ≡ e
evidence_of_value_for v none = refl
evidence_of_value_for v (some e) = refl

find-values_of_group :
    (v : Text) (g : ValueGroup)
    → evidence_of_value (find value_key v (values_of_group g)) ≡ canonical_evidence (lookup v g)
unfolding values_of_group
find-values_of_group v g =
    ap evidence_of_value
      (find-sort_slice value_key v (map canonical_value g) ∙ find-map-canonical_value v g)
    ∙ evidence_of_value_for v (canonical_evidence (lookup v g))

-- The resolved claims hold, for every value of every field and key, the canonical form of all the
-- evidence that was claimed for it, and nothing for a value that was not claimed.
pub evidence_at-resolve_claims :
    (k : FieldKey) (v : Text) (cs : List FieldEvidence)
    → evidence_at k v (resolve_claims cs) ≡ canonical_evidence (pile none (claim_evidences k v cs))
unfolding evidence_at resolve_claims lookup
evidence_at-resolve_claims k v cs =
    ap (evidence_in v) (
      find-sort_slice claim_key k (claims_of (group_claims cs []))
      ∙ find-claims_of k (group_claims cs []) (group_claims-IsDistinct cs [] tt))
    ∙ evidence_in-claim_of k v (values_of_group (read_group (lookup k (group_claims cs []))))
    ∙ find-values_of_group v (read_group (lookup k (group_claims cs [])))
    ∙ ap canonical_evidence (lookup-group_claims k v cs [])
