-- ===== src/Model/Claims.antt =====
-- internal/model/model.go: adding claims to a node's fields, and upgrading a node that has none.
use ai_evidence_bom.Prelude.{Bool, false, ◌&&◌, ◌||◌, List, [], ◌∷◌, if◌then◌else◌, any, is_empty}
use ai_evidence_bom.Text.{Text, text_eq, trim_space}
use ai_evidence_bom.Time.{zero_time}
use ai_evidence_bom.Model.Level.{evidence_inferred}
use ai_evidence_bom.Model.Evidence.{EvidenceSummary, merge_evidence_summary}
use ai_evidence_bom.Model.Graph.{
  FieldValueEvidence, FieldEvidence, Node, TextMap, field_version, field_digest, field_property,
}

-- The inner loop of `AddFieldEvidence`: the value's evidence grows, or the value is new.
unfoldable pub add_value :
    Text → EvidenceSummary → List FieldValueEvidence → List FieldValueEvidence
add_value value evidence [] = record { value = value; evidence = evidence } ∷ []
add_value value evidence (v ∷ vs) =
    if text_eq v.value value
    then record v { evidence = merge_evidence_summary v.evidence evidence } ∷ vs
    else v ∷ add_value value evidence vs

-- Whether the claim is about the field and the key.
abbrev pub is_about : Text → Text → FieldEvidence → Bool
is_about field key claim = text_eq claim.field field && text_eq claim.key key

-- Its outer loop: the first claim about the field and the key takes the value.
unfoldable pub add_claim :
    Text → Text → Text → EvidenceSummary → List FieldEvidence → List FieldEvidence
unfolding add_value
add_claim field key value evidence [] =
    record {
      field = field;
      key = key;
      selected_value = [];
      conflict = false;
      values = record { value = value; evidence = evidence } ∷ [];
    }
    ∷ []
add_claim field key value evidence (claim ∷ claims) =
    if is_about field key claim
    then record claim { values = add_value value evidence claim.values } ∷ claims
    else claim ∷ add_claim field key value evidence claims

unfoldable pub add_field_evidence : Node → Text → Text → Text → EvidenceSummary → Node
unfolding add_claim
add_field_evidence n field key value evidence =
    let f = trim_space field in
    let k = trim_space key in
    let v = trim_space value in
    if is_empty f || is_empty v
    then n
    else record n { field_evidence = add_claim f k v evidence n.field_evidence }

abbrev pub has_value : Text → List FieldValueEvidence → Bool
has_value value = any (λ candidate. text_eq candidate.value value)

unfoldable pub has_field_value : Node → Text → Text → Text → Bool
has_field_value n field key value =
    any (λ claim. is_about field key claim && has_value value claim.values) n.field_evidence

unfoldable pub legacy_field_evidence : Node → EvidenceSummary
legacy_field_evidence n = record (n.evidence) { level = evidence_inferred; observation_count = 1 }

-- One `if !n.hasFieldValue(…) { n.AddFieldEvidence(…) }`.
unfoldable pub ensure_value : Text → Text → Text → EvidenceSummary → Node → Node
unfolding has_field_value add_field_evidence
ensure_value field key value evidence n =
    if has_field_value n field key value then n else add_field_evidence n field key value evidence

-- The loop over `ObservedVersions`.
unfoldable pub ensure_versions : List Text → EvidenceSummary → Node → Node
unfolding ensure_value
ensure_versions [] evidence n = n
ensure_versions (version ∷ versions) evidence n =
    ensure_versions versions evidence
      (if is_empty version then n else ensure_value field_version [] version evidence n)

-- The loops over `Digests` and over `Properties`.
unfoldable pub ensure_entries : Text → TextMap → EvidenceSummary → Node → Node
unfolding ensure_value
ensure_entries field [] evidence n = n
ensure_entries field ((key, value) ∷ entries) evidence n =
    ensure_entries field entries evidence (ensure_value field key value evidence n)

unfoldable pub ensure_field_evidence : Node → Node
unfolding legacy_field_evidence ensure_versions ensure_entries ensure_value
ensure_field_evidence n =
    let legacy = legacy_field_evidence n in
    let versioned =
      if is_empty n.version then n else ensure_value field_version [] n.version legacy n in
    let historic = record legacy { first_seen = zero_time; last_seen = zero_time } in
    let observed = ensure_versions n.observed_versions historic versioned in
    let digested = ensure_entries field_digest n.digests legacy observed in
    ensure_entries field_property n.properties legacy digested
