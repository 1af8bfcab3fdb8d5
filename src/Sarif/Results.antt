-- ===== src/Sarif/Results.antt =====
-- internal/sarif/sarif.go: one result of a scanner.
use ai_evidence_bom.Prelude.{
  ℕ, ◌+◌, Bool, true, false, not, ◌&&◌, ◌||◌, List, [], ◌∷◌, Option, none, some, if◌then◌else◌,
  is_empty, get_elem?, ◌==◌, failed, done, ◌>>=◌, ◌>>◌,
}
use ai_evidence_bom.Text.{Text, codes, text_eq}
use ai_evidence_bom.Integer.{ℤ, pos, negsuc}
use ai_evidence_bom.Sarif
use ai_evidence_bom.Sarif.{
  ArtifactLocation, Location, Artifact, Suppression, RuleReference, ScanResult, Rule, Outcome,
  Error, refuse_when, bounded_value, max_artifact_uri_length, result_artifact_uri,
}

-- `*a == *b`.
abbrev pub int_eq : ℤ → ℤ → Bool
int_eq (pos m) (pos n) = m == n
int_eq (negsuc m) (negsuc n) = m == n
int_eq _ _ = false

-- The element at an index: `none` where the index is negative or too large.
abbrev pub at_index {ℓ} : {A : Type ℓ} → List A → ℤ → Option A
at_index xs (pos n) = get_elem? xs n
at_index xs (negsuc n) = none

-- `result.Rule.ID`, which is empty where there is no rule.
abbrev pub rule_reference_id : Option RuleReference → Text
rule_reference_id none = []
rule_reference_id (some rule) = rule.id

abbrev pub rule_reference_index : Option RuleReference → Option ℤ
rule_reference_index none = none
rule_reference_index (some rule) = rule.index

-- The text that either of two names says, where they do not disagree.
abbrev pub agreed_text : Text → Text → Error → Outcome Text
agreed_text first second error =
    if is_empty second
    then done first
    else if not (is_empty first) && not (text_eq first second)
    then failed error
    else done second

unfoldable pub agreed_index : Option ℤ → Option ℤ → Outcome (Option ℤ)
agreed_index first none = done first
agreed_index none (some second) = done (some second)
agreed_index (some first) (some second) =
    if int_eq first second then done (some second) else failed Sarif.rule_indices_disagree

-- The rule that an index names, if there is one, against the name.
unfoldable pub indexed_rule : List Rule → Text → Option ℤ → Outcome Text
indexed_rule rules rule_id none = done rule_id
indexed_rule rules rule_id (some index) = elim (at_index rules index) [
  | none ↦ failed Sarif.rule_index_out_of_range
  | some rule ↦
      if not (is_empty rule_id) && not (text_eq rule_id rule.id)
      then failed Sarif.rule_and_index_disagree
      else done rule.id
]

unfoldable pub resolve_rule_id : ScanResult → List Rule → Outcome Text
unfolding agreed_index indexed_rule
resolve_rule_id result rules = do
  name ← agreed_text result.rule_id (rule_reference_id result.rule) Sarif.rule_ids_disagree
  index ← agreed_index result.rule_index (rule_reference_index result.rule)
  rule_id ← indexed_rule rules name index
  refuse_when (is_empty rule_id) Sarif.no_rule_id
  done rule_id

-- The URI of the artifact that an index names, if there is one, against the URI.
unfoldable pub indexed_uri : List Artifact → Text → Option ℤ → Outcome Text
indexed_uri artifacts uri none = done uri
indexed_uri artifacts uri (some index) = elim (at_index artifacts index) [
  | none ↦ failed Sarif.artifact_index_out_of_range
  | some artifact ↦
      if not (is_empty artifact.location.uri_base_id)
      then failed Sarif.unsupported_indexed_base_id
      else if not (is_empty uri)
          && not (is_empty artifact.location.uri)
          && not (text_eq uri artifact.location.uri)
      then failed Sarif.uri_and_index_disagree
      else if is_empty uri
      then done artifact.location.uri
      else done uri
]

-- A URI that is there is bounded. (An empty one passes the same checks.)
unfoldable pub resolve_artifact_uri : ArtifactLocation → List Artifact → Outcome Text
unfolding indexed_uri
resolve_artifact_uri location artifacts = do
  refuse_when (not (is_empty location.uri_base_id)) Sarif.unsupported_base_id
  uri ← indexed_uri artifacts location.uri location.index
  bounded_value result_artifact_uri uri max_artifact_uri_length false
  done uri

-- The locations of a result: its target, and its physical ones.
unfoldable pub physical_locations : List Location → List ArtifactLocation
physical_locations [] = []
physical_locations (location ∷ locations) = elim location.physical_location [
  | none ↦ physical_locations locations
  | some physical ↦ physical ∷ physical_locations locations
]

unfoldable pub locations_of : ScanResult → List ArtifactLocation
unfolding physical_locations
locations_of result = elim result.analysis_target [
  | none ↦ physical_locations result.locations
  | some target ↦ target ∷ physical_locations result.locations
]

-- The loop over the locations, with its variable.
unfoldable pub match_locations :
    List ArtifactLocation → List Artifact → (artifact_uri : Text) → (matched : Bool) → Outcome Bool
match_locations [] artifacts artifact_uri matched = done matched
match_locations (location ∷ locations) artifacts artifact_uri matched =
    resolve_artifact_uri location artifacts >>= λ uri.
    elim (is_empty uri || not (text_eq uri artifact_uri)) [
      | true ↦ done false
      | false ↦ match_locations locations artifacts artifact_uri true
    ]

unfoldable pub result_matches_artifact :
    ScanResult → List Artifact → (artifact_uri : Text) → Outcome Bool
unfolding match_locations
result_matches_artifact result artifacts artifact_uri =
    match_locations (locations_of result) artifacts artifact_uri false

-- The loop of `activeSuppression`, with its variables.
unfoldable pub active_from : ℕ → List Suppression → (active : Bool) → Outcome Bool
active_from index [] active = done active
active_from index (item ∷ items) active =
    if not (text_eq item.kind (codes "inSource")) && not (text_eq item.kind (codes "external"))
    then failed (Sarif.invalid_suppression_kind index item.kind)
    else elim (is_empty item.status || text_eq item.status (codes "accepted")) [
      | true ↦ active_from (index + 1) items true
      | false ↦
          elim (text_eq item.status (codes "underReview")
            || text_eq item.status (codes "rejected")) [
              | true ↦ active_from (index + 1) items active
              | false ↦ failed (Sarif.invalid_suppression_status index item.status)
            ]
    ]

unfoldable pub active_suppression : List Suppression → Outcome Bool
unfolding active_from
active_suppression suppressions = active_from 0 suppressions false
