-- ===== src/Sarif/Target.antt =====
-- internal/sarif/sarif.go: the component that findings are bound to.
use ai_evidence_bom.Prelude.{
  ℕ, ◌+◌, Bool, true, false, not, ◌&&◌, ◌||◌, List, [], ◌∷◌, ◌++◌, Option, none, some,
  if◌then◌else◌, is_empty, length, ltb, failed, done, ◌>>◌,
}
use ai_evidence_bom.Text.{Text, codes, text_eq}
use ai_evidence_bom.Text.Order.{text_order}
use ai_evidence_bom.Maps.{lookup}
use ai_evidence_bom.Platform.{read_text, has_prefix}
use ai_evidence_bom.SourceAuth.{is_digest}
use ai_evidence_bom.Model.Graph.{
  Graph, Node, FieldEvidence, FieldValueEvidence, field_digest, field_property,
}
use ai_evidence_bom.Sarif
use ai_evidence_bom.Sarif.{Outcome, Name, Error, bounded_value, max_artifact_uri_length}

abbrev pub property_artifact_uri : Text
property_artifact_uri = codes "aiebom.artifact.uri"

-- `url.URL`, as far as the code reads it.
pub record Url : Type 0 where
  pub is_absolute : Bool
  pub host : Text
  pub raw_query : Text
  pub fragment : Text
  pub path : Text
  pub escaped_path : Text

-- The libraries: `url.Parse`, the escaped path of a URL with the given path, and `filepath.Clean` on a
-- path with slashes.
pub record Urls : Type 0 where
  pub parse_url : Text → Option Url
  pub escape_path : Text → Text
  pub clean_path : Text → Text

unfoldable pub validate_relative_artifact_uri : Urls → Name → Text → Outcome (Unit {0})
validate_relative_artifact_uri urls name value =
    bounded_value name value max_artifact_uri_length true >> (elim (urls.parse_url value) [
      | none ↦ failed (Sarif.not_relative name)
      | some parsed ↦
          let clean = urls.clean_path parsed.path in
          if parsed.is_absolute
            || not (is_empty parsed.host)
            || not (is_empty parsed.raw_query)
            || not (is_empty parsed.fragment)
          then failed (Sarif.not_relative name)
          else if not (text_eq parsed.escaped_path value)
          then failed (Sarif.not_canonical name)
          else if text_eq clean (codes ".")
              || text_eq clean (codes "..")
              || has_prefix clean (codes "../")
              || not (text_eq (urls.escape_path clean) value)
          then failed (Sarif.not_clean name)
          else done tt
    ])

-- The claim has one value, the selected one, and no conflict.
abbrev pub is_single : Text → List FieldValueEvidence → Bool
is_single selected (v ∷ []) = text_eq v.value selected
is_single selected _ = false

-- The loop of `fieldEvidenceIsExact`, with its variable.
unfoldable pub exact_from : (field key selected : Text) (found : Bool) → List FieldEvidence → Bool
exact_from field key selected found [] = true
exact_from field key selected found (claim ∷ claims) =
    elim (text_eq claim.field field && text_eq claim.key key) [
      | false ↦ exact_from field key selected found claims
      | true ↦
          elim (found
            || claim.conflict
            || not (text_eq claim.selected_value selected)
            || not (is_single selected claim.values)) [
              | true ↦ false
              | false ↦ exact_from field key selected true claims
            ]
    ]

unfoldable pub field_evidence_is_exact : Node → (field key selected : Text) → Bool
unfolding exact_from
field_evidence_is_exact node field key selected =
    exact_from field key selected false node.field_evidence

-- The variables of the loop over the nodes.
pub record Matches : Type 0 where
  pub uri_matches : ℕ
  pub exact : List Node

-- A component with the URI.
unfoldable pub has_uri : (artifact_uri : Text) → Node → Bool
has_uri artifact_uri node =
    not (text_eq node.node_type (codes "finding"))
    && text_eq (read_text (lookup property_artifact_uri node.properties)) artifact_uri

-- Its claims and its digest agree.
unfoldable pub has_digest : (artifact_uri digest : Text) → Node → Bool
unfolding field_evidence_is_exact
has_digest artifact_uri digest node =
    field_evidence_is_exact node field_property property_artifact_uri artifact_uri
    && field_evidence_is_exact node field_digest (codes "sha256") digest
    && text_eq (read_text (lookup (codes "sha256") node.digests)) digest

unfoldable pub match_node : (artifact_uri digest : Text) → Node → Matches → Matches
match_node artifact_uri digest node m =
    if not (has_uri artifact_uri node)
    then m
    else if not (has_digest artifact_uri digest node)
    then record m { uri_matches = m.uri_matches + 1 }
    else record m { uri_matches = m.uri_matches + 1; exact = m.exact ++ node ∷ [] }

unfoldable pub match_nodes : (artifact_uri digest : Text) → List Node → Matches → Matches
match_nodes artifact_uri digest [] m = m
match_nodes artifact_uri digest (node ∷ nodes) m =
    match_nodes artifact_uri digest nodes (match_node artifact_uri digest node m)

-- What follows the loop.
unfoldable pub only_match : (exact : List Node) (uri_matches : ℕ) → Outcome Node
only_match (node ∷ []) uri_matches = done node
only_match (a ∷ b ∷ nodes) uri_matches = failed (Sarif.ambiguous_target (length (a ∷ b ∷ nodes)))
only_match [] uri_matches =
    if ltb 0 uri_matches then failed Sarif.digest_differs else failed Sarif.no_target

unfoldable pub find_target : Urls → Graph → (artifact_uri digest : Text) → Outcome Node
unfolding match_nodes only_match
find_target urls graph artifact_uri digest =
    validate_relative_artifact_uri urls Sarif.artifact_uri_name artifact_uri
    >> (if not (is_digest digest)
        then failed Sarif.bad_digest
        else let m =
            match_nodes artifact_uri digest graph.nodes (record { uri_matches = 0; exact = [] }) in
          only_match m.exact m.uri_matches)
