-- ===== src/Model/Graph.antt =====
-- internal/model/model.go: the graph, its nodes and edges, and the claims of a node's fields.
-- A nil slice or map is the empty one.
use ai_evidence_bom.Prelude.{Bool, List}
use ai_evidence_bom.Text.{Text, codes}
use ai_evidence_bom.Time.{Instant}
use ai_evidence_bom.Model.Evidence.{EvidenceSummary}

abbrev pub schema_version : Text
schema_version = codes "0.11.0"

abbrev pub field_version : Text
field_version = codes "version"

abbrev pub field_digest : Text
field_digest = codes "digest"

abbrev pub field_property : Text
field_property = codes "property"

-- A `map[string]string`.
abbrev pub TextMap : Type 0
TextMap = List (Text × Text)

pub record FieldValueEvidence : Type 0 where
  pub value : Text
  pub evidence : EvidenceSummary

pub record FieldEvidence : Type 0 where
  pub field : Text
  pub key : Text
  pub selected_value : Text
  pub conflict : Bool
  pub values : List FieldValueEvidence

pub record Node : Type 0 where
  pub id : Text
  pub node_type : Text
  pub name : Text
  pub version : Text
  pub observed_versions : List Text
  pub provider : Text
  pub digests : TextMap
  pub properties : TextMap
  pub field_evidence : List FieldEvidence
  pub evidence : EvidenceSummary

pub record Edge : Type 0 where
  pub id : Text
  pub from : Text
  pub to : Text
  pub relation : Text
  pub evidence : EvidenceSummary

pub record Graph : Type 0 where
  pub schema : Text
  pub generated_at : Instant
  pub source : Text
  pub nodes : List Node
  pub edges : List Edge
  pub metadata : TextMap
