-- ===== src/Sarif/Import.antt =====
-- internal/sarif/sarif.go: `Import`.
use ai_evidence_bom.Prelude.{
  ℕ, ◌+◌, List, [], ◌∷◌, ◌++◌, Option, none, some, if◌then◌else◌, is_empty, length, done, ◌>>=◌,
  ◌>>◌,
}
use ai_evidence_bom.Text.{Text, codes}
use ai_evidence_bom.Text.Order.{text_order}
use ai_evidence_bom.Time.{Instant}
use ai_evidence_bom.Maps.{lookup, put}
use ai_evidence_bom.Aggregate.{merge}
use ai_evidence_bom.Model.Evidence.{no_evidence, merge_evidence_summary}
use ai_evidence_bom.Model.Graph.{Graph, Node, Edge, schema_version, field_property}
use ai_evidence_bom.Model.Claims.{add_field_evidence}
use ai_evidence_bom.Model.Resolve.{resolve_field_evidence}
use ai_evidence_bom.Model.Canonicalize.{canonicalize}
use ai_evidence_bom.Model.Identity.{stable_node_id, stable_edge_id}
use ai_evidence_bom.Normalize.Builder.{entries_of, edge_or_new}
use ai_evidence_bom.Platform.{Platform}
use ai_evidence_bom.Sarif
use ai_evidence_bom.Sarif.{Run, Document, Finding, Outcome, wrap}
use ai_evidence_bom.Sarif.Runs.{Decoded, parse, findings_for_run}
use ai_evidence_bom.Sarif.Target.{Urls, validate_relative_artifact_uri, find_target}

abbrev pub property_finding_format : Text
property_finding_format = codes "aiebom.finding.format"

abbrev pub property_finding_level : Text
property_finding_level = codes "aiebom.finding.sarif.level"

abbrev pub property_finding_state : Text
property_finding_state = codes "aiebom.finding.assertion"

abbrev pub property_scanner_version : Text
property_scanner_version = codes "aiebom.finding.scanner.version"

abbrev pub property_target_digest : Text
property_target_digest = codes "aiebom.finding.artifact.sha256"

abbrev pub property_target_uri : Text
property_target_uri = codes "aiebom.finding.artifact.uri"

pub record ImportResult : Type 0 where
  pub graph : Graph
  pub attached : ℕ
  pub skipped_results : ℕ
  pub artifact_uri : Text
  pub sarif_artifact_uri : Text
  pub artifact_sha256 : Text

-- The variables of the loops.
pub record Attached : Type 0 where
  pub nodes : List (Text × Node)
  pub edges : List (Text × Edge)
  pub skipped : ℕ

-- The node under an ID, or a new one.
abbrev pub finding_node_or_new : (id : Text) → Finding → Option Node → Node
finding_node_or_new id finding none = record {
  id = id;
  node_type = codes "finding";
  name = finding.rule_id;
  version = [];
  observed_versions = [];
  provider = finding.scanner;
  digests = [];
  properties = [];
  field_evidence = [];
  evidence = no_evidence;
}
finding_node_or_new id finding (some node) = node

-- What a finding adds to its node.
unfoldable pub report_finding : (artifact_uri digest : Text) → Finding → Node → Node
report_finding artifact_uri digest finding node =
    let claim = λ (n : Node) (key value : Text).
      add_field_evidence n field_property key value finding.evidence in
    let n0 = record node { evidence = merge_evidence_summary node.evidence finding.evidence } in
    let n1 = claim n0 property_finding_format (codes "sarif-2.1.0") in
    let n2 = claim n1 property_finding_level finding.level in
    let n3 = claim n2 property_finding_state (codes "scanner-reported") in
    let n4 = claim n3 property_target_uri artifact_uri in
    let n5 = claim n4 property_target_digest digest in
    resolve_field_evidence (
      if is_empty finding.scanner_version
      then n5
      else claim n5 property_scanner_version finding.scanner_version)

module _ (platform : Platform) (target : Node) (artifact_uri digest : Text) where
  -- The body of the inner loop.
  unfoldable pub attach_finding : Finding → Attached → Attached
  unfolding report_finding
  attach_finding finding a =
      let identity = artifact_uri ++ 0 ∷ (digest ++ 0 ∷ finding.rule_id) in
      let node_id = stable_node_id platform (codes "finding") finding.scanner identity in
      let node = finding_node_or_new node_id finding (lookup node_id a.nodes) in
      let edge_id = stable_edge_id platform target.id (codes "affected_by") node_id in
      let edge =
        edge_or_new edge_id target.id node_id (codes "affected_by") (lookup edge_id a.edges) in
      record a {
        nodes = put node_id (report_finding artifact_uri digest finding node) a.nodes;
        edges =
            put edge_id
              (record edge { evidence = merge_evidence_summary edge.evidence finding.evidence })
              a.edges;
      }

  unfoldable pub attach_findings : List Finding → Attached → Attached
  unfolding attach_finding
  attach_findings [] a = a
  attach_findings (finding ∷ findings) a = attach_findings findings (attach_finding finding a)

  -- The outer loop.
  unfoldable pub attach_runs :
      (sarif_uri : Text) (observed_at : Instant) (index : ℕ)
      → List Run
      → Attached
      → Outcome Attached
  unfolding attach_findings
  attach_runs sarif_uri observed_at index [] a = done a
  attach_runs sarif_uri observed_at index (run ∷ runs) a =
      wrap (Sarif.in_run index) (findings_for_run run sarif_uri observed_at) >>= λ found.
      attach_runs sarif_uri observed_at (index + 1) runs
        (attach_findings found.0 (record a { skipped = a.skipped + found.1 }))

-- The graph of the findings.
unfoldable pub incoming_graph : (source : Text) (observed_at : Instant) → Attached → Graph
unfolding entries_of
incoming_graph source observed_at a = canonicalize (record {
  schema = schema_version;
  generated_at = observed_at;
  source = source;
  nodes = entries_of a.nodes;
  edges = entries_of a.edges;
  metadata = [];
})

-- `Import`.
unfoldable pub import_sarif :
    Platform
    → Urls
    → (decode : List ℕ → Decoded) → Graph
    → (bytes : List ℕ)
    → (artifact_uri sarif_artifact_uri artifact_sha256 : Text) (observed_at : Instant)
    → Outcome ImportResult
import_sarif platform urls decode graph bytes artifact_uri sarif_uri digest observed_at = do
  target ← find_target urls graph artifact_uri digest
  validate_relative_artifact_uri urls Sarif.sarif_artifact_uri_name sarif_uri
  document ← parse decode bytes
  a ←
      attach_runs platform target artifact_uri digest sarif_uri observed_at 0 document.runs
        (record { nodes = []; edges = []; skipped = 0 })
  done (record {
    graph = merge graph (incoming_graph graph.source observed_at a) observed_at;
    attached = length a.nodes;
    skipped_results = a.skipped;
    artifact_uri = artifact_uri;
    sarif_artifact_uri = sarif_uri;
    artifact_sha256 = digest;
  })
