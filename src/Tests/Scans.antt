-- ===== src/Tests/Scans.antt =====
-- A scan of an artifact: one result that counts, one that is suppressed, and the component of the
-- artifact.
use ai_evidence_bom.Prelude.{
  ℕ, ◌+◌, ◌≡◌, ◌↔◌, refl, true, false, List, [], ◌∷◌, none, some, All, length, inl, arith, done,
}
use ai_evidence_bom.Text.{Text, codes, text_eq, text_less, trim_space, byte_length, to_lower}
use ai_evidence_bom.Time.{pos}
use ai_evidence_bom.Integer
use ai_evidence_bom.Text.Order.{text_order}
use ai_evidence_bom.Maps.{lookup, put}
use ai_evidence_bom.Sorting.{sort_slice}
use ai_evidence_bom.Normalize.Builder.{entries_of}
use ai_evidence_bom.Model.Level.{evidence_observed, rank, stronger_level}
use ai_evidence_bom.Model.Evidence.{merge_evidence_summary, merge_first, merge_last, add_int}
use ai_evidence_bom.Model.Graph.{Graph, Node}
use ai_evidence_bom.Model.Invariant.{GraphHolds}
use ai_evidence_bom.Trust.Rules.{rank-observed}
use ai_evidence_bom.Trust.Grants.{IsGranted}
use ai_evidence_bom.Sarif.{
  Run, Rule, ScanResult, Document, Finding, bounded_value, valid_level, valid_kind,
}
use ai_evidence_bom.Sarif
use ai_evidence_bom.Sarif.Runs.{
  Decoded, decoded, findings_for_run, check_run, index_rules, scan_results, scan_one, scan_failing,
  level_of, skip, extend_finding, finding_key, finding_or_new, group_finding, result_evidence,
  parse,
}
use ai_evidence_bom.Sarif.Results.{
  active_suppression, resolve_rule_id, result_matches_artifact, locations_of, resolve_artifact_uri,
}
use ai_evidence_bom.Sarif.Counting.{observations, IsObserved}
use ai_evidence_bom.Sarif.Counted.{findings_for_run-counted}
use ai_evidence_bom.Sarif.Target.{
  Urls, find_target, validate_relative_artifact_uri, property_artifact_uri, has_uri, has_digest,
  match_nodes, match_node,
}
use ai_evidence_bom.Platform.{has_prefix}
use ai_evidence_bom.SourceAuth.{is_digest}
use ai_evidence_bom.Sarif.Exact.{IsTarget}
use ai_evidence_bom.Sarif.Only.{IsOnly, find_target_iff}
use ai_evidence_bom.Sarif.Import.{
  ImportResult, Attached, import_sarif, attach_runs, attach_findings, incoming_graph,
}
use ai_evidence_bom.Aggregate.{merge}
use ai_evidence_bom.Sarif.Imported.{import_sarif-IsGranted}
use ai_evidence_bom.Tests.Receivers.{plain_platform}
use ai_evidence_bom.Tests.Policies.{trust_policy}

abbrev failing : ScanResult
failing = record {
  rule_id = codes "r";
  rule_index = some (Integer.pos 0);
  rule = none;
  kind = [];
  level = [];
  analysis_target = none;
  locations =
      record {
        physical_location = some (record { uri = codes "a"; uri_base_id = []; index = none });
      }
      ∷ [];
  suppressions = [];
}

abbrev suppressed : ScanResult
suppressed = record failing { suppressions = record { kind = codes "external"; status = [] } ∷ [] }

abbrev scan : Run
scan = record {
  driver = record {
    name = codes "s";
    version = codes "1";
    semantic_version = [];
    rules = record { id = codes "r"; default_level = codes "error" } ∷ [];
  };
  artifacts = [];
  invocations = some true ∷ [];
  results = failing ∷ suppressed ∷ failing ∷ [];
}

abbrev scan_findings : List Finding
scan_findings =
    record {
      rule_id = codes "r";
      level = codes "error";
      scanner = codes "s";
      scanner_version = codes "1";
      evidence = record {
        level = evidence_observed;
        sources = codes "sarif:s@1" ∷ codes "sarif:s@1" ∷ [];
        first_seen = pos 5;
        last_seen = pos 5;
        observation_count = 2;
        trace_ids = [];
      };
    }
    ∷ []

scan-found : findings_for_run scan (codes "a") (pos 5) ≡ done (scan_findings, 1)
unfolding findings_for_run check_run bounded_value text_eq trim_space byte_length index_rules lookup
    valid_level scan_results scan_one active_suppression valid_kind scan_failing resolve_rule_id
    level_of put result_matches_artifact merge_evidence_summary merge_first merge_last add_int rank
    stronger_level entries_of locations_of resolve_artifact_uri skip extend_finding finding_key
    finding_or_new group_finding result_evidence sort_slice text_less
scan-found = refl

findings_for_run-counted_example :
    (observations scan_findings + 1 ≡ length scan.results) × All IsObserved scan_findings
findings_for_run-counted_example =
    findings_for_run-counted scan (codes "a") (pos 5) scan_findings 1 scan-found

-- Every text is a relative URL without a query, and its own path.
abbrev plain_urls : Urls
plain_urls = record {
  parse_url = λ text. some (record {
    is_absolute = false;
    host = [];
    raw_query = [];
    fragment = [];
    path = text;
    escaped_path = text;
  });
  escape_path = λ text. text;
  clean_path = λ text. text;
}

abbrev artifact_digest : Text
artifact_digest = codes "6161616161616161616161616161616161616161616161616161616161616161"

abbrev artifact_node : Node
artifact_node = record {
  id = codes "c";
  node_type = codes "tool";
  name = codes "a";
  version = [];
  observed_versions = [];
  provider = [];
  digests = (codes "sha256", artifact_digest) ∷ [];
  properties = (property_artifact_uri, codes "a") ∷ [];
  field_evidence = [];
  evidence = record {
    level = evidence_observed;
    sources = [];
    first_seen = pos 1;
    last_seen = pos 1;
    observation_count = 1;
    trace_ids = [];
  };
}

abbrev artifact_graph : Graph
artifact_graph = record {
  schema = [];
  generated_at = pos 1;
  source = codes "live";
  nodes = artifact_node ∷ [];
  edges = [];
  metadata = [];
}

uri_valid : validate_relative_artifact_uri plain_urls Sarif.artifact_uri_name (codes "a") ≡ done tt
unfolding validate_relative_artifact_uri bounded_value text_eq trim_space byte_length has_prefix
uri_valid = refl

digest_valid : is_digest artifact_digest ≡ true
unfolding is_digest byte_length text_eq to_lower
digest_valid = refl

find_target_iff_example :
    (find_target plain_urls artifact_graph (codes "a") artifact_digest ≡ done artifact_node)
    ↔ IsOnly (IsTarget (codes "a") artifact_digest) artifact_node artifact_graph.nodes
find_target_iff_example =
    find_target_iff plain_urls artifact_graph (codes "a") artifact_digest artifact_node uri_valid
      digest_valid

artifact_graph-IsGranted : GraphHolds (IsGranted trust_policy) artifact_graph
artifact_graph-IsGranted = record {
  nodes = (record { summary = inl (omega (arith, rank-observed)); claims = tt }, tt);
  edges = tt;
}

abbrev decodes_scan : List ℕ → Decoded
decodes_scan bytes = decoded (record { version = codes "2.1.0"; runs = scan ∷ [] })

artifact_found :
    find_target plain_urls artifact_graph (codes "a") artifact_digest ≡ done artifact_node
unfolding find_target has_uri has_digest text_eq lookup match_nodes match_node
artifact_found = rw (uri_valid, digest_valid, find_target) refl

uri_of_scan_valid :
    validate_relative_artifact_uri plain_urls Sarif.sarif_artifact_uri_name (codes "a") ≡ done tt
unfolding validate_relative_artifact_uri bounded_value text_eq trim_space byte_length has_prefix
uri_of_scan_valid = refl

scan-parsed : parse decodes_scan [] ≡ done (record { version = codes "2.1.0"; runs = scan ∷ [] })
unfolding parse text_eq
scan-parsed = refl

abbrev scan_attached : Attached
scan_attached =
    attach_findings plain_platform artifact_node (codes "a") artifact_digest scan_findings
      (record { nodes = []; edges = []; skipped = 0 + 1 })

abbrev scan_import : ImportResult
scan_import = record {
  graph = merge artifact_graph (incoming_graph (codes "live") (pos 5) scan_attached) (pos 5);
  attached = length scan_attached.nodes;
  skipped_results = scan_attached.skipped;
  artifact_uri = codes "a";
  sarif_artifact_uri = codes "a";
  artifact_sha256 = artifact_digest;
}

scan-imported :
    import_sarif plain_platform plain_urls decodes_scan artifact_graph []
      (codes "a")
      (codes "a")
      artifact_digest
      (pos 5)
    ≡ done scan_import
unfolding import_sarif attach_runs
scan-imported =
    rw (artifact_found, uri_of_scan_valid, scan-parsed, scan-found, import_sarif, attach_runs) refl

import_sarif-IsGranted_example : GraphHolds (IsGranted trust_policy) scan_import.graph
import_sarif-IsGranted_example =
    import_sarif-IsGranted trust_policy plain_platform plain_urls decodes_scan artifact_graph []
      (codes "a") (codes "a") artifact_digest (pos 5) artifact_graph-IsGranted scan_import
      scan-imported
