-- ===== src/Tests.antt =====
-- Concrete inputs for the theorems: a small graph of an agent that uses a model and a server.
pub mod Levels
pub mod Graphs
pub mod Policies
pub mod Reports
pub mod Builds
pub mod Receivers
pub mod Traces
pub mod Signatures
pub mod Scans
mod Diffs
use ai_evidence_bom.Prelude.{ℕ, Bool, true, false, List, [], ◌∷◌, Option, some}
use ai_evidence_bom.Text.{Text, codes, text_eq}
use ai_evidence_bom.Time.{Instant, pos, zero_time}
use ai_evidence_bom.Model.Level.{
  EvidenceLevel, evidence_observed, evidence_inferred, evidence_verified,
}
use ai_evidence_bom.Model.Evidence.{EvidenceSummary}
use ai_evidence_bom.Model.Graph.{
  Graph, Node, Edge, FieldEvidence, FieldValueEvidence, schema_version, field_version,
}
use ai_evidence_bom.Policy.Selector.{Regexp}

abbrev pub evidence_from : EvidenceLevel → Text → ℕ → EvidenceSummary
evidence_from level source at = record {
  level = level;
  sources = source ∷ [];
  first_seen = pos at;
  last_seen = pos at;
  observation_count = 1;
  trace_ids = codes "trace" ∷ [];
}

abbrev pub seen : EvidenceSummary
seen = evidence_from evidence_observed (codes "otel") 5

abbrev pub guessed : EvidenceSummary
guessed = evidence_from evidence_inferred (codes "scan") 7

abbrev pub verified : EvidenceSummary
verified = evidence_from evidence_verified (codes "cosign") 9

abbrev pub version_claim : Text → EvidenceSummary → FieldEvidence
version_claim version evidence = record {
  field = field_version;
  key = [];
  selected_value = [];
  conflict = false;
  values = record { value = version; evidence = evidence } ∷ [];
}

abbrev pub version_claims : List FieldEvidence
version_claims =
    version_claim (codes "1.0") guessed
    ∷ version_claim (codes "2.0") seen
    ∷ version_claim (codes "1.0") guessed
    ∷ []

abbrev pub node_of : Text → Text → EvidenceSummary → List FieldEvidence → Node
node_of id node_type evidence claims = record {
  id = id;
  node_type = node_type;
  name = id;
  version = [];
  observed_versions = [];
  provider = [];
  digests = [];
  properties = [];
  field_evidence = claims;
  evidence = evidence;
}

abbrev pub agent : Node
agent = node_of (codes "a") (codes "agent") seen []

abbrev pub model_node : Node
model_node = node_of (codes "m") (codes "model") seen version_claims

abbrev pub agent_to_model : Edge
agent_to_model = record {
  id = codes "e";
  from = codes "a";
  to = codes "m";
  relation = codes "uses";
  evidence = seen;
}

abbrev pub graph_of : List Node → List Edge → Graph
graph_of nodes edges = record {
  schema = schema_version;
  generated_at = zero_time;
  source = [];
  nodes = nodes;
  edges = edges;
  metadata = [];
}

abbrev pub small_graph : Graph
small_graph = graph_of (agent ∷ model_node ∷ []) (agent_to_model ∷ [])

abbrev pub other_graph : Graph
other_graph = graph_of (node_of (codes "m") (codes "model") guessed [] ∷ []) (agent_to_model ∷ [])

-- Expressions that match their own text only.
abbrev pub literal : Regexp
literal = record { Pattern = Text; compile = λ t. some t; match_string = text_eq }

-- Case folding that leaves characters above ASCII alone.
abbrev pub ascii_only : ℕ → ℕ
ascii_only c = c
