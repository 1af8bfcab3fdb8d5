-- ===== src/Trust.antt =====
-- internal/trust/policy.go: a policy caps the evidence that a source may claim. Decoding its JSON is
-- not modelled. An error is a value, with what the message reports.
pub mod Rules
pub mod Observations
pub mod Grants
pub mod Building
use ai_evidence_bom.Prelude.{
  ℕ, ◌+◌, Bool, true, false, not, ◌&&◌, ◌||◌, List, [], ◌∷◌, ◌++◌, map, if◌then◌else◌, is_empty,
  ltb, leb,
}
use ai_evidence_bom.Text.{Text, codes, text_eq, trim_space}
use ai_evidence_bom.Text.Order.{text_order}
use ai_evidence_bom.Maps.{elem, add}
use ai_evidence_bom.Observation.{Observation}
use ai_evidence_bom.Model.Level.{
  EvidenceLevel, rank, valid, stronger_level, no_level, evidence_observed,
}
use ai_evidence_bom.Model.Evidence.{EvidenceSummary}
use ai_evidence_bom.Model.Graph.{Graph, Node, Edge, FieldEvidence, FieldValueEvidence}
use ai_evidence_bom.Model.Resolve.{resolve_field_evidence}
use ai_evidence_bom.Model.Canonicalize.{canonicalize}

abbrev pub policy_version : Text
policy_version = codes "0.1.0"

abbrev pub default_maximum_evidence : EvidenceLevel
default_maximum_evidence = evidence_observed

pub record SourceRule : Type 0 where
  pub source : Text
  pub max_evidence : EvidenceLevel

pub record Policy : Type 0 where
  pub version : Text
  pub sources : List SourceRule

pub data Verdict : Type 0 where
  accepted : Verdict
  unsupported_version : Verdict
  empty_source : ℕ → Verdict
  surrounding_whitespace : ℕ → Verdict
  invalid_max_evidence : Text → EvidenceLevel → Verdict
  duplicate_source : Text → Verdict

-- The loop of `Validate`: `seen` holds the sources of the rules before.
unfoldable pub validate_rules : ℕ → List Text → List SourceRule → Verdict
validate_rules index seen [] = Verdict.accepted
validate_rules index seen (rule ∷ rules) =
    let source = trim_space rule.source in
    let rest = validate_rules (index + 1) (add source seen) rules in
    if is_empty source
    then empty_source index
    else if not (text_eq source rule.source)
    then surrounding_whitespace index
    else if not (valid rule.max_evidence)
    then invalid_max_evidence source rule.max_evidence
    else if elem source seen
    then duplicate_source source
    else rest

unfoldable pub validate : Policy → Verdict
unfolding validate_rules
validate policy =
    if is_empty policy.version && is_empty policy.sources
    then Verdict.accepted
    else if not (text_eq policy.version policy_version)
    then unsupported_version
    else validate_rules 0 [] policy.sources

unfoldable pub maximum_of : List SourceRule → Text → EvidenceLevel
maximum_of [] source = default_maximum_evidence
maximum_of (rule ∷ rules) source =
    if text_eq rule.source source then rule.max_evidence else maximum_of rules source

abbrev pub maximum_for : Policy → Text → EvidenceLevel
maximum_for policy source = maximum_of policy.sources source

-- One round of `Apply`: the observation, and whether it was downgraded.
unfoldable pub cap_observation : Policy → Observation → Observation × Bool
cap_observation policy observation =
    let maximum = maximum_for policy observation.source in
    if ltb (rank maximum) (rank observation.level)
    then (record observation { level = maximum }, true)
    else (observation, false)

pub record Result : Type 0 where
  pub observations : List Observation
  pub downgraded : ℕ

abbrev pub one_if : Bool → ℕ
one_if b = if b then 1 else 0

unfoldable pub apply : Policy → List Observation → Result
unfolding cap_observation
apply policy [] = record { observations = []; downgraded = 0 }
apply policy (observation ∷ observations) =
    let (capped, changed) = cap_observation policy observation in
    let rest = apply policy observations in
    record {
      observations = capped ∷ rest.observations;
      downgraded = one_if changed + rest.downgraded;
    }

-- The loop of `capSummary` over the sources.
unfoldable pub maximum_over : Policy → EvidenceLevel → List Text → EvidenceLevel
maximum_over policy maximum [] = maximum
maximum_over policy maximum (source ∷ sources) =
    maximum_over policy (stronger_level maximum (maximum_for policy source)) sources

unfoldable pub summary_maximum : Policy → List Text → EvidenceLevel
unfolding maximum_over
summary_maximum policy sources =
    let maximum = maximum_over policy no_level sources in
    if not (valid maximum) then default_maximum_evidence else maximum

unfoldable pub cap_summary : Policy → EvidenceSummary → EvidenceSummary × Bool
unfolding summary_maximum
cap_summary policy summary =
    let maximum = summary_maximum policy summary.sources in
    if leb (rank summary.level) (rank maximum)
    then (summary, false)
    else (record summary { level = maximum }, true)

-- The loops of `CapGraphInPlace`, each with the number of summaries that changed.
unfoldable pub cap_values : Policy → List FieldValueEvidence → List FieldValueEvidence × ℕ
unfolding cap_summary
cap_values policy [] = ([], 0)
cap_values policy (v ∷ vs) =
    let (evidence, changed) = cap_summary policy v.evidence in
    let (rest, count) = cap_values policy vs in
    (record v { evidence = evidence } ∷ rest, one_if changed + count)

unfoldable pub cap_claims : Policy → List FieldEvidence → List FieldEvidence × ℕ
unfolding cap_values
cap_claims policy [] = ([], 0)
cap_claims policy (claim ∷ claims) =
    let (values, changed) = cap_values policy claim.values in
    let (rest, count) = cap_claims policy claims in
    (record claim { values = values } ∷ rest, changed + count)

unfoldable pub cap_nodes : Policy → List Node → List Node × ℕ
unfolding cap_summary cap_claims
cap_nodes policy [] = ([], 0)
cap_nodes policy (n ∷ ns) =
    let (evidence, changed) = cap_summary policy n.evidence in
    let (claims, claims_changed) = cap_claims policy n.field_evidence in
    let (rest, count) = cap_nodes policy ns in
    (
      resolve_field_evidence (record n { evidence = evidence; field_evidence = claims }) ∷ rest,
      one_if changed + claims_changed + count,
    )

unfoldable pub cap_edges : Policy → List Edge → List Edge × ℕ
unfolding cap_summary
cap_edges policy [] = ([], 0)
cap_edges policy (e ∷ es) =
    let (evidence, changed) = cap_summary policy e.evidence in
    let (rest, count) = cap_edges policy es in
    (record e { evidence = evidence } ∷ rest, one_if changed + count)

unfoldable pub cap_graph_in_place : Policy → Graph → Graph × ℕ
unfolding cap_nodes cap_edges
cap_graph_in_place policy graph =
    let (nodes, nodes_changed) = cap_nodes policy graph.nodes in
    let (edges, edges_changed) = cap_edges policy graph.edges in
    (canonicalize (record graph { nodes = nodes; edges = edges }), nodes_changed + edges_changed)
