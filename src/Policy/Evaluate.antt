-- ===== src/Policy/Evaluate.antt =====
-- internal/policy/policy.go: the evaluation of a compiled policy. The violations are sorted by node
-- and rule; the sort is stable here, where Go leaves the order of equal ones open.
pub mod Complying
pub mod Passing
use ai_evidence_bom.Prelude.{
  ℕ, zero, suc, ◌+◌, Bool, true, false, not, ◌&&◌, ◌||◌, List, [], ◌∷◌, ◌++◌, Option, none, some,
  if◌then◌else◌, is_empty, ltb, length,
}
use ai_evidence_bom.Text.{Text, codes, text_eq, text_less, trim_space, to_lower, decimal}
use ai_evidence_bom.Text.Order.{text_order}
use ai_evidence_bom.Time.{Instant}
use ai_evidence_bom.Maps.{lookup, elem}
use ai_evidence_bom.Sorting.{sort_slice}
use ai_evidence_bom.Model.Level.{EvidenceLevel, rank, evidence_inferred}
use ai_evidence_bom.Model.Graph.{Graph, Node, FieldEvidence}
use ai_evidence_bom.Policy.Selector.{Regexp, Result, returned, failed, ◌>>=◌, CompiledPathRule}
use ai_evidence_bom.Policy.Paths.{PathMatch, rule_matches}
use ai_evidence_bom.Policy.Rules.{
  Policy, Message, level_denied, inferred_not_allowed, evidence_too_weak, provider_not_allowed,
  provider_required, version_required, competing_values, name_denied, path_denied, Violation,
  Report, finding_levels, violation, report_if, Compiled, compile,
}

-- The levels of a finding that are denied.
unfoldable pub level_violations : List Text → Node → List Text → List Violation
level_violations denied node [] = []
level_violations denied node (level ∷ levels) =
    report_if (elem level denied)
      (violation node (codes "denied-finding-level") (level_denied level))
    ++ level_violations denied node levels

unfoldable pub finding_violations : List Text → Node → List Violation
unfolding level_violations
finding_violations denied node =
    if text_eq node.node_type (codes "finding") && not (is_empty denied)
    then level_violations denied node (finding_levels node)
    else []

unfoldable pub inferred_violations : Policy → Node → List Violation
inferred_violations policy node =
    report_if (policy.forbid_inferred && text_eq node.evidence.level evidence_inferred)
      (violation node (codes "forbid-inferred") inferred_not_allowed)

unfoldable pub minimum_violations : Policy → Node → List Violation
minimum_violations policy node = elim (lookup node.node_type policy.minimum_evidence) [
  | none ↦ []
  | some minimum ↦
      report_if (ltb (rank node.evidence.level) (rank minimum))
        (violation node (codes "minimum-evidence") (evidence_too_weak minimum node.evidence.level))
]

unfoldable pub conflict_violations : Node → List FieldEvidence → List Violation
conflict_violations node [] = []
conflict_violations node (claim ∷ claims) =
    report_if (claim.conflict || ltb 1 (length claim.values)) (
      violation node (codes "forbid-field-conflict")
        (competing_values claim.field claim.key (length claim.values)))
    ++ conflict_violations node claims

module _ (lower_rune : ℕ → ℕ) where
  unfoldable pub allowed_violations : List Text → Node → List Violation
  allowed_violations allowed node =
      report_if
        (not (is_empty allowed)
          && not (is_empty node.provider)
          && not (elem (to_lower lower_rune node.provider) allowed))
        (violation node (codes "allowed-providers") (provider_not_allowed node.provider))

  unfoldable pub provider_violations : List Text → Node → List Violation
  provider_violations required node =
      report_if
        (elem (to_lower lower_rune node.node_type) required && is_empty (trim_space node.provider))
        (violation node (codes "require-provider") provider_required)

  unfoldable pub version_violations : List Text → Node → List Violation
  version_violations required node =
      report_if
        (elem (to_lower lower_rune node.node_type) required
          && is_empty (trim_space node.version)
          && is_empty node.observed_versions)
        (violation node (codes "require-version") version_required)

module _ (re : Regexp) where
  unfoldable pub name_violations : Node → ℕ → List (Text × re.Pattern) → List Violation
  name_violations node index [] = []
  name_violations node index ((raw, pattern) ∷ patterns) =
      report_if (re.match_string pattern node.name) (
        violation node (codes "denied-name-pattern[" ++ decimal index ++ codes "]")
          (name_denied raw))
      ++ name_violations node (index + 1) patterns

module _ (lower_rune : ℕ → ℕ) (re : Regexp) where
  -- The body of the loop over the nodes.
  unfoldable pub node_violations : Policy → Compiled re → Node → List Violation
  node_violations policy compiled node =
      finding_violations compiled.denied_finding_levels node
      ++ (inferred_violations policy node
          ++ (minimum_violations policy node
              ++ (allowed_violations lower_rune compiled.allowed_providers node
                  ++ (provider_violations lower_rune compiled.required_providers node
                      ++ (version_violations lower_rune compiled.required_versions node
                          ++ ((if policy.forbid_field_conflicts
                                then conflict_violations node node.field_evidence
                                else [])
                              ++ name_violations re node 0 compiled.patterns))))))

  unfoldable pub nodes_violations : Policy → Compiled re → List Node → List Violation
  unfolding node_violations
  nodes_violations policy compiled [] = []
  nodes_violations policy compiled (node ∷ nodes) =
      node_violations policy compiled node ++ nodes_violations policy compiled nodes

  -- `report.addPath`.
  unfoldable pub path_violations :
      (rule : CompiledPathRule re) → List (PathMatch lower_rune re rule) → List Violation
  path_violations rule [] = []
  path_violations rule (p ∷ ps) =
      record {
        rule = codes "denied-path:" ++ rule.name;
        node_id = p.start.id;
        node_type = p.start.node_type;
        node_name = p.start.name;
        path_node_ids = p.node_ids;
        path_relations = rule.relations;
        message = path_denied rule.name;
      }
      ∷ path_violations rule ps

  unfoldable pub rules_violations : Graph → List (CompiledPathRule re) → List Violation
  unfolding path_violations
  rules_violations graph [] = []
  rules_violations graph (rule ∷ rules) =
      path_violations rule (rule_matches lower_rune re rule graph) ++ rules_violations graph rules

  abbrev pub less_violation : Violation → Violation → Bool
  less_violation a b =
      if text_eq a.node_id b.node_id then text_less a.rule b.rule else text_less a.node_id b.node_id

  unfoldable pub evaluate : Graph → Policy → Instant → Result Report
  unfolding nodes_violations rules_violations
  evaluate graph policy generated_at = compile lower_rune re policy >>= λ compiled.
      let violations =
        nodes_violations policy compiled graph.nodes
        ++ rules_violations graph compiled.path_rules in
      returned (record {
        generated_at = generated_at;
        passed = is_empty violations;
        violations = sort_slice less_violation violations;
      })
