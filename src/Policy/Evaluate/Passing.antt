-- ===== src/Policy/Evaluate/Passing.antt =====
-- What a policy asks of a graph, and the report on it.
use mathlib.Core.List.{Memᴰ}
use ai_evidence_bom.Prelude.{ℕ, ◌≡◌, ◌↔◌, refl, true, List, [], ◌∷◌, ◌++◌, arith, is_empty, All}
use ai_evidence_bom.Text.{Text}
use ai_evidence_bom.Text.Order.{text_order}
use ai_evidence_bom.Time.{Instant}
use ai_evidence_bom.Sorting.{sort_slice}
use ai_evidence_bom.Model.Graph.{Graph, Node}
use ai_evidence_bom.Policy.Selector.{Regexp, returned, CompiledPathRule}
use ai_evidence_bom.Policy.Paths.{PathMatch, rule_matches}
use ai_evidence_bom.Policy.Paths.Selecting.{Selects}
use ai_evidence_bom.Policy.Paths.Matches.{Denies, rule_matches_sound, rule_matches-complete}
use ai_evidence_bom.Policy.Rules.{Policy, Report, Compiled, compile}
use ai_evidence_bom.Policy.Evaluate.{
  nodes_violations, path_violations, rules_violations, less_violation, evaluate,
}
use ai_evidence_bom.Policy.Evaluate.Complying.{
  is_empty-append, not_among, empty_of, Complies, nodes_violations-is_empty,
}

module _ (lower_rune : ℕ → ℕ) (re : Regexp) where
  path_violations-is_empty :
      (rule : CompiledPathRule re) (ps : List (PathMatch lower_rune re rule))
      → is_empty (path_violations lower_rune re rule ps) ≡ is_empty ps
  unfolding path_violations
  path_violations-is_empty rule [] = refl
  path_violations-is_empty rule (p ∷ ps) = refl

  -- No path of the graph from a selected node is denied.
  abbrev pub IsClear : Graph → CompiledPathRule re → Type 0
  IsClear graph rule =
      (n : Node) (walked : List Text)
      → Memᴰ n graph.nodes
      → Selects lower_rune re rule.from n
      → ¬ Denies lower_rune re rule graph n walked

  rule_matches-is_empty :
      (graph : Graph) (rule : CompiledPathRule re)
      → (is_empty (rule_matches lower_rune re rule graph) ≡ true) ↔ IsClear graph rule
  rule_matches-is_empty graph rule = (
    λ h n walked m selected denied.
        let (path, k) = rule_matches-complete lower_rune re rule graph n m selected denied in
        not_among h k,
    λ clear. empty_of (rule_matches lower_rune re rule graph) λ p m.
        let (in_graph, selected, denied) = rule_matches_sound lower_rune re rule graph p m in
        clear p.start p.node_ids in_graph selected denied,
  )

  rules_violations-is_empty :
      (graph : Graph) (rules : List (CompiledPathRule re))
      → (is_empty (rules_violations lower_rune re graph rules) ≡ true) ↔ All (IsClear graph) rules
  unfolding rules_violations
  rules_violations-is_empty graph [] = (λ h. tt, λ h. refl)
  rules_violations-is_empty graph (rule ∷ rules) = ground (
    arith,
    is_empty-append (path_violations lower_rune re rule (rule_matches lower_rune re rule graph))
        (rules_violations lower_rune re graph rules),
    path_violations-is_empty rule (rule_matches lower_rune re rule graph),
    rule_matches-is_empty graph rule,
    rules_violations-is_empty graph rules,
  )

-- A policy that compiles yields a report, and the report passes exactly where every node complies
-- with the policy and no path rule denies a path of the graph.
pub evaluate-passed :
    (lower_rune : ℕ → ℕ) (re : Regexp) (graph : Graph) (policy : Policy) (now : Instant)
    (compiled : Compiled re)
    → compile lower_rune re policy ≡ returned compiled
    → (report : Report) × (evaluate lower_rune re graph policy now ≡ returned report)
      × ((report.passed ≡ true) ↔ (
          All (Complies lower_rune re policy compiled) graph.nodes
          × All (IsClear lower_rune re graph) compiled.path_rules))
unfolding evaluate
evaluate-passed lower_rune re graph policy now compiled h =
    let nodes = nodes_violations lower_rune re policy compiled graph.nodes in
    let rules = rules_violations lower_rune re graph compiled.path_rules in
    (
      record {
        generated_at = now;
        passed = is_empty (nodes ++ rules);
        violations = sort_slice (less_violation lower_rune re) (nodes ++ rules);
      },
      rw h refl,
      ground (
        arith,
        is_empty-append nodes rules,
        nodes_violations-is_empty lower_rune re policy compiled graph.nodes,
        rules_violations-is_empty lower_rune re graph compiled.path_rules,
      ),
    )
