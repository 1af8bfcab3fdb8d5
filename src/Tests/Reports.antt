-- ===== src/Tests/Reports.antt =====
-- A policy that denies the path from an agent to a model.
use mathlib.Core.List.{Memᴰ}
use mathlib.Core.List.Memᴰ
use ai_evidence_bom.Prelude.{◌≡◌, ◌↔◌, refl, true, List, [], ◌∷◌, none, All, arith}
use ai_evidence_bom.Text.{Text, codes, text_eq, text_less, trim_space, to_lower}
use ai_evidence_bom.Text.Order.{text_order, text_eq_iff}
use ai_evidence_bom.Time.{pos}
use ai_evidence_bom.Maps.{lookup, put, add}
use ai_evidence_bom.Sorting.{sort_slice}
use ai_evidence_bom.Policy.Selector.{
  NodeSelector, CompiledSelector, CompiledPathRule, returned, selector_matches, compile_path_rule,
}
use ai_evidence_bom.Policy.Paths.{PathMatch, rule_matches}
use ai_evidence_bom.Policy.Paths.Search.{arrive, follow}
use ai_evidence_bom.Policy.Paths.Selecting.{Selects}
use ai_evidence_bom.Maps.Last.{last_with, later}
use ai_evidence_bom.Policy.Paths.Matches.{Denies, rule_matches_sound, rule_matches-complete}
use ai_evidence_bom.Policy.Rules.{Policy, Report, Compiled, compile}
use ai_evidence_bom.Policy.Evaluate.{evaluate}
use ai_evidence_bom.Policy.Evaluate.Complying.{Complies}
use ai_evidence_bom.Policy.Evaluate.Passing.{IsClear, evaluate-passed}
use ai_evidence_bom.Tests.{agent, model_node, agent_to_model, small_graph, literal, ascii_only}

abbrev selecting : Text → NodeSelector
selecting node_type = record {
  node_type = node_type;
  name_pattern = [];
  provider = [];
  minimum_evidence = [];
}

abbrev denying_policy : Policy
denying_policy = record {
  version = codes "0.1.0";
  minimum_evidence = [];
  allowed_providers = [];
  require_providers_for = codes "model" ∷ [];
  denied_name_patterns = codes "bad" ∷ [];
  require_versions_for = [];
  forbid_inferred = true;
  forbid_field_conflicts = true;
  denied_finding_levels = [];
  denied_paths =
      record {
        name = codes "no models";
        from = selecting (codes "Agent");
        via = [];
        relations = codes "uses" ∷ [];
        to = selecting (codes "model");
      }
      ∷ [];
}

abbrev compiled_selecting : Text → CompiledSelector literal
compiled_selecting node_type = record {
  node_type = node_type;
  name_pattern = none;
  provider = [];
  minimum_evidence = [];
}

abbrev compiled_rule : CompiledPathRule literal
compiled_rule = record {
  name = codes "no models";
  from = compiled_selecting (codes "agent");
  via = [];
  relations = codes "uses" ∷ [];
  to = compiled_selecting (codes "model");
}

abbrev compiled_policy : Compiled literal
compiled_policy = record {
  allowed_providers = [];
  required_providers = codes "model" ∷ [];
  required_versions = [];
  patterns = (codes "bad", codes "bad") ∷ [];
  denied_finding_levels = [];
  path_rules = compiled_rule ∷ [];
}

denying_policy-compiled : compile ascii_only literal denying_policy ≡ returned compiled_policy
unfolding compile compile_path_rule trim_space add to_lower text_eq
denying_policy-compiled = refl

evaluate-passed_example :
    (report : Report) × (evaluate ascii_only literal small_graph denying_policy (pos 1)
      ≡ returned report)
    × ((report.passed ≡ true) ↔ (
        All (Complies ascii_only literal denying_policy compiled_policy) small_graph.nodes
        × All (IsClear ascii_only literal small_graph) compiled_policy.path_rules))
evaluate-passed_example =
    evaluate-passed ascii_only literal small_graph denying_policy (pos 1) compiled_policy
      denying_policy-compiled

agent-Selects : Selects ascii_only literal compiled_rule.from agent
unfolding to_lower
agent-Selects = record {
  of_type = λ g. refl;
  of_provider = λ g. cc;
  named = λ pattern e. cc;
  supported = λ g. cc;
}

model-Selects : Selects ascii_only literal compiled_rule.to model_node
unfolding to_lower
model-Selects = record {
  of_type = λ g. refl;
  of_provider = λ g. cc;
  named = λ pattern e. cc;
  supported = λ g. cc;
}

abbrev denied_walk : List Text
denied_walk = codes "a" ∷ codes "m" ∷ []

model_is_new : ¬ Memᴰ (codes "m") (codes "a" ∷ [])
unfolding text_eq
model_is_new (Memᴰ.head e) = absurd (ground (arith, (text_eq_iff (codes "m") (codes "a")).1 e))
model_is_new (Memᴰ.tail m) = elim (Memᴰ.not-nil m) [ ]

agent-Denies : Denies ascii_only literal compiled_rule small_graph agent denied_walk
unfolding last_with later text_eq
agent-Denies =
    follow {index = 0} {path = codes "a" ∷ []} agent_to_model model_node (Memᴰ.head refl) refl refl
      model_is_new refl (λ before given. absurd (ground (arith, before)))
      (arrive model_node refl model-Selects)

rule_matches-complete_example :
    (path : List Text) × Memᴰ
      (record { start = agent; node_ids = path })
      (rule_matches ascii_only literal compiled_rule small_graph)
rule_matches-complete_example =
    rule_matches-complete ascii_only literal compiled_rule small_graph agent (Memᴰ.head refl)
      agent-Selects agent-Denies

abbrev denied_match : PathMatch ascii_only literal compiled_rule
denied_match = record { start = agent; node_ids = denied_walk }

denied_match-found : Memᴰ denied_match (rule_matches ascii_only literal compiled_rule small_graph)
unfolding rule_matches sort_slice selector_matches text_less text_eq to_lower lookup put
denied_match-found = Memᴰ.head refl

rule_matches_sound_example :
    Memᴰ agent small_graph.nodes
    × Selects ascii_only literal compiled_rule.from agent
    × Denies ascii_only literal compiled_rule small_graph agent denied_walk
rule_matches_sound_example =
    rule_matches_sound ascii_only literal compiled_rule small_graph denied_match denied_match-found
