-- ===== src/Policy/Paths/Selecting.antt =====
-- What a selector asks of a node.
use ai_evidence_bom.Prelude.{
  ℕ, ◌≤◌, ◌≡◌, refl, true, false, some, arith, is_empty, Option-cases, inl, inr,
}
use ai_evidence_bom.Text.{to_lower}
use ai_evidence_bom.Text.Order.{text_eq_iff}
use ai_evidence_bom.Model.Level.{rank}
use ai_evidence_bom.Model.Graph.{Node}
use ai_evidence_bom.Policy.Selector.{Regexp, CompiledSelector, matches_pattern, selector_matches}

module _ (lower_rune : ℕ → ℕ) (re : Regexp) where
  -- What is given in the selector, the node has.
  pub record Selects (selector : CompiledSelector re) (node : Node) : Type 0 where
    pub of_type :
        is_empty selector.node_type ≡ false
        → to_lower lower_rune node.node_type ≡ selector.node_type
    pub of_provider :
        is_empty selector.provider ≡ false → to_lower lower_rune node.provider ≡ selector.provider
    pub named :
        (pattern : re.Pattern)
        → selector.name_pattern ≡ some pattern
        → re.match_string pattern node.name ≡ true
    pub supported :
        is_empty selector.minimum_evidence ≡ false
        → rank selector.minimum_evidence ≤ rank node.evidence.level

  pub matches-Selects :
      (selector : CompiledSelector re) (node : Node)
      → selector_matches lower_rune re selector node ≡ true
      → Selects selector node
  unfolding selector_matches
  matches-Selects selector node h = record {
    of_type = λ g.
        ground (arith, h, g, text_eq_iff (to_lower lower_rune node.node_type) selector.node_type);
    of_provider = λ g.
        ground (arith, h, g, text_eq_iff (to_lower lower_rune node.provider) selector.provider);
    named = λ pattern e. ground (arith, h, e);
    supported = λ g. ground (arith, h, g);
  }

  name_matches :
      (selector : CompiledSelector re) (node : Node)
      → Selects selector node
      → matches_pattern lower_rune re selector.name_pattern node.name ≡ true
  name_matches selector node h = elim (Option-cases selector.name_pattern) [
    | inl e ↦ rw e refl
    | inr (pattern, e) ↦ rw e (h.named pattern e)
  ]

  pub Selects-matches :
      (selector : CompiledSelector re) (node : Node)
      → Selects selector node
      → selector_matches lower_rune re selector node ≡ true
  unfolding selector_matches
  Selects-matches selector node h = ground (
    arith,
    name_matches selector node h,
    h.of_type,
    h.of_provider,
    h.supported,
    text_eq_iff (to_lower lower_rune node.node_type) selector.node_type,
    text_eq_iff (to_lower lower_rune node.provider) selector.provider,
  )
