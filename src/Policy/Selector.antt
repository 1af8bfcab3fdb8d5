-- ===== src/Policy/Selector.antt =====
-- internal/policy/policy.go: the policy as it is written, the errors of its validation, and the
-- selectors and path rules that it is compiled to.
use ai_evidence_bom.Prelude.{
  ℕ, ◌+◌, ◌-◌, Bool, true, false, not, ◌&&◌, ◌||◌, List, [], ◌∷◌, Option, none, some, if◌then◌else◌,
  is_empty, ltb, leb, ◌==◌, length,
}
use ai_evidence_bom.Text.{Text, text_eq, trim_space, to_lower, decimal}
use ai_evidence_bom.Model.Level.{EvidenceLevel, rank, valid}
use ai_evidence_bom.Model.Graph.{Node}

-- `regexp`: compiling an expression may fail, and a compiled one matches texts.
pub record Regexp : Type 1 where
  pub Pattern : Type 0
  pub compile : Text → Option Pattern
  pub match_string : Pattern → Text → Bool

pub record NodeSelector : Type 0 where
  pub node_type : Text
  pub name_pattern : Text
  pub provider : Text
  pub minimum_evidence : EvidenceLevel

pub record PathRule : Type 0 where
  pub name : Text
  pub from : NodeSelector
  pub via : List NodeSelector
  pub relations : List Text
  pub to : NodeSelector

-- The place of a selector in its rule.
pub data Position : Type 0 where
  at_from at_to : Position
  at_via : ℕ → Position

pub data Error : Type 0 where
  invalid_name_pattern : Text → Error
  invalid_minimum_evidence : Text → EvidenceLevel → Error
  invalid_finding_level : ℕ → Text → Error
  relation_count : Text → Error
  via_count : Text → ℕ → ℕ → Error
  empty_relation : Text → Error
  invalid_selector_evidence : Text → Position → EvidenceLevel → Error
  invalid_selector_pattern : Text → Position → Text → Error

-- A Go function's value and error, of which one is given.
pub data Result {ℓ} (A : Type ℓ) : Type ℓ where
  failed : (reason : Error) → Result A
  returned : (value : A) → Result A

infixl 5 ◌>>=◌ ◌>>◌
abbrev pub ◌>>=◌ {ℓ κ} : {A : Type ℓ} → {B : Type κ} → Result A → (A → Result B) → Result B
outcome >>= next = elim outcome [ failed reason ↦ failed reason | returned value ↦ next value ]

-- A check that returns an error only, before what follows.
abbrev pub ◌>>◌ {κ} : {B : Type κ} → Result (Unit {0}) → (following : Result B) → Result B
check >> following = elim check [ failed reason ↦ failed reason | returned _ ↦ following ]

-- `if bad { return err }`.
abbrev pub refuse_if : Bool → Error → Result (Unit {0})
refuse_if true e = failed e
refuse_if false e = returned tt

abbrev pub max_path_relations : ℕ
max_path_relations = 8

module _ (re : Regexp) where
  pub record CompiledSelector : Type 0 where
    pub node_type : Text
    pub name_pattern : Option re.Pattern
    pub provider : Text
    pub minimum_evidence : EvidenceLevel

module _ (lower_rune : ℕ → ℕ) (re : Regexp) where
  -- The pattern of a selector: none where it is not given.
  unfoldable pub compile_pattern : Text → Position → Text → Result (Option re.Pattern)
  compile_pattern rule_name position raw =
      if is_empty raw then returned none else elim (re.compile raw) [
        | none ↦ failed (invalid_selector_pattern rule_name position raw)
        | some pattern ↦ returned (some pattern)
      ]

  unfoldable pub compile_selector : NodeSelector → Position → Text → Result (CompiledSelector re)
  unfolding compile_pattern
  compile_selector selector position rule_name = do
    refuse_if (not (is_empty selector.minimum_evidence) && not (valid selector.minimum_evidence))
        (invalid_selector_evidence rule_name position selector.minimum_evidence)
    pattern ← compile_pattern rule_name position selector.name_pattern
    returned (record {
      node_type = to_lower lower_rune (trim_space selector.node_type);
      name_pattern = pattern;
      provider = to_lower lower_rune (trim_space selector.provider);
      minimum_evidence = selector.minimum_evidence;
    })

  abbrev pub matches_pattern : Option re.Pattern → Text → Bool
  matches_pattern none name = true
  matches_pattern (some pattern) name = re.match_string pattern name

  unfoldable pub selector_matches : CompiledSelector re → Node → Bool
  selector_matches selector node =
      if not (is_empty selector.node_type)
        && not (text_eq (to_lower lower_rune node.node_type) selector.node_type)
      then false
      else if not (is_empty selector.provider)
          && not (text_eq (to_lower lower_rune node.provider) selector.provider)
      then false
      else if not (matches_pattern selector.name_pattern node.name)
      then false
      else is_empty selector.minimum_evidence
        || leb (rank selector.minimum_evidence) (rank node.evidence.level)

module _ (re : Regexp) where
  pub record CompiledPathRule : Type 0 where
    pub name : Text
    pub from : CompiledSelector re
    pub via : List (CompiledSelector re)
    pub relations : List Text
    pub to : CompiledSelector re

-- The loop over the relations.
unfoldable pub compile_relations : Text → List Text → Result (List Text)
compile_relations name [] = returned []
compile_relations name (relation ∷ relations) = do
  let trimmed = trim_space relation
  refuse_if (is_empty trimmed) (empty_relation name)
  rest ← compile_relations name relations
  returned (trimmed ∷ rest)

module _ (lower_rune : ℕ → ℕ) (re : Regexp) where
  -- The loop over the `via` selectors.
  unfoldable pub compile_vias : Text → ℕ → List NodeSelector → Result (List (CompiledSelector re))
  unfolding compile_selector
  compile_vias name index [] = returned []
  compile_vias name index (selector ∷ selectors) = do
    compiled ← compile_selector lower_rune re selector (at_via index) name
    rest ← compile_vias name (index + 1) selectors
    returned (compiled ∷ rest)

  unfoldable pub compile_path_rule : PathRule → ℕ → Result (CompiledPathRule re)
  unfolding compile_relations compile_vias
  compile_path_rule rule index = do
    let trimmed = trim_space rule.name
    let name = if is_empty trimmed then decimal index else trimmed
    refuse_if (length rule.relations == 0 || ltb max_path_relations (length rule.relations))
        (relation_count name)
    refuse_if (not (length rule.via == 0) && not (length rule.via == length rule.relations - 1))
        (via_count name (length rule.via) (length rule.relations))
    relations ← compile_relations name rule.relations
    from ← compile_selector lower_rune re rule.from at_from name
    to ← compile_selector lower_rune re rule.to at_to name
    via ← compile_vias name 0 rule.via
    returned (record { name = name; from = from; via = via; relations = relations; to = to })
