-- ===== src/Policy/Rules.antt =====
-- internal/policy/policy.go: `Evaluate` validates a policy, checks every node against its rules and
-- searches the graph for the paths that it denies.
use ai_evidence_bom.Prelude.{
  ℕ, ◌+◌, Bool, not, ◌&&◌, ◌||◌, List, [], ◌∷◌, Option, none, some, if◌then◌else◌, is_empty,
}
use ai_evidence_bom.Text.{Text, codes, text_eq, text_less, trim_space, to_lower}
use ai_evidence_bom.Text.Order.{text_order}
use ai_evidence_bom.Time.{Instant}
use ai_evidence_bom.Maps.{lookup, add}
use ai_evidence_bom.Sorting.{sort_slice}
use ai_evidence_bom.Model.Level.{EvidenceLevel, valid}
use ai_evidence_bom.Model.Graph.{Node, FieldEvidence, FieldValueEvidence, field_property}
use ai_evidence_bom.Policy.Selector.{
  Regexp, PathRule, invalid_name_pattern, invalid_minimum_evidence, invalid_finding_level, Result,
  returned, failed, ◌>>=◌, ◌>>◌, refuse_if, CompiledPathRule, compile_path_rule,
}

pub record Policy : Type 0 where
  pub version : Text
  pub minimum_evidence : List (Text × EvidenceLevel)
  pub allowed_providers : List Text
  pub require_providers_for : List Text
  pub denied_name_patterns : List Text
  pub require_versions_for : List Text
  pub forbid_inferred : Bool
  pub forbid_field_conflicts : Bool
  pub denied_finding_levels : List Text
  pub denied_paths : List PathRule

-- What the message of a violation reports.
pub data Message : Type 0 where
  level_denied : Text → Message
  inferred_not_allowed : Message
  evidence_too_weak : EvidenceLevel → EvidenceLevel → Message
  provider_not_allowed : Text → Message
  provider_required : Message
  version_required : Message
  competing_values : Text → Text → ℕ → Message
  name_denied : Text → Message
  path_denied : Text → Message

pub record Violation : Type 0 where
  pub rule : Text
  pub node_id : Text
  pub node_type : Text
  pub node_name : Text
  pub path_node_ids : List Text
  pub path_relations : List Text
  pub message : Message

pub record Report : Type 0 where
  pub generated_at : Instant
  pub passed : Bool
  pub violations : List Violation

unfoldable pub valid_finding_level : Text → Bool
valid_finding_level level =
    text_eq level (codes "none")
    || text_eq level (codes "note")
    || text_eq level (codes "warning")
    || text_eq level (codes "error")

abbrev pub sarif_level : Text
sarif_level = codes "aiebom.finding.sarif.level"

abbrev pub read_text : Option Text → Text
read_text none = []
read_text (some text) = text

-- The loops of `findingLevels` over the values of a claim and over the claims.
unfoldable pub add_values : List FieldValueEvidence → List Text → List Text
add_values [] levels = levels
add_values (v ∷ vs) levels = add_values vs (add v.value levels)

unfoldable pub claimed_levels : List FieldEvidence → List Text → List Text
unfolding add_values
claimed_levels [] levels = levels
claimed_levels (claim ∷ claims) levels = claimed_levels claims (
    if text_eq claim.field field_property && text_eq claim.key sarif_level
    then add_values claim.values levels
    else levels)

unfoldable pub finding_levels : Node → List Text
unfolding claimed_levels
finding_levels node =
    let selected = read_text (lookup sarif_level node.properties) in
    sort_slice text_less
      (claimed_levels node.field_evidence (if is_empty selected then [] else add selected []))

-- `report.add`.
unfoldable pub violation : Node → Text → Message → Violation
violation node rule message = record {
  rule = rule;
  node_id = node.id;
  node_type = node.node_type;
  node_name = node.name;
  path_node_ids = [];
  path_relations = [];
  message = message;
}

-- One report, if the test holds.
abbrev pub report_if : Bool → Violation → List Violation
report_if test v = if test then v ∷ [] else []

module _ (lower_rune : ℕ → ℕ) where
  -- `stringSet`.
  unfoldable pub string_set : List Text → List Text → List Text
  string_set [] set = set
  string_set (value ∷ values) set =
      string_set values (add (to_lower lower_rune (trim_space value)) set)

module _ (re : Regexp) where
  -- A policy after its validation.
  pub record Compiled : Type 0 where
    pub allowed_providers : List Text
    pub required_providers : List Text
    pub required_versions : List Text
    pub patterns : List (Text × re.Pattern)
    pub denied_finding_levels : List Text
    pub path_rules : List (CompiledPathRule re)

unfoldable pub check_minimums : List (Text × EvidenceLevel) → Result (Unit {0})
check_minimums [] = returned tt
check_minimums ((node_type, level) ∷ entries) =
    refuse_if (not (valid level)) (invalid_minimum_evidence node_type level)
    >> check_minimums entries

unfoldable pub compile_levels : ℕ → List Text → List Text → Result (List Text)
unfolding valid_finding_level
compile_levels index [] levels = returned levels
compile_levels index (level ∷ rest) levels =
    refuse_if (not (valid_finding_level level)) (invalid_finding_level index level)
    >> compile_levels (index + 1) rest (add level levels)

module _ (lower_rune : ℕ → ℕ) (re : Regexp) where
  -- Each compiled pattern stands with its text, which `policy.DeniedNamePatterns[index]` reads again.
  unfoldable pub compile_patterns : List Text → Result (List (Text × re.Pattern))
  compile_patterns [] = returned []
  compile_patterns (raw ∷ rest) = elim (re.compile raw) [
    | none ↦ failed (invalid_name_pattern raw)
    | some pattern ↦ compile_patterns rest >>= λ patterns. returned ((raw, pattern) ∷ patterns)
  ]

  unfoldable pub compile_path_rules : ℕ → List PathRule → Result (List (CompiledPathRule re))
  compile_path_rules index [] = returned []
  compile_path_rules index (rule ∷ rules) = do
    compiled ← compile_path_rule lower_rune re rule index
    rest ← compile_path_rules (index + 1) rules
    returned (compiled ∷ rest)

  unfoldable pub compile : Policy → Result (Compiled re)
  unfolding string_set compile_patterns check_minimums compile_levels compile_path_rules
  compile policy = do
    patterns ← compile_patterns policy.denied_name_patterns
    check_minimums policy.minimum_evidence
    levels ← compile_levels 0 policy.denied_finding_levels []
    path_rules ← compile_path_rules 0 policy.denied_paths
    returned (record {
      allowed_providers = string_set lower_rune policy.allowed_providers [];
      required_providers = string_set lower_rune policy.require_providers_for [];
      required_versions = string_set lower_rune policy.require_versions_for [];
      patterns = patterns;
      denied_finding_levels = levels;
      path_rules = path_rules;
    })
