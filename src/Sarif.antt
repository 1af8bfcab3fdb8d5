-- ===== src/Sarif.antt =====
-- internal/sarif/sarif.go: the parts of a SARIF file that are imported, the checks on them, and what
-- the findings of a scanner are bound to. Decoding JSON, and the URLs and paths of Go's libraries,
-- are parameters. A pointer is an option, an error a constructor with the values of its message.
pub mod Results
pub mod Runs
pub mod Counting
pub mod Counted
pub mod Target
pub mod Exact
pub mod Only
pub mod Import
pub mod Imported
use ai_evidence_bom.Prelude.{
  ℕ, Bool, true, false, not, ◌&&◌, ◌||◌, List, [], ◌∷◌, Option, none, some, if◌then◌else◌, is_empty,
  ltb, length, Result, failed, done, ◌>>=◌, ◌>>◌,
}
use ai_evidence_bom.Text.{Text, codes, text_eq, trim_space, byte_length}
use ai_evidence_bom.Integer.{ℤ}
use ai_evidence_bom.Model.Evidence.{EvidenceSummary}

abbrev pub default_max_sarif_bytes : ℕ
default_max_sarif_bytes = 16777216

abbrev pub max_runs : ℕ
max_runs = 32

abbrev pub max_rules_per_run : ℕ
max_rules_per_run = 20000

abbrev pub max_results_per_run : ℕ
max_results_per_run = 10000

abbrev pub max_artifacts_per_run : ℕ
max_artifacts_per_run = 20000

abbrev pub max_invocations_per_run : ℕ
max_invocations_per_run = 128

abbrev pub max_locations_per_result : ℕ
max_locations_per_result = 32

abbrev pub max_suppressions_per_result : ℕ
max_suppressions_per_result = 32

abbrev pub max_scanner_name_length : ℕ
max_scanner_name_length = 200

abbrev pub max_scanner_version_length : ℕ
max_scanner_version_length = 200

abbrev pub max_rule_id_length : ℕ
max_rule_id_length = 512

abbrev pub max_artifact_uri_length : ℕ
max_artifact_uri_length = 2048

pub record ArtifactLocation : Type 0 where
  pub uri : Text
  pub uri_base_id : Text
  pub index : Option ℤ

-- `PhysicalLocation` is the location that it holds.
pub record Location : Type 0 where
  pub physical_location : Option ArtifactLocation

pub record Artifact : Type 0 where
  pub location : ArtifactLocation

pub record Suppression : Type 0 where
  pub kind : Text
  pub status : Text

pub record RuleReference : Type 0 where
  pub id : Text
  pub index : Option ℤ

pub record ScanResult : Type 0 where
  pub rule_id : Text
  pub rule_index : Option ℤ
  pub rule : Option RuleReference
  pub kind : Text
  pub level : Text
  pub analysis_target : Option ArtifactLocation
  pub locations : List Location
  pub suppressions : List Suppression

-- `reportingDescriptor`, with the level of its default configuration.
pub record Rule : Type 0 where
  pub id : Text
  pub default_level : Text

pub record Driver : Type 0 where
  pub name : Text
  pub version : Text
  pub semantic_version : Text
  pub rules : List Rule

-- An invocation is its `executionSuccessful`.
pub record Run : Type 0 where
  pub driver : Driver
  pub artifacts : List Artifact
  pub invocations : List (Option Bool)
  pub results : List ScanResult

pub record Document : Type 0 where
  pub version : Text
  pub runs : List Run

pub record Finding : Type 0 where
  pub rule_id : Text
  pub level : Text
  pub scanner : Text
  pub scanner_version : Text
  pub evidence : EvidenceSummary

-- What a bounded value is the value of.
pub data Name : Type 0 where
  scanner_name : Name
  scanner_version_name : Name
  rule_id_of : ℕ → Name
  result_rule_id : ℕ → Name
  result_artifact_uri : Name
  artifact_uri_name : Name
  sarif_artifact_uri_name : Name

pub data Error : Type 0 where
  required : Name → Error
  surrounding_whitespace : Name → Error
  too_long : Name → ℕ → Error
  not_relative : Name → Error
  not_canonical : Name → Error
  not_clean : Name → Error
  sarif_too_long : Error
  cannot_decode : Error
  multiple_values : Error
  trailing_data : Error
  unsupported_version : Error
  bad_run_count : Error
  too_many_rules : Error
  too_many_results : Error
  too_many_artifacts : Error
  too_many_invocations : Error
  invocation_failed : ℕ → Error
  duplicate_rule : Text → Error
  invalid_default_level : Text → Text → Error
  too_many_locations : ℕ → Error
  too_many_suppressions : ℕ → Error
  invalid_suppression_kind : ℕ → Text → Error
  invalid_suppression_status : ℕ → Text → Error
  invalid_kind : ℕ → Text → Error
  rule_ids_disagree : Error
  rule_indices_disagree : Error
  rule_index_out_of_range : Error
  rule_and_index_disagree : Error
  no_rule_id : Error
  invalid_fail_level : ℕ → Text → Error
  unsupported_base_id : Error
  artifact_index_out_of_range : Error
  unsupported_indexed_base_id : Error
  uri_and_index_disagree : Error
  conflicting_levels : Text → Text → Text → Error
  bad_digest : Error
  ambiguous_target : ℕ → Error
  digest_differs : Error
  no_target : Error
  -- An error with the number of the result, or of the run, that it arose in.
  in_result : ℕ → Error → Error
  in_run : ℕ → Error → Error

abbrev pub Outcome {ℓ} : Type ℓ → Type ℓ
Outcome A = Result Error A

abbrev pub refuse_when : Bool → Error → Outcome (Unit {0})
refuse_when true error = failed error
refuse_when false error = done tt

-- `fmt.Errorf("…: %w", err)`.
abbrev pub wrap {ℓ} : {A : Type ℓ} → (Error → Error) → Outcome A → Outcome A
wrap outer (failed error) = failed (outer error)
wrap outer (done a) = done a

abbrev pub first_non_empty : List Text → Text
first_non_empty [] = []
first_non_empty (value ∷ values) = if is_empty value then first_non_empty values else value

unfoldable pub bounded_value : Name → Text → ℕ → (required : Bool) → Outcome (Unit {0})
bounded_value name value limit is_required = do
  refuse_when (is_required && is_empty value) (required name)
  refuse_when (not (text_eq value (trim_space value))) (surrounding_whitespace name)
  refuse_when (ltb limit (byte_length value)) (too_long name limit)

unfoldable pub valid_kind : Text → Bool
valid_kind value =
    text_eq value (codes "pass")
    || text_eq value (codes "open")
    || text_eq value (codes "informational")
    || text_eq value (codes "notApplicable")
    || text_eq value (codes "review")
    || text_eq value (codes "fail")

unfoldable pub valid_level : Text → Bool
valid_level value =
    text_eq value (codes "none")
    || text_eq value (codes "note")
    || text_eq value (codes "warning")
    || text_eq value (codes "error")
