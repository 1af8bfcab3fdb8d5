-- ===== src/Sarif/Runs.antt =====
-- internal/sarif/sarif.go: `parse` after the JSON is decoded, and `findingsForRun`.
use ai_evidence_bom.Prelude.{
  ℕ, ◌+◌, Bool, true, false, not, ◌&&◌, ◌||◌, List, [], ◌∷◌, ◌++◌, Option, none, some,
  if◌then◌else◌, is_empty, ltb, length, failed, done, ◌>>=◌, ◌>>◌,
}
use ai_evidence_bom.Text.{Text, codes, text_eq, text_less}
use ai_evidence_bom.Text.Order.{text_order}
use ai_evidence_bom.Time.{Instant}
use ai_evidence_bom.Maps.{lookup, put}
use ai_evidence_bom.Sorting.{sort_slice}
use ai_evidence_bom.Model.Level.{evidence_observed}
use ai_evidence_bom.Model.Evidence.{EvidenceSummary, no_evidence, merge_evidence_summary}
use ai_evidence_bom.Normalize.Builder.{entries_of}
use ai_evidence_bom.Sarif
use ai_evidence_bom.Sarif.{
  ScanResult, Rule, Run, Document, Finding, Outcome, Error, refuse_when, wrap, first_non_empty,
  bounded_value, valid_kind, valid_level, max_rule_id_length, max_scanner_name_length,
  max_scanner_version_length, max_rules_per_run, max_results_per_run, max_artifacts_per_run,
  max_invocations_per_run, max_locations_per_result, max_suppressions_per_result, max_runs,
  default_max_sarif_bytes,
}
use ai_evidence_bom.Sarif.Results.{active_suppression, resolve_rule_id, result_matches_artifact}

-- What `json.Decoder` makes of the bytes: the document and what follows it, or an error.
pub data Decoded : Type 0 where
  undecodable : Decoded
  followed_by_value : Decoded
  followed_by_text : Decoded
  decoded : Document → Decoded

unfoldable pub parse : (decode : List ℕ → Decoded) → List ℕ → Outcome Document
parse decode bytes =
    if ltb default_max_sarif_bytes (length bytes)
    then failed Sarif.sarif_too_long
    else elim (decode bytes) [
      | undecodable ↦ failed Sarif.cannot_decode
      | followed_by_value ↦ failed Sarif.multiple_values
      | followed_by_text ↦ failed Sarif.trailing_data
      | decoded document ↦
          if not (text_eq document.version (codes "2.1.0"))
          then failed Sarif.unsupported_version
          else if is_empty document.runs || ltb max_runs (length document.runs)
          then failed Sarif.bad_run_count
          else done document
    ]

-- The variables of the loop over the results.
pub record Scan : Type 0 where
  pub grouped : List (Text × Finding)
  pub skipped : ℕ

unfoldable pub skip : Scan → Scan
skip s = record s { skipped = s.skipped + 1 }

-- The loop over the rules, with the map that it fills.
unfoldable pub index_rules : ℕ → List Rule → List (Text × Rule) → Outcome (List (Text × Rule))
index_rules index [] rules = done rules
index_rules index (rule ∷ rest) rules =
    bounded_value (Sarif.rule_id_of index) rule.id max_rule_id_length true
    >> (elim (lookup rule.id rules) [
      | some known ↦ failed (Sarif.duplicate_rule rule.id)
      | none ↦ elim (not (is_empty rule.default_level) && not (valid_level rule.default_level)) [
        | true ↦ failed (Sarif.invalid_default_level rule.id rule.default_level)
        | false ↦ index_rules (index + 1) rest (put rule.id rule rules)
      ]
    ])

-- The loop over the invocations: one that says that it failed is an error.
unfoldable pub check_invocations : ℕ → List (Option Bool) → Outcome (Unit {0})
check_invocations index [] = done tt
check_invocations index (some false ∷ invocations) = failed (Sarif.invocation_failed index)
check_invocations index (some true ∷ invocations) = check_invocations (index + 1) invocations
check_invocations index (none ∷ invocations) = check_invocations (index + 1) invocations

abbrev pub default_level_of : Option Rule → Text
default_level_of none = []
default_level_of (some rule) = rule.default_level

-- The level of a failing result: its own, that of its rule, or `warning`.
unfoldable pub level_of : Text → Option Rule → Text
level_of level rule = first_non_empty (level ∷ default_level_of rule ∷ codes "warning" ∷ [])

abbrev pub no_finding : Finding
no_finding = record {
  rule_id = [];
  level = [];
  scanner = [];
  scanner_version = [];
  evidence = no_evidence;
}

abbrev pub read_finding : Option Finding → Finding
read_finding none = no_finding
read_finding (some finding) = finding

abbrev pub by_finding : Finding → Finding → Bool
by_finding a b =
    if text_eq a.scanner b.scanner
    then text_less a.rule_id b.rule_id
    else text_less a.scanner b.scanner

module _ (run : Run) (artifact_uri : Text) (observed_at : Instant) where
  abbrev pub version_of_run : Text
  version_of_run = first_non_empty (run.driver.semantic_version ∷ run.driver.version ∷ [])

  abbrev pub evidence_source : Text
  evidence_source =
      let source = codes "sarif:" ++ run.driver.name in
      if is_empty version_of_run then source else source ++ codes "@" ++ version_of_run

  -- The evidence of one result.
  unfoldable pub result_evidence : EvidenceSummary
  result_evidence = record {
    level = evidence_observed;
    sources = evidence_source ∷ [];
    first_seen = observed_at;
    last_seen = observed_at;
    observation_count = 1;
    trace_ids = [];
  }

  unfoldable pub finding_key : Text → Text
  finding_key rule_id = run.driver.name ++ 0 ∷ rule_id

  -- The finding under a key, or a new one.
  unfoldable pub finding_or_new : (rule_id level : Text) → Finding → Finding
  finding_or_new rule_id level current =
      if is_empty current.rule_id
      then record {
        rule_id = rule_id;
        level = level;
        scanner = run.driver.name;
        scanner_version = version_of_run;
        evidence = no_evidence;
      }
      else current

  -- A finding with the evidence of one more result.
  unfoldable pub extend_finding : Finding → Finding
  extend_finding current = record current {
    evidence = merge_evidence_summary current.evidence result_evidence;
  }

  unfoldable pub group_finding : (rule_id level : Text) → Scan → Outcome Scan
  group_finding rule_id level s =
      let key = finding_key rule_id in
      let current = finding_or_new rule_id level (read_finding (lookup key s.grouped)) in
      if not (text_eq current.level level)
      then failed (Sarif.conflicting_levels rule_id current.level level)
      else done (record s { grouped = put key (extend_finding current) s.grouped })

  -- The body of the loop, on a result that is not suppressed and fails.
  unfoldable pub scan_failing : List (Text × Rule) → ℕ → ScanResult → Scan → Outcome Scan
  scan_failing rules index raw s = do
    rule_id ← wrap (Sarif.in_result index) (resolve_rule_id raw run.driver.rules)
    bounded_value (Sarif.result_rule_id index) rule_id max_rule_id_length true
    let level = level_of raw.level (lookup rule_id rules)
    refuse_when (not (valid_level level) || text_eq level (codes "none"))
        (Sarif.invalid_fail_level index level)
    matches ← wrap (Sarif.in_result index) (result_matches_artifact raw run.artifacts artifact_uri)
    (if matches then group_finding rule_id level s else done (skip s))

  unfoldable pub scan_one : List (Text × Rule) → ℕ → ScanResult → Scan → Outcome Scan
  scan_one rules index raw s =
      let kind = first_non_empty (raw.kind ∷ codes "fail" ∷ []) in
      do
        refuse_when (ltb max_locations_per_result (length raw.locations))
            (Sarif.too_many_locations index)
        refuse_when (ltb max_suppressions_per_result (length raw.suppressions))
            (Sarif.too_many_suppressions index)
        suppressed ← wrap (Sarif.in_result index) (active_suppression raw.suppressions)
        (if suppressed
            then done (skip s)
            else if not (valid_kind kind)
            then failed (Sarif.invalid_kind index kind)
            else if not (text_eq kind (codes "fail"))
            then done (skip s)
            else scan_failing rules index raw s)

  unfoldable pub scan_results : List (Text × Rule) → ℕ → List ScanResult → Scan → Outcome Scan
  scan_results rules index [] s = done s
  scan_results rules index (raw ∷ results) s =
      scan_one rules index raw s >>= λ t. scan_results rules (index + 1) results t

  -- The checks on the whole run.
  unfoldable pub check_run : Outcome (Unit {0})
  unfolding check_invocations
  check_run = do
    bounded_value Sarif.scanner_name run.driver.name max_scanner_name_length true
    bounded_value Sarif.scanner_version_name version_of_run max_scanner_version_length false
    refuse_when (ltb max_rules_per_run (length run.driver.rules)) Sarif.too_many_rules
    refuse_when (ltb max_results_per_run (length run.results)) Sarif.too_many_results
    refuse_when (ltb max_artifacts_per_run (length run.artifacts)) Sarif.too_many_artifacts
    refuse_when (ltb max_invocations_per_run (length run.invocations)) Sarif.too_many_invocations
    check_invocations 0 run.invocations

  -- `findingsForRun`: the findings, and the number of skipped results.
  unfoldable pub findings_for_run : Outcome (List Finding × ℕ)
  findings_for_run = do
    check_run
    rules ← index_rules 0 run.driver.rules []
    s ← scan_results rules 0 run.results (record { grouped = []; skipped = 0 })
    done (sort_slice by_finding (entries_of s.grouped), s.skipped)
