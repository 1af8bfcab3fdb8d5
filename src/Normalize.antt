-- ===== src/Normalize.antt =====
-- internal/normalize/normalize.go: reading attributes, and the evidence that an observation gives.
pub mod Context
pub mod Prepare
pub mod Privacy
pub mod Inputs
pub mod Builder
use ai_evidence_bom.Prelude.{
  ℕ, Bool, true, false, ◌||◌, List, [], ◌∷◌, ◌++◌, Option, if◌then◌else◌, is_empty, ltb, length,
  take,
}
use ai_evidence_bom.Text.{Text, codes, trim_space}
use ai_evidence_bom.Text.Order.{text_order}
use ai_evidence_bom.Maps.{lookup, put}
use ai_evidence_bom.Model.Evidence.{EvidenceSummary, merge_evidence_summary}
use ai_evidence_bom.Model.Graph.{TextMap}
use ai_evidence_bom.Observation.{Observation}
use ai_evidence_bom.Platform.{has_prefix, trim_prefix, read_text}

unfoldable pub first : TextMap → List Text → Text
first attrs [] = []
first attrs (key ∷ keys) =
    let value = trim_space (read_text (lookup key attrs)) in
    let rest = first attrs keys in if is_empty value then rest else value

unfoldable pub first_non_empty : List Text → Text
first_non_empty [] = []
first_non_empty (value ∷ values) =
    let rest = first_non_empty values in
    if is_empty (trim_space value) then rest else trim_space value

-- The loop of `selected`, with the map that it fills.
unfoldable pub select_keys : TextMap → List Text → TextMap → TextMap
select_keys attrs [] out = out
select_keys attrs (key ∷ keys) out =
    let value = trim_space (read_text (lookup key attrs)) in
    select_keys attrs keys (if is_empty value then out else put key value out)

unfoldable pub selected : TextMap → List Text → TextMap
unfolding select_keys
selected attrs keys = select_keys attrs keys []

unfoldable pub truth : Bool → Text
truth value = if value then codes "true" else codes "false"

unfoldable pub has_gen_ai_attributes : TextMap → Bool
has_gen_ai_attributes [] = false
has_gen_ai_attributes ((key, value) ∷ attrs) =
    has_prefix key (codes "gen_ai.") || has_prefix key (codes "mcp.") || has_gen_ai_attributes attrs

unfoldable pub span_entity_name : Text → Text → Text
span_entity_name span_name operation =
    let name = trim_space span_name in
    let prefix = operation ++ codes " " in
    if has_prefix name prefix then trim_space (trim_prefix name prefix) else []

-- A list of one text, or of none.
abbrev pub given : Text → List Text
given text = if is_empty text then [] else text ∷ []

unfoldable pub observation_evidence : Observation → EvidenceSummary
observation_evidence observation = record {
  level = observation.level;
  sources = given observation.source;
  first_seen = observation.timestamp;
  last_seen = observation.timestamp;
  observation_count = 1;
  trace_ids = given observation.trace_id;
}

abbrev pub max_trace_ids : ℕ
max_trace_ids = 20

-- `if len(ids) > 20 { ids = ids[:20] }`.
unfoldable pub cut_trace_ids : EvidenceSummary → EvidenceSummary
cut_trace_ids summary =
    if ltb max_trace_ids (length summary.trace_ids)
    then record summary { trace_ids = take max_trace_ids summary.trace_ids }
    else summary

unfoldable pub merge_evidence : EvidenceSummary → Observation → EvidenceSummary
unfolding cut_trace_ids observation_evidence
merge_evidence summary observation =
    cut_trace_ids (merge_evidence_summary summary (observation_evidence observation))
