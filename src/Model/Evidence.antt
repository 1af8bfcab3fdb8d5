-- ===== src/Model/Evidence.antt =====
-- internal/model/model.go: evidence summaries, how two of them are merged, and their canonical form.
-- A count is Go's `int`, as its 64-bit pattern. Copies of slices are the slices themselves here.
pub mod Laws
use ai_evidence_bom.Prelude.{ℕ, ◌+◌, ◌%◌, ◌^◌, Bool, not, ◌&&◌, ◌||◌, List, [], ◌++◌, if◌then◌else◌}
use ai_evidence_bom.Text.{Text}
use ai_evidence_bom.Time.{Instant, zero_time, is_zero, before}
use ai_evidence_bom.Model.Level.{EvidenceLevel, no_level, stronger_level}
use ai_evidence_bom.Model.Texts.{unique_sorted}

pub record EvidenceSummary : Type 0 where
  pub level : EvidenceLevel
  pub sources : List Text
  pub first_seen : Instant
  pub last_seen : Instant
  pub observation_count : ℕ
  pub trace_ids : List Text

-- The zero value, which a read of a map returns for a missing key.
abbrev pub no_evidence : EvidenceSummary
no_evidence = record {
  level = no_level;
  sources = [];
  first_seen = zero_time;
  last_seen = zero_time;
  observation_count = 0;
  trace_ids = [];
}

-- `a + b` on 64-bit integers.
unfoldable pub add_int : ℕ → ℕ → ℕ
add_int a b = (a + b) % 2 ^ 64

unfoldable pub merge_first : Instant → Instant → Instant
merge_first a b = if is_zero a || (not (is_zero b) && before b a) then b else a

unfoldable pub merge_last : Instant → Instant → Instant
merge_last a b = if before a b then b else a

unfoldable pub merge_evidence_summary : EvidenceSummary → EvidenceSummary → EvidenceSummary
merge_evidence_summary current incoming = record {
  level = stronger_level current.level incoming.level;
  sources = current.sources ++ incoming.sources;
  first_seen = merge_first current.first_seen incoming.first_seen;
  last_seen = merge_last current.last_seen incoming.last_seen;
  observation_count = add_int current.observation_count incoming.observation_count;
  trace_ids = current.trace_ids ++ incoming.trace_ids;
}

unfoldable pub canonicalize_evidence : EvidenceSummary → EvidenceSummary
canonicalize_evidence evidence = record evidence {
  sources = unique_sorted evidence.sources;
  trace_ids = unique_sorted evidence.trace_ids;
}
