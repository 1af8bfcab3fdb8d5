-- ===== src/Model/Evidence/Laws.antt =====
-- Merging summaries in other orders.
use mathlib.Core.List.{append_assoc}
use ai_evidence_bom.Prelude.{ℕ, ◌≡◌, List, ◌++◌, arith}
use ai_evidence_bom.Text.{Text}
use ai_evidence_bom.Time.{Instant, pos, negsuc}
use ai_evidence_bom.Model.Level.{EvidenceLevel, rank}
use ai_evidence_bom.Model.Level.Laws.{
  stronger_level_assoc, stronger_level_comm, IsSettled, rank-no_level, rank-injective,
}
use ai_evidence_bom.Model.Texts.{unique_sorted}
use ai_evidence_bom.Model.Texts.Laws.{unique_sorted_ext, names-append_comm}
use ai_evidence_bom.Model.Evidence.{
  EvidenceSummary, add_int, merge_first, merge_last, merge_evidence_summary, canonicalize_evidence,
}

pub merge_first_comm : (a b : Instant) → merge_first a b ≡ merge_first b a
unfolding merge_first
merge_first_comm (pos m) (pos n) = ground arith
merge_first_comm (pos m) (negsuc n) = ground arith
merge_first_comm (negsuc m) (pos n) = ground arith
merge_first_comm (negsuc m) (negsuc n) = ground arith

pub merge_last_comm : (a b : Instant) → merge_last a b ≡ merge_last b a
unfolding merge_last
merge_last_comm (pos m) (pos n) = ground arith
merge_last_comm (pos m) (negsuc n) = ground arith
merge_last_comm (negsuc m) (pos n) = ground arith
merge_last_comm (negsuc m) (negsuc n) = ground arith

pub merge_first_assoc :
    (a b c : Instant) → merge_first (merge_first a b) c ≡ merge_first a (merge_first b c)
unfolding merge_first
merge_first_assoc a b c = ground arith

pub merge_last_assoc :
    (a b c : Instant) → merge_last (merge_last a b) c ≡ merge_last a (merge_last b c)
unfolding merge_last
merge_last_assoc a b c = ground arith

pub add_int_comm : (a b : ℕ) → add_int a b ≡ add_int b a
unfolding add_int
add_int_comm a b = omega arith

pub add_int_assoc : (a b c : ℕ) → add_int (add_int a b) c ≡ add_int a (add_int b c)
unfolding add_int
add_int_assoc a b c = omega arith

-- `MergeEvidenceSummary` is associative.
pub merge_evidence_summary_assoc :
    (a b c : EvidenceSummary)
    → merge_evidence_summary (merge_evidence_summary a b) c
      ≡ merge_evidence_summary a (merge_evidence_summary b c)
unfolding merge_evidence_summary
merge_evidence_summary_assoc a b c = λ i. record {
  level = stronger_level_assoc a.level b.level c.level i;
  sources = append_assoc a.sources b.sources c.sources i;
  first_seen = merge_first_assoc a.first_seen b.first_seen c.first_seen i;
  last_seen = merge_last_assoc a.last_seen b.last_seen c.last_seen i;
  observation_count = add_int_assoc a.observation_count b.observation_count c.observation_count i;
  trace_ids = append_assoc a.trace_ids b.trace_ids c.trace_ids i;
}

unique_sorted-append_comm :
    (vs ws : List Text) → unique_sorted (vs ++ ws) ≡ unique_sorted (ws ++ vs)
unique_sorted-append_comm vs ws =
    unique_sorted_ext (vs ++ ws) (ws ++ vs) (λ t. names-append_comm t vs ws)

settled_apart : (a b : EvidenceLevel) → IsSettled a → IsSettled b → rank a ≡ rank b → a ≡ b
settled_apart a b h k e = ground (arith, rank-injective a b, rank-no_level)

-- Merging in the other order gives the same canonical summary, where no level is unknown.
pub merge_evidence_summary_comm :
    (a b : EvidenceSummary)
    → IsSettled a.level
    → IsSettled b.level
    → canonicalize_evidence (merge_evidence_summary a b)
      ≡ canonicalize_evidence (merge_evidence_summary b a)
unfolding merge_evidence_summary canonicalize_evidence
merge_evidence_summary_comm a b h k = λ i. record {
  level = stronger_level_comm a.level b.level (settled_apart a.level b.level h k) i;
  sources = unique_sorted-append_comm a.sources b.sources i;
  first_seen = merge_first_comm a.first_seen b.first_seen i;
  last_seen = merge_last_comm a.last_seen b.last_seen i;
  observation_count = add_int_comm a.observation_count b.observation_count i;
  trace_ids = unique_sorted-append_comm a.trace_ids b.trace_ids i;
}
