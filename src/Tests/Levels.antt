-- ===== src/Tests/Levels.antt =====
-- Levels, texts and evidence summaries at concrete values.
use ai_evidence_bom.Prelude.{◌≡◌, ◌↔◌, ◌⊎◌, ◌<◌, ◌≤◌, inl, [], ◌∷◌, arith}
use ai_evidence_bom.Text.{Text, codes, text_eq}
use ai_evidence_bom.Maps.{elem}
use ai_evidence_bom.Sorting.Keys.{IsAscending}
use ai_evidence_bom.Text.Order.{text_order}
use ai_evidence_bom.Maps.Laws.{itself}
use ai_evidence_bom.Model.Level.{rank, stronger_level}
use ai_evidence_bom.Model.Level.Laws.{stronger_level_lem, IsSettled}
use ai_evidence_bom.Model.Texts.{unique_sorted}
use ai_evidence_bom.Model.Texts.Laws.{names, unique_sorted_lem}
use ai_evidence_bom.Model.Evidence.{merge_evidence_summary, canonicalize_evidence}
use ai_evidence_bom.Model.Evidence.Laws.{merge_evidence_summary_assoc, merge_evidence_summary_comm}
use ai_evidence_bom.Tests.{seen, guessed, verified}

stronger_level_lem_example :
    ((stronger_level (codes "high") (codes "low") ≡ codes "high")
      ⊎ (stronger_level (codes "high") (codes "low") ≡ codes "low"))
    × (rank (codes "high") ≤ rank (stronger_level (codes "high") (codes "low")))
    × (rank (codes "low") ≤ rank (stronger_level (codes "high") (codes "low")))
    × (rank (codes "high") ≡ rank (codes "low")
        → stronger_level (codes "high") (codes "low") ≡ codes "high")
    × ((stronger_level (codes "high") (codes "low") ≡ stronger_level (codes "low") (codes "high"))
        ↔ ((0 < rank (codes "high")) ⊎ ((0 < rank (codes "low")) ⊎ (codes "high" ≡ codes "low"))))
stronger_level_lem_example = stronger_level_lem (codes "high") (codes "low")

unique_sorted_lem_example :
    IsAscending itself (unique_sorted (codes " b" ∷ codes "a" ∷ codes "b" ∷ []))
    × ((t : Text)
        → elem t (unique_sorted (codes " b" ∷ codes "a" ∷ codes "b" ∷ []))
          ≡ names t (codes " b" ∷ codes "a" ∷ codes "b" ∷ []))
unique_sorted_lem_example = unique_sorted_lem (codes " b" ∷ codes "a" ∷ codes "b" ∷ [])

merge_evidence_summary_assoc_example :
    merge_evidence_summary (merge_evidence_summary seen guessed) verified
    ≡ merge_evidence_summary seen (merge_evidence_summary guessed verified)
merge_evidence_summary_assoc_example = merge_evidence_summary_assoc seen guessed verified

seen-IsSettled : IsSettled seen.level
unfolding rank text_eq
seen-IsSettled = inl (ground arith)

guessed-IsSettled : IsSettled guessed.level
unfolding rank text_eq
guessed-IsSettled = inl (ground arith)

merge_evidence_summary_comm_example :
    canonicalize_evidence (merge_evidence_summary seen guessed)
    ≡ canonicalize_evidence (merge_evidence_summary guessed seen)
merge_evidence_summary_comm_example =
    merge_evidence_summary_comm seen guessed seen-IsSettled guessed-IsSettled
