-- ===== src/Aggregate/Steps.antt =====
-- One round of the loop over the incoming elements.
use ai_evidence_bom.Prelude.{ℕ, ◌≡◌, refl, List, [], ◌∷◌, ◌++◌, none, some, length}
use ai_evidence_bom.Text.{Text}
use ai_evidence_bom.Text.Order.{text_order}
use ai_evidence_bom.Maps.{lookup, put}
use ai_evidence_bom.Aggregate.{Indices, merge_all, update_at}

module _ {ℓ} {A : Type ℓ} (id : A → Text) (join : A → A → A) where
  pub merge_all-new :
      (c : A) (cs : List A) (indices : Indices) (result : List A)
      → lookup (id c) indices ≡ none
      → merge_all id join (c ∷ cs) indices result
        ≡ merge_all id join cs (put (id c) (length result) indices) (result ++ c ∷ [])
  unfolding merge_all
  merge_all-new c cs indices result e = rw (e, merge_all) refl

  pub merge_all-known :
      (c : A) (cs : List A) (indices : Indices) (result : List A) (i : ℕ)
      → lookup (id c) indices ≡ some i
      → merge_all id join (c ∷ cs) indices result
        ≡ merge_all id join cs indices (update_at i (λ x. join x c) result)
  unfolding merge_all
  merge_all-known c cs indices result i e = rw (e, merge_all) refl
