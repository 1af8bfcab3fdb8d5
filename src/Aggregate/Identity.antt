-- ===== src/Aggregate/Identity.antt =====
-- The merging loop, and what becomes of the element with an ID.
use mathlib.Core.List.{append_assoc, append-nil}
use ai_evidence_bom.Prelude.{
  ℕ, ◌≡◌, ◌≢◌, refl, sym, ◌∙◌, ap, subst, subst₂, List, [], ◌∷◌, ◌++◌, Option, none, some, arith,
  length, length-append, get_elem?, Option-cases, inl, inr, if◌then◌else◌,
}
use ai_evidence_bom.Text.{Text, text_eq}
use ai_evidence_bom.Text.Order.{text_order, text_eq_iff}
use ai_evidence_bom.Maps.{lookup, put}
use ai_evidence_bom.Sorting.{find}
use ai_evidence_bom.Sorting.Keys.{IsDistinct}
use ai_evidence_bom.Aggregate.{Indices, index_by, merge_all, update_at}
use ai_evidence_bom.Aggregate.Steps.{merge_all-new, merge_all-known}
use ai_evidence_bom.Aggregate.Indices.{
  id_at, AreIndices, found_at_index, find-append, find-update_at, append-AreIndices,
  update_at-AreIndices, no_indices,
}

module _ {ℓ} {A : Type ℓ} (id : A → Text) where
  found_middle : (pre : List A) (x : A) (xs : List A) → find id (id x) (pre ++ x ∷ xs) ≢ none
  unfolding find
  found_middle [] x xs = ground (arith, text_eq_iff (id x) (id x))
  found_middle (y ∷ pre) x xs = ground (arith, found_middle pre x xs)

  -- Nothing of a list of distinct IDs shares its ID with what stands before it.
  absent_before :
      (pre : List A) (x : A) (xs : List A)
      → IsDistinct id (pre ++ x ∷ xs)
      → find id (id x) pre ≡ none
  unfolding find
  absent_before [] x xs d = refl
  absent_before (y ∷ pre) x xs d =
      ground
        (arith, d.0, found_middle pre x xs, text_eq_iff (id y) (id x), absent_before pre x xs d.1)

  no_index :
      (indices : Indices) (xs : List A) (t : Text)
      → AreIndices id indices xs
      → find id t xs ≡ none
      → lookup t indices ≡ none
  no_index indices xs t h absent = elim (Option-cases (lookup t indices)) [
    | inl e ↦ e
    | inr (i, e) ↦
        ground (arith, h.points t i e, found_at_index id xs t i h.distinct (h.points t i e))
  ]

  index_by-AreIndices :
      (pre xs : List A) (indices : Indices)
      → IsDistinct id (pre ++ xs)
      → AreIndices id indices pre
      → AreIndices id (index_by id (length pre) xs indices) (pre ++ xs)
  unfolding index_by
  index_by-AreIndices pre [] indices d h = rw append-nil h
  index_by-AreIndices pre (x ∷ xs) indices d h =
      let step =
        append-AreIndices id indices pre x h
          (no_index indices pre (id x) h (absent_before pre x xs d)) in
      let all =
        index_by-AreIndices (pre ++ x ∷ []) xs (put (id x) (length pre) indices)
          (subst (IsDistinct id) (sym (append_assoc pre (x ∷ []) xs)) d) step in
      subst₂ (λ i ys. AreIndices id (index_by id i xs (put (id x) (length pre) indices)) ys)
        (omega (arith, length-append pre (x ∷ []))) (append_assoc pre (x ∷ []) xs) all

  module _ (join : A → A → A) where
    -- What becomes of the element with an ID: the candidates with the ID are joined to it in order,
    -- and the first one is taken where there is none.
    unfoldable pub joined : Text → Option A → List A → Option A
    joined t acc [] = acc
    joined t acc (c ∷ cs) =
        joined t
          (if text_eq (id c) t
            then (elim acc [ none ↦ some c | some x ↦ some (join x c) ])
            else acc)
          cs

    found_new :
        (t : Text) (c : A) (result : List A)
        → find id (id c) result ≡ none
        → find id t (result ++ c ∷ []) ≡ (
            if text_eq (id c) t
            then (elim (find id t result) [ none ↦ some c | some x ↦ some (join x c) ])
            else find id t result)
    found_new t c result h = ground (arith, find-append id t result c, text_eq_iff (id c) t)

    module _ (keeps : (x c : A) → id (join x c) ≡ id x) where
      found_known :
          (t : Text) (c : A) (result : List A) (i : ℕ)
          → IsDistinct id result
          → id_at id (get_elem? result i) ≡ some (id c)
          → find id t (update_at i (λ x. join x c) result) ≡ (
              if text_eq (id c) t
              then (elim (find id t result) [ none ↦ some c | some x ↦ some (join x c) ])
              else find id t result)
      found_known t c result i d h = ground (
        arith,
        find-update_at id (λ x. join x c) (λ x. keeps x c) result (id c) t i d h,
        found_at_index id result (id c) i d h,
        text_eq_iff (id c) t,
      )

      find-merge_all :
          (t : Text) (cs : List A) (indices : Indices) (result : List A)
          → AreIndices id indices result
          → (find id t (merge_all id join cs indices result) ≡ joined t (find id t result) cs)
            × IsDistinct id (merge_all id join cs indices result)
      unfolding joined merge_all
      find-merge_all t [] indices result h = (refl, h.distinct)
      find-merge_all t (c ∷ cs) indices result h = elim (Option-cases (lookup (id c) indices)) [
        | inl e ↦
            let new = merge_all-new id join c cs indices result e in
            let (rest, distinct) =
              find-merge_all t cs (put (id c) (length result) indices) (result ++ c ∷ [])
                (append-AreIndices id indices result c h e) in
            (
              ap (find id t) new
                  ∙ rest
                  ∙ ap (λ acc. joined t acc cs) (found_new t c result (h.covers (id c) e)),
              subst (IsDistinct id) (sym new) distinct,
            )
        | inr (i, e) ↦
            let known = merge_all-known id join c cs indices result i e in
            let (rest, distinct) =
              find-merge_all t cs indices (update_at i (λ x. join x c) result)
                (update_at-AreIndices id (λ x. join x c) (λ x. keeps x c) indices result i h) in
            (
              ap (find id t) known
                  ∙ rest
                  ∙ ap (λ acc. joined t acc cs)
                      (found_known t c result i h.distinct (h.points (id c) i e)),
              subst (IsDistinct id) (sym known) distinct,
            )
      ]

      -- Merging a list of candidates into a list of distinct IDs: under every ID stands what the
      -- candidates with the ID make of the element with it, and the IDs stay distinct.
      pub merge_all-joined :
          (t : Text) (cs result : List A)
          → IsDistinct id result
          → (find id t (merge_all id join cs (index_by id 0 result []) result)
              ≡ joined t (find id t result) cs)
            × IsDistinct id (merge_all id join cs (index_by id 0 result []) result)
      merge_all-joined t cs result d =
          find-merge_all t cs (index_by id 0 result []) result
            (index_by-AreIndices [] result [] d (no_indices id))
