-- ===== src/Aggregate/Indices.antt =====
-- The indices of a slice by ID, through the updates and appends of the merging loop.
use ai_evidence_bom.Prelude.{
  ℕ, zero, suc, ◌≡◌, refl, ◌∙◌, ap, false, List, [], ◌∷◌, ◌++◌, Option, none, some, arith, length,
  get_elem?, if◌then◌else◌, ◌==◌,
}
use ai_evidence_bom.Text.{Text, text_eq}
use ai_evidence_bom.Text.Order.{text_order, text_eq_iff}
use ai_evidence_bom.Maps.{lookup, put}
use ai_evidence_bom.Maps.Laws.{lookup-put}
use ai_evidence_bom.Sorting.{find}
use ai_evidence_bom.Sorting.Keys.{IsDistinct}
use ai_evidence_bom.Aggregate.{Indices, update_at}

module _ {ℓ} {A : Type ℓ} (id : A → Text) where
  abbrev pub id_at : Option A → Option Text
  id_at none = none
  id_at (some x) = some (id x)

  -- The indices lead to the elements with their IDs, and every element has an index.
  pub record AreIndices (indices : Indices) (xs : List A) : Type ℓ where
    pub points : (t : Text) (i : ℕ) → lookup t indices ≡ some i → id_at (get_elem? xs i) ≡ some t
    pub covers : (t : Text) → lookup t indices ≡ none → find id t xs ≡ none
    pub distinct : IsDistinct id xs

  pub no_indices : AreIndices [] []
  unfolding lookup find
  no_indices = record { points = λ t i e. cc; covers = λ t e. refl; distinct = tt }

  -- The element at the index of an ID is the one that is found by the ID.
  pub found_at_index :
      (xs : List A) (t : Text) (i : ℕ)
      → IsDistinct id xs
      → id_at (get_elem? xs i) ≡ some t
      → find id t xs ≡ get_elem? xs i
  unfolding find
  found_at_index [] t i d h = cc
  found_at_index (x ∷ xs) t zero d h = ground (arith, text_eq_iff (id x) t)
  found_at_index (x ∷ xs) t (suc i) d h =
      ground (arith, found_at_index xs t i d.1 h, text_eq_iff (id x) t)

  pub find-append :
      (t : Text) (xs : List A) (y : A)
      → find id t (xs ++ y ∷ []) ≡ (elim (find id t xs) [
        | none ↦ if text_eq (id y) t then some y else none
        | some x ↦ some x
      ])
  unfolding find
  find-append t [] y = ground arith
  find-append t (x ∷ xs) y = ground (arith, find-append t xs y)

  module _ (f : A → A) (keeps : (x : A) → id (f x) ≡ id x) where
    abbrev pub apply_to : Option A → Option A
    apply_to none = none
    apply_to (some x) = some (f x)

    -- An update at the index of an ID changes the element with that ID.
    pub find-update_at :
        (xs : List A) (t u : Text) (i : ℕ)
        → IsDistinct id xs
        → id_at (get_elem? xs i) ≡ some t
        → find id u (update_at i f xs)
          ≡ (if text_eq t u then apply_to (find id u xs) else find id u xs)
    unfolding find update_at
    find-update_at [] t u i d h = cc
    find-update_at (x ∷ xs) t u zero d h =
        ground (arith, keeps x, text_eq_iff (id x) u, text_eq_iff t u)
    find-update_at (x ∷ xs) t u (suc i) d h = ground (
      arith,
      find-update_at xs t u i d.1 h,
      found_at_index xs t i d.1 h,
      text_eq_iff (id x) u,
      text_eq_iff t u,
      text_eq_iff (id x) t,
    )

    id-update_at :
        (xs : List A) (i j : ℕ) → id_at (get_elem? (update_at i f xs) j) ≡ id_at (get_elem? xs j)
    unfolding update_at
    id-update_at [] i j = refl
    id-update_at (x ∷ xs) zero zero = ap some (keeps x)
    id-update_at (x ∷ xs) zero (suc j) = refl
    id-update_at (x ∷ xs) (suc i) zero = refl
    id-update_at (x ∷ xs) (suc i) (suc j) = id-update_at xs i j

    absent-update_at :
        (xs : List A) (t : Text) (i : ℕ) → find id t xs ≡ none → find id t (update_at i f xs) ≡ none
    unfolding find update_at
    absent-update_at [] t i h = refl
    absent-update_at (x ∷ xs) t zero h = ground (arith, keeps x)
    absent-update_at (x ∷ xs) t (suc i) h = ground (arith, absent-update_at xs t i)

    IsDistinct-update_at :
        (xs : List A) (i : ℕ) → IsDistinct id xs → IsDistinct id (update_at i f xs)
    unfolding update_at
    IsDistinct-update_at [] i d = tt
    IsDistinct-update_at (x ∷ xs) zero d = (rw (keeps x) d.0, d.1)
    IsDistinct-update_at (x ∷ xs) (suc i) d =
        (absent-update_at xs (id x) i d.0, IsDistinct-update_at xs i d.1)

    pub update_at-AreIndices :
        (indices : Indices) (xs : List A) (i : ℕ)
        → AreIndices indices xs
        → AreIndices indices (update_at i f xs)
    update_at-AreIndices indices xs i h = record {
      points = λ t j e. id-update_at xs i j ∙ h.points t j e;
      covers = λ t e. absent-update_at xs t i (h.covers t e);
      distinct = IsDistinct-update_at xs i h.distinct;
    }

  get_elem?-append :
      (xs : List A) (y : A) (i : ℕ)
      → get_elem? (xs ++ y ∷ []) i ≡ (if i == length xs then some y else get_elem? xs i)
  get_elem?-append [] y zero = refl
  get_elem?-append [] y (suc i) = ground arith
  get_elem?-append (x ∷ xs) y zero = ground arith
  get_elem?-append (x ∷ xs) y (suc i) = ground (arith, get_elem?-append xs y i)

  IsDistinct-append :
      (xs : List A) (y : A)
      → IsDistinct id xs
      → find id (id y) xs ≡ none
      → IsDistinct id (xs ++ y ∷ [])
  unfolding find
  IsDistinct-append [] y d h = (refl, tt)
  IsDistinct-append (x ∷ xs) y d h = (
    ground
        (arith, find-append (id x) xs y, text_eq_iff (id y) (id x), text_eq_iff (id x) (id y), d.0),
    IsDistinct-append xs y d.1 (ground arith),
  )

  index_in_range :
      (xs : List A) (i : ℕ) (t : Text) → id_at (get_elem? xs i) ≡ some t → (i == length xs) ≡ false
  index_in_range [] i t h = cc
  index_in_range (x ∷ xs) zero t h = ground arith
  index_in_range (x ∷ xs) (suc i) t h = ground (arith, index_in_range xs i t h)

  pub append-AreIndices :
      (indices : Indices) (xs : List A) (y : A)
      → AreIndices indices xs
      → lookup (id y) indices ≡ none
      → AreIndices (put (id y) (length xs) indices) (xs ++ y ∷ [])
  append-AreIndices indices xs y h e = record {
    points = λ t i k. ground (
      arith,
      lookup-put (id y) t (length xs) indices,
      h.points t i,
      get_elem?-append xs y i,
      index_in_range xs i t,
      text_eq_iff (id y) t,
    );
    covers = λ t k.
        ground (arith, lookup-put (id y) t (length xs) indices, h.covers t, find-append t xs y);
    distinct = IsDistinct-append xs y h.distinct (h.covers (id y) e);
  }
