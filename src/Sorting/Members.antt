-- ===== src/Sorting/Members.antt =====
-- The elements of a sorted list.
use mathlib.Core.List.{Memᴰ}
use mathlib.Core.List.Memᴰ
use ai_evidence_bom.Prelude.{◌≡◌, Bool, List, [], ◌∷◌, Bool-cases, inl, inr, ◌⊎◌}
use ai_evidence_bom.Sorting.{insert, sort_slice}

pub Memᴰ-cases {ℓ} : {B : Type ℓ} {a x : B} {xs : List B} → Memᴰ a (x ∷ xs) → (a ≡ x) ⊎ Memᴰ a xs
Memᴰ-cases (Memᴰ.head e) = inl e
Memᴰ-cases (Memᴰ.tail m) = inr m

module _ {ℓ} {B : Type ℓ} (less : B → B → Bool) where
  mem-insert_self : (a x : B) (xs : List B) → a ≡ x → Memᴰ a (insert less x xs)
  unfolding insert
  mem-insert_self a x [] e = Memᴰ.head e
  mem-insert_self a x (y ∷ ys) e = elim (Bool-cases (less y x)) [
    | inl h ↦ rw h (Memᴰ.tail (mem-insert_self a x ys e))
    | inr h ↦ rw h (Memᴰ.head e)
  ]

  mem-insert_of_mem : (a x : B) (xs : List B) → Memᴰ a xs → Memᴰ a (insert less x xs)
  unfolding insert
  mem-insert_of_mem a x [] m = elim (Memᴰ.not-nil m) [ ]
  mem-insert_of_mem a x (y ∷ ys) m = elim (Bool-cases (less y x)) [
    | inl h ↦ elim (Memᴰ-cases m) [
      | inl e ↦ rw h (Memᴰ.head e)
      | inr k ↦ rw h (Memᴰ.tail (mem-insert_of_mem a x ys k))
    ]
    | inr h ↦ rw h (Memᴰ.tail m)
  ]

  mem_of_mem-insert : (a x : B) (xs : List B) → Memᴰ a (insert less x xs) → Memᴰ a (x ∷ xs)
  unfolding insert
  mem_of_mem-insert a x [] m = m
  mem_of_mem-insert a x (y ∷ ys) m = elim (Bool-cases (less y x)) [
    | inl h ↦ elim (Memᴰ-cases (rw h at m)) [
      | inl e ↦ Memᴰ.tail (Memᴰ.head e)
      | inr k ↦ elim (Memᴰ-cases (mem_of_mem-insert a x ys k)) [
        | inl e ↦ Memᴰ.head e
        | inr l ↦ Memᴰ.tail (Memᴰ.tail l)
      ]
    ]
    | inr h ↦ rw h at m
  ]

  pub mem-sort_slice : (a : B) (xs : List B) → Memᴰ a xs → Memᴰ a (sort_slice less xs)
  unfolding sort_slice
  mem-sort_slice a [] m = m
  mem-sort_slice a (x ∷ xs) m = elim (Memᴰ-cases m) [
    | inl e ↦ mem-insert_self a x (sort_slice less xs) e
    | inr k ↦ mem-insert_of_mem a x (sort_slice less xs) (mem-sort_slice a xs k)
  ]

  pub mem_of_mem-sort_slice : (a : B) (xs : List B) → Memᴰ a (sort_slice less xs) → Memᴰ a xs
  unfolding sort_slice
  mem_of_mem-sort_slice a [] m = m
  mem_of_mem-sort_slice a (x ∷ xs) m =
      elim (Memᴰ-cases (mem_of_mem-insert a x (sort_slice less xs) m)) [
        | inl e ↦ Memᴰ.head e
        | inr k ↦ Memᴰ.tail (mem_of_mem-sort_slice a xs k)
      ]
