-- ===== src/Sorting/Keys.antt =====
-- Ascending lists of keyed elements.
use ai_evidence_bom.Prelude.{
  ◌≡◌, refl, ◌∙◌, Bool, All, true, false, List, [], ◌∷◌, none, some, arith, LinearOrder, Bool-cases,
  inl, inr, if◌then◌else◌,
}
use ai_evidence_bom.Sorting.{insert, sort_slice, by_key, find}

module _ {ℓ κ} {A : Type ℓ} {B : Type κ} ⦃o : LinearOrder A⦄ (key : B → A) where
  -- The key is below every key of the list.
  abbrev pub Below : A → List B → Type 0
  Below k [] = Unit
  Below k (x ∷ xs) = (o.less k (key x) ≡ true) × Below k xs

  abbrev pub IsAscending : List B → Type 0
  IsAscending [] = Unit
  IsAscending (x ∷ xs) = Below (key x) xs × IsAscending xs

  -- No two elements have one key.
  abbrev pub IsDistinct : List B → Type κ
  IsDistinct [] = Unit
  IsDistinct (x ∷ xs) = (find key (key x) xs ≡ none) × IsDistinct xs

module _ {ℓ κ} {A : Type ℓ} {B : Type κ} ⦃o : LinearOrder A⦄ (key : B → A) where
  pub find-insert :
      (k : A) (x : B) (xs : List B)
      → find key k (insert (by_key key) x xs) ≡ (if o.beq (key x) k then some x else find key k xs)
  unfolding find insert
  find-insert k x [] = refl
  find-insert k x (y ∷ ys) =
      ground (arith, find-insert k x ys, o.beq_iff (key x) k, o.beq_iff (key y) k, o.irrefl (key x))

  -- Sorting neither loses, invents nor reorders what stands under one key.
  pub find-sort_slice :
      (k : A) (xs : List B) → find key k (sort_slice (by_key key) xs) ≡ find key k xs
  unfolding sort_slice find
  find-sort_slice k [] = refl
  find-sort_slice k (x ∷ xs) =
      ground (arith, find-insert k x (sort_slice (by_key key) xs), find-sort_slice k xs)

  Below-trans : (j k : A) (xs : List B) → o.less j k ≡ true → Below key k xs → Below key j xs
  Below-trans j k [] h b = tt
  Below-trans j k (x ∷ xs) h b = (o.trans j k (key x) h b.0, Below-trans j k xs h b.1)

  pub find-Below :
      (j k : A) (xs : List B) → Below key j xs → o.less j k ≡ false → find key k xs ≡ none
  unfolding find
  find-Below j k [] b h = refl
  find-Below j k (x ∷ xs) b h = ground (arith, o.beq_iff (key x) k, find-Below j k xs b.1 h, b.0)

  Below-insert :
      (j : A) (x : B) (xs : List B)
      → o.less j (key x) ≡ true
      → Below key j xs
      → Below key j (insert (by_key key) x xs)
  unfolding insert
  Below-insert j x [] h b = (h, tt)
  Below-insert j x (y ∷ ys) h b = elim (Bool-cases (o.less (key y) (key x))) [
    | inl e ↦ rw e (b.0, Below-insert j x ys h b.1)
    | inr e ↦ rw e (h, b)
  ]

  find-tail :
      (x y : B) (ys : List B) → find key (key x) (y ∷ ys) ≡ none → find key (key x) ys ≡ none
  unfolding find
  find-tail x y ys h = ground arith

  lt_of_absent :
      (x y : B) (ys : List B)
      → o.less (key y) (key x) ≡ false
      → find key (key x) (y ∷ ys) ≡ none
      → o.less (key x) (key y) ≡ true
  unfolding find
  lt_of_absent x y ys e h = ground (arith, o.total (key y) (key x) e, o.beq_iff (key y) (key x))

  pub insert-IsAscending :
      (x : B) (xs : List B)
      → IsAscending key xs
      → find key (key x) xs ≡ none
      → IsAscending key (insert (by_key key) x xs)
  unfolding insert find
  insert-IsAscending x [] a h = (tt, tt)
  insert-IsAscending x (y ∷ ys) a h = elim (Bool-cases (o.less (key y) (key x))) [
    | inl e ↦
        rw e (Below-insert (key y) x ys e a.0, insert-IsAscending x ys a.1 (find-tail x y ys h))
    | inr e ↦
        let lt = lt_of_absent x y ys e h in rw e ((lt, Below-trans (key x) (key y) ys lt a.0), a)
  ]

  -- Sorting by distinct keys gives an ascending list.
  pub sort_slice-IsAscending :
      (xs : List B) → IsDistinct key xs → IsAscending key (sort_slice (by_key key) xs)
  unfolding sort_slice
  sort_slice-IsAscending [] d = tt
  sort_slice-IsAscending (x ∷ xs) d =
      insert-IsAscending x (sort_slice (by_key key) xs) (sort_slice-IsAscending xs d.1)
        (find-sort_slice (key x) xs ∙ d.0)

module _ {ℓ κ} {B : Type ℓ} (P : B → Type κ) (less : B → B → Bool) where
  All-insert : (x : B) (xs : List B) → P x → All P xs → All P (insert less x xs)
  unfolding insert
  All-insert x [] p h = (p, tt)
  All-insert x (y ∷ ys) p h = elim (Bool-cases (less y x)) [
    | inl e ↦ rw e (h.0, All-insert x ys p h.1)
    | inr e ↦ rw e (p, h)
  ]

  -- A property of every element survives sorting.
  pub All-sort_slice : (xs : List B) → All P xs → All P (sort_slice less xs)
  unfolding sort_slice
  All-sort_slice [] h = tt
  All-sort_slice (x ∷ xs) h = All-insert x (sort_slice less xs) h.0 (All-sort_slice xs h.1)
