-- ===== src/Sorting/Canonical.antt =====
-- Ascending lists in which the same is found.
use ai_evidence_bom.Prelude.{
  ◌≡◌, refl, sym, ◌∙◌, ap₂, List, [], ◌∷◌, none, some, arith, LinearOrder, beq_refl, less_asymm,
}
use ai_evidence_bom.Sorting.{sort_slice, by_key, find}
use ai_evidence_bom.Sorting.Keys.{
  Below, IsAscending, IsDistinct, find-Below, find-sort_slice, sort_slice-IsAscending,
}

module _ {ℓ κ} {A : Type ℓ} {B : Type κ} ⦃o : LinearOrder A⦄ (key : B → A) where
  find_nil : (k : A) → find key k [] ≡ none
  unfolding find
  find_nil k = refl

  find_head : (x : B) (xs : List B) → find key (key x) (x ∷ xs) ≡ some x
  unfolding find
  find_head x xs = ground (arith, beq_refl (key x))

  -- Of two lists that hold the same under every key the heads agree.
  heads_agree :
      (x y : B) (xs ys : List B)
      → Below key (key x) xs
      → Below key (key y) ys
      → ((k : A) → find key k (x ∷ xs) ≡ find key k (y ∷ ys))
      → x ≡ y
  unfolding find
  heads_agree x y xs ys bx by h = ground (
    arith,
    h (key x),
    h (key y),
    find-Below key (key y) (key x) ys by,
    find-Below key (key x) (key y) xs bx,
    less_asymm (key x) (key y),
    o.total (key x) (key y),
    o.beq_iff (key x) (key y),
    o.beq_iff (key y) (key x),
    beq_refl (key x),
    beq_refl (key y),
  )

  tails_agree :
      (x y : B) (xs ys : List B)
      → x ≡ y
      → Below key (key x) xs
      → Below key (key y) ys
      → ((k : A) → find key k (x ∷ xs) ≡ find key k (y ∷ ys))
      → (k : A) → find key k xs ≡ find key k ys
  unfolding find
  tails_agree x y xs ys e bx by h k = ground (
    arith,
    h k,
    o.beq_iff (key x) k,
    find-Below key (key x) k xs bx,
    find-Below key (key y) k ys by,
    o.irrefl (key x),
  )

  -- Two ascending lists that hold the same under every key are one list.
  pub ascending_ext :
      (xs ys : List B)
      → IsAscending key xs
      → IsAscending key ys
      → ((k : A) → find key k xs ≡ find key k ys)
      → xs ≡ ys
  ascending_ext [] [] ax ay h = refl
  ascending_ext [] (y ∷ ys) ax ay h = cc (h (key y), find_nil (key y), find_head y ys)
  ascending_ext (x ∷ xs) [] ax ay h = cc (h (key x), find_nil (key x), find_head x xs)
  ascending_ext (x ∷ xs) (y ∷ ys) ax ay h =
      let e = heads_agree x y xs ys ax.0 ay.0 h in
      ap₂ ◌∷◌ e (ascending_ext xs ys ax.1 ay.1 (tails_agree x y xs ys e ax.0 ay.0 h))

  -- Two lists of distinct keys that hold the same under every key are sorted to one list.
  pub sort_slice_ext :
      (xs ys : List B)
      → IsDistinct key xs
      → IsDistinct key ys
      → ((k : A) → find key k xs ≡ find key k ys)
      → sort_slice (by_key key) xs ≡ sort_slice (by_key key) ys
  sort_slice_ext xs ys dx dy h =
      ascending_ext _ _ (sort_slice-IsAscending key xs dx) (sort_slice-IsAscending key ys dy)
        (λ k. find-sort_slice key k xs ∙ h k ∙ sym (find-sort_slice key k ys))
