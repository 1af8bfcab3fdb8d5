-- ===== src/Sorting.antt =====
-- `sort.Slice` with the comparators that the program gives it, and finding an element by its key.
-- The sort is stable; where no two keys agree the result does not depend on that.
pub mod Keys
pub mod Canonical
pub mod Members
use mathlib.Core.Option.{Option, none, some}
use ai_evidence_bom.Prelude.{Bool, List, [], ◌∷◌, if◌then◌else◌, LinearOrder}

module _ {ℓ} {B : Type ℓ} (less : B → B → Bool) where
  unfoldable pub insert : B → List B → List B
  insert x [] = x ∷ []
  insert x (y ∷ ys) = if less y x then y ∷ insert x ys else x ∷ y ∷ ys

  unfoldable pub sort_slice : List B → List B
  unfolding insert
  sort_slice [] = []
  sort_slice (x ∷ xs) = insert x (sort_slice xs)

module _ {ℓ κ} {A : Type ℓ} {B : Type κ} ⦃o : LinearOrder A⦄ (key : B → A) where
  -- Compare by one key.
  abbrev pub by_key : B → B → Bool
  by_key x y = o.less (key x) (key y)

  -- The first element with the key.
  unfoldable pub find : A → List B → Option B
  find k [] = none
  find k (x ∷ xs) = if o.beq (key x) k then some x else find k xs
