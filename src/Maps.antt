-- ===== src/Maps.antt =====
-- Go maps, as lists of entries with distinct keys. The order of the entries is the order in which
-- one `range` over the map visits them, which Go leaves open: what the program computes by such a
-- loop has to be shown independent of it.
pub mod Laws
pub mod Last
use ai_evidence_bom.Prelude.{
  Bool, true, false, List, [], ◌∷◌, Option, none, some, if◌then◌else◌, LinearOrder, ◌||◌,
}

module _ {ℓ κ} {K : Type ℓ} {V : Type κ} ⦃o : LinearOrder K⦄ where
  -- `v, ok := m[k]`.
  unfoldable pub lookup : K → List (K × V) → Option V
  lookup k [] = none
  lookup k ((j, v) ∷ m) = if o.beq j k then some v else lookup k m

  -- `m[k] = v`.
  unfoldable pub put : K → V → List (K × V) → List (K × V)
  put k v [] = (k, v) ∷ []
  put k v ((j, w) ∷ m) = if o.beq j k then (j, v) ∷ m else (j, w) ∷ put k v m

  -- `delete(m, k)`.
  unfoldable pub delete : K → List (K × V) → List (K × V)
  delete k [] = []
  delete k ((j, v) ∷ m) = let rest = delete k m in if o.beq j k then rest else (j, v) ∷ rest

module _ {ℓ} {K : Type ℓ} ⦃o : LinearOrder K⦄ where
  -- A set is a `map[K]struct{}`: the list of its keys.
  unfoldable pub elem : K → List K → Bool
  elem k [] = false
  elem k (j ∷ s) = o.beq j k || elem k s

  -- `set[k] = struct{}{}`.
  unfoldable pub add : K → List K → List K
  unfolding elem
  add k s = if elem k s then s else k ∷ s
