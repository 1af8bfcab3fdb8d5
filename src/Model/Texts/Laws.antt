-- ===== src/Model/Texts/Laws.antt =====
-- What `unique_sorted` holds.
use ai_evidence_bom.Prelude.{
  ◌≡◌, refl, Bool, false, not, ◌&&◌, ◌||◌, List, [], ◌∷◌, ◌++◌, arith, is_empty, Bool-cases, inl,
  inr,
}
use ai_evidence_bom.Text.{Text, trim_space, text_eq, text_less}
use ai_evidence_bom.Text.Order.{text_order, text_eq-is_empty}
use ai_evidence_bom.Sorting.{sort_slice, find}
use ai_evidence_bom.Sorting.Keys.{IsAscending, IsDistinct, sort_slice-IsAscending, find-sort_slice}
use ai_evidence_bom.Sorting.Canonical.{sort_slice_ext}
use ai_evidence_bom.Maps.{add, elem}
use ai_evidence_bom.Maps.Laws.{itself, elem-add, find-itself, add-IsDistinct}
use ai_evidence_bom.Model.Texts.{collect, unique_sorted}

-- The text is one of the list's, trimmed, and not empty.
unfoldable pub names : Text → List Text → Bool
names t [] = false
names t (v ∷ vs) = (not (is_empty t) && text_eq (trim_space v) t) || names t vs

pub names-append : (t : Text) (vs ws : List Text) → names t (vs ++ ws) ≡ (names t vs || names t ws)
unfolding names
names-append t [] ws = refl
names-append t (v ∷ vs) ws = ground (arith, names-append t vs ws)

-- Appending in the other order names the same texts.
pub names-append_comm : (t : Text) (vs ws : List Text) → names t (vs ++ ws) ≡ names t (ws ++ vs)
names-append_comm t vs ws = ground (arith, names-append t vs ws, names-append t ws vs)

elem-collect :
    (t : Text) (vs set : List Text) → elem t (collect vs set) ≡ (names t vs || elem t set)
unfolding collect names
elem-collect t [] set = refl
elem-collect t (v ∷ vs) set = ground (
  arith,
  elem-collect t vs set,
  elem-collect t vs (add (trim_space v) set),
  elem-add (trim_space v) t set,
  text_eq-is_empty (trim_space v) t,
)

collect-IsDistinct :
    (vs set : List Text) → IsDistinct itself set → IsDistinct itself (collect vs set)
unfolding collect
collect-IsDistinct [] set d = d
collect-IsDistinct (v ∷ vs) set d = elim (Bool-cases (is_empty (trim_space v))) [
  | inl e ↦ rw e (collect-IsDistinct vs set d)
  | inr e ↦
      rw e (collect-IsDistinct vs (add (trim_space v) set) (add-IsDistinct (trim_space v) set d))
]

found_alike :
    (k : Text) (vs ws : List Text)
    → names k vs ≡ names k ws
    → find itself k (collect vs []) ≡ find itself k (collect ws [])
unfolding elem
found_alike k vs ws h = ground (
  arith,
  find-itself k (collect vs []),
  find-itself k (collect ws []),
  elem-collect k vs [],
  elem-collect k ws [],
)

-- `unique_sorted` depends on nothing but the texts that its argument names.
pub unique_sorted_ext :
    (vs ws : List Text)
    → ((t : Text) → names t vs ≡ names t ws)
    → unique_sorted vs ≡ unique_sorted ws
unfolding unique_sorted
unique_sorted_ext vs ws h =
    sort_slice_ext itself (collect vs []) (collect ws []) (collect-IsDistinct vs [] tt)
      (collect-IsDistinct ws [] tt) (λ k. found_alike k vs ws (h k))

pub unique_sorted-IsAscending : (vs : List Text) → IsAscending itself (unique_sorted vs)
unfolding unique_sorted
unique_sorted-IsAscending vs =
    sort_slice-IsAscending itself (collect vs []) (collect-IsDistinct vs [] tt)

-- Exactly the texts that the argument names are in the result.
pub elem-unique_sorted : (t : Text) (vs : List Text) → elem t (unique_sorted vs) ≡ names t vs
unfolding unique_sorted elem
elem-unique_sorted t vs = ground (
  arith,
  find-itself t (sort_slice text_less (collect vs [])),
  find-itself t (collect vs []),
  find-sort_slice itself t (collect vs []),
  elem-collect t vs [],
)

-- The result of `uniqueSorted` ascends strictly, and holds exactly the trimmed, non-empty texts of the argument.
pub unique_sorted_lem :
    (vs : List Text)
    → IsAscending itself (unique_sorted vs) × ((t : Text) → elem t (unique_sorted vs) ≡ names t vs)
unique_sorted_lem vs = (unique_sorted-IsAscending vs, λ t. elem-unique_sorted t vs)
