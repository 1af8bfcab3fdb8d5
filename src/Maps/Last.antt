-- ===== src/Maps/Last.antt =====
-- The last element of a list with an ID, which a map that is filled in order holds.
use ai_evidence_bom.Prelude.{◌≡◌, refl, List, [], ◌∷◌, Option, none, some, if◌then◌else◌}
use ai_evidence_bom.Text.{Text, text_eq}

module _ {B : Type 0} where
  -- What is there already, unless there is something later.
  unfoldable pub later : Option B → Option B → Option B
  later none found = found
  later (some x) found = some x

  -- The last element with an ID.
  unfoldable pub last_with : (B → Text) → Text → List B → Option B
  last_with key id [] = none
  last_with key id (x ∷ xs) =
      later (last_with key id xs) (if text_eq (key x) id then some x else none)

  pub later-none : (found : Option B) → later found none ≡ found
  unfolding later
  later-none none = refl
  later-none (some x) = refl
