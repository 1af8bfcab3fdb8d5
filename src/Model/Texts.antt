-- ===== src/Model/Texts.antt =====
-- internal/model/model.go: `uniqueSorted`, the sorted set of the trimmed, non-empty texts.
pub mod Laws
use ai_evidence_bom.Prelude.{List, [], ◌∷◌, if◌then◌else◌, is_empty}
use ai_evidence_bom.Text.{Text, trim_space, text_less}
use ai_evidence_bom.Text.Order.{text_order}
use ai_evidence_bom.Sorting.{sort_slice}
use ai_evidence_bom.Maps.{add}

-- The first loop: `set` is the map filled so far.
unfoldable pub collect : List Text → List Text → List Text
collect [] set = set
collect (value ∷ values) set =
    let trimmed = trim_space value in
    collect values (if is_empty trimmed then set else add trimmed set)

unfoldable pub unique_sorted : List Text → List Text
unfolding collect
unique_sorted values = sort_slice text_less (collect values [])
