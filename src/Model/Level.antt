-- ===== src/Model/Level.antt =====
-- internal/model/model.go: evidence levels. Go's type is a string, so a level read from a file may
-- be any text; such a level has rank 0.
pub mod Laws
use ai_evidence_bom.Prelude.{ℕ, Bool, ◌||◌, ltb, if◌then◌else◌}
use ai_evidence_bom.Text.{Text, codes, text_eq}

abbrev pub EvidenceLevel : Type 0
EvidenceLevel = Text

abbrev pub evidence_inferred : EvidenceLevel
evidence_inferred = codes "inferred"

abbrev pub evidence_declared : EvidenceLevel
evidence_declared = codes "declared"

abbrev pub evidence_observed : EvidenceLevel
evidence_observed = codes "observed"

abbrev pub evidence_verified : EvidenceLevel
evidence_verified = codes "verified"

-- The zero value of the type.
abbrev pub no_level : EvidenceLevel
no_level = codes ""

unfoldable pub rank : EvidenceLevel → ℕ
rank l =
    if text_eq l evidence_verified
    then 4
    else if text_eq l evidence_observed
    then 3
    else if text_eq l evidence_declared
    then 2
    else if text_eq l evidence_inferred
    then 1
    else 0

unfoldable pub valid : EvidenceLevel → Bool
valid l =
    text_eq l evidence_inferred
    || text_eq l evidence_declared
    || text_eq l evidence_observed
    || text_eq l evidence_verified

unfoldable pub stronger_level : EvidenceLevel → EvidenceLevel → EvidenceLevel
stronger_level a b = if ltb (rank a) (rank b) then b else a
