-- ===== src/Model/Level/Laws.antt =====
-- Ranks of levels, and the stronger of two levels.
use ai_evidence_bom.Prelude.{◌≤◌, ◌<◌, ◌≡◌, ◌↔◌, ◌⊎◌, true, arith, refl}
use ai_evidence_bom.Text.{text_eq}
use ai_evidence_bom.Text.Order.{text_eq_iff}
use ai_evidence_bom.Model.Level.{
  EvidenceLevel, rank, valid, stronger_level, no_level, evidence_inferred, evidence_declared,
  evidence_observed, evidence_verified,
}

-- The valid levels are those with a rank.
pub valid_iff_rank : (l : EvidenceLevel) → (valid l ≡ true) ↔ (0 < rank l)
unfolding valid rank
valid_iff_rank l = ground arith

pub rank-le : (l : EvidenceLevel) → rank l ≤ 4
unfolding rank
rank-le l = ground arith

-- A rank above 0 names one level.
pub rank-injective : (a b : EvidenceLevel) → rank a ≡ rank b → 0 < rank a → a ≡ b
unfolding rank
rank-injective a b e h = ground (
  arith,
  text_eq_iff a evidence_verified,
  text_eq_iff a evidence_observed,
  text_eq_iff a evidence_declared,
  text_eq_iff a evidence_inferred,
  text_eq_iff b evidence_verified,
  text_eq_iff b evidence_observed,
  text_eq_iff b evidence_declared,
  text_eq_iff b evidence_inferred,
)

pub rank-stronger_level :
    (a b : EvidenceLevel)
    → (rank a ≤ rank (stronger_level a b))
      × (rank b ≤ rank (stronger_level a b))
      × ((stronger_level a b ≡ a) ⊎ (stronger_level a b ≡ b))
unfolding stronger_level
rank-stronger_level a b = ground arith

stronger_level-tie : (a b : EvidenceLevel) → rank a ≡ rank b → stronger_level a b ≡ a
unfolding stronger_level
stronger_level-tie a b h = ground arith

pub stronger_level_assoc :
    (a b c : EvidenceLevel)
    → stronger_level (stronger_level a b) c ≡ stronger_level a (stronger_level b c)
unfolding stronger_level
stronger_level_assoc a b c = ground arith

pub stronger_level_comm :
    (a b : EvidenceLevel) → (rank a ≡ rank b → a ≡ b) → stronger_level a b ≡ stronger_level b a
unfolding stronger_level
stronger_level_comm a b h = ground arith

stronger_level_comm_iff :
    (a b : EvidenceLevel)
    → (stronger_level a b ≡ stronger_level b a) ↔ ((0 < rank a) ⊎ ((0 < rank b) ⊎ (a ≡ b)))
unfolding stronger_level
stronger_level_comm_iff a b = ground (arith, rank-injective a b)

-- `StrongerLevel` returns one of its arguments, that no argument has a higher rank than, and the first
-- where the ranks agree. The order of the arguments matters only where they are two different levels
-- of rank 0, which are both unknown.
pub stronger_level_lem :
    (a b : EvidenceLevel)
    → ((stronger_level a b ≡ a) ⊎ (stronger_level a b ≡ b))
      × (rank a ≤ rank (stronger_level a b))
      × (rank b ≤ rank (stronger_level a b))
      × (rank a ≡ rank b → stronger_level a b ≡ a)
      × ((stronger_level a b ≡ stronger_level b a) ↔ ((0 < rank a) ⊎ ((0 < rank b) ⊎ (a ≡ b))))
stronger_level_lem a b =
    let (first, second, one) = rank-stronger_level a b in
    (one, first, second, stronger_level-tie a b, stronger_level_comm_iff a b)

-- A level that merging from the zero value can reach.
abbrev pub IsSettled : EvidenceLevel → Type 0
IsSettled l = (0 < rank l) ⊎ (l ≡ no_level)

pub rank-no_level : rank no_level ≡ 0
unfolding rank text_eq
rank-no_level = refl

pub stronger_level-IsSettled : (a b : EvidenceLevel) → IsSettled a → IsSettled (stronger_level a b)
unfolding stronger_level
stronger_level-IsSettled a b h = ground (arith, rank-no_level)
