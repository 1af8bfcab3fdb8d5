-- ===== src/Integer.antt =====
-- Go's signed integers.
use ai_evidence_bom.Prelude.{ℕ}

-- `int` and `int64`: `negsuc n` is - (n + 1).
pub data ℤ : Type 0 where
  pos : ℕ → ℤ
  negsuc : ℕ → ℤ
