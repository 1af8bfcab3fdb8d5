-- ===== src/Time.antt =====
-- `time.Time` as an instant: the nanoseconds from the zero time (year 1), which an instant of the
-- year 0 precedes. The location that `UTC()` changes is no part of an instant.
use ai_evidence_bom.Prelude.{ℕ, ◌≡◌, ◌↔◌, Bool, true, false, ltb, ◌==◌, arith}

-- `negsuc n` is n + 1 nanoseconds before the zero time.
pub data Instant : Type 0 where
  pos : ℕ → Instant
  negsuc : ℕ → Instant

-- The zero value, `time.Time{}`.
abbrev pub zero_time : Instant
zero_time = pos 0

-- `t.IsZero()`.
abbrev pub is_zero : Instant → Bool
is_zero (pos n) = n == 0
is_zero (negsuc n) = false

-- `t.Before(u)`; `t.After(u)` is `before u t`.
abbrev pub before : Instant → Instant → Bool
before (pos m) (pos n) = ltb m n
before (pos m) (negsuc n) = false
before (negsuc m) (pos n) = true
before (negsuc m) (negsuc n) = ltb n m

-- `t.Equal(u)`.
abbrev pub equal : Instant → Instant → Bool
equal (pos m) (pos n) = m == n
equal (negsuc m) (negsuc n) = m == n
equal _ _ = false

pub equal_iff : (t u : Instant) → (equal t u ≡ true) ↔ (t ≡ u)
equal_iff (pos m) (pos n) = ground arith
equal_iff (pos m) (negsuc n) = ground arith
equal_iff (negsuc m) (pos n) = ground arith
equal_iff (negsuc m) (negsuc n) = ground arith

pub before_irrefl : (t : Instant) → before t t ≡ false
before_irrefl (pos m) = ground arith
before_irrefl (negsuc m) = ground arith

pub before_trans : (t u v : Instant) → before t u ≡ true → before u v ≡ true → before t v ≡ true
before_trans (pos m) (pos n) (pos k) h g = ground arith
before_trans (negsuc m) (negsuc n) (negsuc k) h g = ground arith
before_trans t u v h g = ground arith

pub before_total : (t u : Instant) → before t u ≡ false → before u t ≡ false → t ≡ u
before_total (pos m) (pos n) h g = ground arith
before_total (negsuc m) (negsuc n) h g = ground arith
before_total t u h g = ground arith
