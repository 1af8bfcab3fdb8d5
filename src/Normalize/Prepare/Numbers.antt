-- ===== src/Normalize/Prepare/Numbers.antt =====
-- Lists of distinct numbers below a bound.
use ai_evidence_bom.Prelude.{
  ℕ, zero, suc, ◌<◌, ◌≤◌, ◌≡◌, refl, false, List, [], ◌∷◌, arith, ltb, ◌==◌, length, All,
  LinearOrder, if◌then◌else◌, inl, inr, Bool-cases,
}
use ai_evidence_bom.Maps.{elem}

instance pub number_order : LinearOrder ℕ
number_order = record {
  beq = λ a b. a == b;
  less = λ a b. ltb a b;
  beq_iff = λ a b. ground arith;
  irrefl = λ a. ground arith;
  trans = λ a b c h k. ground arith;
  total = λ a b h k. ground arith;
}

-- No number occurs twice.
abbrev pub AreDistinct : List ℕ → Type 0
AreDistinct [] = Unit
AreDistinct (x ∷ xs) = (elem x xs ≡ false) × AreDistinct xs

without : ℕ → List ℕ → List ℕ
without n [] = []
without n (x ∷ xs) = let rest = without n xs in if x == n then rest else x ∷ rest

elem-without : (n x : ℕ) (xs : List ℕ) → elem x xs ≡ false → elem x (without n xs) ≡ false
unfolding without elem
elem-without n x [] h = refl
elem-without n x (y ∷ ys) h = ground (arith, elem-without n x ys)

without-AreDistinct : (n : ℕ) (xs : List ℕ) → AreDistinct xs → AreDistinct (without n xs)
unfolding without
without-AreDistinct n [] d = tt
without-AreDistinct n (x ∷ xs) d = elim (Bool-cases (x == n)) [
  | inl e ↦ rw e (without-AreDistinct n xs d.1)
  | inr e ↦ rw e (elem-without n x xs d.0, without-AreDistinct n xs d.1)
]

without-absent : (n : ℕ) (xs : List ℕ) → elem n xs ≡ false → without n xs ≡ xs
unfolding without elem
without-absent n [] h = refl
without-absent n (x ∷ xs) h = ground (arith, without-absent n xs, number_order.beq_iff x n)

length-without : (n : ℕ) (xs : List ℕ) → AreDistinct xs → length xs ≤ suc (length (without n xs))
unfolding without
length-without n [] d = omega arith
length-without n (x ∷ xs) d = elim (Bool-cases (x == n)) [
  | inl e ↦ ground (arith, without-absent n xs)
  | inr e ↦ rw e (omega (arith, length-without n xs d.1))
]

without-All : (n : ℕ) (xs : List ℕ) → All (λ x. x < suc n) xs → All (λ x. x < n) (without n xs)
unfolding without
without-All n [] h = tt
without-All n (x ∷ xs) h = elim (Bool-cases (x == n)) [
  | inl e ↦ rw e (without-All n xs h.1)
  | inr e ↦ rw e (ground (arith, h.0), without-All n xs h.1)
]

-- Distinct numbers below `n` are at most `n`.
pub length-AreDistinct :
    (n : ℕ) (xs : List ℕ) → AreDistinct xs → All (λ x. x < n) xs → length xs ≤ n
length-AreDistinct zero [] d h = omega arith
length-AreDistinct zero (x ∷ xs) d h = absurd (omega (arith, h.0))
length-AreDistinct (suc n) xs d h = omega (
  arith,
  length-without n xs d,
  length-AreDistinct n (without n xs) (without-AreDistinct n xs d) (without-All n xs h),
)
