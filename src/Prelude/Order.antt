-- ===== src/Prelude/Order.antt =====
-- A linear order with a Boolean test, the shape of the comparators that the program sorts by.
use mathlib.Core.Path.{◌≡◌, refl}
use mathlib.Core.Logic.{◌↔◌}
use mathlib.Core.Bool.{Bool, true, false}
use native.Mathlib.Omega.{arith}

pub record LinearOrder {ℓ} (A : Type ℓ) : Type ℓ where
  pub less : A → A → Bool
  pub beq : A → A → Bool
  pub irrefl : (a : A) → less a a ≡ false
  pub trans : (a b c : A) → less a b ≡ true → less b c ≡ true → less a c ≡ true
  pub total : (a b : A) → less a b ≡ false → less b a ≡ false → a ≡ b
  pub beq_iff : (x y : A) → (beq x y ≡ true) ↔ (x ≡ y)

module _ {ℓ} {A : Type ℓ} ⦃o : LinearOrder A⦄ where
  pub beq_refl : (a : A) → o.beq a a ≡ true
  beq_refl a = (o.beq_iff a a).1 refl

  pub beq_symm : (a b : A) → o.beq a b ≡ false → o.beq b a ≡ false
  beq_symm a b h = ground (arith, o.beq_iff a b, o.beq_iff b a)

  pub less_asymm : (a b : A) → o.less a b ≡ true → o.less b a ≡ false
  less_asymm a b h = ground (arith, o.trans a b a, o.irrefl a)
