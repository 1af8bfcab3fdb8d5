-- ===== src/Text/Order.antt =====
-- The order of texts.
use ai_evidence_bom.Prelude.{◌≡◌, refl, ◌↔◌, true, false, [], ◌∷◌, arith, LinearOrder, is_empty, ap}
use ai_evidence_bom.Text.{Text, text_eq, text_less}

pub text_eq_iff : (s t : Text) → (text_eq s t ≡ true) ↔ (s ≡ t)
unfolding text_eq
text_eq_iff [] [] = ground arith
text_eq_iff [] (y ∷ ys) = ground arith
text_eq_iff (x ∷ xs) [] = ground arith
text_eq_iff (x ∷ xs) (y ∷ ys) = ground (arith, text_eq_iff xs ys)

pub text_less_irrefl : (s : Text) → text_less s s ≡ false
unfolding text_less
text_less_irrefl [] = refl
text_less_irrefl (x ∷ xs) = ground (arith, text_less_irrefl xs)

pub text_less_trans :
    (s t u : Text) → text_less s t ≡ true → text_less t u ≡ true → text_less s u ≡ true
unfolding text_less
text_less_trans [] [] u h k = ground arith
text_less_trans [] (y ∷ t) [] h k = ground arith
text_less_trans [] (y ∷ t) (z ∷ u) h k = refl
text_less_trans (x ∷ s) [] u h k = ground arith
text_less_trans (x ∷ s) (y ∷ t) [] h k = ground arith
text_less_trans (x ∷ s) (y ∷ t) (z ∷ u) h k = ground (arith, text_less_trans s t u)

pub text_less_total : (s t : Text) → text_less s t ≡ false → text_less t s ≡ false → s ≡ t
unfolding text_less
text_less_total [] [] h k = refl
text_less_total [] (y ∷ t) h k = ground arith
text_less_total (x ∷ s) [] h k = ground arith
text_less_total (x ∷ s) (y ∷ t) h k = ground (arith, text_less_total s t)

pub text_not_less_trans :
    (s t u : Text) → text_less s t ≡ false → text_less t u ≡ false → text_less s u ≡ false
unfolding text_less
text_not_less_trans [] [] u h k = ground arith
text_not_less_trans [] (y ∷ t) u h k = ground arith
text_not_less_trans (x ∷ s) [] [] h k = ground arith
text_not_less_trans (x ∷ s) [] (z ∷ u) h k = ground arith
text_not_less_trans (x ∷ s) (y ∷ t) [] h k = ground arith
text_not_less_trans (x ∷ s) (y ∷ t) (z ∷ u) h k = ground (arith, text_not_less_trans s t u)

instance abbrev pub text_order : LinearOrder Text
text_order = record {
  beq = text_eq;
  less = text_less;
  beq_iff = text_eq_iff;
  irrefl = text_less_irrefl;
  trans = text_less_trans;
  total = text_less_total;
}

-- A text that equals an empty one is empty, and the other way round.
pub text_eq-is_empty : (s t : Text) → text_eq s t ≡ true → is_empty s ≡ is_empty t
text_eq-is_empty s t h = ap is_empty ((text_eq_iff s t).0 h)

pub text_eq-nil : (s : Text) → text_eq s [] ≡ is_empty s
unfolding text_eq
text_eq-nil [] = refl
text_eq-nil (x ∷ s) = refl
