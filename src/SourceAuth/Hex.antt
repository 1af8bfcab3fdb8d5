-- ===== src/SourceAuth/Hex.antt =====
-- Lowercase hexadecimal text and the bytes that it decodes to.
use ai_evidence_bom.Prelude.{
  ℕ, ◌+◌, ◌*◌, ◌<◌, ◌≡◌, refl, sym, ◌∙◌, ap, ap₂, true, false, ◌&&◌, List, [], ◌∷◌, some, arith,
  leb, Option-cases, inl, inr,
}
use ai_evidence_bom.Text.{Text, text_eq, to_lower}
use ai_evidence_bom.SourceAuth.{hex_digit, hex_decode, itself}

-- No character is a capital letter.
abbrev pub IsLowercase : Text → Type 0
IsLowercase [] = Unit
IsLowercase (c ∷ cs) = ((leb b'A' c && leb c b'Z') ≡ false) × IsLowercase cs

pub to_lower-IsLowercase : (s : Text) → text_eq (to_lower itself s) s ≡ true → IsLowercase s
unfolding to_lower text_eq
to_lower-IsLowercase [] h = tt
to_lower-IsLowercase (c ∷ cs) h = (ground arith, to_lower-IsLowercase cs (ground arith))

hex_digit-lt : (c : ℕ) {h : ℕ} → hex_digit c ≡ some h → h < 16
unfolding hex_digit
hex_digit-lt c e = ground arith

hex_digit-injective :
    (c d : ℕ) {h : ℕ}
    → (leb b'A' c && leb c b'Z') ≡ false
    → (leb b'A' d && leb d b'Z') ≡ false
    → hex_digit c ≡ some h
    → hex_digit d ≡ some h
    → c ≡ d
unfolding hex_digit
hex_digit-injective c d u v e f = ground arith

-- A decoded text of two characters and more.
hex_decode-cons :
    (c d : ℕ) (rest : Text) (bytes : List ℕ)
    → hex_decode (c ∷ d ∷ rest) ≡ some bytes
    → (high : ℕ) × (low : ℕ) × (tail : List ℕ) × (hex_digit c ≡ some high)
      × (hex_digit d ≡ some low)
      × (hex_decode rest ≡ some tail)
      × (bytes ≡ (16 * high + low) ∷ tail)
unfolding hex_decode
hex_decode-cons c d rest bytes e = elim (Option-cases (hex_digit c)) [
  | inl n ↦ absurd (ground arith)
  | inr (high, p) ↦ elim (Option-cases (hex_digit d)) [
    | inl n ↦ absurd (ground arith)
    | inr (low, q) ↦ elim (Option-cases (hex_decode rest)) [
      | inl n ↦ absurd (ground arith)
      | inr (tail, r) ↦ (high, low, tail, p, q, r, ground arith)
    ]
  ]
]

byte_parts :
    (h l h' l' : ℕ) (r r' : List ℕ)
    → l < 16
    → l' < 16
    → (16 * h + l) ∷ r ≡ (16 * h' + l') ∷ r'
    → (h ≡ h') × (l ≡ l') × (r ≡ r')
byte_parts h l h' l' r r' p q e = (ground arith, ground arith, ground arith)

pub hex_decode-injective :
    (s t : Text) (bytes : List ℕ)
    → IsLowercase s
    → IsLowercase t
    → hex_decode s ≡ some bytes
    → hex_decode t ≡ some bytes
    → s ≡ t
unfolding hex_decode
hex_decode-injective [] [] bytes u v e f = refl
hex_decode-injective [] (d ∷ []) bytes u v e f = cc
hex_decode-injective [] (c ∷ d ∷ t) bytes u v e f =
    let (h, l, r, p, q, k, x) = hex_decode-cons c d t bytes f in cc
hex_decode-injective (a ∷ []) t bytes u v e f = cc
hex_decode-injective (a ∷ b ∷ s) [] bytes u v e f =
    let (h, l, r, p, q, k, x) = hex_decode-cons a b s bytes e in cc
hex_decode-injective (a ∷ b ∷ s) (c ∷ []) bytes u v e f = cc
hex_decode-injective (a ∷ b ∷ s) (c ∷ d ∷ t) bytes u v e f =
    let (h, l, r, p, q, k, x) = hex_decode-cons a b s bytes e in
    let (h', l', r', p', q', k', x') = hex_decode-cons c d t bytes f in
    let (heads, lows, tails) =
      byte_parts h l h' l' r r' (hex_digit-lt b q) (hex_digit-lt d q') (sym x ∙ x') in
    let first = hex_digit-injective a c u.0 v.0 p (p' ∙ ap some (sym heads)) in
    let second = hex_digit-injective b d u.1.0 v.1.0 q (q' ∙ ap some (sym lows)) in
    ap₂ ◌∷◌ first
      (ap₂ ◌∷◌ second (hex_decode-injective s t r u.1.1 v.1.1 k (k' ∙ ap some (sym tails))))
