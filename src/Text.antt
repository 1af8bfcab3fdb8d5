-- ===== src/Text.antt =====
-- The texts of the program: Go's `string`, as the list of its code points. Byte-wise comparison of
-- valid UTF-8 and comparison of the code points agree.
pub mod Order
use Prim.Native.Char.{code}
use ai_evidence_bom.Prelude.{
  ℕ, zero, suc, ◌+◌, ◌/◌, ◌%◌, ◌≤◌, Bool, true, false, ◌&&◌, ◌||◌, List, [], ◌∷◌, ◌++◌, String, ltb,
  leb, ◌==◌, if◌then◌else◌, is_empty,
}

abbrev pub Text : Type 0
Text = List ℕ

-- The code points of a literal. `String` has its own `[]` and `∷`.
abbrev pub codes : String → Text
codes String.[] = []
codes (String.◌∷◌ c s) = code c ∷ codes s

-- `a == b` on strings.
unfoldable pub text_eq : Text → Text → Bool
text_eq [] [] = true
text_eq (x ∷ xs) (y ∷ ys) = x == y && text_eq xs ys
text_eq _ _ = false

-- `a < b` on strings.
unfoldable pub text_less : Text → Text → Bool
text_less [] [] = false
text_less [] (y ∷ ys) = true
text_less (x ∷ xs) [] = false
text_less (x ∷ xs) (y ∷ ys) = ltb x y || (x == y && text_less xs ys)

-- `unicode.IsSpace`.
is_space : ℕ → Bool
is_space c =
    (leb 9 c && leb c 13)
    || c == 32
    || c == 0x85
    || c == 0xA0
    || c == 0x1680
    || (leb 0x2000 c && leb c 0x200A)
    || c == 0x2028
    || c == 0x2029
    || c == 0x202F
    || c == 0x205F
    || c == 0x3000

trim_left : Text → Text
unfolding is_space
trim_left [] = []
trim_left (c ∷ cs) = if is_space c then trim_left cs else c ∷ cs

-- A trailing run of spaces is cut from the right.
trim_right : Text → Text
unfolding is_space
trim_right [] = []
trim_right (c ∷ cs) =
    let rest = trim_right cs in if is_empty rest && is_space c then [] else c ∷ rest

-- `strings.TrimSpace`.
unfoldable pub trim_space : Text → Text
unfolding trim_left trim_right
trim_space s = trim_right (trim_left s)

-- The number of bytes of a code point in UTF-8, and `len(s)`.
abbrev pub rune_length : ℕ → ℕ
rune_length c = if ltb c 0x80 then 1 else if ltb c 0x800 then 2 else if ltb c 0x10000 then 3 else 4

unfoldable pub byte_length : Text → ℕ
byte_length [] = 0
byte_length (c ∷ cs) = rune_length c + byte_length cs

-- `strings.ToLower`. The case mapping of the runes outside ASCII is the argument.
abbrev pub to_lower_rune : (ℕ → ℕ) → ℕ → ℕ
to_lower_rune lower_rune c =
    if leb b'A' c && leb c b'Z' then c + 32 else if leb 0x80 c then lower_rune c else c

unfoldable pub to_lower : (ℕ → ℕ) → Text → Text
to_lower lower_rune [] = []
to_lower lower_rune (c ∷ cs) = to_lower_rune lower_rune c ∷ to_lower lower_rune cs

-- A number in decimal digits, as `%d` prints it: `fuel` bounds the digits.
digits : ℕ → ℕ → Text → Text
digits zero n text = text
digits (suc fuel) n text =
    let shorter = digits fuel (n / 10) ((n % 10 + b'0') ∷ text) in
    if ltb n 10 then (n + b'0') ∷ text else shorter

unfoldable pub decimal : ℕ → Text
unfolding digits
decimal n = digits (suc n) n []
