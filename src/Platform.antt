-- ===== src/Platform.antt =====
-- What the program takes from Go's libraries beyond plain code: case tables above ASCII and hashes.
use ai_evidence_bom.Prelude.{
  ℕ, ◌+◌, ◌/◌, ◌%◌, Bool, true, false, ◌&&◌, List, [], ◌∷◌, Option, none, some, ltb, leb, ◌==◌,
  if◌then◌else◌, map,
}
use ai_evidence_bom.Text.{Text, text_eq}

-- `lower_rune` and `fold_rune` are the tables of `strings.ToLower` and `strings.EqualFold` above ASCII.
-- The hashes give bytes: SHA-256 of a text, and HMAC-SHA-256 of a text under a key.
pub record Platform : Type 0 where
  pub lower_rune : ℕ → ℕ
  pub fold_rune : ℕ → ℕ
  pub sha256 : Text → List ℕ
  pub hmac_sha256 : List ℕ → Text → List ℕ

abbrev pub folded_rune : (ℕ → ℕ) → ℕ → ℕ
folded_rune fold_rune c =
    if leb b'A' c && leb c b'Z' then c + 32 else if leb 0x80 c then fold_rune c else c

-- `strings.EqualFold`.
unfoldable pub equal_fold : (ℕ → ℕ) → Text → Text → Bool
equal_fold fold_rune s t = text_eq (map (folded_rune fold_rune) s) (map (folded_rune fold_rune) t)

-- `strings.HasPrefix`.
unfoldable pub has_prefix : Text → Text → Bool
has_prefix s [] = true
has_prefix [] (p ∷ ps) = false
has_prefix (c ∷ cs) (p ∷ ps) = c == p && has_prefix cs ps

-- The text without as many characters as the prefix has.
unfoldable pub drop_prefix : Text → Text → Text
drop_prefix s [] = s
drop_prefix [] (p ∷ ps) = []
drop_prefix (c ∷ cs) (p ∷ ps) = drop_prefix cs ps

-- `strings.TrimPrefix`.
unfoldable pub trim_prefix : Text → Text → Text
unfolding has_prefix drop_prefix
trim_prefix s prefix = if has_prefix s prefix then drop_prefix s prefix else s

abbrev pub hex_character : ℕ → ℕ
hex_character n = if ltb n 10 then b'0' + n else n + 87

-- `hex.EncodeToString`.
unfoldable pub hex_encode : List ℕ → Text
hex_encode [] = []
hex_encode (byte ∷ bytes) = hex_character (byte / 16) ∷ hex_character (byte % 16) ∷ hex_encode bytes

-- `attributes[key]`: the empty text for a missing key.
abbrev pub read_text : Option Text → Text
read_text none = []
read_text (some text) = text
