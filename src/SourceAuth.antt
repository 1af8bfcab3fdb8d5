-- ===== src/SourceAuth.antt =====
-- internal/sourceauth/policy.go: bearer tokens bound to sources by their SHA-256 digests. The hash is
-- a parameter, and decoding the policy's JSON is not modelled.
pub mod Hex
pub mod Bindings
use ai_evidence_bom.Prelude.{
  ℕ, ◌+◌, ◌-◌, ◌*◌, Bool, true, false, not, ◌&&◌, ◌||◌, List, [], ◌∷◌, Option, none, some,
  if◌then◌else◌, is_empty, ltb, leb, ◌==◌, length, map,
}
use ai_evidence_bom.Text.{Text, codes, text_eq, trim_space, byte_length, to_lower}
use ai_evidence_bom.Text.Order.{text_order}
use ai_evidence_bom.Maps.{elem, add}

abbrev pub policy_version : Text
policy_version = codes "0.1.0"

abbrev pub minimum_credential_bytes : ℕ
minimum_credential_bytes = 32

pub record Binding : Type 0 where
  pub source : Text
  pub token_sha256 : Text

pub record Policy : Type 0 where
  pub version : Text
  pub bindings : List Binding

pub data Verdict : Type 0 where
  accepted : Verdict
  unsupported_version : Verdict
  no_binding : Verdict
  empty_source : ℕ → Verdict
  surrounding_whitespace : ℕ → Verdict
  malformed_digest : ℕ → Verdict
  duplicate_digest : ℕ → Verdict

-- The value of a hexadecimal digit of either case.
unfoldable pub hex_digit : ℕ → Option ℕ
hex_digit c =
    if leb b'0' c && leb c b'9'
    then some (c - b'0')
    else if leb b'a' c && leb c b'f'
    then some (c - b'a' + 10)
    else if leb b'A' c && leb c b'F'
    then some (c - b'A' + 10)
    else none

abbrev pub itself : ℕ → ℕ
itself c = c

-- `hex.DecodeString`: `none` is its error, for a character that is no digit or an odd length.
unfoldable pub hex_decode : Text → Option (List ℕ)
unfolding hex_digit
hex_decode [] = some []
hex_decode (c ∷ []) = none
hex_decode (c ∷ d ∷ rest) = elim (hex_digit c) [
  | none ↦ none
  | some high ↦ elim (hex_digit d) [
    | none ↦ none
    | some low ↦ elim (hex_decode rest) [
      | none ↦ none
      | some bytes ↦ some ((16 * high + low) ∷ bytes)
    ]
  ]
]

abbrev pub is_some {ℓ} : {A : Type ℓ} → Option A → Bool
is_some none = false
is_some (some a) = true

-- 64 lowercase hexadecimal characters. A text with letters outside ASCII does not decode, so their
-- case mapping does not matter here.
unfoldable pub is_digest : Text → Bool
unfolding hex_decode
is_digest digest =
    byte_length digest == 64
    && text_eq (to_lower itself digest) digest
    && is_some (hex_decode digest)

unfoldable pub validate_bindings : ℕ → List Text → List Binding → Verdict
unfolding is_digest
validate_bindings index seen [] = Verdict.accepted
validate_bindings index seen (binding ∷ bindings) =
    let source = trim_space binding.source in
    let rest = validate_bindings (index + 1) (add binding.token_sha256 seen) bindings in
    if is_empty source
    then empty_source index
    else if not (text_eq source binding.source)
    then surrounding_whitespace index
    else if not (is_digest binding.token_sha256)
    then malformed_digest index
    else if elem binding.token_sha256 seen
    then duplicate_digest index
    else rest

unfoldable pub validate : Policy → Verdict
unfolding validate_bindings
validate policy =
    if is_empty policy.version && is_empty policy.bindings
    then Verdict.accepted
    else if not (text_eq policy.version policy_version)
    then unsupported_version
    else if is_empty policy.bindings
    then no_binding
    else validate_bindings 0 [] policy.bindings

unfoldable pub enabled : Policy → Bool
enabled policy = not (is_empty policy.bindings)

unfoldable pub protects_binding : List Binding → Text → Bool
protects_binding [] source = false
protects_binding (binding ∷ bindings) source =
    text_eq binding.source source || protects_binding bindings source

unfoldable pub protects : Policy → Text → Bool
unfolding protects_binding
protects policy source = protects_binding policy.bindings source

-- `subtle.ConstantTimeCompare(digest, expected) == 1`, for a binding whose digest decodes.
unfoldable pub matches_binding : List ℕ → Binding → Bool
matches_binding digest binding = elim (hex_decode binding.token_sha256) [
  | none ↦ false
  | some expected ↦ text_eq digest expected
]

-- The loop of `Authenticate`, with `matchedSource` and `matched`.
unfoldable pub scan_bindings : List ℕ → List Binding → Text → Bool → Text × Bool
scan_bindings digest [] source matched = (source, matched)
scan_bindings digest (binding ∷ bindings) source matched =
    let equal = matches_binding digest binding in
    scan_bindings digest bindings (if equal then binding.source else source) (matched || equal)

module _ (sha256 : Text → List ℕ) where
  -- The source that the token is bound to, and whether there is one.
  unfoldable pub authenticate : Policy → Text → Text × Bool
  unfolding scan_bindings matches_binding
  authenticate policy token =
      if ltb (byte_length token) minimum_credential_bytes
      then ([], false)
      else scan_bindings (sha256 token) policy.bindings [] false
