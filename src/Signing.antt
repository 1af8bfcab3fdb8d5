-- ===== src/Signing.antt =====
-- internal/signing/signing.go: snapshots are signed, raw or in a canonical form, and verified. The
-- libraries' signatures, hashes, encodings and parsers are parameters. Times are instants here, which
-- `normalizeGraphTimes` does not change.
pub mod Identity
pub mod RoundTrip
pub mod Identified
pub mod Consistent
pub mod Shown
use ai_evidence_bom.Prelude.{
  ℕ, ◌+◌, Bool, true, false, not, ◌&&◌, ◌||◌, List, [], ◌∷◌, ◌++◌, Option, none, some,
  if◌then◌else◌, is_empty, any, Result, failed, done, unless, or_fail, ◌>>=◌,
}
use ai_evidence_bom.Text.{Text, codes, text_eq}
use ai_evidence_bom.Time.{Instant, zero_time}
use ai_evidence_bom.Platform.{hex_encode}
use ai_evidence_bom.Model.Graph.{Graph, Node}
use ai_evidence_bom.Model.Canonicalize.{canonicalize}
use ai_evidence_bom.Signing.Identity.{Problem, validate_graph_identity}

-- A payload, key or signature.
abbrev pub Bytes : Type 0
Bytes = List ℕ

abbrev pub raw_envelope_version : Text
raw_envelope_version = codes "0.1.0"

abbrev pub canonical_envelope_version_v1 : Text
canonical_envelope_version_v1 = codes "0.2.0"

abbrev pub canonical_envelope_version_v2 : Text
canonical_envelope_version_v2 = codes "0.3.0"

abbrev pub canonical_payload_type : Text
canonical_payload_type = codes "aiebom-evidence-graph"

abbrev pub canonicalization_evidence_v1 : Text
canonicalization_evidence_v1 = codes "aiebom-evidence-v1+jcs-rfc8785"

abbrev pub canonicalization_evidence_v2 : Text
canonicalization_evidence_v2 = codes "aiebom-evidence-v2+jcs-rfc8785"

-- The parts of a signature domain, each closed by a zero byte.
abbrev pub signature_domain : (version canonicalization : Text) → Bytes
signature_domain version canonicalization =
    codes "AI Evidence BOM canonical signature"
    ++ 0
      ∷ (codes "v" ++ version ++ 0 ∷ (canonical_payload_type ++ 0 ∷ (canonicalization ++ 0 ∷ [])))

abbrev pub canonical_signature_domain_v1 : Bytes
canonical_signature_domain_v1 =
    signature_domain canonical_envelope_version_v1 canonicalization_evidence_v1

abbrev pub canonical_signature_domain_v2 : Bytes
canonical_signature_domain_v2 =
    signature_domain canonical_envelope_version_v2 canonicalization_evidence_v2

pub record Envelope : Type 0 where
  pub version : Text
  pub algorithm : Text
  pub payload_type : Text
  pub canonicalization : Text
  pub created_at : Instant
  pub payload_digest : Text
  pub public_key_fingerprint : Text
  pub signature : Text

-- What `x509` makes of the bytes of a key: an Ed25519 key, a key of another kind, or an error.
pub data Parsed : Type 0 where
  unparsed : Parsed
  another_kind : Parsed
  ed25519 : Bytes → Parsed

-- What follows the first value in a JSON input.
pub data Ending : Type 0 where
  end_of_input : Ending
  another_value : Ending
  trailing_text : Ending

-- What the code takes from its libraries. `decode_graph` refuses unknown fields.
pub record Libraries : Type 0 where
  pub pem_decode : Bytes → Option Bytes
  pub parse_private : Bytes → Parsed
  pub parse_public : Bytes → Parsed
  pub public_of : (private : Bytes) → Bytes
  pub sign_message : (private message : Bytes) → Bytes
  pub verify_message : (public message signature : Bytes) → Bool
  pub sha256 : Bytes → Bytes
  pub base64_encode : Bytes → Text
  pub base64_decode : Text → Option Bytes
  pub utf8_valid : Bytes → Bool
  pub jcs_transform : Bytes → Option Bytes
  pub decode_graph : Bytes → Option (Graph × Ending)
  pub encode_graph : Graph → Option Bytes
  pub copy_node : Node → Option Node

pub data Error : Type 0 where
  unsupported_algorithm : Text → Error
  raw_with_metadata : Error
  unsupported_payload_type : Text → Error
  unsupported_canonicalization : Text → Error
  unsupported_version : Text → Error
  not_utf8 : Error
  invalid_jcs : Error
  cannot_decode : Error
  multiple_values : Error
  trailing_json : Error
  invalid_graph : Problem → Error
  v1_with_field_evidence : Error
  cannot_encode : Error
  cannot_canonicalize : Error
  no_pem_block : Error
  cannot_parse_key : Error
  not_ed25519 : Error
  digest_mismatch : Error
  fingerprint_mismatch : Error
  undecodable_signature : Error
  invalid_signature : Error

unfoldable pub require_json_eof : Ending → Option Error
require_json_eof end_of_input = none
require_json_eof another_value = some multiple_values
require_json_eof trailing_text = some trailing_json

unfoldable pub canonical_signature_message_v1 : (canonical : Bytes) → Bytes
canonical_signature_message_v1 canonical = canonical_signature_domain_v1 ++ canonical

unfoldable pub canonical_signature_message_v2 : (canonical : Bytes) → Bytes
canonical_signature_message_v2 canonical = canonical_signature_domain_v2 ++ canonical

abbrev pub has_claims : Node → Bool
has_claims n = not (is_empty n.field_evidence)

abbrev pub identity_error : Option Problem → Option Error
identity_error none = none
identity_error (some problem) = some (invalid_graph problem)

abbrev pub envelope_of : (version payload_type canonicalization : Text) → Envelope
envelope_of version payload_type canonicalization = record {
  version = version;
  algorithm = [];
  payload_type = payload_type;
  canonicalization = canonicalization;
  created_at = zero_time;
  payload_digest = [];
  public_key_fingerprint = [];
  signature = [];
}

module _ (lib : Libraries) where
  -- The bytes of a decoded graph.
  unfoldable pub canonical_graph : (allow_field_evidence : Bool) → Graph → Result Error Bytes
  canonical_graph allow graph =
      unless (identity_error (validate_graph_identity lib.copy_node graph)) (
        if not allow && any has_claims graph.nodes
        then failed v1_with_field_evidence
        else or_fail cannot_encode (lib.encode_graph (canonicalize graph)) >>= λ encoded.
            or_fail cannot_canonicalize (lib.jcs_transform encoded))

  -- `canonicalizeEvidence`, and with `true` `CanonicalizeEvidence`.
  unfoldable pub canonical_bytes :
      (payload : Bytes) (allow_field_evidence : Bool) → Result Error Bytes
  unfolding require_json_eof
  canonical_bytes payload allow =
      if not (lib.utf8_valid payload)
      then failed not_utf8
      else or_fail invalid_jcs (lib.jcs_transform payload) >>= (λ ignored.
        or_fail cannot_decode (lib.decode_graph payload)
        >>= (λ decoded. unless (require_json_eof decoded.1) (canonical_graph allow decoded.0)))

  abbrev pub key_of : Parsed → Result Error Bytes
  key_of unparsed = failed cannot_parse_key
  key_of another_kind = failed not_ed25519
  key_of (ed25519 key) = done key

  unfoldable pub parse_private_key : Bytes → Result Error Bytes
  parse_private_key pem =
      or_fail no_pem_block (lib.pem_decode pem) >>= (λ block. key_of (lib.parse_private block))

  unfoldable pub parse_public_key : Bytes → Result Error Bytes
  parse_public_key pem =
      or_fail no_pem_block (lib.pem_decode pem) >>= (λ block. key_of (lib.parse_public block))

  abbrev pub digest_of : Bytes → Text
  digest_of bytes = codes "sha256:" ++ hex_encode (lib.sha256 bytes)

  -- `sign`, on an envelope that declares a profile.
  unfoldable pub sign :
      (payload message private_pem : Bytes) (created_at : Instant)
      → Envelope
      → Result Error Envelope
  sign payload message private_pem created_at envelope =
      parse_private_key private_pem >>= (λ private. done (record envelope {
        algorithm = codes "ed25519";
        created_at = created_at;
        payload_digest = digest_of payload;
        public_key_fingerprint = digest_of (lib.public_of private);
        signature = lib.base64_encode (lib.sign_message private message);
      }))

  -- `Sign`.
  unfoldable pub sign_raw :
      (payload private_pem : Bytes) (created_at : Instant) → Result Error Envelope
  sign_raw payload private_pem created_at =
      sign payload payload private_pem created_at (envelope_of raw_envelope_version [] [])

  unfoldable pub sign_canonical_evidence :
      (payload private_pem : Bytes) (created_at : Instant) → Result Error Envelope
  sign_canonical_evidence payload private_pem created_at =
      canonical_bytes payload true >>= (λ canonical.
        sign canonical (canonical_signature_message_v2 canonical) private_pem created_at (
          envelope_of canonical_envelope_version_v2 canonical_payload_type
            canonicalization_evidence_v2))

  -- What both canonical cases of `verificationPayload` do.
  unfoldable pub canonical_verification :
      (allow : Bool) (canonicalization : Text) (message_of : Bytes → Bytes) (payload : Bytes)
      → Envelope
      → Result Error (Bytes × Bytes)
  canonical_verification allow canonicalization message_of payload envelope =
      if not (text_eq envelope.payload_type canonical_payload_type)
      then failed (unsupported_payload_type envelope.payload_type)
      else if not (text_eq envelope.canonicalization canonicalization)
      then failed (unsupported_canonicalization envelope.canonicalization)
      else canonical_bytes payload allow >>= (λ canonical. done (canonical, message_of canonical))

  -- `verificationPayload`: the bytes that the digest covers, and those that the signature does.
  unfoldable pub verification_payload : (payload : Bytes) → Envelope → Result Error (Bytes × Bytes)
  verification_payload payload envelope =
      if text_eq envelope.version raw_envelope_version
      then if not (is_empty envelope.payload_type) || not (is_empty envelope.canonicalization)
        then failed raw_with_metadata
        else done (payload, payload)
      else if text_eq envelope.version canonical_envelope_version_v1
      then canonical_verification false canonicalization_evidence_v1 canonical_signature_message_v1
          payload envelope
      else if text_eq envelope.version canonical_envelope_version_v2
      then canonical_verification true canonicalization_evidence_v2 canonical_signature_message_v2
          payload envelope
      else failed (unsupported_version envelope.version)

  -- The checks of `Verify` once the payload and the key are known.
  unfoldable pub check_signature : (verified message public : Bytes) → Envelope → Option Error
  check_signature verified message public envelope =
      if not (text_eq envelope.payload_digest (digest_of verified))
      then some digest_mismatch
      else if not (text_eq envelope.public_key_fingerprint (digest_of public))
      then some fingerprint_mismatch
      else elim (lib.base64_decode envelope.signature) [
        | none ↦ some undecodable_signature
        | some signature ↦
            if lib.verify_message public message signature then none else some invalid_signature
      ]

  -- `Verify`: the error, if any.
  unfoldable pub verify : (payload : Bytes) → Envelope → (public_pem : Bytes) → Option Error
  unfolding check_signature
  verify payload envelope public_pem =
      if not (text_eq envelope.algorithm (codes "ed25519"))
      then some (unsupported_algorithm envelope.algorithm)
      else elim (verification_payload payload envelope) [
        | failed error ↦ some error
        | done bytes ↦ elim (parse_public_key public_pem) [
          | failed error ↦ some error
          | done public ↦ check_signature bytes.0 bytes.1 public envelope
        ]
      ]
