-- ===== src/Signing/RoundTrip.antt =====
-- `Verify` on what `Sign` and `SignCanonicalEvidence` return.
use ai_evidence_bom.Prelude.{done, ◌≡◌, refl, true, [], none, some}
use ai_evidence_bom.Text.{codes, text_eq}
use ai_evidence_bom.Text.Order.{text_eq_iff}
use ai_evidence_bom.Time.{Instant}
use ai_evidence_bom.Signing.{
  Bytes, Libraries, Envelope, parse_private_key, parse_public_key, canonical_bytes, sign, sign_raw,
  sign_canonical_evidence, verify, verification_payload, envelope_of, canonical_verification,
  check_signature, digest_of, canonical_signature_message_v2, canonical_payload_type,
  canonicalization_evidence_v2, raw_envelope_version, canonical_envelope_version_v2,
}

-- The texts hold an Ed25519 key and its public key; the libraries verify what they sign and decode
-- what they encode.
pub record IsKeyPair (lib : Libraries) (private_pem public_pem : Bytes) : Type 0 where
  pub private : Bytes
  pub parses_private : parse_private_key lib private_pem ≡ done private
  pub parses_public : parse_public_key lib public_pem ≡ done (lib.public_of private)
  pub verifies :
      (message : Bytes)
      → lib.verify_message (lib.public_of private) message (lib.sign_message private message) ≡ true
  pub decodes : (bytes : Bytes) → lib.base64_decode (lib.base64_encode bytes) ≡ some bytes

module _ (lib : Libraries) (private_pem public_pem : Bytes)
    (pair : IsKeyPair lib private_pem public_pem) where
  -- What `sign` makes of an envelope.
  abbrev signed : (payload message : Bytes) → Instant → Envelope → Envelope
  signed payload message created_at envelope = record envelope {
    algorithm = codes "ed25519";
    created_at = created_at;
    payload_digest = digest_of lib payload;
    public_key_fingerprint = digest_of lib (lib.public_of pair.private);
    signature = lib.base64_encode (lib.sign_message pair.private message);
  }

  sign-done :
      (payload message : Bytes) (created_at : Instant) (envelope : Envelope)
      → sign lib payload message private_pem created_at envelope
        ≡ done (signed payload message created_at envelope)
  unfolding sign
  sign-done payload message created_at envelope = rw (pair.parses_private, sign) refl

  check_signature-signed :
      (payload message : Bytes) (created_at : Instant) (envelope : Envelope)
      → check_signature lib payload message
          (lib.public_of pair.private)
          (signed payload message created_at envelope)
        ≡ none
  unfolding check_signature
  check_signature-signed payload message created_at envelope =
      let public = lib.public_of pair.private in
      rw
        (
          (text_eq_iff (digest_of lib payload) (digest_of lib payload)).1 refl,
          (text_eq_iff (digest_of lib public) (digest_of lib public)).1 refl,
          pair.decodes (lib.sign_message pair.private message),
          pair.verifies message,
          check_signature,
        )
        refl

  -- Verification accepts where the payload is the one that was signed.
  verify-signed :
      (received payload message : Bytes) (created_at : Instant) (envelope : Envelope)
      → verification_payload lib received (signed payload message created_at envelope)
        ≡ done (payload, message)
      → verify lib received (signed payload message created_at envelope) public_pem ≡ none
  unfolding verify text_eq
  verify-signed received payload message created_at envelope h =
      rw (h, pair.parses_public, verify)
        (check_signature-signed payload message created_at envelope)

  -- The raw profile takes the payload as it is.
  raw_payload :
      (payload message : Bytes) (created_at : Instant)
      → verification_payload lib payload
          (signed payload message created_at (envelope_of raw_envelope_version [] []))
        ≡ done (payload, payload)
  unfolding verification_payload text_eq
  raw_payload payload message created_at = refl

  -- The second canonical profile takes the canonical bytes.
  canonical_payload :
      (received payload message canonical : Bytes) (created_at : Instant)
      → canonical_bytes lib received true ≡ done canonical
      → verification_payload lib received (
          signed payload message created_at (
            envelope_of canonical_envelope_version_v2 canonical_payload_type
              canonicalization_evidence_v2))
        ≡ done (canonical, canonical_signature_message_v2 canonical)
  unfolding verification_payload canonical_verification text_eq
  canonical_payload received payload message canonical created_at h =
      rw (h, verification_payload, canonical_verification) refl

  -- Under a key pair, signing a payload raw returns an envelope with which `Verify` accepts the
  -- payload. Where the payload has canonical bytes, signing its evidence returns an envelope with
  -- which `Verify` accepts every payload that has those canonical bytes.
  pub sign-verify :
      (payload : Bytes) (created_at : Instant)
      → ((e : Envelope) × (sign_raw lib payload private_pem created_at ≡ done e)
          × (verify lib payload e public_pem ≡ none))
        × ((canonical : Bytes)
            → canonical_bytes lib payload true ≡ done canonical
            → (e : Envelope) × (sign_canonical_evidence lib payload private_pem created_at ≡ done e)
              × ((received : Bytes)
                  → canonical_bytes lib received true ≡ done canonical
                  → verify lib received e public_pem ≡ none))
  unfolding sign_raw sign_canonical_evidence
  sign-verify payload created_at = (
    (
      _,
      sign-done payload payload created_at _,
      verify-signed payload payload payload created_at (envelope_of raw_envelope_version [] [])
          (raw_payload payload payload created_at),
    ),
    λ canonical h.
        let message = canonical_signature_message_v2 canonical in
        (
          _,
          rw (h, sign_canonical_evidence) (sign-done canonical message created_at _),
          λ received k.
              verify-signed received canonical message created_at
                (envelope_of canonical_envelope_version_v2 canonical_payload_type
                  canonicalization_evidence_v2)
                (canonical_payload received canonical message canonical created_at k),
        ),
  )
