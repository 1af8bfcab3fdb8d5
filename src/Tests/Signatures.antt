-- ===== src/Tests/Signatures.antt =====
-- A key pair of a toy signature scheme, and a snapshot of a small graph.
use ai_evidence_bom.Prelude.{done, ◌≡◌, ◌↔◌, refl, true, false, [], ◌∷◌, ◌++◌, none, some}
use ai_evidence_bom.Text.{codes, text_eq, text_less, trim_space}
use ai_evidence_bom.Text.Order.{text_eq_iff}
use ai_evidence_bom.Time.{pos}
use ai_evidence_bom.Model.Graph.{Node, field_version}
use ai_evidence_bom.Maps.{lookup, put, elem, add}
use ai_evidence_bom.Sorting.{sort_slice}
use ai_evidence_bom.Model.Level.{evidence_observed, valid, stronger_level, rank}
use ai_evidence_bom.Model.Evidence.{EvidenceSummary, canonicalize_evidence, merge_evidence_summary}
use ai_evidence_bom.Model.Texts.{collect}
use ai_evidence_bom.Model.FieldKey.{key_eq}
use ai_evidence_bom.Model.Resolve.{resolve_field_evidence}
use ai_evidence_bom.Signing.{
  Bytes, Libraries, Envelope, ed25519, end_of_input, parse_private_key, parse_public_key, sign_raw,
  sign_canonical_evidence, canonical_bytes, verify,
}
use ai_evidence_bom.Signing.RoundTrip.{IsKeyPair, sign-verify}
use ai_evidence_bom.Signing.Identity.{
  validate_graph_identity, validate_field_evidence, validate_claims, validate_claim, check_claims,
  check_claim, index_claims,
}
use ai_evidence_bom.Signing.Identified.{IsIdentified, validate_graph_identity_iff}
use ai_evidence_bom.Signing.Shown.{ShowsClaims, validate_field_evidence-ShowsClaims}
use ai_evidence_bom.Tests.{small_graph}

abbrev toy : Libraries
toy = record {
  pem_decode = λ bytes. some bytes;
  parse_private = λ bytes. ed25519 bytes;
  parse_public = λ bytes. ed25519 bytes;
  public_of = λ private. private;
  sign_message = λ private message. private ++ message;
  verify_message = λ public message signature. text_eq (public ++ message) signature;
  sha256 = λ bytes. bytes;
  base64_encode = λ bytes. bytes;
  base64_decode = λ text. some text;
  utf8_valid = λ bytes. true;
  jcs_transform = λ bytes. some bytes;
  decode_graph = λ bytes. some (small_graph, end_of_input);
  encode_graph = λ graph. some graph.source;
  copy_node = λ node. some node;
}

abbrev toy_key : Bytes
toy_key = 7 ∷ []

toy-IsKeyPair : IsKeyPair toy toy_key toy_key
unfolding parse_private_key parse_public_key
toy-IsKeyPair = record {
  private = toy_key;
  parses_private = refl;
  parses_public = refl;
  verifies = λ message. (text_eq_iff (toy_key ++ message) (toy_key ++ message)).1 refl;
  decodes = λ bytes. refl;
}

abbrev payload : Bytes
payload = codes "{}"

sign-verify_example :
    ((e : Envelope) × (sign_raw toy payload toy_key (pos 3) ≡ done e)
      × (verify toy payload e toy_key ≡ none))
    × ((canonical : Bytes)
        → canonical_bytes toy payload true ≡ done canonical
        → (e : Envelope) × (sign_canonical_evidence toy payload toy_key (pos 3) ≡ done e)
          × ((received : Bytes)
              → canonical_bytes toy received true ≡ done canonical
              → verify toy received e toy_key ≡ none))
sign-verify_example = sign-verify toy toy_key toy_key toy-IsKeyPair payload (pos 3)

validate_graph_identity_iff_example :
    (validate_graph_identity toy.copy_node small_graph ≡ none)
    ↔ IsIdentified toy.copy_node small_graph
validate_graph_identity_iff_example = validate_graph_identity_iff toy.copy_node small_graph

abbrev stored_evidence : EvidenceSummary
stored_evidence = record {
  level = evidence_observed;
  sources = codes "ci" ∷ [];
  first_seen = pos 3;
  last_seen = pos 4;
  observation_count = 1;
  trace_ids = [];
}

-- A node as it is stored: it shows the version that its one claim selects.
abbrev stored_node : Node
stored_node = record {
  id = codes "m";
  node_type = codes "model";
  name = codes "small";
  version = codes "2";
  observed_versions = codes "2" ∷ [];
  provider = [];
  digests = [];
  properties = [];
  field_evidence =
      record {
        field = field_version;
        key = [];
        selected_value = codes "2";
        conflict = false;
        values = record { value = codes "2"; evidence = stored_evidence } ∷ [];
      }
      ∷ [];
  evidence = stored_evidence;
}

stored_node-valid : validate_field_evidence toy.copy_node stored_node ≡ none
unfolding validate_field_evidence resolve_field_evidence sort_slice trim_space put key_eq text_eq
    lookup text_less validate_claims validate_claim elem valid canonicalize_evidence
    merge_evidence_summary stronger_level rank add check_claims check_claim index_claims collect
stored_node-valid = refl

validate_field_evidence-ShowsClaims_example :
    ShowsClaims stored_node (resolve_field_evidence stored_node)
validate_field_evidence-ShowsClaims_example =
    validate_field_evidence-ShowsClaims toy.copy_node stored_node refl stored_node-valid
