-- ===== src/Normalize/Privacy/Keys.antt =====
-- Which attributes of an observation are kept.
use ai_evidence_bom.Prelude.{
  ℕ, ◌≡◌, refl, sym, not, ◌&&◌, List, [], ◌∷◌, Option, none, some, arith, is_empty, if◌then◌else◌,
}
use ai_evidence_bom.Text.{Text, codes, text_eq}
use ai_evidence_bom.Text.Order.{text_order, text_eq_iff}
use ai_evidence_bom.Maps.{lookup, put, elem}
use ai_evidence_bom.Maps.Laws.{lookup-put}
use ai_evidence_bom.Model.Graph.{TextMap}
use ai_evidence_bom.Observation.{Observation}
use ai_evidence_bom.Platform.{Platform, hex_encode, read_text}
use ai_evidence_bom.Normalize.{first}
use ai_evidence_bom.Normalize.Privacy.{
  prompt_content_present_attribute, prompt_hmac_attribute, retained_observation_attributes, retain,
  mark_prompt, metadata_only_observation,
}

-- The value of a key, unless it is empty.
abbrev pub filled : Option Text → Option Text
filled none = none
filled (some text) = if is_empty text then none else some text

lookup-retain :
    (k : Text) (attrs : TextMap) (keys : List Text) (kept : TextMap)
    → lookup k (retain attrs keys kept) ≡ (
        if elem k keys && not (is_empty (read_text (lookup k attrs)))
        then some (read_text (lookup k attrs))
        else lookup k kept)
unfolding retain elem
lookup-retain k attrs [] kept = refl
lookup-retain k attrs (key ∷ keys) kept =
    let value = read_text (lookup key attrs) in
    ground (
      arith,
      lookup-retain k attrs keys kept,
      lookup-retain k attrs keys (put key value kept),
      lookup-put key k value kept,
      text_eq_iff key k,
    )

filled_read :
    (found : Option Text)
    → (if not (is_empty (read_text found)) then some (read_text found) else none) ≡ filled found
filled_read none = refl
filled_read (some text) = ground arith

lookup-retain_all :
    (k : Text) (attrs : TextMap) (keys : List Text)
    → lookup k (retain attrs keys []) ≡ (if elem k keys then filled (lookup k attrs) else none)
unfolding lookup
lookup-retain_all k attrs keys =
    ground (arith, lookup-retain k attrs keys [], filled_read (lookup k attrs))

-- The content of the prompt of an observation.
abbrev pub prompt_content : Observation → Text
prompt_content observation =
    first observation.attributes (codes "gen_ai.system_instructions" ∷ codes "gen_ai.prompt" ∷ [])

lookup-mark_prompt :
    (platform : Platform) (k content : Text) (key : List ℕ) (kept : TextMap)
    → lookup k (mark_prompt platform content key kept) ≡ (
        if text_eq prompt_hmac_attribute k && (not (is_empty content) && not (is_empty key))
        then some (hex_encode (platform.hmac_sha256 key content))
        else if text_eq prompt_content_present_attribute k && not (is_empty content)
        then some (codes "true")
        else lookup k kept)
unfolding mark_prompt
lookup-mark_prompt platform k content key kept =
    let present = put prompt_content_present_attribute (codes "true") kept in
    let hmac = hex_encode (platform.hmac_sha256 key content) in
    ground (
      arith,
      lookup-put prompt_content_present_attribute k (codes "true") kept,
      lookup-put prompt_hmac_attribute k hmac present,
    )

-- Under a key, `MetadataOnlyObservation` leaves the HMAC of the prompt's content, if there is content
-- and an HMAC key and the key is that of the HMAC; the mark of a prompt, if there is content and the
-- key is that of the mark; and else the value that the observation has, if it is not empty and the key
-- is one of those that are retained. Nothing else is kept.
pub lookup-metadata_only_observation :
    (platform : Platform) (o : Observation) (key : List ℕ) (k : Text)
    → lookup k (metadata_only_observation platform o key).attributes ≡ (
        if text_eq prompt_hmac_attribute k
          && (not (is_empty (prompt_content o)) && not (is_empty key))
        then some (hex_encode (platform.hmac_sha256 key (prompt_content o)))
        else if text_eq prompt_content_present_attribute k && not (is_empty (prompt_content o))
        then some (codes "true")
        else if elem k retained_observation_attributes
        then filled (lookup k o.attributes)
        else none)
unfolding metadata_only_observation
lookup-metadata_only_observation platform o key k =
    let kept = retain o.attributes retained_observation_attributes [] in
    rw (sym (lookup-retain_all k o.attributes retained_observation_attributes))
      (lookup-mark_prompt platform k (prompt_content o) key kept)
