-- ===== src/Signing/Shown.antt =====
-- The fields of a node that `validateFieldEvidence` accepts.
use ai_evidence_bom.Prelude.{
  ◌≡◌, refl, sym, ◌∙◌, ap, true, [], Option, none, some, All, arith, is_empty, inl, inr, Bool-cases,
  Option-cases,
}
use ai_evidence_bom.Text.{Text}
use ai_evidence_bom.Text.Order.{text_order}
use ai_evidence_bom.Maps.{lookup}
use ai_evidence_bom.Sorting.{find}
use ai_evidence_bom.Platform.{read_text}
use ai_evidence_bom.Model.Graph.{Node, field_version, field_digest, field_property}
use ai_evidence_bom.Model.FieldKey.{FieldKey, claim_key, field_key_order}
use ai_evidence_bom.Model.Resolve.{resolve_claims, resolve_field_evidence}
use ai_evidence_bom.Model.Resolve.Apply.{
  resolve_field_evidence-Mirrors, selected_or, selected_or_else,
}
use ai_evidence_bom.Signing.Identity.{
  validate_claims, validate_field_evidence, check_claims, index_claims,
}
use ai_evidence_bom.Signing.Consistent.{
  IsTrimmed, checked_claim, check_claim-version, check_claim-digest, check_claim-property,
  validate_claims-AreTrimmed,
}

-- The node shows what its claims select, as far as resolving them would change it.
pub record ShowsClaims (node resolved : Node) : Type 0 where
  pub version : resolved.version ≡ node.version
  pub digests :
      (k : Text) → read_text (lookup k resolved.digests) ≡ read_text (lookup k node.digests)
  pub properties :
      (k : Text) → read_text (lookup k resolved.properties) ≡ read_text (lookup k node.properties)

module _ (node : Node) (trimmed : All IsTrimmed node.field_evidence)
    (checked : check_claims node
        (index_claims (resolve_claims node.field_evidence) [])
        node.field_evidence
      ≡ none) where
  shown_version :
      selected_or node.version
        (find claim_key (field_version, []) (resolve_claims node.field_evidence))
      ≡ node.version
  shown_version =
      let k : FieldKey = (field_version, []) in
      elim (Option-cases (find claim_key k (resolve_claims node.field_evidence))) [
        | inl e ↦ rw e refl
        | inr (expected, e) ↦
            let (c, ok, at) = checked_claim node k expected trimmed checked e in
            rw e (sym (check_claim-version node expected c ok (ap (λ (p : FieldKey). p.0) at)))
      ]

  shown_digest :
      (key : Text)
      → read_text (
          selected_or_else
            (lookup key node.digests)
            (find claim_key (field_digest, key) (resolve_claims node.field_evidence)))
        ≡ read_text (lookup key node.digests)
  shown_digest key =
      let k : FieldKey = (field_digest, key) in
      elim (Option-cases (find claim_key k (resolve_claims node.field_evidence))) [
        | inl e ↦ rw e refl
        | inr (expected, e) ↦
            let (c, ok, at) = checked_claim node k expected trimmed checked e in
            let field = ap (λ (p : FieldKey). p.0) at in
            let named = ap (λ (p : FieldKey). read_text (lookup p.1 node.digests)) at in
            rw e (sym (check_claim-digest node expected c ok field) ∙ named)
      ]

  shown_property :
      (key : Text)
      → read_text (
          selected_or_else
            (lookup key node.properties)
            (find claim_key (field_property, key) (resolve_claims node.field_evidence)))
        ≡ read_text (lookup key node.properties)
  shown_property key =
      let k : FieldKey = (field_property, key) in
      elim (Option-cases (find claim_key k (resolve_claims node.field_evidence))) [
        | inl e ↦ rw e refl
        | inr (expected, e) ↦
            let (c, ok, at) = checked_claim node k expected trimmed checked e in
            let field = ap (λ (p : FieldKey). p.0) at in
            let named = ap (λ (p : FieldKey). read_text (lookup p.1 node.properties)) at in
            rw e (sym (check_claim-property node expected c ok field) ∙ named)
      ]

no_claims : (node : Node) → is_empty node.field_evidence ≡ true → resolve_field_evidence node ≡ node
unfolding resolve_field_evidence
no_claims node e = rw e refl

-- Where a copy of a node is the node, and `validateFieldEvidence` finds no problem with it, resolving
-- its claims changes neither its version nor what is read of its digests and properties.
pub validate_field_evidence-ShowsClaims :
    (copy_node : Node → Option Node) (node : Node)
    → copy_node node ≡ some node
    → validate_field_evidence copy_node node ≡ none
    → ShowsClaims node (resolve_field_evidence node)
unfolding validate_field_evidence
validate_field_evidence-ShowsClaims copy_node node copied h =
    elim (Bool-cases (is_empty node.field_evidence)) [
      | inl e ↦
          rw (no_claims node e)
            (record { version = refl; digests = λ k. refl; properties = λ k. refl })
      | inr e ↦
          let claims : validate_claims [] node.field_evidence ≡ none = ground arith in
          let (same, mirrors) = resolve_field_evidence-Mirrors node e in
          let trimmed = validate_claims-AreTrimmed [] node.field_evidence claims in
          let checked : check_claims node (index_claims (resolve_claims node.field_evidence) [])
                node.field_evidence
              ≡ none =
            ground (arith, h, copied, claims, e, same) in
          record {
            version = mirrors.version ∙ rw same (shown_version node trimmed checked);
            digests = λ k.
                ap read_text (mirrors.digests k) ∙ rw same (shown_digest node trimmed checked k);
            properties = λ k.
                ap read_text (mirrors.properties k)
                ∙ rw same (shown_property node trimmed checked k);
          }
    ]
