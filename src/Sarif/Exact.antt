-- ===== src/Sarif/Exact.antt =====
-- The component that `findTarget` looks for.
use ai_evidence_bom.Prelude.{
  ◌≡◌, ◌↔◌, refl, sym, subst, Bool, true, false, ◌&&◌, List, [], ◌∷◌, if◌then◌else◌, arith, inl,
  inr, Bool-cases, not, ◌≢◌, map, ◌||◌,
}
use ai_evidence_bom.Text.{Text, codes, text_eq}
use ai_evidence_bom.Text.Order.{text_order, text_eq_iff}
use ai_evidence_bom.Maps.{lookup}
use ai_evidence_bom.Platform.{read_text}
use ai_evidence_bom.Model.Graph.{
  Node, FieldEvidence, FieldValueEvidence, field_digest, field_property,
}
use ai_evidence_bom.Sarif.Target.{
  property_artifact_uri, is_single, exact_from, field_evidence_is_exact, has_uri, has_digest,
}

-- The tests of the loop.
abbrev pub is_bound : (artifact_uri digest : Text) → Node → Bool
is_bound artifact_uri digest node = has_uri artifact_uri node && has_digest artifact_uri digest node

-- The claims about a field and key.
abbrev pub claims_about : (field key : Text) → List FieldEvidence → List FieldEvidence
claims_about field key [] = []
claims_about field key (c ∷ cs) =
    let rest = claims_about field key cs in
    if text_eq c.field field && text_eq c.key key then c ∷ rest else rest

-- A claim of nothing but the value.
pub record IsExact (value : Text) (c : FieldEvidence) : Type 0 where
  pub agreed : c.conflict ≡ false
  pub selected : c.selected_value ≡ value
  pub values : map (λ v. v.value) c.values ≡ value ∷ []

-- There is at most one claim, and it is of nothing but the value.
abbrev pub AreExact : Text → List FieldEvidence → Type 0
AreExact value [] = Unit
AreExact value (c ∷ cs) = IsExact value c × (cs ≡ [])

-- The node is a component with the URI and the digest, and is claimed to have no other ones.
pub record IsTarget (artifact_uri digest : Text) (node : Node) : Type 0 where
  pub component : node.node_type ≢ codes "finding"
  pub uri : read_text (lookup property_artifact_uri node.properties) ≡ artifact_uri
  pub uri_claims :
      AreExact artifact_uri (claims_about field_property property_artifact_uri node.field_evidence)
  pub digest_claims :
      AreExact digest (claims_about field_digest (codes "sha256") node.field_evidence)
  pub shown_digest : read_text (lookup (codes "sha256") node.digests) ≡ digest

is_single_iff :
    (value : Text) (vs : List FieldValueEvidence)
    → (is_single value vs ≡ true) ↔ (map (λ v. v.value) vs ≡ value ∷ [])
is_single_iff value [] = ground arith
is_single_iff value (v ∷ []) = ground (arith, text_eq_iff v.value value)
is_single_iff value (v ∷ w ∷ vs) = ground arith

-- What the loop refuses in a claim.
abbrev is_refused : Text → FieldEvidence → Bool
is_refused value c =
    c.conflict || not (text_eq c.selected_value value) || not (is_single value c.values)

accepted-IsExact : (value : Text) (c : FieldEvidence) → is_refused value c ≡ false → IsExact value c
accepted-IsExact value c h = record {
  agreed = ground (arith, h);
  selected = ground (arith, h, text_eq_iff c.selected_value value);
  values = (is_single_iff value c.values).0 (ground (arith, h));
}

exact-is_refused : (value : Text) (c : FieldEvidence) → IsExact value c → is_refused value c ≡ false
exact-is_refused value c h =
    rw
      (
        h.agreed,
        (text_eq_iff c.selected_value value).1 h.selected,
        (is_single_iff value c.values).1 h.values,
      )
      refl

-- The round for a claim about the field and key, where `rest` is what the loop makes of the others.
about_claim_iff :
    (value : Text) (c : FieldEvidence) (about : List FieldEvidence) (rest found : Bool)
    → ((rest ≡ true) ↔ ((true ≡ true → about ≡ []) × AreExact value about))
    → ((elim (found
          || c.conflict
          || not (text_eq c.selected_value value)
          || not (is_single value c.values)) [ true ↦ false | false ↦ rest ])
        ≡ true)
      ↔ ((found ≡ true → c ∷ about ≡ []) × (IsExact value c × (about ≡ [])))
about_claim_iff value c about rest true others =
    (λ h. absurd (ground arith), λ h. absurd (ground (arith, h.0 refl)))
about_claim_iff value c about rest false others = elim (Bool-cases (is_refused value c)) [
  | inl r ↦
      rw r (
        λ h. absurd (ground arith),
        λ h. absurd (ground (arith, r, exact-is_refused value c h.1.0)),
      )
  | inr r ↦ rw r (
    λ h. (λ e. absurd (ground arith), (accepted-IsExact value c r, (others.0 h).0 refl)),
    λ h. others.1 (λ e. h.1.1, subst (AreExact value) (sym h.1.1) tt),
  )
]

-- The loop over the claims accepts those that are exact, unless it has accepted one before.
exact_from_iff :
    (field key value : Text) (found : Bool) (cs : List FieldEvidence)
    → (exact_from field key value found cs ≡ true) ↔ (
        (found ≡ true → claims_about field key cs ≡ [])
        × AreExact value (claims_about field key cs))
unfolding exact_from
exact_from_iff field key value found [] = (λ h. (λ e. refl, tt), λ h. refl)
exact_from_iff field key value found (c ∷ cs) =
    let about = claims_about field key cs in
    let rest = exact_from field key value true cs in
    elim (Bool-cases (text_eq c.field field && text_eq c.key key)) [
      | inr e ↦ rw (e, exact_from) (exact_from_iff field key value found cs)
      | inl e ↦
          rw (e, exact_from)
            (about_claim_iff value c about rest found (exact_from_iff field key value true cs))
    ]

field_evidence_is_exact_iff :
    (node : Node) (field key value : Text)
    → (field_evidence_is_exact node field key value ≡ true)
      ↔ AreExact value (claims_about field key node.field_evidence)
unfolding field_evidence_is_exact
field_evidence_is_exact_iff node field key value =
    let (to, back) = exact_from_iff field key value false node.field_evidence in
    (λ h. (to h).1, λ h. back (λ e. absurd (ground arith), h))

pub bound-IsTarget :
    (artifact_uri digest : Text) (n : Node)
    → is_bound artifact_uri digest n ≡ true
    → IsTarget artifact_uri digest n
unfolding has_uri has_digest
bound-IsTarget artifact_uri digest n h = record {
  component = λ e. ground (arith, h, text_eq_iff n.node_type (codes "finding"));
  uri =
      (text_eq_iff (read_text (lookup property_artifact_uri n.properties)) artifact_uri).0
        (ground (arith, h));
  uri_claims =
      (field_evidence_is_exact_iff n field_property property_artifact_uri artifact_uri).0
        (ground (arith, h));
  digest_claims =
      (field_evidence_is_exact_iff n field_digest (codes "sha256") digest).0 (ground (arith, h));
  shown_digest =
      (text_eq_iff (read_text (lookup (codes "sha256") n.digests)) digest).0 (ground (arith, h));
}

pub target-is_bound :
    (artifact_uri digest : Text) (n : Node)
    → IsTarget artifact_uri digest n
    → is_bound artifact_uri digest n ≡ true
unfolding has_uri has_digest
target-is_bound artifact_uri digest n h = ground (
  arith,
  h.component,
  text_eq_iff n.node_type (codes "finding"),
  (text_eq_iff (read_text (lookup property_artifact_uri n.properties)) artifact_uri).1 h.uri,
  (field_evidence_is_exact_iff n field_property property_artifact_uri artifact_uri).1 h.uri_claims,
  (field_evidence_is_exact_iff n field_digest (codes "sha256") digest).1 h.digest_claims,
  (text_eq_iff (read_text (lookup (codes "sha256") n.digests)) digest).1 h.shown_digest,
)
