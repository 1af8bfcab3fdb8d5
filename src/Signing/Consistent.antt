-- ===== src/Signing/Consistent.antt =====
-- The claims of a node that `validateFieldEvidence` accepts, and what they resolve to.
use ai_evidence_bom.Prelude.{
  ◌≡◌, refl, sym, ◌∙◌, subst, false, List, [], ◌∷◌, none, some, All, arith, is_empty, inl, inr,
  Bool-cases, Option-cases,
}
use ai_evidence_bom.Text.{text_eq, trim_space}
use ai_evidence_bom.Text.Order.{text_order, text_eq_iff}
use ai_evidence_bom.Maps.{lookup, put, add}
use ai_evidence_bom.Maps.Laws.{lookup-put}
use ai_evidence_bom.Sorting.{find}
use ai_evidence_bom.Sorting.Keys.{IsAscending, find-sort_slice}
use ai_evidence_bom.Platform.{read_text}
use ai_evidence_bom.Model.Graph.{Node, FieldEvidence, field_version, field_digest, field_property}
use ai_evidence_bom.Model.FieldKey.{FieldKey, claim_key, key_eq, key_eq_iff, field_key_order}
use ai_evidence_bom.Model.Resolve.{Groups, ValueGroup, group_claims, claims_of, resolve_claims}
use ai_evidence_bom.Model.Resolve.Gather.{group_claims-IsDistinct}
use ai_evidence_bom.Model.Resolve.Canonical.{find-claims_of, claim_of_nothing}
use ai_evidence_bom.Model.Resolve.Shape.{resolve_claims_lem}
use ai_evidence_bom.Model.Resolve.Apply.{find_unique}
use ai_evidence_bom.Signing.Identity.{
  validate_field, validate_claim, validate_claims, check_claim, check_claims, index_claims,
  read_claim,
}

-- The field and the key of a claim have no surrounding whitespace, and the field is there.
abbrev pub IsTrimmed : FieldEvidence → Type 0
IsTrimmed c =
    (trim_space c.field ≡ c.field) × (trim_space c.key ≡ c.key) × (is_empty c.field ≡ false)

validate_claim-IsTrimmed :
    (seen : List FieldKey) (c : FieldEvidence) → validate_claim seen c ≡ none → IsTrimmed c
unfolding validate_claim validate_field text_eq
validate_claim-IsTrimmed seen c h =
    ground
      (arith, h, text_eq_iff c.field (trim_space c.field), text_eq_iff c.key (trim_space c.key))

pub validate_claims-AreTrimmed :
    (seen : List FieldKey) (cs : List FieldEvidence)
    → validate_claims seen cs ≡ none
    → All IsTrimmed cs
unfolding validate_claims
validate_claims-AreTrimmed seen [] h = tt
validate_claims-AreTrimmed seen (c ∷ cs) h = (
  validate_claim-IsTrimmed seen c (ground arith),
  validate_claims-AreTrimmed (add (claim_key c) seen) cs (ground arith),
)

-- A field and key that no claim is about has no group.
untouched_group :
    (k : FieldKey) (cs : List FieldEvidence) (groups : Groups)
    → All IsTrimmed cs
    → find claim_key k cs ≡ none
    → lookup k (group_claims cs groups) ≡ lookup k groups
unfolding group_claims find
untouched_group k [] groups t h = refl
untouched_group k (c ∷ cs) groups t h =
    let other : key_eq (claim_key c) k ≡ false = ground arith in
    let later : find claim_key k cs ≡ none = ground arith in
    let written = λ (g : ValueGroup). lookup-put (claim_key c) k g groups in
    rw (t.0.0, t.0.1, t.0.2) (untouched_group k cs _ t.1 later ∙ written _ ∙ rw other refl)

-- The index of the resolved claims reads as a search.
lookup-index_claims :
    (k : FieldKey) (cs : List FieldEvidence) (index : List (FieldKey × FieldEvidence))
    → IsAscending claim_key cs
    → lookup k (index_claims cs index)
      ≡ (elim (find claim_key k cs) [ none ↦ lookup k index | some c ↦ some c ])
unfolding index_claims find
lookup-index_claims k [] index a = refl
lookup-index_claims k (c ∷ cs) index a = ground (
  arith,
  lookup-index_claims k cs (put (claim_key c) c index) a.1,
  lookup-put (claim_key c) k c index,
  find_unique k c cs a,
)

check_claims-found :
    (node : Node) (index : List (FieldKey × FieldEvidence)) (k : FieldKey) (cs : List FieldEvidence)
    (c : FieldEvidence)
    → check_claims node index cs ≡ none
    → find claim_key k cs ≡ some c
    → (check_claim node (read_claim (lookup k index)) c ≡ none) × (claim_key c ≡ k)
unfolding check_claims find
check_claims-found node index k [] c h f = cc
check_claims-found node index k (d ∷ cs) c h f = elim (Bool-cases (key_eq (claim_key d) k)) [
  | inl e ↦
      let same : d ≡ c = ground arith in
      let at : claim_key d ≡ k = (key_eq_iff (claim_key d) k).0 e in
      let checked : check_claim node (read_claim (lookup (claim_key d) index)) d ≡ none =
        ground arith in
      rw (sym same) (rw (sym at) (checked, refl))
  | inr e ↦ check_claims-found node index k cs c (ground arith) (ground arith)
]

digest_not_version : text_eq field_digest field_version ≡ false
unfolding text_eq
digest_not_version = refl

property_not_version : text_eq field_property field_version ≡ false
unfolding text_eq
property_not_version = refl

property_not_digest : text_eq field_property field_digest ≡ false
unfolding text_eq
property_not_digest = refl

-- What the check of a claim says of the field that it is about.
pub check_claim-version :
    (node : Node) (expected c : FieldEvidence)
    → check_claim node expected c ≡ none
    → c.field ≡ field_version
    → node.version ≡ expected.selected_value
unfolding check_claim
check_claim-version node expected c h k =
    ground
      (arith, text_eq_iff c.field field_version, text_eq_iff node.version expected.selected_value)

pub check_claim-digest :
    (node : Node) (expected c : FieldEvidence)
    → check_claim node expected c ≡ none
    → c.field ≡ field_digest
    → read_text (lookup c.key node.digests) ≡ expected.selected_value
unfolding check_claim
check_claim-digest node expected c h k =
    let other : text_eq c.field field_version ≡ false = rw k digest_not_version in
    ground (
      arith,
      text_eq_iff c.field field_digest,
      text_eq_iff (read_text (lookup c.key node.digests)) expected.selected_value,
    )

pub check_claim-property :
    (node : Node) (expected c : FieldEvidence)
    → check_claim node expected c ≡ none
    → c.field ≡ field_property
    → read_text (lookup c.key node.properties) ≡ expected.selected_value
unfolding check_claim
check_claim-property node expected c h k =
    let version : text_eq c.field field_version ≡ false = rw k property_not_version in
    let digest : text_eq c.field field_digest ≡ false = rw k property_not_digest in
    ground (
      arith,
      text_eq_iff c.field field_property,
      text_eq_iff (read_text (lookup c.key node.properties)) expected.selected_value,
    )

-- A resolved claim is about the field and key of a claim that was given, if those are trimmed.
given_claim :
    (k : FieldKey) (cs : List FieldEvidence)
    → All IsTrimmed cs
    → find claim_key k cs ≡ none
    → find claim_key k (resolve_claims cs) ≡ none
unfolding resolve_claims lookup
given_claim k cs t h =
    let groups = group_claims cs [] in
    find-sort_slice claim_key k (claims_of groups)
    ∙ find-claims_of k groups (group_claims-IsDistinct cs [] tt)
    ∙ rw (untouched_group k cs [] t h) (claim_of_nothing k)

-- The claim of the node and the resolved claim behind a field and key.
pub checked_claim :
    (node : Node) (k : FieldKey) (expected : FieldEvidence)
    → All IsTrimmed node.field_evidence
    → check_claims node (index_claims (resolve_claims node.field_evidence) []) node.field_evidence
      ≡ none
    → find claim_key k (resolve_claims node.field_evidence) ≡ some expected
    → (c : FieldEvidence) × (check_claim node expected c ≡ none) × (claim_key c ≡ k)
checked_claim node k expected t h f =
    let cs = node.field_evidence in
    let resolved = resolve_claims cs in
    elim (Option-cases (find claim_key k cs)) [
      | inl e ↦ absurd (ground (arith, f, given_claim k cs t e))
      | inr (c, e) ↦
          let (checked, at) = check_claims-found node (index_claims resolved []) k cs c h e in
          let indexed : lookup k (index_claims resolved []) ≡ some expected =
            lookup-index_claims k resolved [] (resolve_claims_lem cs).1 ∙ rw f refl in
          (c, subst (λ r. check_claim node (read_claim r) c ≡ none) indexed checked, at)
    ]
