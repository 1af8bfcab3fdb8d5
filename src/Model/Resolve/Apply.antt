-- ===== src/Model/Resolve/Apply.antt =====
-- The node's own fields and the selected values of its resolved claims.
use ai_evidence_bom.Prelude.{
  ◌≡◌, refl, sym, ◌∙◌, ap, List, [], ◌∷◌, Option, none, some, arith, true, false, is_empty,
  if◌then◌else◌,
}
use ai_evidence_bom.Text.{Text}
use ai_evidence_bom.Text.Order.{text_order, text_eq_iff, text_eq-nil}
use ai_evidence_bom.Maps.{lookup}
use ai_evidence_bom.Maps.Laws.{lookup-put}
use ai_evidence_bom.Sorting.{find}
use ai_evidence_bom.Sorting.Keys.{IsAscending, find-Below}
use ai_evidence_bom.Model.Graph.{FieldEvidence, Node, field_version, field_digest, field_property}
use ai_evidence_bom.Model.FieldKey.{
  FieldKey, field_key_order, claim_key, key_eq, key_eq_iff, less_key_irrefl,
}
use ai_evidence_bom.Model.Resolve.{
  apply_claim, apply_claims, resolve_claims, resolve_field_evidence,
}
use ai_evidence_bom.Model.Resolve.Shape.{resolve_claims_lem}

abbrev pub selected_or : Text → Option FieldEvidence → Text
selected_or old none = old
selected_or old (some c) = c.selected_value

abbrev pub selected_or_else : Option Text → Option FieldEvidence → Option Text
selected_or_else old none = old
selected_or_else old (some c) = some c.selected_value

pub find_unique :
    (k : FieldKey) (c : FieldEvidence) (cs : List FieldEvidence)
    → IsAscending claim_key (c ∷ cs)
    → key_eq (claim_key c) k ≡ true
    → find claim_key k cs ≡ none
find_unique k c cs a e =
    find-Below claim_key (claim_key c) k cs a.0
      (ground (arith, key_eq_iff (claim_key c) k, less_key_irrefl k))

apply_claim-version :
    (c : FieldEvidence) (n : Node)
    → (apply_claim c n).version
      ≡ (if key_eq (claim_key c) (field_version, []) then c.selected_value else n.version)
unfolding apply_claim key_eq
apply_claim-version c n = ground (arith, text_eq_iff c.field field_version, text_eq-nil c.key)

apply_claims-version :
    (cs : List FieldEvidence) (n : Node)
    → IsAscending claim_key cs
    → (apply_claims cs n).version ≡ selected_or n.version (find claim_key (field_version, []) cs)
unfolding apply_claims find
apply_claims-version [] n a = refl
apply_claims-version (c ∷ cs) n a = ground (
  arith,
  apply_claims-version cs (apply_claim c n) a.1,
  apply_claim-version c n,
  find_unique (field_version, []) c cs a,
)

apply_claim-digests :
    (c : FieldEvidence) (n : Node) (k : Text)
    → lookup k (apply_claim c n).digests ≡ (
        if key_eq (claim_key c) (field_digest, k)
        then some c.selected_value
        else lookup k n.digests)
unfolding apply_claim key_eq
apply_claim-digests c n k = ground (
  arith,
  text_eq_iff c.field field_version,
  text_eq_iff c.field field_digest,
  lookup-put c.key k c.selected_value n.digests,
)

apply_claims-digests :
    (cs : List FieldEvidence) (n : Node) (k : Text)
    → IsAscending claim_key cs
    → lookup k (apply_claims cs n).digests
      ≡ selected_or_else (lookup k n.digests) (find claim_key (field_digest, k) cs)
unfolding apply_claims find
apply_claims-digests [] n k a = refl
apply_claims-digests (c ∷ cs) n k a = ground (
  arith,
  apply_claims-digests cs (apply_claim c n) k a.1,
  apply_claim-digests c n k,
  find_unique (field_digest, k) c cs a,
)

apply_claim-properties :
    (c : FieldEvidence) (n : Node) (k : Text)
    → lookup k (apply_claim c n).properties ≡ (
        if key_eq (claim_key c) (field_property, k)
        then some c.selected_value
        else lookup k n.properties)
unfolding apply_claim key_eq
apply_claim-properties c n k = ground (
  arith,
  text_eq_iff c.field field_version,
  text_eq_iff c.field field_digest,
  text_eq_iff c.field field_property,
  lookup-put c.key k c.selected_value n.properties,
)

apply_claims-properties :
    (cs : List FieldEvidence) (n : Node) (k : Text)
    → IsAscending claim_key cs
    → lookup k (apply_claims cs n).properties
      ≡ selected_or_else (lookup k n.properties) (find claim_key (field_property, k) cs)
unfolding apply_claims find
apply_claims-properties [] n k a = refl
apply_claims-properties (c ∷ cs) n k a = ground (
  arith,
  apply_claims-properties cs (apply_claim c n) k a.1,
  apply_claim-properties c n k,
  find_unique (field_property, k) c cs a,
)

apply_claim-field_evidence :
    (c : FieldEvidence) (n : Node) → (apply_claim c n).field_evidence ≡ n.field_evidence
unfolding apply_claim
apply_claim-field_evidence c n = ground arith

apply_claims-field_evidence :
    (cs : List FieldEvidence) (n : Node) → (apply_claims cs n).field_evidence ≡ n.field_evidence
unfolding apply_claims
apply_claims-field_evidence [] n = refl
apply_claims-field_evidence (c ∷ cs) n =
    apply_claims-field_evidence cs (apply_claim c n) ∙ apply_claim-field_evidence c n

-- The node `r` shows what the claims `r.field_evidence` select, and keeps what `n` had where they
-- say nothing.
pub record Mirrors (n r : Node) : Type 0 where
  pub version :
      r.version ≡ selected_or n.version (find claim_key (field_version, []) r.field_evidence)
  pub digests :
      (k : Text)
      → lookup k r.digests
        ≡ selected_or_else (lookup k n.digests) (find claim_key (field_digest, k) r.field_evidence)
  pub properties :
      (k : Text)
      → lookup k r.properties
        ≡ selected_or_else
            (lookup k n.properties)
            (find claim_key (field_property, k) r.field_evidence)

resolve_field_evidence-claims :
    (n : Node)
    → is_empty n.field_evidence ≡ false
    → (resolve_field_evidence n).field_evidence ≡ resolve_claims n.field_evidence
unfolding resolve_field_evidence
resolve_field_evidence-claims n h =
    rw h (apply_claims-field_evidence (resolve_claims n.field_evidence) _)

-- The node before the claims are applied.
abbrev claimed : Node → Node
claimed n = record n { field_evidence = resolve_claims n.field_evidence }

-- `unique_sorted` of the versions apart, the result is what the claims make of the node.
resolve_field_evidence-applied :
    (n : Node)
    → is_empty n.field_evidence ≡ false
    → ((resolve_field_evidence n).version
        ≡ (apply_claims (resolve_claims n.field_evidence) (claimed n)).version)
      × ((resolve_field_evidence n).digests
          ≡ (apply_claims (resolve_claims n.field_evidence) (claimed n)).digests)
      × ((resolve_field_evidence n).properties
          ≡ (apply_claims (resolve_claims n.field_evidence) (claimed n)).properties)
unfolding resolve_field_evidence
resolve_field_evidence-applied n h = (rw h refl, rw h refl, rw h refl)

-- A node that has claims shows, after `ResolveFieldEvidence`, the selected version, digests and
-- properties of its resolved claims, and what it had for those that no claim is about.
pub resolve_field_evidence-Mirrors :
    (n : Node)
    → is_empty n.field_evidence ≡ false
    → ((resolve_field_evidence n).field_evidence ≡ resolve_claims n.field_evidence)
      × Mirrors n (resolve_field_evidence n)
resolve_field_evidence-Mirrors n h =
    let cs = resolve_claims n.field_evidence in
    let same = resolve_field_evidence-claims n h in
    let applied = resolve_field_evidence-applied n h in
    let ascending = (resolve_claims_lem n.field_evidence).1 in
    (
      same,
      record {
        version =
            applied.0
            ∙ apply_claims-version cs (claimed n) ascending
            ∙ ap
                (λ (fs : List FieldEvidence).
                  selected_or n.version (find claim_key (field_version, []) fs))
                (sym same);
        digests = λ k.
            ap (lookup k) applied.1
            ∙ apply_claims-digests cs (claimed n) k ascending
            ∙ ap
                (λ (fs : List FieldEvidence).
                  selected_or_else (lookup k n.digests) (find claim_key (field_digest, k) fs))
                (sym same);
        properties = λ k.
            ap (lookup k) applied.2
            ∙ apply_claims-properties cs (claimed n) k ascending
            ∙ ap
                (λ (fs : List FieldEvidence).
                  selected_or_else (lookup k n.properties) (find claim_key (field_property, k) fs))
                (sym same);
      },
    )
