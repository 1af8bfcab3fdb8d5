-- ===== src/Model/Resolve/Gather.antt =====
-- What the groups hold under a field, key and value.
use ai_evidence_bom.Prelude.{
  ◌≡◌, refl, ap, true, not, ◌&&◌, List, [], ◌∷◌, ◌++◌, Option, some, arith, is_empty, if◌then◌else◌,
  Bool-cases, inl, inr,
}
use ai_evidence_bom.Text.{Text, text_eq, trim_space}
use ai_evidence_bom.Text.Order.{text_order, text_eq_iff, text_eq-is_empty}
use ai_evidence_bom.Maps.{lookup, put}
use ai_evidence_bom.Maps.Laws.{lookup-put, put-IsDistinct, entry_key}
use ai_evidence_bom.Sorting.Keys.{IsDistinct}
use ai_evidence_bom.Model.Evidence.{EvidenceSummary, merge_evidence_summary}
use ai_evidence_bom.Model.Graph.{FieldValueEvidence, FieldEvidence}
use ai_evidence_bom.Model.FieldKey.{FieldKey, field_key_order, key_eq, key_eq_iff}
use ai_evidence_bom.Model.Resolve.{
  ValueGroup, Groups, read_evidence, read_group, group_values, group_claims,
}

-- The evidence that a list of values gives for one text, in order.
unfoldable pub value_evidences : Text → List FieldValueEvidence → List EvidenceSummary
value_evidences v [] = []
value_evidences v (c ∷ cs) =
    if not (is_empty v) && text_eq (trim_space c.value) v
    then c.evidence ∷ value_evidences v cs
    else value_evidences v cs

-- The evidence that the claims give for one value of one field and key, in order.
unfoldable pub claim_evidences : FieldKey → Text → List FieldEvidence → List EvidenceSummary
claim_evidences k v [] = []
claim_evidences k v (c ∷ cs) =
    if not (is_empty k.0) && key_eq (trim_space c.field, trim_space c.key) k
    then value_evidences v c.values ++ claim_evidences k v cs
    else claim_evidences k v cs

-- Evidence merged one by one into what is there.
unfoldable pub pile : Option EvidenceSummary → List EvidenceSummary → Option EvidenceSummary
pile acc [] = acc
pile acc (e ∷ es) = pile (some (merge_evidence_summary (read_evidence acc) e)) es

pub pile-append :
    (acc : Option EvidenceSummary) (xs ys : List EvidenceSummary)
    → pile acc (xs ++ ys) ≡ pile (pile acc xs) ys
unfolding pile
pile-append acc [] ys = refl
pile-append acc (x ∷ xs) ys =
    pile-append (some (merge_evidence_summary (read_evidence acc) x)) xs ys

lookup-group_values :
    (v : Text) (cs : List FieldValueEvidence) (g : ValueGroup)
    → lookup v (group_values cs g) ≡ pile (lookup v g) (value_evidences v cs)
unfolding group_values value_evidences pile
lookup-group_values v [] g = refl
lookup-group_values v (c ∷ cs) g =
    let t = trim_space c.value in
    let grown = put t (merge_evidence_summary (read_evidence (lookup t g)) c.evidence) g in
    ground (
      arith,
      lookup-group_values v cs g,
      lookup-group_values v cs grown,
      lookup-put t v (merge_evidence_summary (read_evidence (lookup t g)) c.evidence) g,
      text_eq_iff t v,
      text_eq-is_empty t v,
    )

key_eq-is_empty : (j k : FieldKey) → key_eq j k ≡ true → is_empty j.0 ≡ is_empty k.0
key_eq-is_empty j k h = ap (λ (x : FieldKey). is_empty x.0) ((key_eq_iff j k).0 h)

-- One round of the loop over the claims.
lookup-put_group :
    (k j : FieldKey) (v : Text) (cs : List FieldValueEvidence) (gs : Groups)
    → lookup v (read_group (lookup j (put k (group_values cs (read_group (lookup k gs))) gs))) ≡ (
        if key_eq k j
        then pile (lookup v (read_group (lookup j gs))) (value_evidences v cs)
        else lookup v (read_group (lookup j gs)))
lookup-put_group k j v cs gs = ground (
  arith,
  lookup-put k j (group_values cs (read_group (lookup k gs))) gs,
  lookup-group_values v cs (read_group (lookup k gs)),
  key_eq_iff k j,
)

pub lookup-group_claims :
    (k : FieldKey) (v : Text) (cs : List FieldEvidence) (gs : Groups)
    → lookup v (read_group (lookup k (group_claims cs gs)))
      ≡ pile (lookup v (read_group (lookup k gs))) (claim_evidences k v cs)
unfolding group_claims claim_evidences pile
lookup-group_claims k v [] gs = refl
lookup-group_claims k v (c ∷ cs) gs =
    let t : FieldKey = (trim_space c.field, trim_space c.key) in
    let grown = put t (group_values c.values (read_group (lookup t gs))) gs in
    ground (
      arith,
      lookup-group_claims k v cs gs,
      lookup-group_claims k v cs grown,
      lookup-put_group t k v c.values gs,
      pile-append (lookup v (read_group (lookup k gs))) (value_evidences v c.values)
          (claim_evidences k v cs),
      key_eq-is_empty t k,
    )

-- No field and key has two groups, and no group holds a value twice.
pub group_claims-IsDistinct :
    (cs : List FieldEvidence) (gs : Groups)
    → IsDistinct entry_key gs
    → IsDistinct entry_key (group_claims cs gs)
unfolding group_claims
group_claims-IsDistinct [] gs d = d
group_claims-IsDistinct (c ∷ cs) gs d = elim (Bool-cases (is_empty (trim_space c.field))) [
  | inl e ↦ rw e (group_claims-IsDistinct cs gs d)
  | inr e ↦ rw e (group_claims-IsDistinct cs _ (put-IsDistinct _ _ gs d))
]

pub group_values-IsDistinct :
    (cs : List FieldValueEvidence) (g : ValueGroup)
    → IsDistinct entry_key g
    → IsDistinct entry_key (group_values cs g)
unfolding group_values
group_values-IsDistinct [] g d = d
group_values-IsDistinct (c ∷ cs) g d = elim (Bool-cases (is_empty (trim_space c.value))) [
  | inl e ↦ rw e (group_values-IsDistinct cs g d)
  | inr e ↦ rw e (group_values-IsDistinct cs _ (put-IsDistinct _ _ g d))
]

put_group-IsDistinct :
    (j : FieldKey) (cs : List FieldValueEvidence) (gs : Groups)
    → ((k : FieldKey) → IsDistinct entry_key (read_group (lookup k gs)))
    → (k : FieldKey)
    → IsDistinct entry_key
        (read_group (lookup k (put j (group_values cs (read_group (lookup j gs))) gs)))
put_group-IsDistinct j cs gs d k = elim (Bool-cases (key_eq j k)) [
  | inl e ↦ rw (lookup-put, e) (group_values-IsDistinct cs _ (d j))
  | inr e ↦ rw (lookup-put, e) (d k)
]

-- Each group of a map of groups holds a value once.
pub groups-IsDistinct :
    (cs : List FieldEvidence) (gs : Groups)
    → ((k : FieldKey) → IsDistinct entry_key (read_group (lookup k gs)))
    → (k : FieldKey) → IsDistinct entry_key (read_group (lookup k (group_claims cs gs)))
unfolding group_claims
groups-IsDistinct [] gs d k = d k
groups-IsDistinct (c ∷ cs) gs d k = elim (Bool-cases (is_empty (trim_space c.field))) [
  | inl e ↦ rw e (groups-IsDistinct cs gs d k)
  | inr e ↦ rw e (groups-IsDistinct cs _ (put_group-IsDistinct _ c.values gs d) k)
]
