-- ===== src/Model/Resolve/Canonical.antt =====
-- The resolved claims as a function of the evidence under each field, key and value.
use ai_evidence_bom.Prelude.{
  ◌≡◌, refl, sym, ◌∙◌, ap, List, [], ◌∷◌, ◌++◌, Option, none, some, arith, if◌then◌else◌,
  LinearOrder, map,
}
use ai_evidence_bom.Text.{Text}
use ai_evidence_bom.Text.Order.{text_order, text_eq_iff}
use ai_evidence_bom.Maps.{lookup}
use ai_evidence_bom.Maps.Laws.{entry_key}
use ai_evidence_bom.Sorting.{find, sort_slice}
use ai_evidence_bom.Sorting.Keys.{IsDistinct, IsAscending, sort_slice-IsAscending}
use ai_evidence_bom.Sorting.Canonical.{sort_slice_ext}
use ai_evidence_bom.Model.Evidence.{EvidenceSummary, canonicalize_evidence}
use ai_evidence_bom.Model.Graph.{FieldValueEvidence, FieldEvidence}
use ai_evidence_bom.Model.FieldKey.{FieldKey, field_key_order, key_eq, key_eq_iff, claim_key}
use ai_evidence_bom.Model.Resolve.{
  ValueGroup, Groups, read_group, values_of_group, canonical_value, claim_of, claims_of,
}

abbrev pub value_key : FieldValueEvidence → Text
value_key v = v.value

-- What is kept of the evidence of one value.
abbrev pub canonical_evidence : Option EvidenceSummary → Option EvidenceSummary
canonical_evidence none = none
canonical_evidence (some e) = some (canonicalize_evidence e)

abbrev pub value_for : Text → Option EvidenceSummary → Option FieldValueEvidence
value_for v none = none
value_for v (some e) = some (record { value = v; evidence = e })

-- The first claim of a list of at most one.
abbrev pub first_claim : List FieldEvidence → Option FieldEvidence
first_claim [] = none
first_claim (c ∷ cs) = some c

pub find-map-canonical_value :
    (v : Text) (g : ValueGroup)
    → find value_key v (map canonical_value g) ≡ value_for v (canonical_evidence (lookup v g))
unfolding find lookup
find-map-canonical_value v [] = refl
find-map-canonical_value v ((j, e) ∷ g) =
    ground (arith, find-map-canonical_value v g, text_eq_iff j v)

lookup-none {ℓ} :
    {K : Type 0} {V : Type ℓ} ⦃o : LinearOrder K⦄ (k : K) (m : List (K × V))
    → find entry_key k m ≡ none
    → lookup k m ≡ none
unfolding find lookup
lookup-none k [] h = refl
lookup-none ⦃o⦄ k ((j, v) ∷ m) h = ground (arith, lookup-none k m)

map-canonical_value-IsDistinct :
    (g : ValueGroup) → IsDistinct entry_key g → IsDistinct value_key (map canonical_value g)
map-canonical_value-IsDistinct [] d = tt
map-canonical_value-IsDistinct ((v, e) ∷ g) d = (
  find-map-canonical_value v g
      ∙ ap (λ (x : Option EvidenceSummary). value_for v (canonical_evidence x))
          (lookup-none v g d.0),
  map-canonical_value-IsDistinct g d.1,
)

-- Two groups with alike evidence under every value have the same sorted values.
pub values_of_group_ext :
    (g h : ValueGroup)
    → IsDistinct entry_key g
    → IsDistinct entry_key h
    → ((v : Text) → canonical_evidence (lookup v g) ≡ canonical_evidence (lookup v h))
    → values_of_group g ≡ values_of_group h
unfolding values_of_group
values_of_group_ext g h dg dh e =
    sort_slice_ext value_key (map canonical_value g) (map canonical_value h)
      (map-canonical_value-IsDistinct g dg) (map-canonical_value-IsDistinct h dh)
      (λ v.
        find-map-canonical_value v g ∙ ap (value_for v) (e v) ∙ sym (find-map-canonical_value v h))

pub values_of_group-IsAscending :
    (g : ValueGroup) → IsDistinct entry_key g → IsAscending value_key (values_of_group g)
unfolding values_of_group
values_of_group-IsAscending g d =
    sort_slice-IsAscending value_key (map canonical_value g) (map-canonical_value-IsDistinct g d)

find-claim_of :
    (j k : FieldKey) (vs : List FieldValueEvidence) (rest : List FieldEvidence)
    → find claim_key k (claim_of j vs ++ rest) ≡ (
        if key_eq j k
        then (elim (first_claim (claim_of k vs)) [ none ↦ find claim_key k rest | some c ↦ some c ])
        else find claim_key k rest)
unfolding find claim_of
find-claim_of j k [] rest = ground arith
find-claim_of j k (v ∷ vs) rest = ground (arith, key_eq_iff j k)

values_of_no_group : values_of_group [] ≡ []
unfolding values_of_group sort_slice
values_of_no_group = refl

pub claim_of_nothing : (k : FieldKey) → first_claim (claim_of k (values_of_group [])) ≡ none
unfolding claim_of
claim_of_nothing k = rw values_of_no_group refl

-- The claim about a field and key is made from the group under it.
pub find-claims_of :
    (k : FieldKey) (gs : Groups)
    → IsDistinct entry_key gs
    → find claim_key k (claims_of gs)
      ≡ first_claim (claim_of k (values_of_group (read_group (lookup k gs))))
unfolding claims_of lookup find
find-claims_of k [] d = sym (claim_of_nothing k)
find-claims_of k ((j, g) ∷ gs) d = ground (
  arith,
  find-claim_of j k (values_of_group g) (claims_of gs),
  find-claims_of k gs d.1,
  key_eq_iff j k,
  lookup-none j gs d.0,
  claim_of_nothing k,
)

claim_of-IsDistinct :
    (j : FieldKey) (vs : List FieldValueEvidence) (rest : List FieldEvidence)
    → find claim_key j rest ≡ none
    → IsDistinct claim_key rest
    → IsDistinct claim_key (claim_of j vs ++ rest)
unfolding claim_of
claim_of-IsDistinct j [] rest h d = d
claim_of-IsDistinct j (v ∷ vs) rest h d = (h, d)

-- No two claims are about one field and key.
pub claims_of-IsDistinct :
    (gs : Groups) → IsDistinct entry_key gs → IsDistinct claim_key (claims_of gs)
unfolding claims_of
claims_of-IsDistinct [] d = tt
claims_of-IsDistinct ((j, g) ∷ gs) d =
    claim_of-IsDistinct j (values_of_group g) (claims_of gs)
      (find-claims_of j gs d.1
        ∙ ap (λ (x : Option ValueGroup). first_claim (claim_of j (values_of_group (read_group x))))
            (lookup-none j gs d.0)
        ∙ claim_of_nothing j)
      (claims_of-IsDistinct gs d.1)
