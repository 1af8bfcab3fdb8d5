-- ===== src/Model/Resolve/Shape.antt =====
-- The shape of the claims that `resolve_claims` makes.
use mathlib.Core.List.{Memᴰ}
use ai_evidence_bom.Prelude.{
  ◌≡◌, refl, false, List, [], ◌∷◌, ◌++◌, inl, inr, Bool-cases, Option-cases, All, length, ltb,
  is_empty,
}
use ai_evidence_bom.Text.{trim_space}
use ai_evidence_bom.Text.Order.{text_order}
use ai_evidence_bom.Maps.{lookup}
use ai_evidence_bom.Maps.Laws.{entry_key, All-put, lookup-All}
use ai_evidence_bom.Sorting.Keys.{IsAscending, IsDistinct, sort_slice-IsAscending, All-sort_slice}
use ai_evidence_bom.Model.Graph.{FieldValueEvidence, FieldEvidence}
use ai_evidence_bom.Model.FieldKey.{FieldKey, field_key_order, claim_key, less_claim}
use ai_evidence_bom.Model.Resolve.{
  Groups, ValueGroup, field_value_preferred, select_value, claim_of, claims_of, values_of_group,
  resolve_claims, group_claims, read_group,
}
use ai_evidence_bom.Model.Resolve.Gather.{group_claims-IsDistinct, group_values-IsDistinct}
use ai_evidence_bom.Model.Resolve.Canonical.{
  value_key, values_of_group-IsAscending, claims_of-IsDistinct,
}
use ai_evidence_bom.Model.Resolve.Select.{select_value-among, select_value-Unbeaten}

-- What `resolve_claims` makes of the claims about one field and key.
pub record IsResolved (claim : FieldEvidence) : Type 0 where
  pub named : is_empty claim.field ≡ false
  pub ascending : IsAscending value_key claim.values
  pub best : FieldValueEvidence
  pub selected : claim.selected_value ≡ best.value
  pub among : Memᴰ best claim.values
  pub unbeaten : All (λ c. field_value_preferred c best ≡ false) claim.values
  pub in_conflict : claim.conflict ≡ ltb 1 (length claim.values)

-- A group under a named field that holds no value twice.
abbrev IsSound : FieldKey → ValueGroup → Type 0
IsSound k g = (is_empty k.0 ≡ false) × IsDistinct entry_key g

claim_of-IsResolved :
    (k : FieldKey) (vs : List FieldValueEvidence) (rest : List FieldEvidence)
    → is_empty k.0 ≡ false
    → IsAscending value_key vs
    → All IsResolved rest
    → All IsResolved (claim_of k vs ++ rest)
unfolding claim_of
claim_of-IsResolved k [] rest h a r = r
claim_of-IsResolved k (v ∷ vs) rest h a r = (
  record {
    named = h;
    ascending = a;
    best = select_value v vs;
    selected = refl;
    among = select_value-among v vs;
    unbeaten = select_value-Unbeaten v vs;
    in_conflict = refl;
  },
  r,
)

claims_of-IsResolved : (gs : Groups) → All (λ g. IsSound g.0 g.1) gs → All IsResolved (claims_of gs)
unfolding claims_of
claims_of-IsResolved [] h = tt
claims_of-IsResolved ((k, g) ∷ gs) h =
    claim_of-IsResolved k (values_of_group g) (claims_of gs) h.0.0
      (values_of_group-IsAscending g h.0.1) (claims_of-IsResolved gs h.1)

-- What a missing group reads as is sound too.
read_group-IsDistinct :
    (k : FieldKey) (gs : Groups)
    → All (λ g. IsSound g.0 g.1) gs
    → IsDistinct entry_key (read_group (lookup k gs))
read_group-IsDistinct k gs h = elim (Option-cases (lookup k gs)) [
  | inl e ↦ rw e tt
  | inr (g, e) ↦ rw e ((lookup-All IsSound k gs h e).1)
]

group_claims-IsSound :
    (cs : List FieldEvidence) (gs : Groups)
    → All (λ g. IsSound g.0 g.1) gs
    → All (λ g. IsSound g.0 g.1) (group_claims cs gs)
unfolding group_claims
group_claims-IsSound [] gs h = h
group_claims-IsSound (c ∷ cs) gs h = elim (Bool-cases (is_empty (trim_space c.field))) [
  | inl e ↦ rw e (group_claims-IsSound cs gs h)
  | inr e ↦ rw e (
      group_claims-IsSound cs _ (
        All-put IsSound _ _ gs
          (e, group_values-IsDistinct c.values _ (read_group-IsDistinct _ gs h)) h))
]

-- Each resolved claim has a name, lists its values in ascending order, selects a value that no
-- other one wins over, and reports a conflict exactly where it has several values; the claims
-- ascend by field and key.
pub resolve_claims_lem :
    (cs : List FieldEvidence)
    → All IsResolved (resolve_claims cs) × IsAscending claim_key (resolve_claims cs)
unfolding resolve_claims
resolve_claims_lem cs = (
  All-sort_slice IsResolved less_claim (claims_of (group_claims cs []))
      (claims_of-IsResolved _ (group_claims-IsSound cs [] tt)),
  sort_slice-IsAscending claim_key _ (claims_of-IsDistinct _ (group_claims-IsDistinct cs [] tt)),
)
