-- ===== src/Model/Resolve/Select.antt =====
-- The value that `resolve_claims` selects for a field, and the shape of the claims that it makes.
use mathlib.Core.List.{Memᴰ}
use ai_evidence_bom.Prelude.{
  ◌≡◌, refl, subst, true, false, List, [], ◌∷◌, arith, inl, inr, Bool-cases, All,
}
use ai_evidence_bom.Text.Order.{text_order, text_less_irrefl, text_less_trans, text_not_less_trans}
use ai_evidence_bom.Model.Graph.{FieldValueEvidence}
use ai_evidence_bom.Model.FieldKey.{field_key_order}
use ai_evidence_bom.Model.Resolve.{field_value_preferred, select_value}

preferred_trans :
    (a b c : FieldValueEvidence)
    → field_value_preferred a b ≡ true
    → field_value_preferred b c ≡ true
    → field_value_preferred a c ≡ true
unfolding field_value_preferred
preferred_trans a b c h k = ground (arith, text_less_trans a.value b.value c.value)

-- Where neither of two neighbours wins, neither does the first over the last.
not-preferred_trans :
    (a b c : FieldValueEvidence)
    → field_value_preferred a b ≡ false
    → field_value_preferred b c ≡ false
    → field_value_preferred a c ≡ false
unfolding field_value_preferred
not-preferred_trans a b c h k = ground (arith, text_not_less_trans a.value b.value c.value)

preferred_irrefl : (a : FieldValueEvidence) → field_value_preferred a a ≡ false
unfolding field_value_preferred
preferred_irrefl a = ground (arith, text_less_irrefl a.value)

-- What loses to one candidate does not win over one that this candidate does not win over.
loser :
    (a b c : FieldValueEvidence)
    → field_value_preferred b a ≡ true
    → field_value_preferred b c ≡ false
    → field_value_preferred a c ≡ false
loser a b c h k = ground (arith, preferred_trans b a c)

skip_second {ℓ} : {A : Type ℓ} {a s c : A} {cs : List A} → Memᴰ a (s ∷ cs) → Memᴰ a (s ∷ c ∷ cs)
skip_second (Memᴰ.head e) = Memᴰ.head e
skip_second (Memᴰ.tail m) = Memᴰ.tail (Memᴰ.tail m)

abbrev pub Unbeaten : FieldValueEvidence → List FieldValueEvidence → Type 0
Unbeaten best candidates = All (λ c. field_value_preferred c best ≡ false) candidates

select_value-wins :
    (s c : FieldValueEvidence) (cs : List FieldValueEvidence)
    → field_value_preferred c s ≡ true
    → select_value c cs ≡ select_value s (c ∷ cs)
unfolding select_value
select_value-wins s c cs e = rw e

select_value-loses :
    (s c : FieldValueEvidence) (cs : List FieldValueEvidence)
    → field_value_preferred c s ≡ false
    → select_value s cs ≡ select_value s (c ∷ cs)
unfolding select_value
select_value-loses s c cs e = rw e

pub select_value-Unbeaten :
    (s : FieldValueEvidence) (cs : List FieldValueEvidence) → Unbeaten (select_value s cs) (s ∷ cs)
unfolding select_value
select_value-Unbeaten s [] = (preferred_irrefl s, tt)
select_value-Unbeaten s (c ∷ cs) = elim (Bool-cases (field_value_preferred c s)) [
  | inl e ↦
      let rest = select_value-Unbeaten c cs in
      subst (λ b. Unbeaten b (s ∷ c ∷ cs)) (select_value-wins s c cs e)
        (loser s c (select_value c cs) e rest.0, rest)
  | inr e ↦
      let rest = select_value-Unbeaten s cs in
      subst (λ b. Unbeaten b (s ∷ c ∷ cs)) (select_value-loses s c cs e)
        (rest.0, (not-preferred_trans c s (select_value s cs) e rest.0, rest.1))
]

pub select_value-among :
    (s : FieldValueEvidence) (cs : List FieldValueEvidence) → Memᴰ (select_value s cs) (s ∷ cs)
unfolding select_value
select_value-among s [] = Memᴰ.head refl
select_value-among s (c ∷ cs) = elim (Bool-cases (field_value_preferred c s)) [
  | inl e ↦
      subst (λ b. Memᴰ b (s ∷ c ∷ cs)) (select_value-wins s c cs e)
        (Memᴰ.tail (select_value-among c cs))
  | inr e ↦
      subst (λ b. Memᴰ b (s ∷ c ∷ cs)) (select_value-loses s c cs e)
        (skip_second (select_value-among s cs))
]
