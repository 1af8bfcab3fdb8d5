-- ===== src/Model/Resolve/Independence.antt =====
-- `resolve_claims` on claims in another order.
use mathlib.Core.List.{Permᴰ, append_assoc, append-nil}
use mathlib.Core.List.Permᴰ
use ai_evidence_bom.Prelude.{◌≡◌, refl, sym, ◌∙◌, ap, subst₂, List, [], ◌∷◌, ◌++◌, none, inr, arith}
use ai_evidence_bom.Text.{Text}
use ai_evidence_bom.Text.Order.{text_order}
use ai_evidence_bom.Maps.{lookup}
use ai_evidence_bom.Maps.Laws.{entry_key}
use ai_evidence_bom.Sorting.Keys.{IsDistinct}
use ai_evidence_bom.Sorting.Canonical.{sort_slice_ext}
use ai_evidence_bom.Model.Evidence.{EvidenceSummary}
use ai_evidence_bom.Model.Graph.{FieldEvidence, FieldValueEvidence}
use ai_evidence_bom.Model.FieldKey.{FieldKey, field_key_order, claim_key}
use ai_evidence_bom.Model.Resolve.{group_claims, claims_of, claim_of, read_group, resolve_claims}
use ai_evidence_bom.Model.Resolve.Gather.{
  claim_evidences, value_evidences, lookup-group_claims, group_claims-IsDistinct, groups-IsDistinct,
}
use ai_evidence_bom.Model.Resolve.Canonical.{
  canonical_evidence, values_of_group_ext, find-claims_of, first_claim, claims_of-IsDistinct,
}
use ai_evidence_bom.Model.Resolve.Pile.{pile_perm}

-- The two lists of claims give the same evidence for every value, in some order.
abbrev pub SameEvidence : List FieldEvidence → List FieldEvidence → Type 0
SameEvidence cs ds =
    (k : FieldKey) (v : Text) → Permᴰ (claim_evidences k v cs) (claim_evidences k v ds)

claim_evidences-cons :
    (k : FieldKey) (v : Text) (c : FieldEvidence) (cs : List FieldEvidence)
    → claim_evidences k v (c ∷ cs) ≡ claim_evidences k v (c ∷ []) ++ claim_evidences k v cs
unfolding claim_evidences
claim_evidences-cons k v c cs =
    let all : value_evidences v c.values ++ [] ≡ value_evidences v c.values =
      append-nil (value_evidences v c.values) in
    ground arith

claim_evidences-twice :
    (k : FieldKey) (v : Text) (a b : FieldEvidence) (rest : List FieldEvidence)
    → claim_evidences k v (a ∷ b ∷ rest)
      ≡ claim_evidences k v (a ∷ []) ++ (claim_evidences k v (b ∷ []) ++ claim_evidences k v rest)
claim_evidences-twice k v a b rest =
    claim_evidences-cons k v a (b ∷ rest)
    ∙ ap (λ es. claim_evidences k v (a ∷ []) ++ es) (claim_evidences-cons k v b rest)

swap_evidences :
    (k : FieldKey) (v : Text) (a b : FieldEvidence) (rest : List FieldEvidence)
    → Permᴰ (claim_evidences k v (a ∷ b ∷ rest)) (claim_evidences k v (b ∷ a ∷ rest))
swap_evidences k v a b rest =
    let of_a = claim_evidences k v (a ∷ []) in
    let of_b = claim_evidences k v (b ∷ []) in
    let others = claim_evidences k v rest in
    subst₂ (λ xs ys. Permᴰ xs ys)
      (append_assoc of_a of_b others ∙ sym (claim_evidences-twice k v a b rest))
      (append_assoc of_b of_a others ∙ sym (claim_evidences-twice k v b a rest))
      (Permᴰ.append_right others (Permᴰ.append_comm of_a of_b))

-- Claims in another order give the same evidence.
pub perm-SameEvidence : {cs ds : List FieldEvidence} → Permᴰ cs ds → SameEvidence cs ds
perm-SameEvidence Permᴰ.nil k v = Permᴰ.refl _
perm-SameEvidence (Permᴰ.cons {a} {b} {l₁ = cs} {l₂ = ds} e h) k v =
    subst₂ (λ xs ys. Permᴰ xs ys) (sym (claim_evidences-cons k v a cs))
      (sym (
        claim_evidences-cons k v b ds
        ∙ ap (λ c. claim_evidences k v (c ∷ []) ++ claim_evidences k v ds) (sym e)))
      (Permᴰ.append_left (claim_evidences k v (a ∷ [])) (perm-SameEvidence h k v))
perm-SameEvidence (Permᴰ.swap {a} {b} {a' = c} {b' = d} {l = rest} e f) k v =
    subst₂ (λ x y. Permᴰ (claim_evidences k v (a ∷ b ∷ rest)) (claim_evidences k v (y ∷ x ∷ rest)))
      e f (swap_evidences k v a b rest)
perm-SameEvidence (Permᴰ.trans h g) k v =
    Permᴰ.trans (perm-SameEvidence h k v) (perm-SameEvidence g k v)

group : FieldKey → List FieldEvidence → List (Text × EvidenceSummary)
group k cs = read_group (lookup k (group_claims cs []))

group-alike :
    (cs ds : List FieldEvidence)
    → SameEvidence cs ds
    → (k : FieldKey) (v : Text)
    → canonical_evidence (lookup v (group k cs)) ≡ canonical_evidence (lookup v (group k ds))
unfolding group lookup
group-alike cs ds h k v =
    ap canonical_evidence (lookup-group_claims k v cs [])
    ∙ pile_perm none none (inr refl) (inr refl) refl (h k v)
    ∙ sym (ap canonical_evidence (lookup-group_claims k v ds []))

nothing-IsDistinct : (k : FieldKey) → IsDistinct entry_key (read_group (lookup k []))
unfolding lookup
nothing-IsDistinct k = tt

-- Claims that give the same evidence for every value of every field and key, in whatever order, resolve
-- to the same claims.
pub resolve_claims_independent :
    (cs ds : List FieldEvidence) → SameEvidence cs ds → resolve_claims cs ≡ resolve_claims ds
unfolding resolve_claims group
resolve_claims_independent cs ds h =
    let dc = group_claims-IsDistinct cs [] tt in
    let dd = group_claims-IsDistinct ds [] tt in
    sort_slice_ext claim_key (claims_of (group_claims cs [])) (claims_of (group_claims ds []))
      (claims_of-IsDistinct _ dc) (claims_of-IsDistinct _ dd)
      (λ k.
        find-claims_of k (group_claims cs []) dc
        ∙ ap (λ (vs : List FieldValueEvidence). first_claim (claim_of k vs))
            (values_of_group_ext (group k cs) (group k ds)
              (groups-IsDistinct cs [] nothing-IsDistinct k)
              (groups-IsDistinct ds [] nothing-IsDistinct k) (group-alike cs ds h k))
        ∙ sym (find-claims_of k (group_claims ds []) dd))
