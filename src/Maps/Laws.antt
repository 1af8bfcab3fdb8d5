-- ===== src/Maps/Laws.antt =====
-- Reading after writing, for maps and for sets.
use ai_evidence_bom.Prelude.{
  ◌≡◌, refl, false, List, [], ◌∷◌, none, some, arith, LinearOrder, ◌||◌, All, subst, subst₂, sym,
  if◌then◌else◌, Bool-cases, inl, inr, ◌∙◌, beq_symm,
}
use ai_evidence_bom.Sorting.{find}
use ai_evidence_bom.Sorting.Keys.{IsDistinct}
use ai_evidence_bom.Maps.{lookup, put, delete, elem, add}

-- An element of a set is its own key.
abbrev pub itself {ℓ} : {A : Type ℓ} → A → A
itself x = x

module _ {ℓ κ} {K : Type ℓ} {V : Type κ} ⦃o : LinearOrder K⦄ where
  -- The key of an entry.
  abbrev pub entry_key : K × V → K
  entry_key e = e.0

  pub lookup-put :
      (k j : K) (v : V) (m : List (K × V))
      → lookup j (put k v m) ≡ (if o.beq k j then some v else lookup j m)
  unfolding lookup put
  lookup-put k j v [] = refl
  lookup-put k j v ((i, w) ∷ m) =
      ground (arith, o.beq_iff k j, o.beq_iff i k, o.beq_iff i j, lookup-put k j v m)

  pub lookup-delete :
      (k j : K) (m : List (K × V))
      → lookup j (delete k m) ≡ (if o.beq k j then none else lookup j m)
  unfolding lookup delete
  lookup-delete k j [] = ground arith
  lookup-delete k j ((i, w) ∷ m) =
      ground (arith, o.beq_iff k j, o.beq_iff i k, o.beq_iff i j, lookup-delete k j m)

  pub find-put-none :
      (k j : K) (v : V) (m : List (K × V))
      → o.beq k j ≡ false
      → find entry_key j m ≡ none
      → find entry_key j (put k v m) ≡ none
  unfolding find put
  find-put-none k j v [] e h = ground arith
  find-put-none k j v ((i, w) ∷ m) e h =
      ground (arith, o.beq_iff k j, o.beq_iff i k, o.beq_iff i j, find-put-none k j v m e)

  -- Writing keeps the keys of a map distinct.
  pub put-IsDistinct :
      (k : K) (v : V) (m : List (K × V)) → IsDistinct entry_key m → IsDistinct entry_key (put k v m)
  unfolding put find
  put-IsDistinct k v [] d = (refl, tt)
  put-IsDistinct k v ((j, w) ∷ m) d = elim (Bool-cases (o.beq j k)) [
    | inl e ↦ rw e d
    | inr e ↦ rw e (find-put-none k j v m (beq_symm j k e) d.0, put-IsDistinct k v m d.1)
  ]

module _ {ℓ κ μ} {K : Type ℓ} {V : Type κ} ⦃o : LinearOrder K⦄ (P : K → V → Type μ) where
  -- A property of every entry survives a write that has it.
  pub All-put :
      (k : K) (v : V) (m : List (K × V))
      → P k v
      → All (λ e. P e.0 e.1) m
      → All (λ e. P e.0 e.1) (put k v m)
  unfolding put
  All-put k v [] p h = (p, tt)
  All-put k v ((j, w) ∷ m) p h = elim (Bool-cases (o.beq j k)) [
    | inl e ↦ rw e (subst (λ i. P i v) (sym ((o.beq_iff j k).0 e)) p, h.1)
    | inr e ↦ rw e (h.0, All-put k v m p h.1)
  ]

  pub lookup-All :
      (k : K) (m : List (K × V)) {v : V} → All (λ e. P e.0 e.1) m → lookup k m ≡ some v → P k v
  unfolding lookup
  lookup-All k [] h e = cc
  lookup-All k ((j, w) ∷ m) {v} h e = elim (Bool-cases (o.beq j k)) [
    | inl f ↦ subst₂ P ((o.beq_iff j k).0 f) (ground arith) h.0
    | inr f ↦ lookup-All k m h.1 (ground arith)
  ]

module _ {ℓ} {K : Type ℓ} ⦃o : LinearOrder K⦄ where
  pub elem-add : (k j : K) (s : List K) → elem j (add k s) ≡ (o.beq k j || elem j s)
  unfolding elem add
  elem-add k j s = ground (arith, o.beq_iff k j)

  pub find-itself : (k : K) (s : List K) → find itself k s ≡ (if elem k s then some k else none)
  unfolding find elem
  find-itself k [] = refl
  find-itself k (j ∷ s) = ground (arith, o.beq_iff j k, find-itself k s)

  pub add-IsDistinct : (k : K) (s : List K) → IsDistinct itself s → IsDistinct itself (add k s)
  unfolding add
  add-IsDistinct k s d = elim (Bool-cases (elem k s)) [
    | inl e ↦ rw e d
    | inr e ↦ rw e (find-itself k s ∙ (rw e), d)
  ]
