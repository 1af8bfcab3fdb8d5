-- ===== src/GraphDiff/Entries.antt =====
-- When the loops of `Compare` collect nothing.
use ai_evidence_bom.Prelude.{
  ◌≡◌, refl, sym, List, [], ◌∷◌, Option, none, some, All, arith, Bool-cases, Option-cases, inl, inr,
  subst, beq_refl, All-imp,
}
use ai_evidence_bom.Text.{Text}
use ai_evidence_bom.Text.Order.{text_order}
use ai_evidence_bom.Maps.{lookup}
use ai_evidence_bom.Maps.Laws.{entry_key, lookup-All}
use ai_evidence_bom.Sorting.{find}
use ai_evidence_bom.Sorting.Keys.{IsDistinct}
use ai_evidence_bom.GraphDiff.{
  Compared, add_change, compare_entry, compare_entries, removed_entry, removed_entries,
}

module _ {B C : Type 0} (change : Text → B → B → Option C) where
  -- An entry that was there and is no change.
  abbrev pub IsKept : Text → Option B → B → Type 0
  IsKept id none node = ⊥
  IsKept id (some previous) node = change id previous node ≡ none

  -- Both sides lack the entry, or both have it and it is no change.
  abbrev pub Agrees : Text → Option B → Option B → Type 0
  Agrees id none none = Unit
  Agrees id none (some node) = ⊥
  Agrees id (some previous) none = ⊥
  Agrees id (some previous) (some node) = change id previous node ≡ none

  AreKept : (before after : List (Text × B)) → Type 0
  AreKept before after = All (λ e. IsKept e.0 (lookup e.0 before) e.1) after

  compare_entry-IsKept :
      (id : Text) (node : B) (found : Option B) (r : Compared B C)
      → ((compare_entry (change id) node found r).added ≡ [])
        × ((compare_entry (change id) node found r).changed ≡ [])
      → IsKept id found node × (r.added ≡ []) × (r.changed ≡ [])
  unfolding compare_entry add_change
  compare_entry-IsKept id node none r h = absurd (ground (arith, h.0))
  compare_entry-IsKept id node (some previous) r h = elim (Option-cases (change id previous node)) [
    | inl e ↦ (e, ground (arith, h.0, e), ground (arith, h.1, e))
    | inr (c, e) ↦ absurd (ground (arith, h.1, e))
  ]

  entry_kept-compare :
      (id : Text) (node : B) (found : Option B) (r : Compared B C)
      → IsKept id found node
      → compare_entry (change id) node found r ≡ r
  unfolding compare_entry add_change
  entry_kept-compare id node none r h = absurd h
  entry_kept-compare id node (some previous) r h = rw h refl

  compare_entries-kept :
      (before after : List (Text × B))
      → ((compare_entries change before after).added ≡ [])
        × ((compare_entries change before after).changed ≡ [])
      → AreKept before after
  unfolding compare_entries AreKept
  compare_entries-kept before [] h = tt
  compare_entries-kept before ((id, node) ∷ after) h =
      let rest = compare_entries change before after in
      let (kept, none_added, none_changed) =
        compare_entry-IsKept id node (lookup id before) rest h in
      (kept, compare_entries-kept before after (none_added, none_changed))

  kept-compare_entries :
      (before after : List (Text × B))
      → AreKept before after
      → ((compare_entries change before after).added ≡ [])
        × ((compare_entries change before after).changed ≡ [])
  unfolding compare_entries AreKept
  kept-compare_entries before [] h = (refl, refl)
  kept-compare_entries before ((id, node) ∷ after) h =
      let rest = compare_entries change before after in
      rw (entry_kept-compare id node (lookup id before) rest h.0)
        (kept-compare_entries before after h.1)

module _ {B : Type 0} where
  abbrev IsThere : Option B → Type 0
  IsThere none = ⊥
  IsThere (some node) = Unit

  AreThere : (after before : List (Text × B)) → Type 0
  AreThere after before = All (λ e. IsThere (lookup e.0 after)) before

  removed_entries-there :
      (after before : List (Text × B)) → removed_entries after before ≡ [] → AreThere after before
  unfolding removed_entries removed_entry AreThere
  removed_entries-there after [] h = tt
  removed_entries-there after ((id, node) ∷ before) h = elim (Option-cases (lookup id after)) [
    | inl e ↦ absurd (ground (arith, h, e))
    | inr (kept, e) ↦ (rw e tt, removed_entries-there after before (ground (arith, h, e)))
  ]

  there-removed_entries :
      (after before : List (Text × B)) → AreThere after before → removed_entries after before ≡ []
  unfolding removed_entries removed_entry AreThere
  there-removed_entries after [] h = refl
  there-removed_entries after ((id, node) ∷ before) h = elim (Option-cases (lookup id after)) [
    | inl e ↦ absurd (subst IsThere e h.0)
    | inr (kept, e) ↦ rw e (there-removed_entries after before h.1)
  ]

  absent-lookup : (k : Text) (m : List (Text × B)) → find entry_key k m ≡ none → lookup k m ≡ none
  unfolding find lookup
  absent-lookup k [] h = refl
  absent-lookup k ((j, v) ∷ m) h = ground (arith, h, absent-lookup k m)

  -- In a map, every entry is what its key is looked up as.
  entries-lookup :
      (m : List (Text × B)) → IsDistinct entry_key m → All (λ e. lookup e.0 m ≡ some e.1) m
  unfolding lookup
  entries-lookup [] d = tt
  entries-lookup ((k, v) ∷ m) d = (
    rw (beq_refl k) refl,
    All-imp (λ e. lookup e.0 m ≡ some e.1) (λ e. lookup e.0 ((k, v) ∷ m) ≡ some e.1) m
        (λ e found. elim (Bool-cases (text_order.beq k e.0)) [
          | inl same ↦
              let key = (text_order.beq_iff k e.0).0 same in
              absurd (ground (arith, sym found, absent-lookup k m d.0, key))
          | inr other ↦ rw other found
        ])
        (entries-lookup m d.1),
  )

module _ {B C : Type 0} (change : Text → B → B → Option C) where
  kept-Agrees :
      (id : Text) (found : Option B) (node : B)
      → IsKept change id found node
      → Agrees change id found (some node)
  kept-Agrees id none node h = h
  kept-Agrees id (some previous) node h = h

  Agrees-IsKept :
      (id : Text) (found : Option B) (node : B)
      → Agrees change id found (some node)
      → IsKept change id found node
  Agrees-IsKept id none node h = h
  Agrees-IsKept id (some previous) node h = h

  Agrees-IsThere :
      (id : Text) (previous : B) (found : Option B)
      → Agrees change id (some previous) found
      → IsThere found
  Agrees-IsThere id previous none h = h
  Agrees-IsThere id previous (some node) h = tt

  module _ (before after : List (Text × B)) where
    pub all_agree :
        (compare_entries change before after).added ≡ []
        → (compare_entries change before after).changed ≡ []
        → removed_entries after before ≡ []
        → (id : Text) → Agrees change id (lookup id before) (lookup id after)
    unfolding AreKept AreThere
    all_agree none_added none_changed none_removed id =
        let kept = compare_entries-kept change before after (none_added, none_changed) in
        let there = removed_entries-there after before none_removed in
        elim (Option-cases (lookup id after)) [
          | inr (node, e) ↦ rw e (
              kept-Agrees id (lookup id before) node
                (lookup-All (λ j v. IsKept change j (lookup j before) v) id after kept e))
          | inl e ↦ elim (Option-cases (lookup id before)) [
            | inl f ↦ rw (e, f) tt
            | inr (previous, f) ↦
                absurd
                  (subst IsThere e (lookup-All (λ j v. IsThere (lookup j after)) id before there f))
          ]
        ]

    pub none_collected :
        IsDistinct entry_key before
        → IsDistinct entry_key after
        → ((id : Text) → Agrees change id (lookup id before) (lookup id after))
        → ((compare_entries change before after).added ≡ [])
          × ((compare_entries change before after).changed ≡ [])
          × (removed_entries after before ≡ [])
    unfolding AreKept AreThere
    none_collected db da agree =
        let kept =
          All-imp (λ e. lookup e.0 after ≡ some e.1)
            (λ e. IsKept change e.0 (lookup e.0 before) e.1) after
            (λ e found.
              Agrees-IsKept e.0 (lookup e.0 before) e.1
                (subst (Agrees change e.0 (lookup e.0 before)) found (agree e.0)))
            (entries-lookup after da) in
        let there =
          All-imp (λ e. lookup e.0 before ≡ some e.1) (λ e. IsThere (lookup e.0 after)) before
            (λ e found.
              Agrees-IsThere e.0 e.1 (lookup e.0 after)
                (subst (λ o. Agrees change e.0 o (lookup e.0 after)) found (agree e.0)))
            (entries-lookup before db) in
        let (a, c) = kept-compare_entries change before after kept in
        (a, c, there-removed_entries after before there)
