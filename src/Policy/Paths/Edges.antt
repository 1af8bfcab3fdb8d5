-- ===== src/Policy/Paths/Edges.antt =====
-- The loops of the search over the edges.
use mathlib.Core.List.{Memᴰ}
use mathlib.Core.List.Memᴰ
use ai_evidence_bom.Prelude.{
  ◌≡◌, refl, ◌≢◌, List, [], ◌∷◌, Option, none, some, arith, inl, inr, Bool-cases, Option-cases,
}
use ai_evidence_bom.Text.{Text, text_eq}
use ai_evidence_bom.Text.Order.{text_order, text_eq_iff}
use ai_evidence_bom.Sorting.Members.{mem-sort_slice, mem_of_mem-sort_slice, Memᴰ-cases}
use ai_evidence_bom.Model.Graph.{Edge}
use ai_evidence_bom.Policy.Paths.{less_step, edges_from, adjacency, first_found}

-- A hit of the loop is a hit of its body at an element.
pub first_found-some {ℓ κ} :
    {A : Type ℓ} {B : Type κ} (f : A → Option B) (xs : List A) {b : B}
    → first_found f xs ≡ some b
    → (x : A) × Memᴰ x xs × (f x ≡ some b)
unfolding first_found
first_found-some f [] h = cc
first_found-some f (x ∷ xs) h = elim (Option-cases (f x)) [
  | inl e ↦ let (y, m, k) = first_found-some f xs (ground arith) in (y, Memᴰ.tail m, k)
  | inr (c, e) ↦ (x, Memᴰ.head refl, ground arith)
]

-- A body that hits at an element makes the loop hit.
pub first_found-of_mem {ℓ κ} :
    {A : Type ℓ} {B : Type κ} (f : A → Option B) {x : A} {xs : List A}
    → Memᴰ x xs
    → f x ≢ none
    → first_found f xs ≢ none
unfolding first_found
first_found-of_mem f (Memᴰ.head e) h = ground arith
first_found-of_mem f (Memᴰ.tail {x = y} {xs = ys} m) h = ground (arith, first_found-of_mem f m h)

mem-edges_from :
    (e : Edge) (from : Text) (es : List Edge)
    → Memᴰ e es
    → e.from ≡ from
    → Memᴰ e (edges_from from es)
unfolding edges_from
mem-edges_from e from [] m h = m
mem-edges_from e from (x ∷ es) m h = elim (Bool-cases (text_eq x.from from)) [
  | inl t ↦ elim (Memᴰ-cases m) [
    | inl p ↦ rw t (Memᴰ.head p)
    | inr k ↦ rw t (Memᴰ.tail (mem-edges_from e from es k h))
  ]
  | inr f ↦ elim (Memᴰ-cases m) [
    | inl p ↦ absurd (ground (arith, text_eq_iff x.from from))
    | inr k ↦ rw f (mem-edges_from e from es k h)
  ]
]

mem_of_mem-edges_from :
    (e : Edge) (from : Text) (es : List Edge)
    → Memᴰ e (edges_from from es)
    → Memᴰ e es × (e.from ≡ from)
unfolding edges_from
mem_of_mem-edges_from e from [] m = elim (Memᴰ.not-nil m) [ ]
mem_of_mem-edges_from e from (x ∷ es) m = elim (Bool-cases (text_eq x.from from)) [
  | inl t ↦ elim (Memᴰ-cases (rw t at m)) [
    | inl p ↦ (Memᴰ.head p, ground (arith, text_eq_iff x.from from))
    | inr k ↦ let (l, h) = mem_of_mem-edges_from e from es k in (Memᴰ.tail l, h)
  ]
  | inr f ↦ let (l, h) = mem_of_mem-edges_from e from es (rw f at m) in (Memᴰ.tail l, h)
]

pub mem-adjacency :
    (e : Edge) (from : Text) (es : List Edge)
    → Memᴰ e es
    → e.from ≡ from
    → Memᴰ e (adjacency es from)
unfolding adjacency
mem-adjacency e from es m h = mem-sort_slice less_step e _ (mem-edges_from e from es m h)

pub mem_of_mem-adjacency :
    (e : Edge) (from : Text) (es : List Edge)
    → Memᴰ e (adjacency es from)
    → Memᴰ e es × (e.from ≡ from)
unfolding adjacency
mem_of_mem-adjacency e from es m =
    mem_of_mem-edges_from e from es (mem_of_mem-sort_slice less_step e _ m)
