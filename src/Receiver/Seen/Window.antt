-- ===== src/Receiver/Seen/Window.antt =====
-- What the window of seen spans holds.
use ai_evidence_bom.Prelude.{
  ℕ, zero, suc, ◌+◌, ◌-◌, ◌≤◌, ◌≡◌, refl, sym, ◌∙◌, true, false, not, ◌&&◌, ◌||◌, List, [], ◌∷◌,
  ◌++◌, arith, inl, inr, Bool-cases, is_empty, length, length-append, take, drop, ltb,
}
use ai_evidence_bom.Text.{Text, text_eq}
use ai_evidence_bom.Text.Order.{text_order, text_eq_iff}
use ai_evidence_bom.Maps.{elem, delete}
use ai_evidence_bom.Maps.Laws.{elem-add}
use ai_evidence_bom.Observation.{Observation}
use ai_evidence_bom.Platform.{Platform}
use ai_evidence_bom.Receiver.Seen.{
  Seen, Admission, discard, observation_key, admit, admit_one, forget, trim_dedupe,
}

-- No key stands twice in the list.
abbrev pub AreDistinct : List Text → Type 0
AreDistinct [] = Unit
AreDistinct (k ∷ ks) = (elem k ks ≡ false) × AreDistinct ks

-- What is seen is what stands in the window, and stands there once.
pub record IsWindow (s : Seen) : Type 0 where
  pub distinct : AreDistinct s.seen_order
  pub listed : (k : Text) → elem k s.seen ≡ elem k s.seen_order

elem-append : (k : Text) (xs ys : List Text) → elem k (xs ++ ys) ≡ (elem k xs || elem k ys)
unfolding elem
elem-append k [] ys = refl
elem-append k (x ∷ xs) ys = ground (arith, elem-append k xs ys)

elem-one : (k j : Text) → elem k (j ∷ []) ≡ text_eq j k
unfolding elem
elem-one k j = ground arith

append-AreDistinct :
    (xs : List Text) (k : Text) → AreDistinct xs → elem k xs ≡ false → AreDistinct (xs ++ k ∷ [])
unfolding elem
append-AreDistinct [] k d h = (refl, tt)
append-AreDistinct (x ∷ xs) k d h = (
  ground (arith, elem-append x xs (k ∷ []), elem-one x k, d.0, text_eq_iff x k, text_eq_iff k x),
  append-AreDistinct xs k d.1 (ground arith),
)

pub elem-discard :
    (k j : Text) (xs : List Text) → elem k (discard j xs) ≡ (not (text_eq j k) && elem k xs)
unfolding discard elem
elem-discard k j [] = ground arith
elem-discard k j (x ∷ xs) =
    ground (arith, elem-discard k j xs, text_eq_iff x j, text_eq_iff x k, text_eq_iff j k)

elem-forget :
    (k : Text) (keys : List Text) (s : Seen)
    → elem k (forget keys s).seen ≡ (not (elem k keys) && elem k s.seen)
unfolding forget elem
elem-forget k [] s = refl
elem-forget k (j ∷ keys) s = ground (
  arith,
  elem-forget k keys (record s { seen = discard j s.seen; contexts = delete j s.contexts }),
  elem-discard k j s.seen,
)

elem-split :
    (k : Text) (n : ℕ) (xs : List Text) → elem k xs ≡ (elem k (take n xs) || elem k (drop n xs))
unfolding elem
elem-split k zero xs = refl
elem-split k (suc n) [] = refl
elem-split k (suc n) (x ∷ xs) = ground (arith, elem-split k n xs)

drop-AreDistinct : (n : ℕ) (xs : List Text) → AreDistinct xs → AreDistinct (drop n xs)
drop-AreDistinct zero xs d = d
drop-AreDistinct (suc n) [] d = tt
drop-AreDistinct (suc n) (x ∷ xs) d = drop-AreDistinct n xs d.1

-- What stands in the rest of the window does not stand in what leaves it.
elem-take :
    (k : Text) (n : ℕ) (xs : List Text)
    → AreDistinct xs
    → elem k (drop n xs) ≡ true
    → elem k (take n xs) ≡ false
unfolding elem
elem-take k zero xs d h = refl
elem-take k (suc n) [] d h = refl
elem-take k (suc n) (x ∷ xs) d h =
    ground (arith, elem-take k n xs d.1 h, elem-split k n xs, d.0, text_eq_iff x k)

length-drop : (n : ℕ) (xs : List Text) → length (drop n xs) ≡ length xs - n
length-drop zero xs = omega arith
length-drop (suc n) [] = omega arith
length-drop (suc n) (x ∷ xs) = ground (arith, length-drop n xs)

-- Where what is seen is what stands in the window, each key once, this is so after `trimDedupe`, and at
-- most the given number of keys is left in the window.
pub trim_dedupe-IsWindow :
    (max_items : ℕ) (s : Seen)
    → IsWindow s
    → IsWindow (trim_dedupe max_items s) × (length (trim_dedupe max_items s).seen_order ≤ max_items)
unfolding trim_dedupe
trim_dedupe-IsWindow max_items s w =
    let n = length s.seen_order - max_items in
    elim (Bool-cases (ltb max_items (length s.seen_order))) [
      | inr e ↦ rw e (w, ground arith)
      | inl e ↦ rw e (
        record {
          distinct = drop-AreDistinct n s.seen_order w.distinct;
          listed = λ k. ground (
            arith,
            elem-forget k (take n s.seen_order) s,
            w.listed k,
            elem-split k n s.seen_order,
            elem-take k n s.seen_order w.distinct,
          );
        },
        omega (arith, length-drop n s.seen_order),
      )
    ]

module _ (platform : Platform) where
  pub admit_one-IsWindow :
      (o : Observation) (a : Admission)
      → IsWindow a.state
      → IsWindow (admit_one platform o a).state
        × (length (admit_one platform o a).unique + (admit_one platform o a).duplicates
            ≡ length a.unique + a.duplicates + 1)
  unfolding admit_one
  admit_one-IsWindow o a w =
      let key = observation_key platform o in
      let counted = length-append a.unique (o ∷ []) in
      elim (Bool-cases (is_empty key)) [
        | inl e ↦ rw (e, admit_one) (w, omega (arith, counted))
        | inr e ↦ elim (Bool-cases (elem key a.state.seen)) [
          | inl t ↦ rw (e, t, admit_one) (w, omega arith)
          | inr t ↦
              rw (e, t, admit_one)
                (
                  record {
                    distinct =
                        append-AreDistinct a.state.seen_order key w.distinct
                          (sym (w.listed key) ∙ t);
                    listed = λ k. ground (
                      arith,
                      elem-add key k a.state.seen,
                      w.listed k,
                      elem-append k a.state.seen_order (key ∷ []),
                      elem-one k key,
                    );
                  },
                  omega (arith, counted),
                )
        ]
      ]

  -- Where what is seen is what stands in the window, each key once, this is so after observations are
  -- admitted, and each of them is kept or counted as a duplicate.
  pub admit-IsWindow :
      (os : List Observation) (a : Admission)
      → IsWindow a.state
      → IsWindow (admit platform os a).state
        × (length (admit platform os a).unique + (admit platform os a).duplicates
            ≡ length a.unique + a.duplicates + length os)
  unfolding admit
  admit-IsWindow [] a w = (w, omega arith)
  admit-IsWindow (o ∷ os) a w =
      let (grown, one) = admit_one-IsWindow o a w in
      let (rest, all) = admit-IsWindow os (admit_one platform o a) grown in
      (rest, omega (arith, one, all))
