-- ===== src/Receiver/Seen/Fifo.antt =====
-- A specification of the window of seen spans: a queue of keys, without a map.
use mathlib.Core.List.{append-nil, append_assoc}
use ai_evidence_bom.Prelude.{
  ap₂, ℕ, ◌-◌, ◌≡◌, refl, ◌∙◌, ap, sym, List, [], ◌∷◌, ◌++◌, arith, inl, inr, Bool-cases, is_empty,
  length, drop, ltb, if◌then◌else◌,
}
use ai_evidence_bom.Text.{Text}
use ai_evidence_bom.Text.Order.{text_order}
use ai_evidence_bom.Maps.{elem}
use ai_evidence_bom.Observation.{Observation}
use ai_evidence_bom.Platform.{Platform}
use ai_evidence_bom.Receiver.Seen.{Seen, Admission, observation_key, admit, admit_one, trim_dedupe}
use ai_evidence_bom.Receiver.Seen.Window.{
  IsWindow, admit-IsWindow, admit_one-IsWindow, trim_dedupe-IsWindow,
}

-- The last keys of a queue.
abbrev pub last : ℕ → List Text → List Text
last n keys = drop (length keys - n) keys

module _ (platform : Platform) where
  -- The observations of a batch whose keys are not in the queue, and the queue with their keys.
  unfoldable pub fresh : List Observation → List Text → List Observation × List Text
  fresh [] queue = ([], queue)
  fresh (o ∷ os) queue =
      let key = observation_key platform o in
      let added = fresh os (queue ++ key ∷ []) in
      let rest = fresh os queue in
      if is_empty key
      then (o ∷ rest.0, rest.1)
      else if elem key queue
      then rest
      else (o ∷ added.0, added.1)

  -- The fresh observations of each batch, where a queue keeps at most a given number of keys.
  unfoldable pub fresh_batches : ℕ → List (List Observation) → List Text → List (List Observation)
  fresh_batches n [] queue = []
  fresh_batches n (batch ∷ batches) queue =
      let (kept, grown) = fresh batch queue in kept ∷ fresh_batches n batches (last n grown)

  -- The observations of each batch that the receiver's window admits.
  unfoldable pub admitted_batches : ℕ → List (List Observation) → Seen → List (List Observation)
  admitted_batches n [] s = []
  admitted_batches n (batch ∷ batches) s =
      let a = admit platform batch (record { state = s; unique = []; duplicates = 0 }) in
      a.unique ∷ admitted_batches n batches (trim_dedupe n a.state)

  order-trim_dedupe : (n : ℕ) (s : Seen) → (trim_dedupe n s).seen_order ≡ last n s.seen_order
  unfolding trim_dedupe
  order-trim_dedupe n s = elim (Bool-cases (ltb n (length s.seen_order))) [
    | inl e ↦ rw e refl
    | inr e ↦ let all : length s.seen_order - n ≡ 0 = ground arith in rw (e, all) refl
  ]

  -- Admission refines the queue, on top of what was admitted before.
  admit-fresh :
      (os : List Observation) (a : Admission)
      → IsWindow a.state
      → ((admit platform os a).unique ≡ a.unique ++ (fresh os a.state.seen_order).0)
        × ((admit platform os a).state.seen_order ≡ (fresh os a.state.seen_order).1)
  unfolding admit fresh admit_one
  admit-fresh [] a w = (sym (append-nil a.unique), refl)
  admit-fresh (o ∷ os) a w =
      let key = observation_key platform o in
      let held = admit_one-IsWindow platform o a w in
      let (kept, order) = admit-fresh os (admit_one platform o a) held.0 in
      elim (Bool-cases (is_empty key)) [
        | inl e ↦
            ground (
              arith,
              kept,
              order,
              e,
              append_assoc a.unique (o ∷ []) (fresh os a.state.seen_order).0,
            )
        | inr e ↦ elim (Bool-cases (elem key a.state.seen_order)) [
          | inl t ↦ ground (arith, kept, order, e, t, w.listed key)
          | inr t ↦ ground (
            arith,
            kept,
            order,
            e,
            t,
            w.listed key,
            append_assoc a.unique (o ∷ []) (fresh os (a.state.seen_order ++ key ∷ [])).0,
          )
        ]
      ]

  -- A window that holds what has been seen admits from every sequence of batches the observations
  -- that a bounded queue of keys would: those without a key, and those whose key is not among the last
  -- keys that were taken in.
  pub admitted_batches_refines :
      (n : ℕ) (batches : List (List Observation)) (s : Seen)
      → IsWindow s
      → admitted_batches n batches s ≡ fresh_batches n batches s.seen_order
  unfolding admitted_batches fresh_batches
  admitted_batches_refines n [] s w = refl
  admitted_batches_refines n (batch ∷ batches) s w =
      let begin : Admission = record { state = s; unique = []; duplicates = 0 } in
      let a = admit platform batch begin in
      let (kept, order) = admit-fresh batch begin w in
      let (trimmed, bounded) =
        trim_dedupe-IsWindow n a.state (admit-IsWindow platform batch begin w).0 in
      let rest = admitted_batches_refines n batches (trim_dedupe n a.state) trimmed in
      ap₂ (λ x xs. x ∷ xs) kept
        (rest ∙ ap (fresh_batches n batches) (order-trim_dedupe n a.state ∙ ap (last n) order))
