-- ===== src/Receiver/Seen/Kept.antt =====
-- The contexts of the window of seen spans.
use ai_evidence_bom.Prelude.{
  ℕ, ◌-◌, ◌≡◌, true, List, [], ◌∷◌, All, All-imp, arith, inl, inr, Bool-cases, is_empty, length,
  take, ltb,
}
use ai_evidence_bom.Text.{Text, text_eq}
use ai_evidence_bom.Text.Order.{text_order, text_eq_iff}
use ai_evidence_bom.Maps.{elem, delete}
use ai_evidence_bom.Maps.Laws.{elem-add}
use ai_evidence_bom.Observation.{Observation}
use ai_evidence_bom.Platform.{Platform}
use ai_evidence_bom.Receiver.Seen.{
  Seen, Admission, discard, observation_key, admit, admit_one, forget, trim_dedupe,
}
use ai_evidence_bom.Receiver.Seen.Window.{elem-discard}
use ai_evidence_bom.Receiver.Traces.{Contexts, trim_trace_contexts}

-- Every context belongs to a span that has been seen.
abbrev pub AreSeen : List Text → Contexts → Type 0
AreSeen seen contexts = All (λ entry. elem entry.0 seen ≡ true) contexts

delete-AreSeen :
    (key : Text) (seen : List Text) (contexts : Contexts)
    → AreSeen seen contexts
    → AreSeen (discard key seen) (delete key contexts)
unfolding delete
delete-AreSeen key seen [] h = tt
delete-AreSeen key seen ((k, c) ∷ contexts) h = elim (Bool-cases (text_eq k key)) [
  | inl e ↦ rw e (delete-AreSeen key seen contexts h.1)
  | inr e ↦ rw e (
    ground (arith, h.0, e, elem-discard k key seen, text_eq_iff k key, text_eq_iff key k),
    delete-AreSeen key seen contexts h.1,
  )
]

forget-AreSeen :
    (keys : List Text) (s : Seen)
    → AreSeen s.seen s.contexts
    → AreSeen (forget keys s).seen (forget keys s).contexts
unfolding forget
forget-AreSeen [] s h = h
forget-AreSeen (key ∷ keys) s h =
    forget-AreSeen keys (record s { seen = discard key s.seen; contexts = delete key s.contexts })
      (delete-AreSeen key s.seen s.contexts h)

pub trim_dedupe-AreSeen :
    (max_items : ℕ) (s : Seen)
    → AreSeen s.seen s.contexts
    → AreSeen (trim_dedupe max_items s).seen (trim_dedupe max_items s).contexts
unfolding trim_dedupe
trim_dedupe-AreSeen max_items s h = elim (Bool-cases (ltb max_items (length s.seen_order))) [
  | inl e ↦ rw e (forget-AreSeen (take (length s.seen_order - max_items) s.seen_order) s h)
  | inr e ↦ rw e h
]

pub trim_trace_contexts-AreSeen :
    (seen : List Text) (contexts : Contexts) → AreSeen seen (trim_trace_contexts seen contexts)
unfolding trim_trace_contexts
trim_trace_contexts-AreSeen seen [] = tt
trim_trace_contexts-AreSeen seen ((key, c) ∷ contexts) = elim (Bool-cases (elem key seen)) [
  | inl e ↦ rw e (e, trim_trace_contexts-AreSeen seen contexts)
  | inr e ↦ rw e (trim_trace_contexts-AreSeen seen contexts)
]

module _ (platform : Platform) where
  admit_one-AreSeen :
      (o : Observation) (a : Admission)
      → AreSeen a.state.seen a.state.contexts
      → AreSeen (admit_one platform o a).state.seen (admit_one platform o a).state.contexts
  unfolding admit_one
  admit_one-AreSeen o a h =
      let key = observation_key platform o in
      elim (Bool-cases (is_empty key)) [
        | inl e ↦ rw (e, admit_one) h
        | inr e ↦ elim (Bool-cases (elem key a.state.seen)) [
          | inl t ↦ rw (e, t, admit_one) h
          | inr t ↦
              rw (e, t, admit_one)
                (All-imp (λ entry. elem entry.0 a.state.seen ≡ true) _ a.state.contexts
                  (λ entry k. ground (arith, k, elem-add key entry.0 a.state.seen)) h)
        ]
      ]

  pub admit-AreSeen :
      (os : List Observation) (a : Admission)
      → AreSeen a.state.seen a.state.contexts
      → AreSeen (admit platform os a).state.seen (admit platform os a).state.contexts
  unfolding admit
  admit-AreSeen [] a h = h
  admit-AreSeen (o ∷ os) a h = admit-AreSeen os (admit_one platform o a) (admit_one-AreSeen o a h)
