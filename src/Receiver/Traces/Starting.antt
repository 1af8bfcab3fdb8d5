-- ===== src/Receiver/Traces/Starting.antt =====
-- The first loop of `resolveTraceContexts`: what it hands to the second one.
use ai_evidence_bom.Prelude.{
  ℕ, suc, ◌+◌, ◌≤◌, ◌<◌, ◌≡◌, refl, ap, subst, not, ◌||◌, List, [], ◌∷◌, ◌++◌, All, All-append,
  arith, inl, inr, Bool-cases, Option-cases, is_empty, length, length-append,
}
use ai_evidence_bom.Text.{Text}
use ai_evidence_bom.Text.Order.{text_order}
use ai_evidence_bom.Maps.{lookup, put}
use ai_evidence_bom.Maps.Laws.{All-put}
use ai_evidence_bom.Observation.{Observation}
use ai_evidence_bom.Platform.{Platform}
use ai_evidence_bom.Normalize.Context.{is_empty_context, direct_agent_context}
use ai_evidence_bom.Receiver.Traces.{
  Resolved, Sorted, Progress, Contexts, read_indices, put_in_queue, sort_one, sort_all, sort_work,
  start, none_resolved, parent_key,
}
use ai_evidence_bom.Receiver.Traces.Draining.{total, total-put, Fits, read-All}

length-none_resolved : (os : List Observation) → length (none_resolved os) ≡ length os
unfolding none_resolved
length-none_resolved [] = refl
length-none_resolved (o ∷ os) = ap suc (length-none_resolved os)

module _ (platform : Platform) where
  -- The observations are queued or wait, each once.
  record Sorts (n k : ℕ) (s : Sorted) : Type 0 where
    counted : length s.queue + total s.waiting ≡ k
    queued : All (λ item. item.index < n) s.queue
    waiting : All (λ entry. All (λ i. i < n) entry.1) s.waiting

  put_in_queue-Sorts :
      (n k : ℕ) (item : Resolved) (s : Sorted)
      → item.index < n
      → Sorts n k s
      → Sorts n (k + 1) (put_in_queue item s)
  put_in_queue-Sorts n k item s b h = record {
    counted = omega (arith, h.counted, length-append s.queue (item ∷ []));
    queued = All-append (λ i. i.index < n) s.queue (item ∷ []) h.queued (b, tt);
    waiting = h.waiting;
  }

  put_in_waiting-Sorts :
      (n k index : ℕ) (key : Text) (s : Sorted)
      → index < n
      → Sorts n k s
      → Sorts n (k + 1) (record s {
        waiting = put key (read_indices (lookup key s.waiting) ++ index ∷ []) s.waiting;
      })
  put_in_waiting-Sorts n k index key s b h = record {
    counted = omega (arith, h.counted, total-put key index s.waiting);
    queued = h.queued;
    waiting =
        All-put (λ key is. All (λ i. i < n) is) key _ s.waiting
          (All-append (λ i. i < n) (read_indices (lookup key s.waiting)) (index ∷ [])
            (read-All n key s.waiting h.waiting) (b, tt))
          h.waiting;
  }

  sort_one-Sorts :
      (n k index : ℕ) (contexts : Contexts) (o : Observation) (s : Sorted)
      → index < n
      → Sorts n k s
      → Sorts n (k + 1) (sort_one platform contexts index o s)
  unfolding sort_one
  sort_one-Sorts n k index contexts o s b h =
      let context = direct_agent_context o.attributes in
      let key = parent_key platform o in
      elim (Bool-cases (not (is_empty_context context))) [
        | inl e ↦ rw (e, sort_one) (put_in_queue-Sorts n k _ s b h)
        | inr e ↦ elim (Bool-cases (is_empty o.parent_span_id || is_empty o.trace_id)) [
          | inl f ↦ rw (e, f, sort_one) (put_in_queue-Sorts n k _ s b h)
          | inr f ↦ elim (Option-cases (lookup key contexts)) [
            | inr (c, g) ↦ rw (e, f, g, sort_one) (put_in_queue-Sorts n k _ s b h)
            | inl g ↦ rw (e, f, g, sort_one) (put_in_waiting-Sorts n k index key s b h)
          ]
        ]
      ]

  sort_all-Sorts :
      (n k index : ℕ) (contexts : Contexts) (os : List Observation) (s : Sorted)
      → index + length os ≤ n
      → Sorts n k s
      → Sorts n (k + length os) (sort_all platform contexts index os s)
  unfolding sort_all
  sort_all-Sorts n k index contexts [] s b h =
      let e : k ≡ k + 0 = omega arith in subst (λ m. Sorts n m s) e h
  sort_all-Sorts n k index contexts (o ∷ os) s b h =
      let e : k + 1 + length os ≡ k + suc (length os) = omega arith in
      let step = sort_one platform contexts index o s in
      subst (λ m. Sorts n m (sort_all platform contexts (index + 1) os step)) e
        (sort_all-Sorts n (k + 1) (index + 1) contexts os step (omega (arith, b))
          (sort_one-Sorts n k index contexts o s (omega (arith, b)) h))

  module _ (contexts : Contexts) (work : List Observation) where
    abbrev pub first_round : Progress
    first_round = start contexts work (sort_work platform contexts work).waiting

    abbrev pub first_queue : List Resolved
    first_queue = (sort_work platform contexts work).queue

    sort_work-Sorts : Sorts (length work) (length work) (sort_work platform contexts work)
    unfolding sort_work total
    sort_work-Sorts =
        let none_yet : Sorted = record { queue = []; waiting = [] } in
        let e : 0 + length work ≡ length work = omega arith in
        subst (λ m. Sorts (length work) m (sort_all platform contexts 0 work none_yet)) e
          (sort_all-Sorts (length work) 0 0 contexts work none_yet (omega arith)
            (record { counted = refl; queued = tt; waiting = tt }))

    pub first_round-Fits : Fits (length work) first_queue first_round
    first_round-Fits = record {
      work = refl;
      marks = length-none_resolved work;
      queued = sort_work-Sorts.queued;
      waiting = sort_work-Sorts.waiting;
    }

    pub enough_fuel : length first_queue + total first_round.waiting ≤ length work
    enough_fuel = omega (arith, sort_work-Sorts.counted)
