-- ===== src/Receiver/Traces/Keeping.antt =====
-- `resolveTraceContexts`, for properties of observations that an agent's context does not touch.
use ai_evidence_bom.Prelude.{
  ℕ, zero, suc, ◌-◌, ◌≡◌, sym, Bool, true, false, List, [], ◌∷◌, ◌++◌, some, All, All-append, inl,
  inr, Bool-cases, is_empty, length, take, drop, ltb, get_elem?,
}
use ai_evidence_bom.Aggregate.{update_at}
use ai_evidence_bom.Observation.{Observation}
use ai_evidence_bom.Platform.{Platform}
use ai_evidence_bom.Normalize.Context.{AgentContext, apply_agent_context, is_empty_context}
use ai_evidence_bom.Receiver.Seen.{observation_key}
use ai_evidence_bom.Receiver.Traces.{
  Resolved, Progress, Resolution, Contexts, unresolved, with_context, resolve_one, bound_pending,
  work_of, resolve_trace_contexts,
}
use ai_evidence_bom.Receiver.Traces.Draining.{drain_induction}
use ai_evidence_bom.Receiver.Traces.Starting.{
  first_round, first_queue, first_round-Fits, enough_fuel,
}
use ai_evidence_bom.Receiver.Traces.Conserved.{resolve-drain}

module _ {ℓ} {A : Type ℓ} (P : A → Type 0) where
  All-take : (n : ℕ) (xs : List A) → All P xs → All P (take n xs)
  All-take zero xs h = tt
  All-take (suc n) [] h = tt
  All-take (suc n) (x ∷ xs) h = (h.0, All-take n xs h.1)

  All-drop : (n : ℕ) (xs : List A) → All P xs → All P (drop n xs)
  All-drop zero xs h = h
  All-drop (suc n) [] h = tt
  All-drop (suc n) (x ∷ xs) h = All-drop n xs h.1

  All-get_elem? : (i : ℕ) (xs : List A) {x : A} → All P xs → get_elem? xs i ≡ some x → P x
  All-get_elem? i [] h e = cc
  All-get_elem? zero (y ∷ xs) {x} h e = let same : y ≡ x = cc in rw (sym same) h.0
  All-get_elem? (suc i) (y ∷ xs) h e = All-get_elem? i xs h.1 e

  All-update_at :
      (i : ℕ) (new : A) (xs : List A) → P new → All P xs → All P (update_at i (λ old. new) xs)
  unfolding update_at
  All-update_at i new [] p h = tt
  All-update_at zero new (x ∷ xs) p h = (p, h.1)
  All-update_at (suc i) new (x ∷ xs) p h = (h.0, All-update_at i new xs p h.1)

module _ (P : Observation → Type 0)
    (stable : (o : Observation) (c : AgentContext) → P o → P (apply_agent_context o c)) where
  with_context-keeps : (c : AgentContext) (o : Observation) → P o → P (with_context c o)
  unfolding with_context
  with_context-keeps c o p = elim (Bool-cases (is_empty_context c)) [
    | inl e ↦ rw e p
    | inr e ↦ rw e (stable o c p)
  ]

  unresolved-keeps :
      (os : List Observation) (marks : List Bool) → All P os → All P (unresolved os marks)
  unfolding unresolved
  unresolved-keeps [] marks h = tt
  unresolved-keeps (o ∷ os) [] h = tt
  unresolved-keeps (o ∷ os) (true ∷ marks) h = unresolved-keeps os marks h.1
  unresolved-keeps (o ∷ os) (false ∷ marks) h = (h.0, unresolved-keeps os marks h.1)

  -- The property of all observations of a round.
  record Keeps (queue : List Resolved) (p : Progress) : Type 0 where
    work : All P p.work
    ready : All P p.ready

  module _ (platform : Platform) where
    resolve_one-Keeps :
        (item : Resolved) (items : List Resolved) (o : Observation) (p : Progress)
        → get_elem? p.work item.index ≡ some o
        → Keeps (item ∷ items) p
        → Keeps (items ++ (resolve_one platform item o p).0) (resolve_one platform item o p).1
    unfolding resolve_one
    resolve_one-Keeps item items o p found h =
        let new = with_context item.context o in
        let kept =
          with_context-keeps item.context o (All-get_elem? P item.index p.work h.work found) in
        let work = All-update_at P item.index new p.work kept h.work in
        let ready = All-append P p.ready (new ∷ []) h.ready (kept, tt) in
        elim (Bool-cases (is_empty (observation_key platform new))) [
          | inl e ↦ rw (e, resolve_one) (record { work = work; ready = ready })
          | inr e ↦ rw (e, resolve_one) (record { work = work; ready = ready })
        ]

    module _ (max_items : ℕ) (key : List ℕ) (contexts : Contexts)
        (pending arrived : List Observation) where
      abbrev kept_work : List Observation
      kept_work = work_of platform key pending arrived

      bound_pending-keeps :
          (p : Progress)
          → Keeps [] p
          → All P (bound_pending platform max_items p).ready
            × All P (bound_pending platform max_items p).pending
      unfolding bound_pending
      bound_pending-keeps p h =
          let waiting = unresolved p.work p.resolved in
          let n = length waiting - max_items in
          let kept = unresolved-keeps p.work p.resolved h.work in
          elim (Bool-cases (ltb max_items (length waiting))) [
            | inl e ↦ rw e (
              All-append P p.ready (take n waiting) h.ready (All-take P n waiting kept),
              All-drop P n waiting kept,
            )
            | inr e ↦ rw e (h.ready, kept)
          ]

      -- The call returns, and what all observations have that it works on, those have that are ready
      -- and those that stay pending.
      pub resolve_trace_contexts-keeps :
          All P kept_work
          → (r : Resolution) × (resolve_trace_contexts platform max_items key contexts pending
                arrived
              ≡ some r)
            × All P r.ready
            × All P r.pending
      resolve_trace_contexts-keeps h =
          let d =
            drain_induction platform Keeps
              (λ item items p m k. record { work = k.work; ready = k.ready })
              (λ item items o p m found k. resolve_one-Keeps item items o p found k)
              (length kept_work) (length kept_work) (first_queue platform contexts kept_work)
              (first_round platform contexts kept_work)
              (first_round-Fits platform contexts kept_work)
              (enough_fuel platform contexts kept_work) (record { work = h; ready = tt }) in
          let (ready, waiting) = bound_pending-keeps d.result d.holds in
          (
            bound_pending platform max_items d.result,
            resolve-drain platform max_items key contexts pending arrived d.result d.returns,
            ready,
            waiting,
          )
