-- ===== src/Receiver/Traces/Conserved.antt =====
-- What becomes of every observation that `resolveTraceContexts` works on.
use ai_evidence_bom.Prelude.{
  ℕ, zero, suc, ◌+◌, ◌-◌, ◌≤◌, ◌≡◌, refl, ◌∙◌, Bool, true, false, List, [], ◌∷◌, ◌++◌, some, arith,
  length, length-drop, take, drop, get_elem?,
}
use ai_evidence_bom.Text.Order.{text_order}
use ai_evidence_bom.Aggregate.{update_at}
use ai_evidence_bom.Trust.{one_if}
use ai_evidence_bom.Observation.{Observation}
use ai_evidence_bom.Platform.{Platform}
use ai_evidence_bom.Normalize.Context.{AgentContext, apply_agent_context}
use ai_evidence_bom.Receiver.Traces.{
  Resolved, Progress, Resolution, Contexts, unresolved, none_resolved, with_context, resolve_one,
  drain, bound_pending, work_of, resolve_trace_contexts,
}
use ai_evidence_bom.Receiver.Traces.Draining.{Drains, drain_induction}
use ai_evidence_bom.Receiver.Traces.Starting.{
  first_round, first_queue, first_round-Fits, enough_fuel,
}

-- The number of the observations that pass a test.
unfoldable pub count : (Observation → Bool) → List Observation → ℕ
count t [] = 0
count t (o ∷ os) = one_if (t o) + count t os

-- The test does not look at what an agent's context fills in.
abbrev pub IsStable : (Observation → Bool) → Type 0
IsStable t = (o : Observation) (c : AgentContext) → t (apply_agent_context o c) ≡ t o

pub count-append :
    (t : Observation → Bool) (xs ys : List Observation)
    → count t (xs ++ ys) ≡ count t xs + count t ys
unfolding count
count-append t [] ys = omega arith
count-append t (x ∷ xs) ys = omega (arith, count-append t xs ys)

count-split :
    (t : Observation → Bool) (n : ℕ) (xs : List Observation)
    → count t (take n xs) + count t (drop n xs) ≡ count t xs
unfolding count
count-split t zero xs = omega arith
count-split t (suc n) [] = omega arith
count-split t (suc n) (x ∷ xs) = omega (arith, count-split t n xs)

count-with_context :
    (t : Observation → Bool) (c : AgentContext) (o : Observation)
    → IsStable t
    → t (with_context c o) ≡ t o
unfolding with_context
count-with_context t c o stable = ground (arith, stable o c)

-- Nothing is resolved at first.
count-none_resolved :
    (t : Observation → Bool) (os : List Observation)
    → count t (unresolved os (none_resolved os)) ≡ count t os
unfolding count unresolved none_resolved
count-none_resolved t [] = refl
count-none_resolved t (o ∷ os) = omega (arith, count-none_resolved t os)

-- A mark takes one observation from those that are not resolved.
count-mark :
    (t : Observation → Bool) (i : ℕ) (os : List Observation) (marks : List Bool)
    (o new : Observation)
    → get_elem? marks i ≡ some false
    → get_elem? os i ≡ some o
    → one_if (t o)
        + count t (unresolved (update_at i (λ old. new) os) (update_at i (λ old. true) marks))
      ≡ count t (unresolved os marks)
unfolding count unresolved update_at
count-mark t i [] marks o new h k = cc
count-mark t i (x ∷ os) [] o new h k = cc
count-mark t zero (x ∷ os) (m ∷ marks) o new h k = ground arith
count-mark t (suc i) (x ∷ os) (true ∷ marks) o new h k = count-mark t i os marks o new h k
count-mark t (suc i) (x ∷ os) (false ∷ marks) o new h k =
    omega (arith, count-mark t i os marks o new h k)

module _ (platform : Platform) where
  -- Every observation is ready or not resolved.
  abbrev Conserves : List Observation → List Resolved → Progress → Type 0
  Conserves os queue p =
      (t : Observation → Bool)
      → IsStable t
      → count t p.ready + count t (unresolved p.work p.resolved) ≡ count t os

  resolve_one-Conserves :
      (os : List Observation) (item : Resolved) (items : List Resolved) (o : Observation)
      (p : Progress)
      → get_elem? p.resolved item.index ≡ some false
      → get_elem? p.work item.index ≡ some o
      → Conserves os (item ∷ items) p
      → Conserves os (items ++ (resolve_one platform item o p).0) (resolve_one platform item o p).1
  unfolding resolve_one count
  resolve_one-Conserves os item items o p marked found h t stable =
      let new = with_context item.context o in
      ground (
        arith,
        h t stable,
        count-append t p.ready (new ∷ []),
        count-with_context t item.context o stable,
        count-mark t item.index p.work p.resolved o new marked found,
      )

  module _ (max_items : ℕ) (key : List ℕ) (contexts : Contexts)
      (pending arrived : List Observation) where
    abbrev the_work : List Observation
    the_work = work_of platform key pending arrived

    abbrev the_start : Progress
    the_start = first_round platform contexts the_work

    abbrev the_queue : List Resolved
    the_queue = first_queue platform contexts the_work

    drain-Conserves :
        Drains platform (length the_work) (Conserves the_work) (length the_work) the_queue the_start
    unfolding count
    drain-Conserves =
        drain_induction platform (Conserves the_work) (λ item items p m h t stable. h t stable)
          (resolve_one-Conserves the_work) (length the_work) (length the_work) the_queue the_start
          (first_round-Fits platform contexts the_work) (enough_fuel platform contexts the_work)
          (λ t stable. omega (arith, count-none_resolved t the_work))

    bound_pending-conserves :
        (t : Observation → Bool) (p : Progress)
        → count t (bound_pending platform max_items p).ready
            + count t (bound_pending platform max_items p).pending
          ≡ count t p.ready + count t (unresolved p.work p.resolved)
    unfolding bound_pending
    bound_pending-conserves t p =
        let waiting = unresolved p.work p.resolved in
        let overflow = length waiting - max_items in
        ground
          (arith, count-split t overflow waiting, count-append t p.ready (take overflow waiting))

    bound_pending-bounded :
        (p : Progress) → length (bound_pending platform max_items p).pending ≤ max_items
    unfolding bound_pending
    bound_pending-bounded p =
        let waiting = unresolved p.work p.resolved in
        ground (arith, length-drop (length waiting - max_items) waiting)

    pub resolve-drain :
        (p : Progress)
        → drain platform (length the_work) the_queue the_start ≡ some p
        → resolve_trace_contexts platform max_items key contexts pending arrived
          ≡ some (bound_pending platform max_items p)
    unfolding resolve_trace_contexts
    resolve-drain p h = rw (h, resolve_trace_contexts) refl

    -- `resolveTraceContexts` always returns. It leaves at most the given number of observations
    -- pending, and for every test that does not look at what an agent's context fills in, as many
    -- observations pass it among those that are ready or pending afterwards as among those that were
    -- pending or arrived, reduced to their metadata.
    pub resolve_trace_contexts-conserves :
        (r : Resolution) × (resolve_trace_contexts platform max_items key contexts pending arrived
          ≡ some r)
        × (length r.pending ≤ max_items)
        × ((t : Observation → Bool)
            → IsStable t
            → count t r.ready + count t r.pending ≡ count t the_work)
    resolve_trace_contexts-conserves =
        let d = drain-Conserves in
        (
          bound_pending platform max_items d.result,
          resolve-drain d.result d.returns,
          bound_pending-bounded d.result,
          λ t stable. bound_pending-conserves t d.result ∙ d.holds t stable,
        )
