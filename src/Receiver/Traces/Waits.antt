-- ===== src/Receiver/Traces/Waits.antt =====
-- What `resolveTraceContexts` leaves pending.
use ai_evidence_bom.Prelude.{
  ℕ, ◌<◌, ◌-◌, ◌≡◌, subst, List, [], some, All, arith, inl, inr, Bool-cases, length, length-drop,
  ltb,
}
use ai_evidence_bom.Text.Order.{text_order}
use ai_evidence_bom.Observation.{Observation}
use ai_evidence_bom.Platform.{Platform}
use ai_evidence_bom.Receiver.Traces.{
  Progress, Resolution, Contexts, sort_work, unresolved, bound_pending, work_of,
  resolve_trace_contexts,
}
use ai_evidence_bom.Receiver.Traces.Draining.{Drains, drain_induction}
use ai_evidence_bom.Receiver.Traces.Starting.{
  first_round, first_queue, first_round-Fits, enough_fuel,
}
use ai_evidence_bom.Receiver.Traces.Conserved.{resolve-drain}
use ai_evidence_bom.Receiver.Traces.Covering.{Lacks, sort_all-Covers, unresolved-All}
use ai_evidence_bom.Receiver.Traces.Resolving.{AllCovered, skip-AllCovered, resolve_one-AllCovered}

module _ (platform : Platform) where
  module _ (max_items : ℕ) (key : List ℕ) (contexts : Contexts)
      (pending arrived : List Observation) where
    abbrev waiting_work : List Observation
    waiting_work = work_of platform key pending arrived

    drain-AllCovered :
        Drains platform
          (length waiting_work)
          (AllCovered platform)
          (length waiting_work)
          (first_queue platform contexts waiting_work)
          (first_round platform contexts waiting_work)
    unfolding sort_work
    drain-AllCovered =
        drain_induction platform (AllCovered platform) (skip-AllCovered platform)
          (λ item items o p marked found h. resolve_one-AllCovered platform item items o p h)
          (length waiting_work) (length waiting_work) (first_queue platform contexts waiting_work)
          (first_round platform contexts waiting_work)
          (first_round-Fits platform contexts waiting_work)
          (enough_fuel platform contexts waiting_work)
          (λ i o a b.
            sort_all-Covers platform i 0 i o contexts waiting_work
              (record { queue = []; waiting = [] }) (omega arith) b)

    bound_pending-Lacks :
        (p : Progress)
        → AllCovered platform [] p
        → length (bound_pending platform max_items p).pending < max_items
        → All
            (Lacks platform (bound_pending platform max_items p).contexts)
            (bound_pending platform max_items p).pending
    unfolding bound_pending
    bound_pending-Lacks p h few =
        let waiting = unresolved p.work p.resolved in
        elim (Bool-cases (ltb max_items (length waiting))) [
          | inl e ↦
              absurd (ground (arith, e, few, length-drop (length waiting - max_items) waiting))
          | inr e ↦ rw e (
              unresolved-All (Lacks platform p.contexts) p.work p.resolved
                (λ i o a b. elim (h i o a b) [ inl q ↦ absurd cc | inr w ↦ w.0 ]))
        ]

    -- Where fewer observations than the limit stay pending, each of them has no agent of its own and
    -- has a parent span, for which no context is known.
    pub resolve_trace_contexts-Lacks :
        (r : Resolution)
        → resolve_trace_contexts platform max_items key contexts pending arrived ≡ some r
        → length r.pending < max_items
        → All (Lacks platform r.contexts) r.pending
    resolve_trace_contexts-Lacks r h few =
        let d = drain-AllCovered in
        let returned =
          resolve-drain platform max_items key contexts pending arrived d.result d.returns in
        let same : bound_pending platform max_items d.result ≡ r = cc in
        subst (λ q. length q.pending < max_items → All (Lacks platform q.contexts) q.pending) same
          (bound_pending-Lacks d.result d.holds) few
