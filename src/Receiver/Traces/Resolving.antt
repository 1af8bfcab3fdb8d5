-- ===== src/Receiver/Traces/Resolving.antt =====
-- Resolving an observation keeps the others covered.
use ai_evidence_bom.Prelude.{
  ℕ, ◌≡◌, subst, Bool, true, false, List, [], ◌∷◌, ◌++◌, ◌==◌, some, arith, inl, inr, Bool-cases,
  is_empty, get_elem?, any-append,
}
use ai_evidence_bom.Text.{text_eq}
use ai_evidence_bom.Text.Order.{text_order, text_eq_iff}
use ai_evidence_bom.Maps.{lookup}
use ai_evidence_bom.Maps.Laws.{lookup-put, lookup-delete}
use ai_evidence_bom.Aggregate.{update_at}
use ai_evidence_bom.Observation.{Observation}
use ai_evidence_bom.Platform.{Platform}
use ai_evidence_bom.Receiver.Seen.{observation_key}
use ai_evidence_bom.Receiver.Traces.{
  Resolved, Progress, read_indices, released, with_context, resolve_one, parent_key,
}
use ai_evidence_bom.Receiver.Traces.Covering.{is_queued-released, get_elem?-update_at, Covers}

module _ (platform : Platform) where
  -- Every observation that is not resolved is queued, or waits for its parent.
  abbrev pub AllCovered : List Resolved → Progress → Type 0
  AllCovered queue p =
      (i : ℕ) (o : Observation)
      → get_elem? p.resolved i ≡ some false
      → get_elem? p.work i ≡ some o
      → Covers platform i o p.contexts queue p.waiting

  resolved_twice :
      (j i : ℕ) (marks : List Bool)
      → (j == i) ≡ true
      → get_elem? marks j ≡ some true
      → get_elem? marks i ≡ some false
      → ⊥
  resolved_twice j i marks e h k =
      let same : j ≡ i = ground arith in
      ground (arith, subst (λ n. get_elem? marks n ≡ some true) same h)

  pub skip-AllCovered :
      (item : Resolved) (items : List Resolved) (p : Progress)
      → get_elem? p.resolved item.index ≡ some true
      → AllCovered (item ∷ items) p
      → AllCovered (items ++ []) p
  skip-AllCovered item items p marked h i o a b = elim (h i o a b) [
    | inr w ↦ inr w
    | inl q ↦ elim (Bool-cases (item.index == i)) [
      | inl e ↦ absurd (resolved_twice item.index i p.resolved e marked a)
      | inr e ↦ inl (ground (arith, q, e, any-append (λ j. j.index == i) items []))
    ]
  ]

  -- The marks and the work of the others are as before.
  update-others :
      (j i : ℕ) (marks : List Bool) (work : List Observation) (new o : Observation)
      → get_elem? (update_at j (λ old. true) marks) i ≡ some false
      → get_elem? (update_at j (λ old. new) work) i ≡ some o
      → ((j == i) ≡ false) × (get_elem? marks i ≡ some false) × (get_elem? work i ≡ some o)
  update-others j i marks work new o a b = elim (Bool-cases (j == i)) [
    | inl e ↦ ground (arith, e, a, get_elem?-update_at j i true marks)
    | inr e ↦ (
      e,
      ground (arith, e, a, get_elem?-update_at j i true marks),
      ground (arith, e, b, get_elem?-update_at j i new work),
    )
  ]

  pub resolve_one-AllCovered :
      (item : Resolved) (items : List Resolved) (x : Observation) (p : Progress)
      → AllCovered (item ∷ items) p
      → AllCovered (items ++ (resolve_one platform item x p).0) (resolve_one platform item x p).1
  unfolding resolve_one
  resolve_one-AllCovered item items x p h =
      let new = with_context item.context x in
      let key = observation_key platform new in
      let children = released item.context (read_indices (lookup key p.waiting)) in
      elim (Bool-cases (is_empty key)) [
        | inl e ↦
            rw (e, resolve_one)
              (λ i o a b.
                let (other, marked, found) =
                  update-others item.index i p.resolved p.work new o a b in
                elim (h i o marked found) [
                  | inl q ↦ inl (ground (arith, q, other, any-append (λ j. j.index == i) items []))
                  | inr w ↦ inr w
                ])
        | inr e ↦
            rw (e, resolve_one)
              (λ i o a b.
                let (other, marked, found) =
                  update-others item.index i p.resolved p.work new o a b in
                let split = any-append (λ j. j.index == i) items children in
                elim (h i o marked found) [
                  | inl q ↦ inl (ground (arith, q, other, split))
                  | inr (lacks, listed) ↦ elim (Bool-cases (text_eq key (parent_key platform o))) [
                    | inl t ↦ inl (
                        ground (
                          arith,
                          listed,
                          split,
                          text_eq_iff key (parent_key platform o),
                          is_queued-released i item.context (read_indices (lookup key p.waiting)),
                        ))
                    | inr t ↦ inr (
                      record {
                        no_agent = lacks.no_agent;
                        parented = lacks.parented;
                        unknown = ground (
                          arith,
                          t,
                          lacks.unknown,
                          lookup-put key (parent_key platform o) item.context p.contexts,
                        );
                      },
                      ground
                          (arith, t, listed, lookup-delete key (parent_key platform o) p.waiting),
                    )
                  ]
                ])
      ]
