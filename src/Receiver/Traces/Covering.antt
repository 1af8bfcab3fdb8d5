-- ===== src/Receiver/Traces/Covering.antt =====
-- What covers the observations that `resolveTraceContexts` has not resolved.
use ai_evidence_bom.Prelude.{
  ℕ, zero, suc, ◌+◌, ◌≡◌, refl, sym, Bool, true, false, not, ◌||◌, ◌&&◌, List, [], ◌∷◌, ◌++◌, ◌==◌,
  none, some, All, arith, inl, inr, ◌⊎◌, Bool-cases, Option-cases, is_empty, get_elem?,
  if◌then◌else◌, any, any-append,
}
use ai_evidence_bom.Text.{Text, text_eq}
use ai_evidence_bom.Text.Order.{text_order, text_eq_iff}
use ai_evidence_bom.Maps.{lookup, put}
use ai_evidence_bom.Maps.Laws.{lookup-put}
use ai_evidence_bom.Aggregate.{update_at}
use ai_evidence_bom.Observation.{Observation}
use ai_evidence_bom.Platform.{Platform}
use ai_evidence_bom.Normalize.Context.{AgentContext, is_empty_context, direct_agent_context}
use ai_evidence_bom.Receiver.Traces.{
  Waiting, Resolved, Sorted, Contexts, read_indices, released, put_in_queue, sort_one, sort_all,
  unresolved, parent_key,
}

abbrev pub is_queued : ℕ → List Resolved → Bool
is_queued i queue = any (λ item. item.index == i) queue

abbrev pub is_listed : ℕ → List ℕ → Bool
is_listed i indices = any (λ j. j == i) indices

pub is_queued-released :
    (i : ℕ) (c : AgentContext) (is : List ℕ) → is_queued i (released c is) ≡ is_listed i is
unfolding released
is_queued-released i c [] = refl
is_queued-released i c (j ∷ is) = ground (arith, is_queued-released i c is)

pub get_elem?-update_at {ℓ} :
    {A : Type ℓ} (i j : ℕ) (new : A) (xs : List A)
    → get_elem? (update_at i (λ old. new) xs) j ≡ (
        if i == j
        then elim (get_elem? xs j) [ none ↦ none | some old ↦ some new ]
        else get_elem? xs j)
unfolding update_at
get_elem?-update_at i j new [] = ground arith
get_elem?-update_at zero zero new (x ∷ xs) = refl
get_elem?-update_at zero (suc j) new (x ∷ xs) = ground arith
get_elem?-update_at (suc i) zero new (x ∷ xs) = ground arith
get_elem?-update_at (suc i) (suc j) new (x ∷ xs) = ground (arith, get_elem?-update_at i j new xs)

-- A property of every observation without a mark.
pub unresolved-All :
    (P : Observation → Type 0) (os : List Observation) (marks : List Bool)
    → ((i : ℕ) (o : Observation) → get_elem? marks i ≡ some false → get_elem? os i ≡ some o → P o)
    → All P (unresolved os marks)
unfolding unresolved
unresolved-All P [] marks h = tt
unresolved-All P (o ∷ os) [] h = tt
unresolved-All P (o ∷ os) (true ∷ marks) h = unresolved-All P os marks (λ i x a b. h (suc i) x a b)
unresolved-All P (o ∷ os) (false ∷ marks) h =
    (h 0 o refl refl, unresolved-All P os marks (λ i x a b. h (suc i) x a b))

module _ (platform : Platform) where
  -- The observation has no agent of its own, but a parent span, whose agent is not known.
  pub record Lacks (contexts : Contexts) (o : Observation) : Type 0 where
    pub no_agent : is_empty_context (direct_agent_context o.attributes) ≡ true
    pub parented : (is_empty o.parent_span_id || is_empty o.trace_id) ≡ false
    pub unknown : lookup (parent_key platform o) contexts ≡ none

  -- The index waits for the parent of the observation.
  abbrev pub IsListed : ℕ → Observation → Waiting → Type 0
  IsListed i o w = is_listed i (read_indices (lookup (parent_key platform o) w)) ≡ true

  abbrev pub Covers : ℕ → Observation → Contexts → List Resolved → Waiting → Type 0
  Covers i o contexts queue w = (is_queued i queue ≡ true) ⊎ (Lacks contexts o × IsListed i o w)

  put_in_queue-Covers :
      (i : ℕ) (o : Observation) (contexts : Contexts) (item : Resolved) (s : Sorted)
      → (item.index ≡ i) ⊎ Covers i o contexts s.queue s.waiting
      → Covers i o contexts (put_in_queue item s).queue (put_in_queue item s).waiting
  put_in_queue-Covers i o contexts item s h =
      let split = any-append (λ j. j.index == i) s.queue (item ∷ []) in
      elim h [
        | inl e ↦ inl (ground (arith, split))
        | inr (inl e) ↦ inl (ground (arith, split))
        | inr (inr w) ↦ inr w
      ]

  -- Indices that wait go on to do so when another one is put beside them.
  read-put :
      (i index : ℕ) (key k : Text) (w : Waiting)
      → is_listed i
          (read_indices (lookup k (put key (read_indices (lookup key w) ++ index ∷ []) w)))
        ≡ (is_listed i (read_indices (lookup k w)) || (text_eq key k && (index == i)))
  read-put i index key k w = elim (Bool-cases (text_eq key k)) [
    | inl e ↦ ground (
      arith,
      lookup-put key k (read_indices (lookup key w) ++ index ∷ []) w,
      any-append (λ j. j == i) (read_indices (lookup key w)) (index ∷ []),
      text_eq_iff key k,
    )
    | inr e ↦ ground (arith, lookup-put key k (read_indices (lookup key w) ++ index ∷ []) w)
  ]

  sort_one-keeps :
      (i index : ℕ) (o x : Observation) (contexts : Contexts) (s : Sorted)
      → Covers i o contexts s.queue s.waiting
      → Covers i o contexts
          (sort_one platform contexts index x s).queue
          (sort_one platform contexts index x s).waiting
  unfolding sort_one
  sort_one-keeps i index o x contexts s h =
      let context = direct_agent_context x.attributes in
      let key = parent_key platform x in
      elim (Bool-cases (not (is_empty_context context))) [
        | inl e ↦ rw (e, sort_one) (put_in_queue-Covers i o contexts _ s (inr h))
        | inr e ↦ elim (Bool-cases (is_empty x.parent_span_id || is_empty x.trace_id)) [
          | inl f ↦ rw (e, f, sort_one) (put_in_queue-Covers i o contexts _ s (inr h))
          | inr f ↦ elim (Option-cases (lookup key contexts)) [
            | inr (c, g) ↦ rw (e, f, g, sort_one) (put_in_queue-Covers i o contexts _ s (inr h))
            | inl g ↦
                rw (e, f, g, sort_one)
                  (elim h [
                    | inl q ↦ inl q
                    | inr (lacks, listed) ↦ inr (
                      lacks,
                      ground (arith, read-put i index key (parent_key platform o) s.waiting),
                    )
                  ])
          ]
        ]
      ]

  sort_one-Covers :
      (index : ℕ) (o : Observation) (contexts : Contexts) (s : Sorted)
      → Covers index o contexts
          (sort_one platform contexts index o s).queue
          (sort_one platform contexts index o s).waiting
  unfolding sort_one
  sort_one-Covers index o contexts s =
      let context = direct_agent_context o.attributes in
      let key = parent_key platform o in
      elim (Bool-cases (not (is_empty_context context))) [
        | inl e ↦ rw (e, sort_one) (put_in_queue-Covers index o contexts _ s (inl refl))
        | inr e ↦ elim (Bool-cases (is_empty o.parent_span_id || is_empty o.trace_id)) [
          | inl f ↦ rw (e, f, sort_one) (put_in_queue-Covers index o contexts _ s (inl refl))
          | inr f ↦ elim (Option-cases (lookup key contexts)) [
            | inr (c, g) ↦
                rw (e, f, g, sort_one) (put_in_queue-Covers index o contexts _ s (inl refl))
            | inl g ↦
                rw (e, f, g, sort_one)
                  (inr (
                    record { no_agent = ground (arith, e); parented = f; unknown = g },
                    ground (arith, read-put index index key key s.waiting, text_eq_iff key key),
                  ))
          ]
        ]
      ]

  sort_all-keeps :
      (i index : ℕ) (o : Observation) (contexts : Contexts) (os : List Observation) (s : Sorted)
      → Covers i o contexts s.queue s.waiting
      → Covers i o contexts
          (sort_all platform contexts index os s).queue
          (sort_all platform contexts index os s).waiting
  unfolding sort_all
  sort_all-keeps i index o contexts [] s h = h
  sort_all-keeps i index o contexts (x ∷ os) s h =
      sort_all-keeps i (index + 1) o contexts os (sort_one platform contexts index x s)
        (sort_one-keeps i index o x contexts s h)

  pub sort_all-Covers :
      (i index n : ℕ) (o : Observation) (contexts : Contexts) (os : List Observation) (s : Sorted)
      → index + i ≡ n
      → get_elem? os i ≡ some o
      → Covers n o contexts
          (sort_all platform contexts index os s).queue
          (sort_all platform contexts index os s).waiting
  unfolding sort_all
  sort_all-Covers i index n o contexts [] s e h = cc
  sort_all-Covers zero index n o contexts (x ∷ os) s e h =
      let same : o ≡ x = cc in
      let at : index ≡ n = omega (arith, e) in
      sort_all-keeps n (index + 1) o contexts os (sort_one platform contexts index x s)
        (rw (sym at, sym same) (sort_one-Covers index o contexts s))
  sort_all-Covers (suc i) index n o contexts (x ∷ os) s e h =
      sort_all-Covers i (index + 1) n o contexts os (sort_one platform contexts index x s)
        (omega (arith, e)) h
