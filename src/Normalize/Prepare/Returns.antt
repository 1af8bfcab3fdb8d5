-- ===== src/Normalize/Prepare/Returns.antt =====
-- The recursion of `prepareObservations`, its walks, and the indices that it reads.
use ai_evidence_bom.Prelude.{
  ℕ, zero, suc, ◌+◌, ◌<◌, ◌≤◌, ◌≡◌, ◌≢◌, refl, sym, ◌∙◌, ap, false, List, [], ◌∷◌, Option, none,
  some, arith, length, get_elem?, All, inl, inr, map, Bool-cases, Option-cases, is_empty,
}
use ai_evidence_bom.Text.{Text, codes}
use ai_evidence_bom.Text.Order.{text_order}
use ai_evidence_bom.Maps.{lookup, elem}
use ai_evidence_bom.Maps.Laws.{All-put, lookup-All}
use ai_evidence_bom.Observation.{Observation}
use ai_evidence_bom.Platform.{Platform, equal_fold}
use ai_evidence_bom.Aggregate.{update_at}
use ai_evidence_bom.Model.Evidence.{EvidenceSummary}
use ai_evidence_bom.Normalize.{first, observation_evidence}
use ai_evidence_bom.Normalize.Context.{
  AgentContext, direct_agent_context, apply_agent_context, is_concrete_model_span, trace_span_key,
}
use ai_evidence_bom.Normalize.Prepare.Numbers.{number_order, AreDistinct, length-AreDistinct}
use ai_evidence_bom.Normalize.Prepare.{
  Spans, Agents, known, settle, strip_models, index_spans, parent_to_ask, resolve_agent,
  resolve_all, strip_parent, strip_step, strip_all, prepare_observations,
}

get_elem?-some {ℓ} : {A : Type ℓ} (xs : List A) (i : ℕ) → i < length xs → get_elem? xs i ≢ none
get_elem?-some [] i h = absurd (omega arith)
get_elem?-some (x ∷ xs) zero h = λ e. cc
get_elem?-some (x ∷ xs) (suc i) h = get_elem?-some xs i (omega arith)

-- The evidence that observations give, one by one.
abbrev pub evidences : List Observation → List EvidenceSummary
evidences os = map observation_evidence os

length-evidences : (os : List Observation) → length (evidences os) ≡ length os
length-evidences [] = refl
length-evidences (o ∷ os) = ap suc (length-evidences os)

-- A change that leaves the evidence alone.
evidences-update_at :
    (f : Observation → Observation)
    → ((o : Observation) → observation_evidence (f o) ≡ observation_evidence o)
    → (i : ℕ) (os : List Observation) → evidences (update_at i f os) ≡ evidences os
unfolding update_at
evidences-update_at f same i [] = refl
evidences-update_at f same zero (o ∷ os) = ap (λ e. e ∷ evidences os) (same o)
evidences-update_at f same (suc i) (o ∷ os) =
    ap (λ es. observation_evidence o ∷ es) (evidences-update_at f same i os)

observation_evidence-apply_agent_context :
    (context : AgentContext) (o : Observation)
    → observation_evidence (apply_agent_context o context) ≡ observation_evidence o
unfolding observation_evidence apply_agent_context
observation_evidence-apply_agent_context context o = refl

observation_evidence-strip_models :
    (o : Observation) → observation_evidence (strip_models o) ≡ observation_evidence o
unfolding observation_evidence strip_models
observation_evidence-strip_models o = refl

evidences-settle :
    (index : ℕ) (context : AgentContext) (agents : Agents)
    → evidences (settle index context agents).observations ≡ evidences agents.observations
unfolding settle
evidences-settle index context agents = ground (
  arith,
  evidences-update_at (λ o. apply_agent_context o context)
      (observation_evidence-apply_agent_context context) index agents.observations,
)

-- Observations that give the same evidence are as many.
same_length :
    {n : ℕ} {es : List EvidenceSummary} (os : List Observation)
    → length es ≡ n
    → evidences os ≡ es
    → length os ≡ n
same_length os size e = sym (length-evidences os) ∙ ap length e ∙ size

known-none :
    (resolving : List ℕ) (index : ℕ) (agents : Agents)
    → known resolving index agents ≡ none
    → elem index resolving ≡ false
unfolding known
known-none resolving index agents h = ground arith

-- A result with a list of the given length.
abbrev Keeps : List EvidenceSummary → Option (AgentContext × Agents) → Type 0
Keeps es none = ⊥
Keeps es (some (context, agents)) = evidences agents.observations ≡ es

settled-Keeps :
    (es : List EvidenceSummary) (index : ℕ) (r : Option (AgentContext × Agents))
    → Keeps es r
    → Keeps es (elim r [
      | none ↦ none
      | some (context, asked) ↦ some (context, settle index context asked)
    ])
settled-Keeps es index none h = h
settled-Keeps es index (some (context, agents)) h = evidences-settle index context agents ∙ h

-- A result with a list of observations of the given length.
abbrev pub ReturnsAgents : List EvidenceSummary → Option Agents → Type 0
ReturnsAgents es none = ⊥
ReturnsAgents es (some agents) = evidences agents.observations ≡ es

abbrev pub Returns : List EvidenceSummary → Option (List Observation) → Type 0
Returns es none = ⊥
Returns es (some observations) = evidences observations ≡ es

-- What follows a call that returns.
after_agent :
    (es : List EvidenceSummary) (r : Option (AgentContext × Agents)) (next : Agents → Option Agents)
    → Keeps es r
    → ((agents : Agents) → evidences agents.observations ≡ es → ReturnsAgents es (next agents))
    → ReturnsAgents es (elim r [ none ↦ none | some (context, agents) ↦ next agents ])
after_agent es none next h k = h
after_agent es (some (context, agents)) next h k = k agents h

after_agents :
    (es : List EvidenceSummary) (r : Option Agents) (next : Agents → Option (List Observation))
    → ReturnsAgents es r
    → ((agents : Agents) → evidences agents.observations ≡ es → Returns es (next agents))
    → Returns es (elim r [ none ↦ none | some agents ↦ next agents ])
after_agents es none next h k = h
after_agents es (some agents) next h k = k agents h

after_step :
    (es : List EvidenceSummary) (r : Option (List Observation))
    (next : List Observation → Option (List Observation))
    → Returns es r
    → ((os : List Observation) → evidences os ≡ es → Returns es (next os))
    → Returns es (elim r [ none ↦ none | some os ↦ next os ])
after_step es none next h k = h
after_step es (some os) next h k = k os h

module _ (platform : Platform) (n : ℕ) where
  index_spans-below :
      (index : ℕ) (os : List Observation) (spans : Spans)
      → index + length os ≤ n
      → All (λ e. e.1 < n) spans
      → All (λ e. e.1 < n) (index_spans platform index os spans)
  unfolding index_spans
  index_spans-below index [] spans b h = h
  index_spans-below index (o ∷ os) spans b h =
      elim (Bool-cases (is_empty (trace_span_key platform o.trace_id o.span_id))) [
        | inl e ↦ rw e (index_spans-below (index + 1) os spans (omega arith) h)
        | inr e ↦ rw e (
            index_spans-below (index + 1) os _ (omega arith) (
              All-put (λ k i. i < n) (trace_span_key platform o.trace_id o.span_id) index spans
                (omega arith) h))
      ]

  module _ (spans : Spans) (below : All (λ e. e.1 < n) spans) (es : List EvidenceSummary)
      (size : length es ≡ n) where
    parent_to_ask-below :
        (o : Observation) (parent : ℕ) → parent_to_ask platform spans o ≡ some parent → parent < n
    unfolding parent_to_ask
    parent_to_ask-below o parent h =
        lookup-All (λ k i. i < n) (trace_span_key platform o.trace_id o.parent_span_id) spans below
          (ground arith)

    resolve_agent-Keeps :
        (fuel : ℕ) (resolving : List ℕ) (index : ℕ) (agents : Agents)
        → n < fuel + length resolving
        → AreDistinct resolving
        → All (λ i. i < n) resolving
        → index < n
        → evidences agents.observations ≡ es
        → Keeps es (resolve_agent platform spans fuel resolving index agents)
    unfolding resolve_agent
    resolve_agent-Keeps zero resolving index agents f d b i l =
        absurd (omega (arith, length-AreDistinct n resolving d b))
    resolve_agent-Keeps (suc fuel) resolving index agents f d b i l =
        elim (Option-cases (known resolving index agents)) [
          | inr (context, e) ↦ rw (e, resolve_agent) l
          | inl e ↦ elim (Option-cases (get_elem? agents.observations index)) [
            | inl g ↦ absurd (
                get_elem?-some agents.observations index
                  (omega (arith, same_length agents.observations size l)) g)
            | inr (o, g) ↦ elim (Option-cases (parent_to_ask platform spans o)) [
              | inl p ↦
                  rw (e, g, p, resolve_agent)
                    (evidences-settle index (direct_agent_context o.attributes) agents ∙ l)
              | inr (parent, p) ↦
                  let deeper =
                    resolve_agent-Keeps fuel (index ∷ resolving) parent agents (omega arith)
                      (known-none resolving index agents e, d) (i, b)
                      (parent_to_ask-below o parent p) l in
                  rw (e, g, p, resolve_agent)
                    (settled-Keeps es index
                      (resolve_agent platform spans fuel (index ∷ resolving) parent agents) deeper)
            ]
          ]
        ]

    resolve_all-Returns :
        (count index : ℕ) (agents : Agents)
        → index + count ≤ n
        → evidences agents.observations ≡ es
        → ReturnsAgents es (resolve_all platform spans (suc n) count index agents)
    unfolding resolve_all
    resolve_all-Returns zero index agents c l = l
    resolve_all-Returns (suc count) index agents c l =
        after_agent es (resolve_agent platform spans (suc n) [] index agents)
          (λ resolved. resolve_all platform spans (suc n) count (index + 1) resolved)
          (resolve_agent-Keeps (suc n) [] index agents (omega arith) tt tt (omega arith) l)
          (λ resolved h. resolve_all-Returns count (index + 1) resolved (omega arith) h)

    strip_parent-Returns :
        (fuel : ℕ) (visited : List ℕ) (trace_id parent_span_id : Text) (os : List Observation)
        → n < fuel + length visited
        → AreDistinct visited
        → All (λ i. i < n) visited
        → evidences os ≡ es
        → Returns es (strip_parent platform spans fuel visited trace_id parent_span_id os)
    unfolding strip_parent
    strip_parent-Returns zero visited trace_id span os f d b l =
        absurd (omega (arith, length-AreDistinct n visited d b))
    strip_parent-Returns (suc fuel) visited trace_id [] os f d b l = l
    strip_parent-Returns (suc fuel) visited trace_id (c ∷ cs) os f d b l =
        let key = trace_span_key platform trace_id (c ∷ cs) in
        elim (Option-cases (lookup key spans)) [
          | inl e ↦ rw (e, strip_parent) l
          | inr (parent, e) ↦
              let bound = lookup-All (λ k i. i < n) key spans below e in
              elim (Bool-cases (elem parent visited)) [
                | inl t ↦ rw (e, t, strip_parent) l
                | inr t ↦ elim (Option-cases (get_elem? os parent)) [
                  | inl g ↦
                      absurd (get_elem?-some os parent (omega (arith, same_length os size l)) g)
                  | inr (o, g) ↦
                      let operation = first o.attributes (codes "gen_ai.operation.name" ∷ []) in
                      elim (Bool-cases
                        (equal_fold platform.fold_rune operation (codes "invoke_agent"))) [
                          | inl q ↦
                              rw (e, t, g, q, strip_parent)
                                (evidences-update_at strip_models observation_evidence-strip_models
                                    parent os
                                  ∙ l)
                          | inr q ↦
                              rw (e, t, g, q, strip_parent)
                                (strip_parent-Returns fuel (parent ∷ visited) trace_id
                                  o.parent_span_id os (omega arith) (t, d) (bound, b) l)
                        ]
                ]
              ]
        ]

    strip_step-Returns :
        (o : Observation) (os : List Observation)
        → evidences os ≡ es
        → Returns es (strip_step platform spans (suc n) o os)
    unfolding strip_step
    strip_step-Returns o os l = elim (Bool-cases (is_concrete_model_span platform o.attributes)) [
      | inl t ↦
          rw (t, strip_step)
            (strip_parent-Returns (suc n) [] o.trace_id o.parent_span_id os (omega arith) tt tt l)
      | inr t ↦ rw (t, strip_step) l
    ]

    strip_all-Returns :
        (count index : ℕ) (os : List Observation)
        → index + count ≤ n
        → evidences os ≡ es
        → Returns es (strip_all platform spans (suc n) count index os)
    unfolding strip_all
    strip_all-Returns zero index os c l = l
    strip_all-Returns (suc count) index os c l = elim (Option-cases (get_elem? os index)) [
      | inl e ↦ absurd (get_elem?-some os index (omega (arith, same_length os size l)) e)
      | inr (o, e) ↦
          rw (e, strip_all)
            (after_step es (strip_step platform spans (suc n) o os)
              (λ stripped. strip_all platform spans (suc n) count (index + 1) stripped)
              (strip_step-Returns o os l)
              (λ stripped h. strip_all-Returns count (index + 1) stripped (omega arith) h))
    ]

-- `prepareObservations` returns observations that give the same evidence as the ones that it is given,
-- one by one: with the fuel that the model gives it, neither the recursion over parents nor a walk
-- along them runs out, and no index is out of range.
pub prepare_observations-Returns :
    (platform : Platform) (observations : List Observation)
    → Returns (evidences observations) (prepare_observations platform observations)
unfolding prepare_observations
prepare_observations-Returns platform observations =
    let n = length observations in
    let es = evidences observations in
    let size = length-evidences observations in
    let spans = index_spans platform 0 observations [] in
    let below = index_spans-below platform n 0 observations [] (omega arith) tt in
    after_agents es (resolve_all platform spans (suc n) n 0 _)
      (λ agents. strip_all platform spans (suc n) n 0 agents.observations)
      (resolve_all-Returns platform n spans below es size n 0 _ (omega arith) refl)
      (λ agents h.
        strip_all-Returns platform n spans below es size n 0 agents.observations (omega arith) h)
