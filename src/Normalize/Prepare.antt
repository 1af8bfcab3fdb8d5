-- ===== src/Normalize/Prepare.antt =====
-- internal/normalize/context.go: `prepareObservations`. A read out of range, which panics, and the end
-- of the fuel are `none`. The fuel is one more than the number of observations.
pub mod Numbers
pub mod Returns
use ai_evidence_bom.Prelude.{
  ℕ, zero, suc, ◌+◌, Bool, true, false, not, ◌&&◌, List, [], ◌∷◌, Option, none, some, if◌then◌else◌,
  is_empty, length, get_elem?,
}
use ai_evidence_bom.Text.{Text, codes}
use ai_evidence_bom.Text.Order.{text_order}
use ai_evidence_bom.Maps.{lookup, put, delete, elem}
use ai_evidence_bom.Model.Graph.{TextMap}
use ai_evidence_bom.Observation.{Observation}
use ai_evidence_bom.Platform.{Platform, equal_fold}
use ai_evidence_bom.Aggregate.{update_at}
use ai_evidence_bom.Normalize.{first}
use ai_evidence_bom.Normalize.Context.{
  AgentContext, is_empty_context, direct_agent_context, apply_agent_context, is_concrete_model_span,
  trace_span_key,
}
use ai_evidence_bom.Normalize.Prepare.Numbers.{number_order}

-- `spanIndex`: the last index of an observation by its trace and span.
abbrev pub Spans : Type 0
Spans = List (Text × ℕ)

abbrev pub no_context : AgentContext
no_context = record { id = []; name = []; version = [] }

-- The variables that `resolveAgent` changes. The set `resolving` is what the calls on the stack have
-- added to it, since each of them removes its index before it returns.
pub record Agents : Type 0 where
  pub observations : List Observation
  pub resolved : List (ℕ × AgentContext)

-- What the call returns at once.
unfoldable pub known : List ℕ → ℕ → Agents → Option AgentContext
known resolving index agents = elim (lookup index agents.resolved) [
  | some context ↦ some context
  | none ↦ if elem index resolving then some no_context else none
]

-- The end of the call: the observation takes the identity, and the index is resolved.
unfoldable pub settle : ℕ → AgentContext → Agents → Agents
settle index context agents = record {
  observations =
      if is_empty_context context
      then agents.observations
      else update_at index (λ o. apply_agent_context o context) agents.observations;
  resolved = put index context agents.resolved;
}

-- The attributes that an agent's summary span loses.
unfoldable pub strip_models : Observation → Observation
strip_models o = record o {
  attributes = delete (codes "llm.response.model") (
      delete (codes "llm.request.model") (
        delete (codes "gen_ai.model") (
          delete (codes "gen_ai.response.model")
            (delete (codes "gen_ai.request.model") o.attributes))));
}

module _ (platform : Platform) where
  unfoldable pub index_spans : ℕ → List Observation → Spans → Spans
  index_spans index [] spans = spans
  index_spans index (o ∷ os) spans =
      let key = trace_span_key platform o.trace_id o.span_id in
      index_spans (index + 1) os (if is_empty key then spans else put key index spans)

  module _ (spans : Spans) where
    -- The index of the parent that the call asks, if it asks one.
    unfoldable pub parent_to_ask : Observation → Option ℕ
    parent_to_ask o =
        if is_empty_context (direct_agent_context o.attributes) && not (is_empty o.parent_span_id)
        then lookup (trace_span_key platform o.trace_id o.parent_span_id) spans
        else none

    -- `resolveAgent`.
    unfoldable pub resolve_agent :
        (fuel : ℕ) (resolving : List ℕ) → ℕ → Agents → Option (AgentContext × Agents)
    resolve_agent zero resolving index agents = none
    resolve_agent (suc fuel) resolving index agents = elim (known resolving index agents) [
      | some context ↦ some (context, agents)
      | none ↦ elim (get_elem? agents.observations index) [
        | none ↦ none
        | some o ↦ elim (parent_to_ask o) [
          | none ↦
              let context = direct_agent_context o.attributes in
              some (context, settle index context agents)
          | some parent ↦ elim (resolve_agent fuel (index ∷ resolving) parent agents) [
            | none ↦ none
            | some (context, asked) ↦ some (context, settle index context asked)
          ]
        ]
      ]
    ]

    -- The loop over the indices, of which `count` are left.
    unfoldable pub resolve_all : (fuel count : ℕ) → ℕ → Agents → Option Agents
    resolve_all fuel zero index agents = some agents
    resolve_all fuel (suc count) index agents = elim (resolve_agent fuel [] index agents) [
      | none ↦ none
      | some (context, resolved) ↦ resolve_all fuel count (index + 1) resolved
    ]

    -- The walk from a model's span to the span that invoked its agent.
    unfoldable pub strip_parent :
        (fuel : ℕ) (visited : List ℕ)
        → (trace_id parent_span_id : Text) → List Observation
        → Option (List Observation)
    strip_parent zero visited trace_id parent_span_id observations = none
    strip_parent (suc fuel) visited trace_id [] observations = some observations
    strip_parent (suc fuel) visited trace_id (c ∷ cs) observations =
        elim (lookup (trace_span_key platform trace_id (c ∷ cs)) spans) [
          | none ↦ some observations
          | some parent ↦ elim (elem parent visited) [
            | true ↦ some observations
            | false ↦ elim (get_elem? observations parent) [
              | none ↦ none
              | some o ↦
                  elim (equal_fold platform.fold_rune
                    (first o.attributes (codes "gen_ai.operation.name" ∷ []))
                    (codes "invoke_agent")) [
                      | true ↦ some (update_at parent strip_models observations)
                      | false ↦
                          strip_parent fuel (parent ∷ visited) trace_id o.parent_span_id
                            observations
                    ]
            ]
          ]
        ]

    -- One step of the loop over the model spans.
    unfoldable pub strip_step :
        (fuel : ℕ) → Observation → List Observation → Option (List Observation)
    strip_step fuel o observations = elim (is_concrete_model_span platform o.attributes) [
      | true ↦ strip_parent fuel [] o.trace_id o.parent_span_id observations
      | false ↦ some observations
    ]

    unfoldable pub strip_all : (fuel count : ℕ) → ℕ → List Observation → Option (List Observation)
    strip_all fuel zero index observations = some observations
    strip_all fuel (suc count) index observations = elim (get_elem? observations index) [
      | none ↦ none
      | some o ↦ elim (strip_step fuel o observations) [
        | none ↦ none
        | some stripped ↦ strip_all fuel count (index + 1) stripped
      ]
    ]

  unfoldable pub prepare_observations : List Observation → Option (List Observation)
  prepare_observations observations =
      let spans = index_spans 0 observations [] in
      let count = length observations in
      elim (resolve_all spans (suc count) count 0
        (record { observations = observations; resolved = [] })) [
          | none ↦ none
          | some agents ↦ strip_all spans (suc count) count 0 agents.observations
        ]
