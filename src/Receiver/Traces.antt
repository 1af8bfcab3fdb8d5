-- ===== src/Receiver/Traces.antt =====
-- internal/collector/receiver.go: `resolveTraceContexts`, by which an observation without an agent of
-- its own waits for the span that it belongs to, and `trimTraceContexts`.
pub mod Draining
pub mod Starting
pub mod Conserved
pub mod Covering
pub mod Resolving
pub mod Waits
pub mod Keeping
use ai_evidence_bom.Prelude.{
  ℕ, zero, suc, ◌+◌, ◌-◌, Bool, true, false, not, ◌||◌, List, [], ◌∷◌, ◌++◌, Option, none, some,
  map, if◌then◌else◌, is_empty, length, take, drop, get_elem?, ltb,
}
use ai_evidence_bom.Text.{Text, to_lower}
use ai_evidence_bom.Text.Order.{text_order}
use ai_evidence_bom.Maps.{lookup, put, delete, elem}
use ai_evidence_bom.Aggregate.{update_at}
use ai_evidence_bom.Observation.{Observation}
use ai_evidence_bom.Platform.{Platform}
use ai_evidence_bom.Normalize.Context.{
  AgentContext, is_empty_context, direct_agent_context, apply_agent_context,
}
use ai_evidence_bom.Normalize.Privacy.{metadata_only_observation}
use ai_evidence_bom.Receiver.Seen.{observation_key}

abbrev pub Contexts : Type 0
Contexts = List (Text × AgentContext)

-- The zero value.
abbrev pub no_context : AgentContext
no_context = record { id = []; name = []; version = [] }

-- `resolvedObservation`.
pub record Resolved : Type 0 where
  pub index : ℕ
  pub context : AgentContext

-- `waitingByParent`.
abbrev pub Waiting : Type 0
Waiting = List (Text × List ℕ)

-- The variables of the first loop.
pub record Sorted : Type 0 where
  pub queue : List Resolved
  pub waiting : Waiting

-- The variables of the second loop, but for the queue.
pub record Progress : Type 0 where
  pub waiting : Waiting
  pub work : List Observation
  pub resolved : List Bool
  pub ready : List Observation
  pub contexts : Contexts

-- What is returned, and what is left in the receiver.
pub record Resolution : Type 0 where
  pub ready : List Observation
  pub pending : List Observation
  pub contexts : Contexts

-- `waitingByParent[key]`.
abbrev pub read_indices : Option (List ℕ) → List ℕ
read_indices none = []
read_indices (some indices) = indices

abbrev pub put_in_queue : Resolved → Sorted → Sorted
put_in_queue item s = record s { queue = s.queue ++ item ∷ [] }

-- The items that wait for a span, with the context of that span.
unfoldable pub released : AgentContext → List ℕ → List Resolved
released context [] = []
released context (index ∷ indices) =
    record { index = index; context = context } ∷ released context indices

-- The observations that have no mark.
unfoldable pub unresolved : List Observation → List Bool → List Observation
unresolved (o ∷ os) (mark ∷ marks) =
    let rest = unresolved os marks in if mark then rest else o ∷ rest
unresolved os marks = []

unfoldable pub none_resolved : List Observation → List Bool
none_resolved [] = []
none_resolved (o ∷ os) = false ∷ none_resolved os

-- The variables of the second loop as it starts.
abbrev pub start : Contexts → List Observation → Waiting → Progress
start contexts work waiting = record {
  waiting = waiting;
  work = work;
  resolved = none_resolved work;
  ready = [];
  contexts = contexts;
}

-- The observation with the context of its item.
unfoldable pub with_context : AgentContext → Observation → Observation
with_context context o = if is_empty_context context then o else apply_agent_context o context

module _ (platform : Platform) where
  unfoldable pub parent_key : Observation → Text
  parent_key o =
      to_lower platform.lower_rune o.trace_id ++ 0 ∷ to_lower platform.lower_rune o.parent_span_id

  -- The body of the first loop.
  unfoldable pub sort_one : Contexts → ℕ → Observation → Sorted → Sorted
  unfolding parent_key
  sort_one contexts index o s =
      let context = direct_agent_context o.attributes in
      let key = parent_key o in
      if not (is_empty_context context)
      then put_in_queue (record { index = index; context = context }) s
      else if is_empty o.parent_span_id || is_empty o.trace_id
      then put_in_queue (record { index = index; context = no_context }) s
      else elim (lookup key contexts) [
        | some parent_context ↦ put_in_queue (record { index = index; context = parent_context }) s
        | none ↦ record s {
          waiting = put key (read_indices (lookup key s.waiting) ++ index ∷ []) s.waiting;
        }
      ]

  unfoldable pub sort_all : Contexts → ℕ → List Observation → Sorted → Sorted
  sort_all contexts index [] s = s
  sort_all contexts index (o ∷ os) s =
      sort_all contexts (index + 1) os (sort_one contexts index o s)

  -- The body of the second loop on an item that is not resolved yet, with what it puts in the queue.
  unfoldable pub resolve_one : Resolved → Observation → Progress → List Resolved × Progress
  unfolding with_context
  resolve_one item o p =
      let observation = with_context item.context o in
      let key = observation_key platform observation in
      let children = released item.context (read_indices (lookup key p.waiting)) in
      let marked = record p {
        work = update_at item.index (λ old. observation) p.work;
        resolved = update_at item.index (λ old. true) p.resolved;
        ready = p.ready ++ observation ∷ [];
      } in
      if is_empty key then ([], marked) else (
        children,
        record marked {
          contexts = put key item.context p.contexts;
          waiting = delete key p.waiting;
        },
      )

  -- One round of the second loop: `none` for an index out of range.
  unfoldable pub visit : Resolved → Progress → Option (List Resolved × Progress)
  visit item p = elim (get_elem? p.resolved item.index) [
    | none ↦ none
    | some true ↦ some ([], p)
    | some false ↦ elim (get_elem? p.work item.index) [
      | none ↦ none
      | some o ↦ some (resolve_one item o p)
    ]
  ]

  -- The second loop over what is left of the queue. Each round costs a unit of fuel: `none` where it is
  -- used up.
  unfoldable pub drain : (fuel : ℕ) → List Resolved → Progress → Option Progress
  drain fuel [] p = some p
  drain zero (item ∷ items) p = none
  drain (suc fuel) (item ∷ items) p = elim (visit item p) [
    | none ↦ none
    | some (children, q) ↦ drain fuel (items ++ children) q
  ]

  -- The loop over the observations that overflow.
  unfoldable pub give_up : List Observation → Contexts → Contexts
  give_up [] contexts = contexts
  give_up (o ∷ os) contexts =
      let key = observation_key platform o in
      give_up os (if is_empty key then contexts else put key no_context contexts)

  -- What follows the second loop.
  unfoldable pub bound_pending : (max_items : ℕ) → Progress → Resolution
  unfolding give_up unresolved
  bound_pending max_items p =
      let waiting = unresolved p.work p.resolved in
      let overflow = length waiting - max_items in
      if ltb max_items (length waiting)
      then record {
        ready = p.ready ++ take overflow waiting;
        pending = drop overflow waiting;
        contexts = give_up (take overflow waiting) p.contexts;
      }
      else record { ready = p.ready; pending = waiting; contexts = p.contexts }

  -- The work of a call: what is pending, and the metadata of what arrives.
  abbrev pub work_of : (key : List ℕ) → (pending arrived : List Observation) → List Observation
  work_of key pending arrived =
      pending ++ map (λ o. metadata_only_observation platform o key) arrived

  -- The first loop.
  unfoldable pub sort_work : Contexts → List Observation → Sorted
  unfolding sort_all
  sort_work contexts work = sort_all contexts 0 work (record { queue = []; waiting = [] })

  unfoldable pub resolve_trace_contexts :
      (max_items : ℕ) (key : List ℕ)
      → Contexts
      → (pending arrived : List Observation) → Option Resolution
  unfolding drain bound_pending none_resolved
  resolve_trace_contexts max_items key contexts pending arrived =
      let work = work_of key pending arrived in
      let sorted = sort_work contexts work in
      elim (drain (length work) sorted.queue (start contexts work sorted.waiting)) [
        | none ↦ none
        | some p ↦ some (bound_pending max_items p)
      ]

-- `trimTraceContexts`.
unfoldable pub trim_trace_contexts : List Text → Contexts → Contexts
trim_trace_contexts seen [] = []
trim_trace_contexts seen ((key, context) ∷ contexts) =
    let rest = trim_trace_contexts seen contexts in
    if elem key seen then (key, context) ∷ rest else rest
