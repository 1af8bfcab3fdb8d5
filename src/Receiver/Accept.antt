-- ===== src/Receiver/Accept.antt =====
-- internal/collector/receiver.go: the state of a receiver, how it starts (`New`, `loadExistingGraph`),
-- and how it takes a request in (`acceptAuthenticated`, `acceptBound`). Reading, decoding and writing
-- files is a parameter. The mutex makes each call one step.
pub mod Live
use ai_evidence_bom.Prelude.{
  ℕ, ◌%◌, ◌^◌, Bool, true, false, List, [], ◌∷◌, Option, none, some, if◌then◌else◌, is_empty,
  length,
}
use ai_evidence_bom.Text.{Text, codes}
use ai_evidence_bom.Text.Order.{text_order}
use ai_evidence_bom.Time.{Instant, zero_time, is_zero}
use ai_evidence_bom.Maps.{put}
use ai_evidence_bom.Aggregate.{merge}
use ai_evidence_bom.Model.Evidence.{add_int}
use ai_evidence_bom.Model.Graph.{Graph, schema_version}
use ai_evidence_bom.Model.Canonicalize.{canonicalize}
use ai_evidence_bom.Observation.{Observation}
use ai_evidence_bom.Platform.{Platform}
use ai_evidence_bom.Trust.{apply, cap_graph_in_place}
use ai_evidence_bom.Normalize.Builder.{build_with_options}
use ai_evidence_bom.Receiver.Access.{bind_source}
use ai_evidence_bom.Receiver.Config
use ai_evidence_bom.Receiver.Config.{Config, Settings, check_config}
use ai_evidence_bom.Receiver.Seen.{Seen, admit, trim_dedupe}
use ai_evidence_bom.Receiver.Traces.{Resolution, resolve_trace_contexts, trim_trace_contexts}

-- Every number is a `uint64`.
pub record Stats : Type 0 where
  pub requests : ℕ
  pub received_spans : ℕ
  pub accepted_spans : ℕ
  pub duplicate_spans : ℕ
  pub evidence_downgrades : ℕ
  pub pending_spans : ℕ
  pub failed_requests : ℕ
  pub last_accepted_at : Instant

-- The state behind the mutex.
pub record State : Type 0 where
  pub window : Seen
  pub graph : Graph
  pub pending : List Observation
  pub stats : Stats

abbrev pub no_stats : Stats
no_stats = record {
  requests = 0;
  received_spans = 0;
  accepted_spans = 0;
  duplicate_spans = 0;
  evidence_downgrades = 0;
  pending_spans = 0;
  failed_requests = 0;
  last_accepted_at = zero_time;
}

-- The graph that `New` makes before it looks for a stored one.
abbrev pub empty_graph : (source : Text) → Graph
empty_graph source = record {
  schema = schema_version;
  generated_at = zero_time;
  source = source;
  nodes = [];
  edges = [];
  metadata =
      (codes "privacy.mode", codes "metadata-only")
      ∷ (codes "normalizer.version", schema_version)
      ∷ (codes "aggregation.mode", codes "continuous")
      ∷ [];
}

-- What `os.ReadFile` finds at the path of the graph.
pub data Stored : Type 0 where
  no_file : Stored
  unreadable : Stored
  file : (contents : List ℕ) → Stored

pub data Loaded : Type 0 where
  cannot_read : Loaded
  cannot_decode : Loaded
  no_schema_version : Loaded
  loaded : Graph → Loaded

-- `decode` is `json.Unmarshal`, which writes what the bytes say over the graph that it is given.
unfoldable pub load_existing_graph :
    (decode : List ℕ → Graph → Option Graph) → Config → Stored → Graph → Loaded
load_existing_graph decode config no_file graph = loaded graph
load_existing_graph decode config unreadable graph = cannot_read
load_existing_graph decode config (file contents) graph = elim (decode contents graph) [
  | none ↦ cannot_decode
  | some decoded ↦
      let capped = (cap_graph_in_place config.source_trust decoded).0 in
      if is_empty decoded.schema
      then no_schema_version
      else loaded (
          canonicalize (record capped {
            schema = schema_version;
            metadata = put (codes "normalizer.version") schema_version capped.metadata;
          }))
]

pub data Creation : Type 0 where
  refused : Config.Error → Creation
  not_loaded : Loaded → Creation
  started : Settings → State → Creation

abbrev pub initial : Graph → State
initial graph = record {
  window = record { seen = []; seen_order = []; contexts = [] };
  graph = graph;
  pending = [];
  stats = no_stats;
}

-- The end of `New`: it fails where the stored graph cannot be loaded.
unfoldable pub start_with : Settings → Loaded → Creation
start_with settings (loaded graph) = started settings (initial graph)
start_with settings failure = not_loaded failure

unfoldable pub new_receiver :
    (sha256 : Text → List ℕ) (decode : List ℕ → Graph → Option Graph) → Config → Stored → Creation
unfolding start_with
new_receiver sha256 decode config stored = elim (check_config sha256 config) [
  | Config.refused reason ↦ refused reason
  | Config.created settings ↦
      start_with settings
        (load_existing_graph decode settings.config stored (empty_graph settings.config.source))
]

-- `recordFailure`.
unfoldable pub record_failure : State → State
record_failure s = record s {
  stats = record s.stats { failed_requests = add_int s.stats.failed_requests 1 };
}

-- The files that `persist` writes: each write gives the error that it meets, if any.
pub record Files : Type 0 where
  pub write_graph : (path : Text) → Graph → Option Text
  pub write_bom : (path : Text) → Graph → Option Text

unfoldable pub persist : Files → Config → Graph → Option Text
persist files config graph = elim (files.write_graph config.graph_out graph) [
  | some error ↦ some error
  | none ↦ if is_empty config.bom_out then none else files.write_bom config.bom_out graph
]

-- The answer to a request.
pub data Answer : Type 0 where
  accepted : Answer
  source_credential_required : Answer
  not_persisted : (error : Text) → Answer

abbrev pub answer_of : Option Text → Answer
answer_of none = accepted
answer_of (some error) = not_persisted error

-- The statistics after the observations have been looked at, but not yet accepted.
unfoldable pub count_arrivals : (received duplicates downgraded : ℕ) → Stats → Stats
count_arrivals received duplicates downgraded stats = record stats {
  requests = add_int stats.requests 1;
  received_spans = add_int stats.received_spans received;
  duplicate_spans = add_int stats.duplicate_spans duplicates;
  evidence_downgrades = add_int stats.evidence_downgrades downgraded;
}

-- What a batch of new observations leaves, once their traces are resolved and a graph is built of those
-- that are ready.
unfoldable pub taken :
    (now : Instant) → List Observation → Resolution → (batch : Graph) → State → State
taken now unique r batch s = record {
  window = record s.window { contexts = trim_trace_contexts s.window.seen r.contexts };
  graph = if is_empty r.ready then s.graph else merge s.graph batch now;
  pending = r.pending;
  stats = record s.stats {
    accepted_spans = add_int s.stats.accepted_spans (length unique);
    last_accepted_at = now;
  };
}

-- The statements after `if len(unique) > 0`, up to `persist`.
unfoldable pub settle : (now : Instant) → State → State
settle now s = record s {
  graph = if is_zero s.graph.generated_at then record s.graph { generated_at = now } else s.graph;
  stats = record s.stats { pending_spans = length s.pending % 2 ^ 64 };
}

module _ (platform : Platform) (settings : Settings) where
  -- The state in which `acceptBound` takes the unique observations in, with those.
  unfoldable pub receive : List Observation → State → State × List Observation
  unfolding count_arrivals
  receive observations s =
      let admission =
        admit platform observations (record { state = s.window; unique = []; duplicates = 0 }) in
      let trusted = apply settings.config.source_trust admission.unique in
      (
        record s {
          window = trim_dedupe settings.dedupe_items admission.state;
          stats =
              count_arrivals (length observations) admission.duplicates trusted.downgraded s.stats;
        },
        trusted.observations,
      )

  module _ (now : Instant) where
    -- The body of `if len(unique) > 0`: `none` where one of its two calls does not return.
    unfoldable pub take_in : List Observation → (source : Text) → State → Option State
    take_in unique source s =
        elim (resolve_trace_contexts platform settings.dedupe_items
          settings.config.sensitive_hmac_key s.window.contexts s.pending unique) [
            | none ↦ none
            | some r ↦
                elim (build_with_options platform settings.config.sensitive_hmac_key r.ready source
                  now) [ none ↦ none | some batch ↦ some (taken now unique r batch s) ]
          ]

    unfoldable pub update_state : List Observation → (source : Text) → State → Option State
    unfolding settle
    update_state observations source s =
        let (received, unique) = receive observations s in
        let taken = take_in unique source received in
        elim (is_empty unique) [
          | true ↦ some (settle now received)
          | false ↦ elim taken [ none ↦ none | some t ↦ some (settle now t) ]
        ]

    module _ (files : Files) where
      unfoldable pub accept_bound :
          List Observation → (source : Text) → State → Option (State × Answer)
      unfolding persist
      accept_bound observations source s = elim (update_state observations source s) [
        | none ↦ none
        | some t ↦ some (t, answer_of (persist files settings.config t.graph))
      ]

      unfoldable pub accept_authenticated :
          List Observation → (source authenticated : Text) → State → Option (State × Answer)
      accept_authenticated observations source authenticated s =
          elim (bind_source settings.config observations source authenticated) [
            | none ↦ some (s, source_credential_required)
            | some bound ↦ accept_bound bound.0 bound.1 s
          ]
