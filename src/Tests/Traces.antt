-- ===== src/Tests/Traces.antt =====
-- A receiver that takes spans in, some of which wait for their parents.
use ai_evidence_bom.Prelude.{
  ℕ, ◌+◌, ◌≤◌, ◌≡◌, refl, Bool, List, [], ◌∷◌, ◌++◌, Option, none, some, All, length, arith,
}
use ai_evidence_bom.Text.{codes, text_eq, to_lower, trim_space}
use ai_evidence_bom.Time
use ai_evidence_bom.Model.Graph.{Graph}
use ai_evidence_bom.Observation.{Observation}
use ai_evidence_bom.Receiver.Accept.{
  State, Files, Stored, empty_graph, initial, load_existing_graph, new_receiver, started,
}
use ai_evidence_bom.Receiver.Accept.Live.{IsLive}
use ai_evidence_bom.Receiver.Runs.{Call, run, new_receiver-IsLive, ingest, failed_request}
use ai_evidence_bom.Receiver.Seen.Fifo.{admitted_batches, fresh_batches, admitted_batches_refines}
use ai_evidence_bom.Maps.{lookup, put}
use ai_evidence_bom.Aggregate.{update_at}
use ai_evidence_bom.Normalize.{first}
use ai_evidence_bom.Normalize.Context.{is_empty_context, direct_agent_context}
use ai_evidence_bom.Normalize.Privacy.{metadata_only_observation}
use ai_evidence_bom.Receiver.Seen.{observation_key}
use ai_evidence_bom.Receiver.Traces.{
  sort_work, sort_one, visit, resolve_one, released, Resolution, resolve_trace_contexts, work_of,
}
use ai_evidence_bom.Receiver.Traces.Conserved.{count, IsStable, resolve_trace_contexts-conserves}
use ai_evidence_bom.Receiver.Traces.Covering.{Lacks}
use ai_evidence_bom.Receiver.Traces.Waits.{resolve_trace_contexts-Lacks}
use ai_evidence_bom.Tests.Receivers.{
  plain_platform, live_config, live_settings, live_config-created, claimed_span, claimed_spans,
  full_window, full_window-IsWindow,
}

abbrev no_errors : Files
no_errors = record { write_graph = λ path graph. none; write_bom = λ path graph. none }

abbrev decodes_nothing : List ℕ → Graph → Option Graph
decodes_nothing bytes graph = none

abbrev calls : List Call
calls =
    ingest (Time.pos 9) claimed_spans (codes "live") (codes "ci")
    ∷ failed_request
    ∷ ingest (Time.pos 10) claimed_spans (codes "live") []
    ∷ []

live-started :
    new_receiver plain_platform.sha256 decodes_nothing live_config Stored.no_file
    ≡ started live_settings (initial (empty_graph (codes "live")))
unfolding new_receiver load_existing_graph
live-started = rw (live_config-created, new_receiver) refl

new_receiver-IsLive_example :
    (t : State) × (run plain_platform live_settings no_errors calls
        (initial (empty_graph (codes "live")))
      ≡ some t)
    × IsLive live_settings 0 t
new_receiver-IsLive_example =
    new_receiver-IsLive plain_platform no_errors decodes_nothing live_config Stored.no_file
      live_settings (initial (empty_graph (codes "live"))) calls live-started

admitted_batches_refines_example :
    admitted_batches plain_platform 2 (claimed_spans ∷ claimed_spans ∷ []) full_window
    ≡ fresh_batches plain_platform 2 (claimed_spans ∷ claimed_spans ∷ []) full_window.seen_order
admitted_batches_refines_example =
    admitted_batches_refines plain_platform 2 (claimed_spans ∷ claimed_spans ∷ []) full_window
      full_window-IsWindow

abbrev child_span : Observation
child_span = record (claimed_span (codes "2")) { parent_span_id = codes "9" }

resolve_trace_contexts-conserves_example :
    (r : Resolution) × (resolve_trace_contexts plain_platform 1 [] []
        (child_span ∷ [])
        claimed_spans
      ≡ some r)
    × (length r.pending ≤ 1)
    × ((t : Observation → Bool)
        → IsStable t
        → count t r.ready + count t r.pending
          ≡ count t (work_of plain_platform [] (child_span ∷ []) claimed_spans))
resolve_trace_contexts-conserves_example =
    resolve_trace_contexts-conserves plain_platform 1 [] [] (child_span ∷ []) claimed_spans

abbrev child_waits : Resolution
child_waits = record {
  ready = claimed_span (codes "1") ∷ [];
  pending = child_span ∷ [];
  contexts = (codes "t" ++ 0 ∷ codes "1", record { id = []; name = []; version = [] }) ∷ [];
}

child_waits-resolved :
    resolve_trace_contexts plain_platform 2 [] [] (child_span ∷ []) (claimed_span (codes "1") ∷ [])
    ≡ some child_waits
unfolding resolve_trace_contexts sort_work sort_one is_empty_context direct_agent_context first
    trim_space lookup metadata_only_observation visit resolve_one observation_key to_lower released
    put text_eq update_at
child_waits-resolved = refl

resolve_trace_contexts-Lacks_example :
    All (Lacks plain_platform child_waits.contexts) child_waits.pending
resolve_trace_contexts-Lacks_example =
    resolve_trace_contexts-Lacks plain_platform 2 [] [] (child_span ∷ [])
      (claimed_span (codes "1") ∷ []) child_waits child_waits-resolved (omega arith)
