-- ===== src/Receiver/Runs.antt =====
-- A receiver from its start through any sequence of requests.
use ai_evidence_bom.Prelude.{
  ℕ, ◌≡◌, refl, subst, List, [], ◌∷◌, Option, none, some, arith, inl, inr, ◌⊎◌, Bool-cases,
  Option-cases, is_empty,
}
use ai_evidence_bom.Text.{Text}
use ai_evidence_bom.Text.Order.{text_order}
use ai_evidence_bom.Maps.{elem}
use ai_evidence_bom.Time.{Instant}
use ai_evidence_bom.Model.Graph.{Graph}
use ai_evidence_bom.Model.Invariant.{GraphHolds}
use ai_evidence_bom.Model.Invariant.Resolve.{canonicalize-holds}
use ai_evidence_bom.Observation.{Observation}
use ai_evidence_bom.Platform.{Platform}
use ai_evidence_bom.Trust
use ai_evidence_bom.Trust.Grants.{IsGranted, IsGranted-IsClosed, cap_graph_in_place-IsGranted}
use ai_evidence_bom.Receiver.Config
use ai_evidence_bom.Receiver.Config.{Config, Settings, check_config}
use ai_evidence_bom.Receiver.Access.{bind_source}
use ai_evidence_bom.Receiver.Access.Authority.{check_policies-none, check_config-created}
use ai_evidence_bom.Receiver.Accept.{
  State, Stored, Files, Loaded, Creation, start_with, loaded, load_existing_graph, empty_graph,
  initial, started, new_receiver, accept_bound, accept_authenticated, record_failure,
}
use ai_evidence_bom.Receiver.Accept.Live.{IsLive, update_state-IsLive}

-- What a client can make the receiver do.
pub data Call : Type 0 where
  ingest : (now : Instant) → List Observation → (source authenticated : Text) → Call
  failed_request : Call

module _ (platform : Platform) (settings : Settings) (files : Files) where
  unfoldable pub perform : Call → State → Option State
  perform failed_request s = some (record_failure s)
  perform (ingest now os source authenticated) s =
      elim (accept_authenticated platform settings now files os source authenticated s) [
        | none ↦ none
        | some outcome ↦ some outcome.0
      ]

  -- `none` where a call does not return.
  unfoldable pub run : List Call → State → Option State
  run [] s = some s
  run (call ∷ calls) s = elim (perform call s) [ none ↦ none | some t ↦ run calls t ]

  record_failure-IsLive : (s : State) → IsLive settings 0 s → IsLive settings 0 (record_failure s)
  unfolding record_failure
  record_failure-IsLive s h = record {
    window = h.window;
    window_bounded = h.window_bounded;
    contexts = h.contexts;
    pending_bounded = h.pending_bounded;
    pending_granted = h.pending_granted;
    graph = h.graph;
    counted = h.counted;
  }

  -- A call returns, in a state of the kind.
  abbrev Returns : Option State → Type 0
  Returns result = (t : State) × (result ≡ some t) × IsLive settings 0 t

  module _ (valid : Trust.validate settings.config.source_trust ≡ Trust.Verdict.accepted) where
    accept-Returns :
        (now : Instant) (os : List Observation) (source authenticated : Text) (s : State)
        → IsLive settings 0 s
        → Returns (perform (ingest now os source authenticated) s)
    unfolding perform accept_authenticated accept_bound
    accept-Returns now os source authenticated s h =
        elim (Option-cases (bind_source settings.config os source authenticated)) [
          | inl e ↦ (s, rw (e, perform, accept_authenticated) refl, h)
          | inr (bound, e) ↦
              let (t, returns, live) =
                update_state-IsLive platform settings now bound.0 bound.1 s valid h in
              (t, rw (e, returns, perform, accept_authenticated, accept_bound) refl, live)
        ]

    perform-Returns : (call : Call) (s : State) → IsLive settings 0 s → Returns (perform call s)
    unfolding perform
    perform-Returns failed_request s h = (record_failure s, refl, record_failure-IsLive s h)
    perform-Returns (ingest now os source authenticated) s h =
        accept-Returns now os source authenticated s h

    run-Returns : (calls : List Call) (s : State) → IsLive settings 0 s → Returns (run calls s)
    unfolding run
    run-Returns [] s h = (s, refl, h)
    run-Returns (call ∷ calls) s h =
        let (t, returns, live) = perform-Returns call s h in
        let (u, ends, last) = run-Returns calls t live in (u, rw (returns, run) ends, last)

-- A graph that is loaded holds granted evidence.
abbrev LoadedHolds : Trust.Policy → Loaded → Type 0
LoadedHolds policy (loaded graph) = GraphHolds (IsGranted policy) graph
LoadedHolds policy _ = Unit

load-IsGranted :
    (decode : List ℕ → Graph → Option Graph) (config : Config) (stored : Stored) (source : Text)
    → Trust.validate config.source_trust ≡ Trust.Verdict.accepted
    → LoadedHolds config.source_trust
        (load_existing_graph decode config stored (empty_graph source))
unfolding load_existing_graph
load-IsGranted decode config Stored.no_file source valid = record { nodes = tt; edges = tt }
load-IsGranted decode config Stored.unreadable source valid = tt
load-IsGranted decode config (Stored.file contents) source valid =
    let policy = config.source_trust in
    elim (Option-cases (decode contents (empty_graph source))) [
      | inl e ↦ rw (e, load_existing_graph) tt
      | inr (decoded, e) ↦ elim (Bool-cases (is_empty decoded.schema)) [
        | inl f ↦ rw (e, f, load_existing_graph) tt
        | inr f ↦
            let capped = cap_graph_in_place-IsGranted policy decoded valid in
            rw (e, f, load_existing_graph)
              (canonicalize-holds (IsGranted policy) (IsGranted-IsClosed policy) _
                (record { nodes = capped.nodes; edges = capped.edges }))
      ]
    ]

-- A receiver that is created has an accepted trust policy, and starts in a state of the kind.
abbrev StartsLive : Creation → Type 0
StartsLive (started settings s) =
    (Trust.validate settings.config.source_trust ≡ Trust.Verdict.accepted) × IsLive settings 0 s
StartsLive _ = Unit

initial-IsLive :
    (settings : Settings) (graph : Graph)
    → GraphHolds (IsGranted settings.config.source_trust) graph
    → IsLive settings 0 (initial graph)
unfolding elem
initial-IsLive settings graph h = record {
  window = record { distinct = tt; listed = λ k. refl };
  window_bounded = omega arith;
  contexts = tt;
  pending_bounded = omega arith;
  pending_granted = tt;
  graph = h;
  counted = refl;
}

start_with-StartsLive :
    (settings : Settings) (l : Loaded)
    → Trust.validate settings.config.source_trust ≡ Trust.Verdict.accepted
    → LoadedHolds settings.config.source_trust l
    → StartsLive (start_with settings l)
unfolding start_with
start_with-StartsLive settings (loaded graph) valid h = (valid, initial-IsLive settings graph h)
start_with-StartsLive settings Loaded.cannot_read valid h = tt
start_with-StartsLive settings Loaded.cannot_decode valid h = tt
start_with-StartsLive settings Loaded.no_schema_version valid h = tt

Result-cases :
    (r : Config.Result Settings)
    → ((reason : Config.Error) × (r ≡ Config.refused reason))
      ⊎ ((settings : Settings) × (r ≡ Config.created settings))
Result-cases (Config.refused reason) = inl (reason, refl)
Result-cases (Config.created settings) = inr (settings, refl)

new_receiver-StartsLive :
    (sha256 : Text → List ℕ) (decode : List ℕ → Graph → Option Graph) (config : Config)
    (stored : Stored)
    → StartsLive (new_receiver sha256 decode config stored)
unfolding new_receiver
new_receiver-StartsLive sha256 decode config stored =
    elim (Result-cases (check_config sha256 config)) [
      | inl (reason, e) ↦ rw (e, new_receiver) tt
      | inr (settings, e) ↦
          let (auth, trust, sound, bytes, items) = check_config-created sha256 config settings e in
          let valid : Trust.validate settings.config.source_trust ≡ Trust.Verdict.accepted =
            rw trust ((check_policies-none sha256 config sound).0) in
          rw (e, new_receiver)
            (start_with-StartsLive settings _ valid
              (load-IsGranted decode settings.config stored settings.config.source valid))
    ]

-- A receiver that `New` creates returns from every sequence of requests, in a state as between two
-- requests: the window holds the spans that have been seen, each once, and like the pending
-- observations no more than the limit, every context belongs to one of those spans, whatever is
-- pending or stands in the graph is at most observed or granted by a rule for one of its sources, and
-- every received span is counted as accepted or as a duplicate.
pub new_receiver-IsLive :
    (platform : Platform) (files : Files) (decode : List ℕ → Graph → Option Graph) (config : Config)
    (stored : Stored) (settings : Settings) (s : State) (calls : List Call)
    → new_receiver platform.sha256 decode config stored ≡ started settings s
    → (t : State) × (run platform settings files calls s ≡ some t) × IsLive settings 0 t
new_receiver-IsLive platform files decode config stored settings s calls h =
    let (valid, live) =
      subst StartsLive h (new_receiver-StartsLive platform.sha256 decode config stored) in
    run-Returns platform settings files valid calls s live
