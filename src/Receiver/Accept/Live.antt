-- ===== src/Receiver/Accept/Live.antt =====
-- The state of a receiver, through every request.
use ai_evidence_bom.Prelude.{
  ℕ, ◌+◌, ◌%◌, ◌^◌, ◌≤◌, ◌≡◌, refl, sym, subst, true, List, [], ◌∷◌, some, All, All-append, All-map,
  arith, inl, inr, Bool-cases, Option-cases, is_empty, length,
}
use ai_evidence_bom.Text.{Text}
use ai_evidence_bom.Time.{Instant, is_zero}
use ai_evidence_bom.Model.Evidence.{add_int}
use ai_evidence_bom.Model.Graph.{Graph}
use ai_evidence_bom.Model.Invariant.{GraphHolds}
use ai_evidence_bom.Observation.{Observation}
use ai_evidence_bom.Platform.{Platform}
use ai_evidence_bom.Trust
use ai_evidence_bom.Trust.{apply}
use ai_evidence_bom.Trust.Rules.{sound_of_accepted}
use ai_evidence_bom.Trust.Observations.{AreCapped, apply_lem}
use ai_evidence_bom.Trust.Grants.{IsGranted, IsGranted-IsClosed, merge-IsGranted}
use ai_evidence_bom.Trust.Building.{AreCapped-IsGranted}
use ai_evidence_bom.Normalize.{observation_evidence}
use ai_evidence_bom.Normalize.Context.{AgentContext, apply_agent_context}
use ai_evidence_bom.Normalize.Privacy.{metadata_only_observation}
use ai_evidence_bom.Normalize.Builder.{build_with_options}
use ai_evidence_bom.Normalize.Builder.Building.{Builds, build_with_options-Builds}
use ai_evidence_bom.Receiver.Config.{Settings}
use ai_evidence_bom.Receiver.Seen.{Admission, admit}
use ai_evidence_bom.Receiver.Seen.Window.{IsWindow, admit-IsWindow, trim_dedupe-IsWindow}
use ai_evidence_bom.Receiver.Seen.Kept.{
  AreSeen, admit-AreSeen, trim_dedupe-AreSeen, trim_trace_contexts-AreSeen,
}
use ai_evidence_bom.Receiver.Traces.{Resolution, resolve_trace_contexts, work_of}
use ai_evidence_bom.Receiver.Traces.Conserved.{resolve_trace_contexts-conserves}
use ai_evidence_bom.Receiver.Traces.Keeping.{resolve_trace_contexts-keeps}
use ai_evidence_bom.Receiver.Accept.{
  State, receive, take_in, taken, settle, update_state, count_arrivals,
}

-- Every observation carries evidence that the policy grants.
abbrev pub AreGranted : Trust.Policy → List Observation → Type 0
AreGranted policy os = All (λ o. IsGranted policy (observation_evidence o)) os

-- What holds of a receiver, `fresh` spans of which are received and not yet accepted or dropped: none
-- between two requests.
pub record IsLive (settings : Settings) (fresh : ℕ) (s : State) : Type 0 where
  -- The window holds the spans that have been seen, each once, and no more than the limit.
  pub window : IsWindow s.window
  pub window_bounded : length s.window.seen_order ≤ settings.dedupe_items
  pub contexts : AreSeen s.window.seen s.window.contexts
  -- What waits is bounded, and granted, like what stands in the graph.
  pub pending_bounded : length s.pending ≤ settings.dedupe_items
  pub pending_granted : AreGranted settings.config.source_trust s.pending
  pub graph : GraphHolds (IsGranted settings.config.source_trust) s.graph
  -- Every received span was accepted or a duplicate.
  pub counted :
      (s.stats.accepted_spans + fresh + s.stats.duplicate_spans) % 2 ^ 64
      ≡ s.stats.received_spans % 2 ^ 64

evidence-metadata_only :
    (platform : Platform) (o : Observation) (key : List ℕ)
    → observation_evidence (metadata_only_observation platform o key) ≡ observation_evidence o
unfolding observation_evidence metadata_only_observation
evidence-metadata_only platform o key = refl

evidence-apply_agent_context :
    (o : Observation) (c : AgentContext)
    → observation_evidence (apply_agent_context o c) ≡ observation_evidence o
unfolding observation_evidence apply_agent_context
evidence-apply_agent_context o c = refl

length-AreCapped :
    (policy : Trust.Policy) (os cs : List Observation)
    → AreCapped policy os cs
    → length cs ≡ length os
length-AreCapped policy [] [] h = refl
length-AreCapped policy [] (c ∷ cs) h = absurd h
length-AreCapped policy (o ∷ os) [] h = absurd h
length-AreCapped policy (o ∷ os) (c ∷ cs) h = omega (arith, length-AreCapped policy os cs h.1)

empty-length : (os : List Observation) → is_empty os ≡ true → length os ≡ 0
empty-length [] h = refl
empty-length (o ∷ os) h = cc

-- Adding to two counts that agree.
counts_agree :
    (accepted duplicates received kept dropped all : ℕ)
    → (accepted + 0 + duplicates) % 2 ^ 64 ≡ received % 2 ^ 64
    → kept + dropped ≡ all
    → (accepted + kept + add_int duplicates dropped) % 2 ^ 64 ≡ add_int received all % 2 ^ 64
unfolding add_int
counts_agree accepted duplicates received kept dropped all h k = omega (arith, h, k)

accepted_agree :
    (accepted duplicates received kept : ℕ)
    → (accepted + kept + duplicates) % 2 ^ 64 ≡ received % 2 ^ 64
    → (add_int accepted kept + 0 + duplicates) % 2 ^ 64 ≡ received % 2 ^ 64
unfolding add_int
accepted_agree accepted duplicates received kept h = omega (arith, h)

module _ (platform : Platform) (settings : Settings) where
  receive-IsLive :
      (os : List Observation) (s : State)
      → IsLive settings 0 s
      → IsLive settings
          (length (receive platform settings os s).1)
          (receive platform settings os s).0
  unfolding receive count_arrivals
  receive-IsLive os s h =
      let begin : Admission = record { state = s.window; unique = []; duplicates = 0 } in
      let a = admit platform os begin in
      let (window, all) = admit-IsWindow platform os begin h.window in
      let (trimmed, bounded) = trim_dedupe-IsWindow settings.dedupe_items a.state window in
      let policy = settings.config.source_trust in
      let same = length-AreCapped policy a.unique _ (apply_lem policy a.unique).0 in
      record {
        window = trimmed;
        window_bounded = bounded;
        contexts =
            trim_dedupe-AreSeen settings.dedupe_items a.state
              (admit-AreSeen platform os begin h.contexts);
        pending_bounded = h.pending_bounded;
        pending_granted = h.pending_granted;
        graph = h.graph;
        counted =
            counts_agree s.stats.accepted_spans s.stats.duplicate_spans s.stats.received_spans
              (length (apply policy a.unique).observations) a.duplicates (length os) h.counted
              (omega (arith, same, all));
      }

  -- What is accepted carries evidence that an accepted policy grants.
  receive-AreGranted :
      (os : List Observation) (s : State)
      → Trust.validate settings.config.source_trust ≡ Trust.Verdict.accepted
      → AreGranted settings.config.source_trust (receive platform settings os s).1
  unfolding receive
  receive-AreGranted os s valid =
      let begin : Admission = record { state = s.window; unique = []; duplicates = 0 } in
      let policy = settings.config.source_trust in
      AreCapped-IsGranted policy (sound_of_accepted policy valid) (admit platform os begin).unique _
        (apply_lem policy (admit platform os begin).unique).0

  settle-IsLive :
      (now : Instant) (s : State) → IsLive settings 0 s → IsLive settings 0 (settle now s)
  unfolding settle
  settle-IsLive now s h = record {
    window = h.window;
    window_bounded = h.window_bounded;
    contexts = h.contexts;
    pending_bounded = h.pending_bounded;
    pending_granted = h.pending_granted;
    graph = elim (Bool-cases (is_zero s.graph.generated_at)) [
      | inl e ↦ rw e (record { nodes = h.graph.nodes; edges = h.graph.edges })
      | inr e ↦ rw e h.graph
    ];
    counted = h.counted;
  }

  work_of-AreGranted :
      (key : List ℕ) (pending arrived : List Observation)
      → AreGranted settings.config.source_trust pending
      → AreGranted settings.config.source_trust arrived
      → AreGranted settings.config.source_trust (work_of platform key pending arrived)
  work_of-AreGranted key pending arrived h k =
      let policy = settings.config.source_trust in
      All-append (λ o. IsGranted policy (observation_evidence o)) pending _ h
        (All-map (λ o. IsGranted policy (observation_evidence o))
          (λ o. IsGranted policy (observation_evidence o))
          (λ o. metadata_only_observation platform o key) arrived
          (λ o g. subst (IsGranted policy) (sym (evidence-metadata_only platform o key)) g) k)

  module _ (now : Instant) where
    taken-IsLive :
        (unique : List Observation) (r : Resolution) (batch : Graph) (s : State)
        → length r.pending ≤ settings.dedupe_items
        → AreGranted settings.config.source_trust r.pending
        → GraphHolds (IsGranted settings.config.source_trust) batch
        → IsLive settings (length unique) s
        → IsLive settings 0 (taken now unique r batch s)
    unfolding taken
    taken-IsLive unique r batch s bounded pending built h =
        let policy = settings.config.source_trust in
        record {
          window = record { distinct = h.window.distinct; listed = h.window.listed };
          window_bounded = h.window_bounded;
          contexts = trim_trace_contexts-AreSeen s.window.seen r.contexts;
          pending_bounded = bounded;
          pending_granted = pending;
          graph = elim (Bool-cases (is_empty r.ready)) [
            | inl e ↦ rw e h.graph
            | inr e ↦ rw e (merge-IsGranted policy s.graph batch now h.graph built)
          ];
          counted =
              accepted_agree s.stats.accepted_spans s.stats.duplicate_spans s.stats.received_spans
                (length unique) h.counted;
        }

    -- A batch is built of granted observations.
    builds :
        (os : List Observation) (source : Text)
        → AreGranted settings.config.source_trust os
        → (batch : Graph) × (build_with_options platform settings.config.sensitive_hmac_key os
              source now
            ≡ some batch)
          × GraphHolds (IsGranted settings.config.source_trust) batch
    builds os source granted =
        let policy = settings.config.source_trust in
        let key = settings.config.sensitive_hmac_key in
        let built =
          build_with_options-Builds (IsGranted policy) (IsGranted-IsClosed policy) (λ a ids g. g)
            platform key os source now granted in
        elim (Option-cases (build_with_options platform key os source now)) [
          | inl e ↦ absurd (subst (Builds (IsGranted policy)) e built)
          | inr (batch, e) ↦ (batch, e, subst (Builds (IsGranted policy)) e built)
        ]

    take_in-some :
        (unique : List Observation) (source : Text) (s : State) (r : Resolution) (batch : Graph)
        → resolve_trace_contexts platform settings.dedupe_items settings.config.sensitive_hmac_key
            s.window.contexts s.pending unique
          ≡ some r
        → build_with_options platform settings.config.sensitive_hmac_key r.ready source now
          ≡ some batch
        → take_in platform settings now unique source s ≡ some (taken now unique r batch s)
    unfolding take_in
    take_in-some unique source s r batch h k = rw (h, k, take_in) refl

    take_in-IsLive :
        (unique : List Observation) (source : Text) (s : State)
        → AreGranted settings.config.source_trust unique
        → IsLive settings (length unique) s
        → (t : State) × (take_in platform settings now unique source s ≡ some t)
          × IsLive settings 0 t
    take_in-IsLive unique source s granted h =
        let policy = settings.config.source_trust in
        let key = settings.config.sensitive_hmac_key in
        let contexts = s.window.contexts in
        let (r, returns, ready, pending) =
          resolve_trace_contexts-keeps (λ o. IsGranted policy (observation_evidence o))
            (λ o c g. subst (IsGranted policy) (sym (evidence-apply_agent_context o c)) g) platform
            settings.dedupe_items key contexts s.pending unique
            (work_of-AreGranted key s.pending unique h.pending_granted granted) in
        let (r', returns', bounded, conserved) =
          resolve_trace_contexts-conserves platform settings.dedupe_items key contexts s.pending
            unique in
        let same : r' ≡ r = cc in
        let (batch, built, holds) = builds r.ready source ready in
        (
          taken now unique r batch s,
          take_in-some unique source s r batch returns built,
          taken-IsLive unique r batch s (rw (sym same) bounded) pending holds h,
        )

    -- Where the trust policy is accepted, `acceptBound` always returns, and what holds of a receiver
    -- between two requests holds again when it does: the window holds the spans that have been seen,
    -- each once, and like the pending observations no more than the limit, every context belongs to
    -- one of those spans, whatever is pending or stands in the graph is at most observed or granted by
    -- a rule for one of its sources, and every received span is counted as accepted or as a duplicate.
    pub update_state-IsLive :
        (os : List Observation) (source : Text) (s : State)
        → Trust.validate settings.config.source_trust ≡ Trust.Verdict.accepted
        → IsLive settings 0 s
        → (t : State) × (update_state platform settings now os source s ≡ some t)
          × IsLive settings 0 t
    unfolding update_state
    update_state-IsLive os source s valid h =
        let after = (receive platform settings os s).0 in
        let unique = (receive platform settings os s).1 in
        let received = receive-IsLive os s h in
        let granted = receive-AreGranted os s valid in
        let (t, returns, live) = take_in-IsLive unique source after granted received in
        elim (Bool-cases (is_empty unique)) [
          | inr e ↦ (settle now t, rw (e, returns, update_state) refl, settle-IsLive now t live)
          | inl e ↦
              let none_left : length unique ≡ 0 = empty-length unique e in
              (
                settle now after,
                rw (e, update_state) refl,
                settle-IsLive now after (subst (λ n. IsLive settings n after) none_left received),
              )
        ]
