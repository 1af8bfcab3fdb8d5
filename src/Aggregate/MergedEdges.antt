-- ===== src/Aggregate/MergedEdges.antt =====
-- The edges of a merged graph, and their evidence.
use ai_evidence_bom.Prelude.{List, [], ◌∷◌, ◌++◌, Option, none, some, if◌then◌else◌}
use ai_evidence_bom.Text.{Text, text_eq}
use ai_evidence_bom.Text.Order.{text_order}
use ai_evidence_bom.Model.Level.{stronger_level}
use ai_evidence_bom.Model.Texts.{unique_sorted}
use ai_evidence_bom.Model.Evidence.{EvidenceSummary, merge_first, merge_last, add_int}
use ai_evidence_bom.Model.Graph.{Graph, Edge}
use ai_evidence_bom.Aggregate.{limited, max_trace_ids}

-- The edges with an ID, in order.
abbrev pub edges_with : Text → List Edge → List Edge
edges_with t [] = []
edges_with t (e ∷ es) = let rest = edges_with t es in if text_eq e.id t then e ∷ rest else rest

-- A step for every edge, from the left.
abbrev pub over {ℓ} : {A : Type ℓ} → (A → EvidenceSummary → A) → A → List Edge → A
over f a [] = a
over f a (e ∷ es) = over f (f a e.evidence) es

-- The first edge, with the evidence of all of them.
abbrev pub together : Edge → List Edge → Edge
together first others = record first {
  evidence = record {
    level = over (λ l e. stronger_level l e.level) first.evidence.level others;
    sources = unique_sorted (over (λ s e. s ++ e.sources) first.evidence.sources others);
    first_seen = over (λ t e. merge_first t e.first_seen) first.evidence.first_seen others;
    last_seen = over (λ t e. merge_last t e.last_seen) first.evidence.last_seen others;
    observation_count =
        over (λ n e. add_int n e.observation_count) first.evidence.observation_count others;
    trace_ids =
        limited (unique_sorted (over (λ s e. s ++ e.trace_ids) first.evidence.trace_ids others))
          max_trace_ids;
  };
}

-- The edges under one ID, as the edge that stands there.
abbrev pub all_together : Option Edge → List Edge → Option Edge
all_together (some first) others = some (together first others)
all_together none [] = none
all_together none (first ∷ others) = some (together first others)
