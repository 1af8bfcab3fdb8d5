-- ===== src/Normalize/Builder/Building.antt =====
-- `BuildWithOptions`, for closed properties of evidence.
use ai_evidence_bom.Prelude.{ℕ, sym, List, [], ◌∷◌, Option, none, some, All, subst}
use ai_evidence_bom.Text.{Text}
use ai_evidence_bom.Time.{Instant}
use ai_evidence_bom.Model.Evidence.{EvidenceSummary}
use ai_evidence_bom.Model.Graph.{Graph}
use ai_evidence_bom.Model.Invariant.{IsClosed, GraphHolds}
use ai_evidence_bom.Observation.{Observation}
use ai_evidence_bom.Platform.{Platform}
use ai_evidence_bom.Normalize.{observation_evidence}
use ai_evidence_bom.Normalize.Prepare.{prepare_observations}
use ai_evidence_bom.Normalize.Prepare.Returns.{evidences, Returns, prepare_observations-Returns}
use ai_evidence_bom.Normalize.Builder.{build_prepared, build_with_options}
use ai_evidence_bom.Normalize.Builder.Keeping.{build_prepared-holds}

-- A graph is built, and every summary of it has the property.
abbrev pub Builds : (EvidenceSummary → Type 0) → Option Graph → Type 0
Builds P none = ⊥
Builds P (some graph) = GraphHolds P graph

module _ (P : EvidenceSummary → Type 0) where
  All-evidences :
      (os : List Observation) → All (λ o. P (observation_evidence o)) os → All P (evidences os)
  All-evidences [] h = tt
  All-evidences (o ∷ os) h = (h.0, All-evidences os h.1)

  All_of-evidences :
      (os : List Observation) → All P (evidences os) → All (λ o. P (observation_evidence o)) os
  All_of-evidences [] h = tt
  All_of-evidences (o ∷ os) h = (h.0, All_of-evidences os h.1)

  module _ (closed : IsClosed P)
      (limits : (a : EvidenceSummary) (ids : List Text) → P a → P (record a { trace_ids = ids }))
      (platform : Platform) (key : List ℕ) (os : List Observation) (source : Text) (now : Instant)
      (given_evidence : All (λ o. P (observation_evidence o)) os) where
    built :
        (prepared : Option (List Observation))
        → Returns (evidences os) prepared
        → Builds P (elim prepared [
          | none ↦ none
          | some prepared ↦ some (build_prepared platform key prepared source now)
        ])
    built none h = h
    built (some prepared) h =
        build_prepared-holds P closed limits platform key prepared source now
          (All_of-evidences prepared (subst (All P) (sym h) (All-evidences os given_evidence)))

    -- A closed property that cutting the trace IDs keeps, and that the evidence of every observation
    -- has, is one of the graph that is built.
    pub build_with_options-Builds : Builds P (build_with_options platform key os source now)
    unfolding build_with_options
    build_with_options-Builds =
        built (prepare_observations platform os) (prepare_observations-Returns platform os)
