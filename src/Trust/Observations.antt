-- ===== src/Trust/Observations.antt =====
-- What `Apply` does to a batch of observations.
use ai_evidence_bom.Prelude.{ℕ, ◌+◌, ◌≤◌, ◌<◌, ◌≡◌, refl, not, List, [], ◌∷◌, arith}
use ai_evidence_bom.Text.{text_eq}
use ai_evidence_bom.Text.Order.{text_eq_iff}
use ai_evidence_bom.Observation.{Observation}
use ai_evidence_bom.Model.Level.{EvidenceLevel, rank}
use ai_evidence_bom.Trust.{Policy, maximum_for, cap_observation, apply, one_if}

-- `capped` is the observation with the level that the policy leaves it.
pub record IsCapped (policy : Policy) (observation capped : Observation) : Type 0 where
  pub bounded : rank capped.level ≤ rank (maximum_for policy observation.source)
  pub weaker : rank capped.level ≤ rank observation.level
  pub greatest :
      (l : EvidenceLevel)
      → rank l ≤ rank (maximum_for policy observation.source)
      → rank l ≤ rank observation.level
      → rank l ≤ rank capped.level
  pub cut :
      rank (maximum_for policy observation.source) < rank observation.level
      → capped.level ≡ maximum_for policy observation.source
  pub kept :
      rank observation.level ≤ rank (maximum_for policy observation.source) → capped ≡ observation
  pub source : capped.source ≡ observation.source
  pub attributes : capped.attributes ≡ observation.attributes
  pub timestamp : capped.timestamp ≡ observation.timestamp
  pub trace :
      (capped.trace_id ≡ observation.trace_id)
      × (capped.span_id ≡ observation.span_id)
      × (capped.parent_span_id ≡ observation.parent_span_id)

abbrev pub AreCapped : Policy → List Observation → List Observation → Type 0
AreCapped policy [] [] = Unit
AreCapped policy (o ∷ os) (c ∷ cs) = IsCapped policy o c × AreCapped policy os cs
AreCapped policy _ _ = ⊥

-- The number of places where the levels of two lists differ.
abbrev pub changes : List Observation → List Observation → ℕ
changes (o ∷ os) (c ∷ cs) = one_if (not (text_eq c.level o.level)) + changes os cs
changes _ _ = 0

cap_observation-IsCapped :
    (policy : Policy) (o : Observation) → IsCapped policy o (cap_observation policy o).0
unfolding cap_observation
cap_observation-IsCapped policy o = ground arith

cap_observation-changed :
    (policy : Policy) (o : Observation)
    → (cap_observation policy o).1 ≡ not (text_eq (cap_observation policy o).0.level o.level)
unfolding cap_observation
cap_observation-changed policy o =
    ground (arith, text_eq_iff (maximum_for policy o.source) o.level, text_eq_iff o.level o.level)

-- `Apply` keeps an observation that claims no more than the maximum of its source as it is, and gives
-- any other the maximum as its level: no higher rank is below both. It changes nothing else, and counts
-- the observations whose level it changed.
pub apply_lem :
    (policy : Policy) (observations : List Observation)
    → AreCapped policy observations (apply policy observations).observations
      × ((apply policy observations).downgraded
          ≡ changes observations (apply policy observations).observations)
unfolding apply
apply_lem policy [] = (tt, refl)
apply_lem policy (o ∷ os) =
    let (capped, counted) = apply_lem policy os in
    ((cap_observation-IsCapped policy o, capped), ground (arith, cap_observation-changed policy o))
