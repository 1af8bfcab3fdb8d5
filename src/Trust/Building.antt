-- ===== src/Trust/Building.antt =====
-- A graph built from the observations that a trust policy leaves.
use native.Mathlib.Nat.{le_trans}
use ai_evidence_bom.Prelude.{
  ℕ, ◌≡◌, true, false, List, [], ◌∷◌, All, arith, inl, inr, Bool-cases, leb, leb→le, is_empty,
}
use ai_evidence_bom.Text.{Text}
use ai_evidence_bom.Text.Order.{text_order, text_eq_iff}
use ai_evidence_bom.Time.{Instant}
use ai_evidence_bom.Maps.{elem}
use ai_evidence_bom.Model.Level.{rank}
use ai_evidence_bom.Observation.{Observation}
use ai_evidence_bom.Platform.{Platform}
use ai_evidence_bom.Normalize.{given, observation_evidence}
use ai_evidence_bom.Normalize.Builder.{build_with_options}
use ai_evidence_bom.Normalize.Builder.Building.{Builds, build_with_options-Builds}
use ai_evidence_bom.Trust.{Policy, Verdict, validate, maximum_for, apply}
use ai_evidence_bom.Trust.Rules.{AreSound, sound_of_accepted, IsExact-of_maximum}
use ai_evidence_bom.Trust.Observations.{IsCapped, AreCapped, apply_lem}
use ai_evidence_bom.Trust.Grants.{IsGranted, IsGranted-IsClosed}

elem-given : (source : Text) → is_empty source ≡ false → elem source (given source) ≡ true
unfolding elem
elem-given source h = ground (arith, text_eq_iff source source)

module _ (policy : Policy) (sound : AreSound [] policy.sources) where
  capped-IsGranted :
      (o c : Observation) → IsCapped policy o c → IsGranted policy (observation_evidence c)
  unfolding observation_evidence
  capped-IsGranted o c h = elim (Bool-cases (leb (rank (maximum_for policy o.source)) 3)) [
    | inl low ↦ inl (le_trans h.bounded (leb→le _ _ low))
    | inr high ↦
        let exact = IsExact-of_maximum [] policy.sources o.source sound (ground arith) in
        let granted = h.bounded in
        inr (record {
          source = c.source;
          exact = rw h.source exact;
          named = elem-given c.source (rw h.source (exact.1));
          grants = rw h.source granted;
        })
  ]

  pub AreCapped-IsGranted :
      (os cs : List Observation)
      → AreCapped policy os cs
      → All (λ c. IsGranted policy (observation_evidence c)) cs
  AreCapped-IsGranted [] [] h = tt
  AreCapped-IsGranted [] (c ∷ cs) h = absurd h
  AreCapped-IsGranted (o ∷ os) [] h = tt
  AreCapped-IsGranted (o ∷ os) (c ∷ cs) h =
      (capped-IsGranted o c h.0, AreCapped-IsGranted os cs h.1)

-- `BuildWithOptions` on the observations that `Apply` returns under an accepted policy builds a graph
-- in which every summary is at most observed, or one of its sources has a rule that grants its level.
pub build_with_options-IsGranted :
    (platform : Platform) (key : List ℕ) (policy : Policy) (observations : List Observation)
    (source : Text) (now : Instant)
    → validate policy ≡ Verdict.accepted
    → Builds
        (IsGranted policy)
        (build_with_options platform key (apply policy observations).observations source now)
build_with_options-IsGranted platform key policy observations source now h =
    build_with_options-Builds (IsGranted policy) (IsGranted-IsClosed policy) (λ a ids g. g) platform
      key (apply policy observations).observations source now
      (AreCapped-IsGranted policy (sound_of_accepted policy h) observations _
        (apply_lem policy observations).0)
