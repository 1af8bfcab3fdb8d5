-- ===== src/Trust/Grants.antt =====
-- Evidence above observed, and the rules of the trust policy that grant it.
use native.Mathlib.Nat.{le_trans}
use ai_evidence_bom.Prelude.{
  ◌≤◌, ◌≡◌, refl, ◌∙◌, true, List, [], ◌∷◌, ◌++◌, All, arith, ◌⊎◌, inl, inr, ◌||◌, Bool-cases, ap,
  ltb, leb, leb→le,
}
use ai_evidence_bom.Text.{Text, text_eq, trim_space}
use ai_evidence_bom.Text.Order.{text_order, text_eq_iff}
use ai_evidence_bom.Time.{Instant}
use ai_evidence_bom.Maps.{elem}
use ai_evidence_bom.Model.Level.{
  EvidenceLevel, rank, valid, stronger_level, no_level, evidence_inferred,
}
use ai_evidence_bom.Model.Level.Laws.{rank-stronger_level, rank-no_level}
use ai_evidence_bom.Model.Texts.Laws.{names, elem-unique_sorted}
use ai_evidence_bom.Model.Evidence.{EvidenceSummary, merge_evidence_summary, canonicalize_evidence}
use ai_evidence_bom.Model.Graph.{Graph, Node, Edge, FieldEvidence, FieldValueEvidence}
use ai_evidence_bom.Model.Invariant.{IsClosed, ValuesHold, ClaimsHold, NodeHolds, GraphHolds}
use ai_evidence_bom.Model.Invariant.Resolve.{resolve_field_evidence-holds, canonicalize-holds}
use ai_evidence_bom.Aggregate.{merge, limit_evidence}
use ai_evidence_bom.Aggregate.Keeping.{merge-holds}
use ai_evidence_bom.Trust.{
  Policy, Verdict, validate, maximum_for, maximum_over, summary_maximum, cap_summary, cap_values,
  cap_claims, cap_nodes, cap_edges, cap_graph_in_place,
}
use ai_evidence_bom.Trust.Rules.{
  AreSound, IsExact, sound_of_accepted, IsExact-of_maximum, rank-observed,
}

-- Some exact source of the list may claim evidence of the rank.
pub record Grantor (policy : Policy) (level : EvidenceLevel) (sources : List Text) : Type 0 where
  pub source : Text
  pub exact : IsExact source
  pub named : elem source sources ≡ true
  pub grants : rank level ≤ rank (maximum_for policy source)

-- The summary's level is at most observed, or one of its sources may claim it.
abbrev pub IsGranted : Policy → EvidenceSummary → Type 0
IsGranted policy s = (rank s.level ≤ 3) ⊎ Grantor policy s.level s.sources

elem-append : (t : Text) (xs ys : List Text) → elem t (xs ++ ys) ≡ (elem t xs || elem t ys)
unfolding elem
elem-append t [] ys = refl
elem-append t (x ∷ xs) ys = ground (arith, elem-append t xs ys)

names_of_elem : (t : Text) (vs : List Text) → IsExact t → elem t vs ≡ true → names t vs ≡ true
unfolding elem names
names_of_elem t [] x h = cc
names_of_elem t (v ∷ vs) x h =
    ground (arith, text_eq_iff v t, text_eq_iff (trim_space v) t, names_of_elem t vs x)

rank-inferred : rank evidence_inferred ≡ 1
unfolding rank text_eq
rank-inferred = refl

module _ (policy : Policy) where
  -- More sources grant no less.
  widened :
      (level : EvidenceLevel) (few many : List Text)
      → ((t : Text) → elem t few ≡ true → elem t many ≡ true)
      → (rank level ≤ 3) ⊎ Grantor policy level few
      → (rank level ≤ 3) ⊎ Grantor policy level many
  widened level few many more (inl low) = inl low
  widened level few many more (inr g) = inr (record {
    source = g.source;
    exact = g.exact;
    named = more g.source g.named;
    grants = g.grants;
  })

  merged-IsGranted :
      (a b : EvidenceSummary)
      → IsGranted policy a
      → IsGranted policy b
      → IsGranted policy (merge_evidence_summary a b)
  unfolding merge_evidence_summary stronger_level
  merged-IsGranted a b h k = elim (Bool-cases (ltb (rank a.level) (rank b.level))) [
    | inl e ↦ rw e (
        widened b.level b.sources (a.sources ++ b.sources)
          (λ t m. ground (arith, elem-append t a.sources b.sources)) k)
    | inr e ↦ rw e (
        widened a.level a.sources (a.sources ++ b.sources)
          (λ t m. ground (arith, elem-append t a.sources b.sources)) h)
  ]

  canonical-IsGranted :
      (a : EvidenceSummary) → IsGranted policy a → IsGranted policy (canonicalize_evidence a)
  unfolding canonicalize_evidence
  canonical-IsGranted a (inl low) = inl low
  canonical-IsGranted a (inr g) = inr (record {
    source = g.source;
    exact = g.exact;
    named =
        elem-unique_sorted g.source a.sources ∙ names_of_elem g.source a.sources g.exact g.named;
    grants = g.grants;
  })

  pub IsGranted-IsClosed : IsClosed (IsGranted policy)
  IsGranted-IsClosed = record {
    nothing = inl (omega (arith, rank-no_level));
    merged = merged-IsGranted;
    canonical = canonical-IsGranted;
    legacy = λ a first last h. inl (omega (arith, rank-inferred));
  }

  -- The strongest maximum among the sources is one of theirs, or what the loop began with.
  maximum_over-granted :
      (acc : EvidenceLevel) (sources : List Text)
      → (rank (maximum_over policy acc sources) ≤ rank acc)
        ⊎ ((s : Text) × (elem s sources ≡ true)
            × (rank (maximum_over policy acc sources) ≤ rank (maximum_for policy s)))
  unfolding maximum_over elem
  maximum_over-granted acc [] = inl (omega arith)
  maximum_over-granted acc (s ∷ ss) =
      elim (maximum_over-granted (stronger_level acc (maximum_for policy s)) ss) [
        | inr (t, e, r) ↦ inr (t, ground arith, r)
        | inl low ↦ elim (rank-stronger_level acc (maximum_for policy s)).2 [
          | inl e ↦ inl (omega (arith, ap rank e))
          | inr e ↦ inr (s, ground (arith, text_eq_iff s s), omega (arith, ap rank e))
        ]
      ]

  granted_of_maximum :
      AreSound [] policy.sources
      → (maximum : EvidenceLevel) (sources : List Text)
      → (rank maximum ≤ rank no_level)
        ⊎ ((s : Text) × (elem s sources ≡ true) × (rank maximum ≤ rank (maximum_for policy s)))
      → (rank maximum ≤ 3) ⊎ Grantor policy maximum sources
  granted_of_maximum sound maximum sources (inl low) = inl (omega (arith, rank-no_level))
  granted_of_maximum sound maximum sources (inr (s, e, r)) =
      elim (Bool-cases (leb (rank maximum) 3)) [
        | inl low ↦ inl (leb→le _ _ low)
        | inr high ↦ inr (record {
          source = s;
          exact = IsExact-of_maximum [] policy.sources s sound (ground arith);
          named = e;
          grants = r;
        })
      ]

  below_maximum :
      (level maximum : EvidenceLevel) (sources : List Text)
      → rank level ≤ rank maximum
      → (rank maximum ≤ 3) ⊎ Grantor policy maximum sources
      → (rank level ≤ 3) ⊎ Grantor policy level sources
  below_maximum level maximum sources h (inl low) = inl (omega arith)
  below_maximum level maximum sources h (inr g) =
      inr (record {
        source = g.source;
        exact = g.exact;
        named = g.named;
        grants = le_trans h g.grants;
      })

  -- The level that a summary is capped to is granted.
  summary_maximum-granted :
      AreSound [] policy.sources
      → (sources : List Text)
      → (rank (summary_maximum policy sources) ≤ 3)
        ⊎ Grantor policy (summary_maximum policy sources) sources
  unfolding summary_maximum
  summary_maximum-granted sound sources =
      let maximum = maximum_over policy no_level sources in
      elim (Bool-cases (valid maximum)) [
        | inr e ↦ rw e (inl (omega (arith, rank-observed)))
        | inl e ↦
            rw e (granted_of_maximum sound maximum sources (maximum_over-granted no_level sources))
      ]

  cap_summary-IsGranted :
      AreSound [] policy.sources → (s : EvidenceSummary) → IsGranted policy (cap_summary policy s).0
  unfolding cap_summary
  cap_summary-IsGranted sound s =
      elim (Bool-cases (leb (rank s.level) (rank (summary_maximum policy s.sources)))) [
        | inr e ↦ rw e (summary_maximum-granted sound s.sources)
        | inl e ↦ rw e (
            below_maximum s.level (summary_maximum policy s.sources) s.sources (leb→le _ _ e)
              (summary_maximum-granted sound s.sources))
      ]

  module _ (sound : AreSound [] policy.sources) where
    cap_values-IsGranted :
        (vs : List FieldValueEvidence) → ValuesHold (IsGranted policy) (cap_values policy vs).0
    unfolding cap_values
    cap_values-IsGranted [] = tt
    cap_values-IsGranted (v ∷ vs) =
        (cap_summary-IsGranted sound v.evidence, cap_values-IsGranted vs)

    cap_claims-IsGranted :
        (cs : List FieldEvidence) → ClaimsHold (IsGranted policy) (cap_claims policy cs).0
    unfolding cap_claims
    cap_claims-IsGranted [] = tt
    cap_claims-IsGranted (c ∷ cs) = (cap_values-IsGranted c.values, cap_claims-IsGranted cs)

    cap_nodes-IsGranted :
        (ns : List Node) → All (NodeHolds (IsGranted policy)) (cap_nodes policy ns).0
    unfolding cap_nodes
    cap_nodes-IsGranted [] = tt
    cap_nodes-IsGranted (n ∷ ns) = (
      resolve_field_evidence-holds (IsGranted policy) IsGranted-IsClosed _ (record {
        summary = cap_summary-IsGranted sound n.evidence;
        claims = cap_claims-IsGranted n.field_evidence;
      }),
      cap_nodes-IsGranted ns,
    )

    cap_edges-IsGranted :
        (es : List Edge) → All (λ e. IsGranted policy e.evidence) (cap_edges policy es).0
    unfolding cap_edges
    cap_edges-IsGranted [] = tt
    cap_edges-IsGranted (e ∷ es) = (cap_summary-IsGranted sound e.evidence, cap_edges-IsGranted es)

-- After `CapGraphInPlace` under an accepted policy, every summary of the graph (of a node, of an edge
-- or of a value of a node's field) is at most observed, or one of its sources has a rule that grants
-- its level.
pub cap_graph_in_place-IsGranted :
    (policy : Policy) (graph : Graph)
    → validate policy ≡ Verdict.accepted
    → GraphHolds (IsGranted policy) (cap_graph_in_place policy graph).0
unfolding cap_graph_in_place
cap_graph_in_place-IsGranted policy graph h =
    let sound = sound_of_accepted policy h in
    canonicalize-holds (IsGranted policy) (IsGranted-IsClosed policy) _ (record {
      nodes = cap_nodes-IsGranted policy sound graph.nodes;
      edges = cap_edges-IsGranted policy sound graph.edges;
    })

-- Merging two graphs whose evidence is granted gives a graph whose evidence is granted.
pub merge-IsGranted :
    (policy : Policy) (current incoming : Graph) (now : Instant)
    → GraphHolds (IsGranted policy) current
    → GraphHolds (IsGranted policy) incoming
    → GraphHolds (IsGranted policy) (merge current incoming now)
unfolding limit_evidence
merge-IsGranted policy current incoming now h k =
    merge-holds (IsGranted policy) (IsGranted-IsClosed policy) (λ a g. g) current incoming now h k
