-- ===== src/Sarif/Imported.antt =====
-- The evidence of an imported graph.
use ai_evidence_bom.Prelude.{
  ℕ, ◌+◌, ◌≡◌, subst, List, [], ◌∷◌, All, All-imp, length, is_empty, Bool-cases, Option-cases, inl,
  inr, done, Gives, Result-cases,
}
use ai_evidence_bom.Text.{Text}
use ai_evidence_bom.Text.Order.{text_order}
use ai_evidence_bom.Time.{Instant}
use ai_evidence_bom.Maps.{lookup}
use ai_evidence_bom.Maps.Laws.{All-put, lookup-All}
use ai_evidence_bom.Model.Evidence.{EvidenceSummary, merge_evidence_summary}
use ai_evidence_bom.Model.Graph.{Graph, Node, Edge, field_property}
use ai_evidence_bom.Model.Invariant.{IsClosed, NodeHolds, GraphHolds}
use ai_evidence_bom.Model.Invariant.Claims.{add_field_evidence-holds}
use ai_evidence_bom.Model.Invariant.Resolve.{resolve_field_evidence-holds, canonicalize-holds}
use ai_evidence_bom.Normalize.Builder.Keeping.{edge_or_new-holds, entries_of-holds}
use ai_evidence_bom.Platform.{Platform}
use ai_evidence_bom.Trust
use ai_evidence_bom.Trust.Grants.{IsGranted, IsGranted-IsClosed, merge-IsGranted}
use ai_evidence_bom.Sarif
use ai_evidence_bom.Sarif.{Run, Document, Finding, Outcome, wrap}
use ai_evidence_bom.Sarif.Runs.{Decoded, parse, findings_for_run}
use ai_evidence_bom.Sarif.Counting.{IsObserved, observations}
use ai_evidence_bom.Sarif.Counted.{all_counted}
use ai_evidence_bom.Sarif.Target.{Urls, validate_relative_artifact_uri, find_target}
use ai_evidence_bom.Sarif.Import.{
  Attached, ImportResult, finding_node_or_new, report_finding, attach_finding, attach_findings,
  attach_runs, incoming_graph, import_sarif,
}

module _ (P : EvidenceSummary → Type 0) (closed : IsClosed P) where
  record AttachedHolds (a : Attached) : Type 0 where
    nodes : All (λ e. NodeHolds P e.1) a.nodes
    edges : All (λ e. P e.1.evidence) a.edges

  finding_node_or_new-holds :
      (id : Text) (f : Finding) (m : List (Text × Node))
      → All (λ e. NodeHolds P e.1) m
      → NodeHolds P (finding_node_or_new id f (lookup id m))
  finding_node_or_new-holds id f m h = elim (Option-cases (lookup id m)) [
    | inl e ↦ rw e (record { summary = closed.nothing; claims = tt })
    | inr (n, e) ↦ rw e (lookup-All (λ k (n : Node). NodeHolds P n) id m h e)
  ]

  report_finding-holds :
      (artifact_uri digest : Text) (f : Finding) (n : Node)
      → P f.evidence
      → NodeHolds P n
      → NodeHolds P (report_finding artifact_uri digest f n)
  unfolding report_finding
  report_finding-holds artifact_uri digest f n p h =
      let claim = λ (n : Node) (key value : Text) (h : NodeHolds P n).
        add_field_evidence-holds P closed n field_property key value f.evidence p h in
      let n0 : NodeHolds P (record n { evidence = merge_evidence_summary n.evidence f.evidence }) =
        record { summary = closed.merged n.evidence f.evidence h.summary p; claims = h.claims } in
      let n5 =
        claim _ _ digest
          (claim _ _ artifact_uri (claim _ _ _ (claim _ _ f.level (claim _ _ _ n0)))) in
      elim (Bool-cases (is_empty f.scanner_version)) [
        | inl e ↦ rw e (resolve_field_evidence-holds P closed _ n5)
        | inr e ↦ rw e (resolve_field_evidence-holds P closed _ (claim _ _ f.scanner_version n5))
      ]

  module _ (platform : Platform) (target : Node) (artifact_uri digest : Text) where
    attach_finding-holds :
        (f : Finding) (a : Attached)
        → P f.evidence
        → AttachedHolds a
        → AttachedHolds (attach_finding platform target artifact_uri digest f a)
    unfolding attach_finding
    attach_finding-holds f a p h = record {
      nodes =
          All-put (λ k (n : Node). NodeHolds P n) _ _ a.nodes
            (report_finding-holds artifact_uri digest f _ p
              (finding_node_or_new-holds _ f a.nodes h.nodes))
            h.nodes;
      edges =
          All-put (λ k (e : Edge). P e.evidence) _ _ a.edges
            (closed.merged _ f.evidence (edge_or_new-holds P closed _ target.id _ _ a.edges h.edges)
              p)
            h.edges;
    }

    attach_findings-holds :
        (fs : List Finding) (a : Attached)
        → All (λ f. P f.evidence) fs
        → AttachedHolds a
        → AttachedHolds (attach_findings platform target artifact_uri digest fs a)
    unfolding attach_findings
    attach_findings-holds [] a p h = h
    attach_findings-holds (f ∷ fs) a p h =
        attach_findings-holds fs (attach_finding platform target artifact_uri digest f a) p.1
          (attach_finding-holds f a p.0 h)

    attach_runs-holds :
        ((f : Finding) → IsObserved f → P f.evidence)
        → (sarif_uri : Text) (observed_at : Instant) (index : ℕ) (runs : List Run) (a : Attached)
        → AttachedHolds a
        → Gives AttachedHolds
            (attach_runs platform target artifact_uri digest sarif_uri observed_at index runs a)
    unfolding attach_runs
    attach_runs-holds weak sarif_uri observed_at index [] a h = h
    attach_runs-holds weak sarif_uri observed_at index (run ∷ runs) a h =
        elim (Result-cases (findings_for_run run sarif_uri observed_at)) [
          | inl (error, e) ↦ rw (e, attach_runs) tt
          | inr (found, e) ↦
              let counted =
                subst
                  (Gives (λ r. (observations r.0 + r.1 ≡ length run.results) × All IsObserved r.0))
                  e (all_counted run sarif_uri observed_at) in
              rw (e, attach_runs)
                (attach_runs-holds weak sarif_uri observed_at (index + 1) runs _ (
                  attach_findings-holds found.0 _
                    (All-imp IsObserved (λ f. P f.evidence) found.0 weak counted.1)
                    (record { nodes = h.nodes; edges = h.edges })))
        ]

  incoming_graph-holds :
      (source : Text) (observed_at : Instant) (a : Attached)
      → AttachedHolds a
      → GraphHolds P (incoming_graph source observed_at a)
  unfolding incoming_graph
  incoming_graph-holds source observed_at a h = canonicalize-holds P closed _ (record {
    nodes = entries_of-holds (NodeHolds P) a.nodes h.nodes;
    edges = entries_of-holds (λ (e : Edge). P e.evidence) a.edges h.edges;
  })

module _ (policy : Trust.Policy) (platform : Platform) (urls : Urls) (decode : List ℕ → Decoded)
    (graph : Graph) (bytes : List ℕ) (artifact_uri sarif_uri digest : Text) (observed_at : Instant)
    (granted : GraphHolds (IsGranted policy) graph) where
  abbrev the_import : Outcome ImportResult
  the_import =
      import_sarif platform urls decode graph bytes artifact_uri sarif_uri digest observed_at

  abbrev nothing_attached : Attached
  nothing_attached = record { nodes = []; edges = []; skipped = 0 }

  imported : Gives (λ r. GraphHolds (IsGranted policy) r.graph) the_import
  unfolding import_sarif
  imported =
      let P = IsGranted policy in
      let closed = IsGranted-IsClosed policy in
      let name = Sarif.sarif_artifact_uri_name in
      elim (Result-cases (find_target urls graph artifact_uri digest)) [
        | inl (error, e) ↦ rw (e, import_sarif) tt
        | inr (target, e) ↦
            elim (Result-cases (validate_relative_artifact_uri urls name sarif_uri)) [
              | inl (error, f) ↦ rw (e, f, import_sarif) tt
              | inr (u, f) ↦ elim (Result-cases (parse decode bytes)) [
                | inl (error, g) ↦ rw (e, f, g, import_sarif) tt
                | inr (document, g) ↦
                    let runs =
                      attach_runs platform target artifact_uri digest sarif_uri observed_at 0
                        document.runs nothing_attached in
                    let held =
                      attach_runs-holds P closed platform target artifact_uri digest (λ f o. inl o)
                        sarif_uri observed_at 0 document.runs nothing_attached
                        (record { nodes = tt; edges = tt }) in
                    elim (Result-cases runs) [
                      | inl (error, k) ↦ rw (e, f, g, k, import_sarif) tt
                      | inr (a, k) ↦
                          rw (e, f, g, k, import_sarif)
                            (merge-IsGranted policy graph
                              (incoming_graph graph.source observed_at a) observed_at granted
                              (incoming_graph-holds P closed graph.source observed_at a
                                (subst (Gives (AttachedHolds P closed)) k held)))
                    ]
              ]
            ]
      ]

  -- Importing scanner findings into a graph whose evidence is at most observed or granted by a rule
  -- for one of its sources gives such a graph.
  pub import_sarif-IsGranted :
      (r : ImportResult) → the_import ≡ done r → GraphHolds (IsGranted policy) r.graph
  import_sarif-IsGranted r h = subst (Gives (λ r. GraphHolds (IsGranted policy) r.graph)) h imported
