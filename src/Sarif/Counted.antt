-- ===== src/Sarif/Counted.antt =====
-- What `findingsForRun` makes of every result.
use ai_evidence_bom.Prelude.{
  ℕ, suc, ◌+◌, ◌<◌, ◌≤◌, ◌≡◌, refl, subst, true, false, not, ◌||◌, List, [], ◌∷◌, All, ltb, length,
  done, Gives, Result-cases, arith, inl, inr, Bool-cases,
}
use ai_evidence_bom.Text.{Text, codes, text_eq}
use ai_evidence_bom.Text.Order.{text_order}
use ai_evidence_bom.Time.{Instant}
use ai_evidence_bom.Maps.{lookup}
use ai_evidence_bom.Normalize.Builder.{entries_of}
use ai_evidence_bom.Sorting.Keys.{All-sort_slice}
use ai_evidence_bom.Normalize.Builder.Keeping.{entries_of-holds}
use ai_evidence_bom.Sarif
use ai_evidence_bom.Sarif.{
  first_non_empty, valid_kind, valid_level, max_rule_id_length, max_locations_per_result,
  max_suppressions_per_result, ScanResult, Rule, Run, Finding, Outcome, Name, refuse_when,
  bounded_value, wrap, max_results_per_run,
}
use ai_evidence_bom.Sarif.Results.{active_suppression, resolve_rule_id, result_matches_artifact}
use ai_evidence_bom.Sarif.Runs.{
  Scan, by_finding, scan_failing, scan_one, scan_results, findings_for_run, level_of, check_run,
  index_rules,
}
use ai_evidence_bom.Sarif.Counting.{
  observations, IsObserved, Counted, bounded_value-named, observations-sort_slice, skip-Counted,
  group_finding-Counted,
}

module _ (run : Run) (artifact_uri : Text) (observed_at : Instant) where
  module _ (rules : List (Text × Rule)) where
    scan_failing-Counted :
        (index : ℕ) (raw : ScanResult) (n : ℕ) (s : Scan)
        → n < 10000
        → Counted n s
        → Gives (Counted (n + 1)) (scan_failing run artifact_uri observed_at rules index raw s)
    unfolding scan_failing
    scan_failing-Counted index raw n s b h =
        let resolved = wrap (Sarif.in_result index) (resolve_rule_id raw run.driver.rules) in
        let matched =
          wrap (Sarif.in_result index) (result_matches_artifact raw run.artifacts artifact_uri) in
        elim (Result-cases resolved) [
          | inl (error, e) ↦ rw (e, scan_failing) tt
          | inr (rule_id, e) ↦
              let level = level_of raw.level (lookup rule_id rules) in
              let name = Sarif.result_rule_id index in
              elim (Result-cases (bounded_value name rule_id max_rule_id_length true)) [
                | inl (error, f) ↦ rw (e, f, scan_failing) tt
                | inr (u, f) ↦
                    elim (Bool-cases (not (valid_level level) || text_eq level (codes "none"))) [
                      | inl g ↦ rw (e, f, g, scan_failing) tt
                      | inr g ↦ elim (Result-cases matched) [
                        | inl (error, m) ↦ rw (e, f, g, m, scan_failing) tt
                        | inr (true, m) ↦
                            rw (e, f, g, m, scan_failing)
                              (group_finding-Counted run artifact_uri observed_at rule_id level n s
                                (bounded_value-named name rule_id max_rule_id_length f) b h)
                        | inr (false, m) ↦
                            rw (e, f, g, m, scan_failing)
                              (skip-Counted run artifact_uri observed_at n s h)
                      ]
                    ]
              ]
        ]

    scan_one-Counted :
        (index : ℕ) (raw : ScanResult) (n : ℕ) (s : Scan)
        → n < 10000
        → Counted n s
        → Gives (Counted (n + 1)) (scan_one run artifact_uri observed_at rules index raw s)
    unfolding scan_one
    scan_one-Counted index raw n s b h =
        let kind = first_non_empty (raw.kind ∷ codes "fail" ∷ []) in
        let suppressed = wrap (Sarif.in_result index) (active_suppression raw.suppressions) in
        elim (Bool-cases (ltb max_locations_per_result (length raw.locations))) [
          | inl e ↦ rw (e, scan_one) tt
          | inr e ↦ elim (Bool-cases (ltb max_suppressions_per_result (length raw.suppressions))) [
            | inl f ↦ rw (e, f, scan_one) tt
            | inr f ↦ elim (Result-cases suppressed) [
              | inl (error, g) ↦ rw (e, f, g, scan_one) tt
              | inr (true, g) ↦
                  rw (e, f, g, scan_one) (skip-Counted run artifact_uri observed_at n s h)
              | inr (false, g) ↦ elim (Bool-cases (valid_kind kind)) [
                | inr k ↦ rw (e, f, g, k, scan_one) tt
                | inl k ↦ elim (Bool-cases (text_eq kind (codes "fail"))) [
                  | inr l ↦
                      rw (e, f, g, k, l, scan_one) (skip-Counted run artifact_uri observed_at n s h)
                  | inl l ↦ rw (e, f, g, k, l, scan_one) (scan_failing-Counted index raw n s b h)
                ]
              ]
            ]
          ]
        ]

    scan_results-Counted :
        (index : ℕ) (results : List ScanResult) (n : ℕ) (s : Scan)
        → n + length results ≤ 10000
        → Counted n s
        → Gives
            (Counted (n + length results))
            (scan_results run artifact_uri observed_at rules index results s)
    unfolding scan_results
    scan_results-Counted index [] n s b h =
        let e : n ≡ n + 0 = omega arith in subst (λ m. Counted m s) e h
    scan_results-Counted index (raw ∷ results) n s b h =
        elim (Result-cases (scan_one run artifact_uri observed_at rules index raw s)) [
          | inl (error, e) ↦ rw (e, scan_results) tt
          | inr (t, e) ↦
              let one = scan_one-Counted index raw n s (omega (arith, b)) h in
              let kept : Counted (n + 1) t = subst (Gives (Counted (n + 1))) e one in
              let rest =
                scan_results-Counted (index + 1) results (n + 1) t (omega (arith, b)) kept in
              let same : n + 1 + length results ≡ n + suc (length results) = omega arith in
              rw (e, scan_results)
                (subst
                  (λ m.
                    Gives (Counted m)
                      (scan_results run artifact_uri observed_at rules (index + 1) results t))
                  same rest)
        ]

  check_run-limit :
      {u : Unit {0}} → check_run run artifact_uri observed_at ≡ done u → length run.results ≤ 10000
  unfolding check_run
  check_run-limit {u} h = ground (arith, h)

  pub all_counted :
      Gives
        (λ r. (observations r.0 + r.1 ≡ length run.results) × All IsObserved r.0)
        (findings_for_run run artifact_uri observed_at)
  unfolding findings_for_run observations entries_of
  all_counted =
      let nothing : Scan = record { grouped = []; skipped = 0 } in
      elim (Result-cases (check_run run artifact_uri observed_at)) [
        | inl (error, e) ↦ rw (e, findings_for_run) tt
        | inr (u, e) ↦ elim (Result-cases (index_rules 0 run.driver.rules [])) [
          | inl (error, f) ↦ rw (e, f, findings_for_run) tt
          | inr (rules, f) ↦
              let counted =
                scan_results-Counted rules 0 run.results 0 nothing
                  (omega (arith, check_run-limit e))
                  (record { counted = refl; named = tt; observed = tt }) in
              elim (Result-cases
                (scan_results run artifact_uri observed_at rules 0 run.results nothing)) [
                  | inl (error, g) ↦ rw (e, f, g, findings_for_run) tt
                  | inr (s, g) ↦
                      let kept = subst (Gives (Counted (0 + length run.results))) g counted in
                      rw (e, f, g, findings_for_run)
                        (
                          omega
                              (arith, kept.counted, observations-sort_slice (entries_of s.grouped)),
                          All-sort_slice IsObserved by_finding (entries_of s.grouped)
                              (entries_of-holds IsObserved s.grouped kept.observed),
                        )
                ]
        ]
      ]

  -- What `findingsForRun` returns accounts for every result of the run: each was skipped, or is one of
  -- the observations behind a finding. The evidence of a finding is at most observed.
  pub findings_for_run-counted :
      (findings : List Finding) (skipped : ℕ)
      → findings_for_run run artifact_uri observed_at ≡ done (findings, skipped)
      → (observations findings + skipped ≡ length run.results) × All IsObserved findings
  findings_for_run-counted findings skipped h =
      subst (Gives (λ r. (observations r.0 + r.1 ≡ length run.results) × All IsObserved r.0)) h
        all_counted
