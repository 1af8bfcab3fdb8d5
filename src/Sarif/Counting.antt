-- ===== src/Sarif/Counting.antt =====
-- The observations behind findings, and what one result adds to them.
use ai_evidence_bom.Prelude.{
  ℕ, ◌+◌, ◌<◌, ◌≤◌, ◌≡◌, refl, true, false, List, [], ◌∷◌, Option, none, some, All, is_empty, done,
  Gives, arith, inl, inr, ◌⊎◌, Bool-cases, Option-cases,
}
use ai_evidence_bom.Text.{Text, text_eq}
use ai_evidence_bom.Text.Order.{text_order}
use ai_evidence_bom.Time.{Instant}
use ai_evidence_bom.Maps.{lookup, put}
use ai_evidence_bom.Maps.Laws.{All-put, lookup-All}
use ai_evidence_bom.Sorting.{sort_slice, insert}
use ai_evidence_bom.Model.Level.{EvidenceLevel, rank, stronger_level, evidence_observed}
use ai_evidence_bom.Model.Level.Laws.{rank-stronger_level, rank-no_level}
use ai_evidence_bom.Trust.Rules.{rank-observed}
use ai_evidence_bom.Model.Evidence.{merge_evidence_summary, add_int}
use ai_evidence_bom.Normalize.Builder.{entries_of}
use ai_evidence_bom.Sarif.{Run, Finding, Name, bounded_value}
use ai_evidence_bom.Sarif.Runs.{
  Scan, skip, extend_finding, read_finding, by_finding, finding_or_new, finding_key,
  result_evidence, group_finding,
}

-- The number of observations behind findings.
unfoldable pub observations : List Finding → ℕ
observations [] = 0
observations (f ∷ fs) = f.evidence.observation_count + observations fs

abbrev grouped_observations : List (Text × Finding) → ℕ
grouped_observations m = observations (entries_of m)

abbrev pub IsObserved : Finding → Type 0
IsObserved f = rank f.evidence.level ≤ 3

abbrev AreNamed : List (Text × Finding) → Type 0
AreNamed m = All (λ e. is_empty e.1.rule_id ≡ false) m

observations-put :
    (k : Text) (f : Finding) (m : List (Text × Finding))
    → grouped_observations (put k f m) + (read_finding (lookup k m)).evidence.observation_count
      ≡ grouped_observations m + f.evidence.observation_count
unfolding observations entries_of put lookup
observations-put k f [] = omega arith
observations-put k f ((j, g) ∷ m) = ground (arith, observations-put k f m)

observations-insert :
    (f : Finding) (fs : List Finding)
    → observations (insert by_finding f fs) ≡ f.evidence.observation_count + observations fs
unfolding observations insert
observations-insert f [] = refl
observations-insert f (g ∷ fs) = ground (arith, observations-insert f fs)

pub observations-sort_slice :
    (fs : List Finding) → observations (sort_slice by_finding fs) ≡ observations fs
unfolding observations sort_slice
observations-sort_slice [] = refl
observations-sort_slice (f ∷ fs) =
    omega (arith, observations-insert f (sort_slice by_finding fs), observations-sort_slice fs)

-- After `n` results: each was skipped or stands behind a finding, and the findings have their rule and
-- at most observed evidence.
pub record Counted (n : ℕ) (s : Scan) : Type 0 where
  pub counted : grouped_observations s.grouped + s.skipped ≡ n
  pub named : AreNamed s.grouped
  pub observed : All (λ e. IsObserved e.1) s.grouped

pub bounded_value-named :
    (name : Name) (value : Text) (limit : ℕ) {u : Unit {0}}
    → bounded_value name value limit true ≡ done u
    → is_empty value ≡ false
unfolding bounded_value
bounded_value-named name value limit h = elim (Bool-cases (is_empty value)) [
  | inr e ↦ e
  | inl e ↦ absurd (ground (arith, h, e))
]

observations-read :
    (k : Text) (m : List (Text × Finding))
    → (read_finding (lookup k m)).evidence.observation_count ≤ grouped_observations m
unfolding observations entries_of lookup
observations-read k [] = omega arith
observations-read k ((j, g) ∷ m) = ground (arith, observations-read k m)

found-named :
    (k : Text) (m : List (Text × Finding))
    → AreNamed m
    → (lookup k m ≡ none) ⊎ (is_empty (read_finding (lookup k m)).rule_id ≡ false)
found-named k m h = elim (Option-cases (lookup k m)) [
  | inl e ↦ inl e
  | inr (f, e) ↦ inr (rw e (lookup-All (λ j g. is_empty g.rule_id ≡ false) k m h e))
]

found-IsObserved :
    (k : Text) (m : List (Text × Finding))
    → All (λ e. IsObserved e.1) m
    → IsObserved (read_finding (lookup k m))
found-IsObserved k m h = elim (Option-cases (lookup k m)) [
  | inl e ↦ rw e (omega (arith, rank-no_level))
  | inr (f, e) ↦ rw e (lookup-All (λ j g. IsObserved g) k m h e)
]

-- Observed evidence joins no stronger evidence.
observed_with :
    (level : EvidenceLevel) → rank level ≤ 3 → rank (stronger_level level evidence_observed) ≤ 3
observed_with level h = elim (rank-stronger_level level evidence_observed).2 [
  | inl e ↦ rw e h
  | inr e ↦ rw e (omega (arith, rank-observed))
]

module _ (run : Run) (artifact_uri : Text) (observed_at : Instant) where
  -- The finding under a key, or a new one, with the evidence of one more result.
  abbrev extended : (rule_id level : Text) → Option Finding → Finding
  extended rule_id level found =
      extend_finding run artifact_uri observed_at
        (finding_or_new run artifact_uri observed_at rule_id level (read_finding found))

  pub skip-Counted : (n : ℕ) (s : Scan) → Counted n s → Counted (n + 1) (skip s)
  unfolding skip
  skip-Counted n s h = record {
    counted = omega (arith, h.counted);
    named = h.named;
    observed = h.observed;
  }

  -- A finding that is extended counts one result more.
  extend_finding-counted :
      (rule_id level : Text) (found : Option Finding)
      → is_empty rule_id ≡ false
      → (found ≡ none) ⊎ (is_empty (read_finding found).rule_id ≡ false)
      → (read_finding found).evidence.observation_count < 10000
      → IsObserved (read_finding found)
      → (is_empty (extended rule_id level found).rule_id ≡ false)
        × ((extended rule_id level found).evidence.observation_count
            ≡ (read_finding found).evidence.observation_count + 1)
        × IsObserved (extended rule_id level found)
  unfolding extend_finding finding_or_new merge_evidence_summary add_int result_evidence
  extend_finding-counted rule_id level none e named b o =
      (e, omega arith, observed_with [] (omega (arith, rank-no_level)))
  extend_finding-counted rule_id level (some f) e (inl absent) b o = cc
  extend_finding-counted rule_id level (some f) e (inr named) b o =
      rw named (named, omega (arith, b), observed_with f.evidence.level o)

  pub group_finding-Counted :
      (rule_id level : Text) (n : ℕ) (s : Scan)
      → is_empty rule_id ≡ false
      → n < 10000
      → Counted n s
      → Gives (Counted (n + 1)) (group_finding run artifact_uri observed_at rule_id level s)
  unfolding group_finding
  group_finding-Counted rule_id level n s e b h =
      let key = finding_key run artifact_uri observed_at rule_id in
      let found = lookup key s.grouped in
      let current =
        finding_or_new run artifact_uri observed_at rule_id level (read_finding found) in
      let merged = extended rule_id level found in
      let few = observations-read key s.grouped in
      let (named, counted, weak) =
        extend_finding-counted rule_id level found e (found-named key s.grouped h.named)
          (omega (arith, few, b, h.counted)) (found-IsObserved key s.grouped h.observed) in
      elim (Bool-cases (text_eq current.level level)) [
        | inr l ↦ rw l tt
        | inl l ↦ rw l (record {
          counted = omega (arith, counted, observations-put key merged s.grouped, h.counted);
          named = All-put (λ k f. is_empty f.rule_id ≡ false) key merged s.grouped named h.named;
          observed = All-put (λ k f. IsObserved f) key merged s.grouped weak h.observed;
        })
      ]
