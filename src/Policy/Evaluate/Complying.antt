-- ===== src/Policy/Evaluate/Complying.antt =====
-- What a policy asks of a node, and when a node has no violation.
use mathlib.Core.List.{Memᴰ}
use ai_evidence_bom.Prelude.{
  ℕ, ◌+◌, ◌≤◌, ◌≡◌, ◌↔◌, ◌≢◌, ◌⊎◌, inl, inr, refl, true, false, ◌&&◌, List, [], ◌∷◌, ◌++◌, some,
  arith, is_empty, All, length, Option-cases, if◌then◌else◌,
}
use ai_evidence_bom.Text.{Text, codes, trim_space, to_lower}
use ai_evidence_bom.Text.Order.{text_order, text_eq_iff}
use ai_evidence_bom.Maps.{lookup, elem}
use ai_evidence_bom.Model.Level.{EvidenceLevel, rank, evidence_inferred}
use ai_evidence_bom.Model.Graph.{Node, FieldEvidence}
use ai_evidence_bom.Policy.Selector.{Regexp}
use ai_evidence_bom.Policy.Rules.{Policy, Compiled, finding_levels}
use ai_evidence_bom.Policy.Evaluate.{
  level_violations, finding_violations, inferred_violations, minimum_violations,
  conflict_violations, allowed_violations, provider_violations, version_violations, name_violations,
  node_violations, nodes_violations,
}

pub is_empty-append {ℓ} :
    {A : Type ℓ} (xs ys : List A) → is_empty (xs ++ ys) ≡ (is_empty xs && is_empty ys)
is_empty-append [] ys = refl
is_empty-append (x ∷ xs) ys = refl

eight_parts {ℓ} :
    {A : Type ℓ} (a b c d e f g h : List A)
    → (is_empty (a ++ (b ++ (c ++ (d ++ (e ++ (f ++ (g ++ h))))))) ≡ true) ↔ (
        (is_empty a ≡ true)
        × (is_empty b ≡ true)
        × (is_empty c ≡ true)
        × (is_empty d ≡ true)
        × (is_empty e ≡ true)
        × (is_empty f ≡ true)
        × (is_empty g ≡ true)
        × (is_empty h ≡ true))
eight_parts a b c d e f g h = ground (
  arith,
  is_empty-append a (b ++ (c ++ (d ++ (e ++ (f ++ (g ++ h)))))),
  is_empty-append b (c ++ (d ++ (e ++ (f ++ (g ++ h))))),
  is_empty-append c (d ++ (e ++ (f ++ (g ++ h)))),
  is_empty-append d (e ++ (f ++ (g ++ h))),
  is_empty-append e (f ++ (g ++ h)),
  is_empty-append f (g ++ h),
  is_empty-append g h,
)

level_violations-is_empty :
    (denied : List Text) (n : Node) (levels : List Text)
    → (is_empty (level_violations denied n levels) ≡ true)
      ↔ All (λ level. elem level denied ≡ false) levels
unfolding level_violations
level_violations-is_empty denied n [] = ground arith
level_violations-is_empty denied n (level ∷ levels) =
    ground (arith, level_violations-is_empty denied n levels)

pub not_among {ℓ} : {A : Type ℓ} {a : A} {xs : List A} → is_empty xs ≡ true → ¬ Memᴰ a xs
not_among h (Memᴰ.head e) = cc
not_among h (Memᴰ.tail m) = cc

pub empty_of {ℓ} : {A : Type ℓ} (xs : List A) → ((a : A) → ¬ Memᴰ a xs) → is_empty xs ≡ true
empty_of [] h = refl
empty_of (x ∷ xs) h = absurd (h x (Memᴰ.head refl))

none_denied :
    (denied levels : List Text)
    → is_empty denied ≡ true
    → All (λ level. elem level denied ≡ false) levels
unfolding elem
none_denied [] [] h = tt
none_denied [] (level ∷ levels) h = (refl, none_denied [] levels h)
none_denied (d ∷ ds) levels h = cc

conflict_violations-is_empty :
    (n : Node) (claims : List FieldEvidence)
    → (is_empty (conflict_violations n claims) ≡ true)
      ↔ All (λ claim. (claim.conflict ≡ false) × (length claim.values ≤ 1)) claims
unfolding conflict_violations
conflict_violations-is_empty n [] = ground arith
conflict_violations-is_empty n (claim ∷ claims) =
    ground (arith, conflict_violations-is_empty n claims)

module _ (re : Regexp) where
  name_violations-is_empty :
      (n : Node) (index : ℕ) (patterns : List (Text × re.Pattern))
      → (is_empty (name_violations re n index patterns) ≡ true)
        ↔ All (λ p. re.match_string p.1 n.name ≡ false) patterns
  unfolding name_violations
  name_violations-is_empty n index [] = ground arith
  name_violations-is_empty n index (p ∷ patterns) =
      ground (arith, name_violations-is_empty n (index + 1) patterns)

module _ (lower_rune : ℕ → ℕ) (re : Regexp) (policy : Policy) (compiled : Compiled re) where
  -- What the policy asks of a node.
  pub record Complies (n : Node) : Type 0 where
    pub findings :
        n.node_type ≡ codes "finding"
        → All (λ level. elem level compiled.denied_finding_levels ≡ false) (finding_levels n)
    pub inferred : policy.forbid_inferred ≡ true → n.evidence.level ≢ evidence_inferred
    pub minimum :
        (least : EvidenceLevel)
        → lookup n.node_type policy.minimum_evidence ≡ some least
        → rank least ≤ rank n.evidence.level
    pub allowed :
        is_empty compiled.allowed_providers ≡ false
        → is_empty n.provider ≡ false
        → elem (to_lower lower_rune n.provider) compiled.allowed_providers ≡ true
    pub provider :
        elem (to_lower lower_rune n.node_type) compiled.required_providers ≡ true
        → is_empty (trim_space n.provider) ≡ false
    pub version :
        elem (to_lower lower_rune n.node_type) compiled.required_versions ≡ true
        → (is_empty (trim_space n.version) ≡ false) ⊎ (is_empty n.observed_versions ≡ false)
    pub conflicts :
        policy.forbid_field_conflicts ≡ true
        → All (λ claim. (claim.conflict ≡ false) × (length claim.values ≤ 1)) n.field_evidence
    pub names : All (λ p. re.match_string p.1 n.name ≡ false) compiled.patterns

  finding_violations-is_empty :
      (n : Node)
      → (is_empty (finding_violations compiled.denied_finding_levels n) ≡ true) ↔ (
          n.node_type ≡ codes "finding"
          → All (λ level. elem level compiled.denied_finding_levels ≡ false) (finding_levels n))
  unfolding finding_violations
  finding_violations-is_empty n =
      let denied = compiled.denied_finding_levels in
      ground (
        arith,
        text_eq_iff n.node_type (codes "finding"),
        level_violations-is_empty denied n (finding_levels n),
        none_denied denied (finding_levels n),
      )

  minimum_violations-is_empty :
      (n : Node)
      → (is_empty (minimum_violations policy n) ≡ true) ↔ (
          (least : EvidenceLevel)
          → lookup n.node_type policy.minimum_evidence ≡ some least
          → rank least ≤ rank n.evidence.level)
  unfolding minimum_violations
  minimum_violations-is_empty n = (
    λ h least e. ground arith,
    λ h. elim (Option-cases (lookup n.node_type policy.minimum_evidence)) [
      | inl e ↦ ground arith
      | inr (least, e) ↦ ground (arith, h least e)
    ],
  )

  other_violations-is_empty :
      (n : Node)
      → ((is_empty (inferred_violations policy n) ≡ true)
          ↔ (policy.forbid_inferred ≡ true → n.evidence.level ≢ evidence_inferred))
        × ((is_empty (allowed_violations lower_rune compiled.allowed_providers n) ≡ true) ↔ (
            is_empty compiled.allowed_providers ≡ false
            → is_empty n.provider ≡ false
            → elem (to_lower lower_rune n.provider) compiled.allowed_providers ≡ true))
        × ((is_empty (provider_violations lower_rune compiled.required_providers n) ≡ true) ↔ (
            elem (to_lower lower_rune n.node_type) compiled.required_providers ≡ true
            → is_empty (trim_space n.provider) ≡ false))
        × ((is_empty (version_violations lower_rune compiled.required_versions n) ≡ true) ↔ (
            elem (to_lower lower_rune n.node_type) compiled.required_versions ≡ true
            → (is_empty (trim_space n.version) ≡ false) ⊎ (is_empty n.observed_versions ≡ false)))
  unfolding inferred_violations allowed_violations provider_violations version_violations
  other_violations-is_empty n = (
    ground (arith, text_eq_iff n.evidence.level evidence_inferred),
    ground arith,
    ground arith,
    ground arith,
  )

  conflicts-is_empty :
      (n : Node)
      → (is_empty
            (if policy.forbid_field_conflicts then conflict_violations n n.field_evidence else [])
          ≡ true)
        ↔ (policy.forbid_field_conflicts ≡ true
            → All (λ claim. (claim.conflict ≡ false) × (length claim.values ≤ 1)) n.field_evidence)
  conflicts-is_empty n = ground (arith, conflict_violations-is_empty n n.field_evidence)

  -- A node has no violation exactly where it complies.
  pub node_violations-is_empty :
      (n : Node) → (is_empty (node_violations lower_rune re policy compiled n) ≡ true) ↔ Complies n
  unfolding node_violations
  node_violations-is_empty n =
      let parts =
        eight_parts (finding_violations compiled.denied_finding_levels n)
          (inferred_violations policy n) (minimum_violations policy n)
          (allowed_violations lower_rune compiled.allowed_providers n)
          (provider_violations lower_rune compiled.required_providers n)
          (version_violations lower_rune compiled.required_versions n)
          (if policy.forbid_field_conflicts then conflict_violations n n.field_evidence else [])
          (name_violations re n 0 compiled.patterns) in
      let others = other_violations-is_empty n in
      (
        λ h.
            let (f, i, m, a, p, v, c, k) = parts.0 h in
            record {
              findings = (finding_violations-is_empty n).0 f;
              inferred = others.0.0 i;
              minimum = (minimum_violations-is_empty n).0 m;
              allowed = others.1.0 a;
              provider = others.2.0 p;
              version = others.3.0 v;
              conflicts = (conflicts-is_empty n).0 c;
              names = (name_violations-is_empty re n 0 compiled.patterns).0 k;
            },
        λ w. parts.1 (
          (finding_violations-is_empty n).1 w.findings,
          others.0.1 w.inferred,
          (minimum_violations-is_empty n).1 w.minimum,
          others.1.1 w.allowed,
          others.2.1 w.provider,
          others.3.1 w.version,
          (conflicts-is_empty n).1 w.conflicts,
          (name_violations-is_empty re n 0 compiled.patterns).1 w.names,
        ),
      )

  pub nodes_violations-is_empty :
      (nodes : List Node)
      → (is_empty (nodes_violations lower_rune re policy compiled nodes) ≡ true)
        ↔ All Complies nodes
  unfolding nodes_violations
  nodes_violations-is_empty [] = (λ h. tt, λ h. refl)
  nodes_violations-is_empty (n ∷ nodes) = ground (
    arith,
    is_empty-append (node_violations lower_rune re policy compiled n)
        (nodes_violations lower_rune re policy compiled nodes),
    node_violations-is_empty n,
    nodes_violations-is_empty nodes,
  )
