-- ===== src/Trust/Rules.antt =====
-- The rules of an accepted trust policy.
use mathlib.Core.List.{Memᴰ}
use ai_evidence_bom.Prelude.{
  ℕ, ◌+◌, ◌<◌, ◌≡◌, ◌↔◌, refl, Bool, true, false, List, [], ◌∷◌, arith, is_empty, ◌⊎◌, inl, inr,
  ◌||◌, Bool-cases, ap,
}
use ai_evidence_bom.Text.{Text, text_eq, trim_space}
use ai_evidence_bom.Text.Order.{text_order, text_eq_iff}
use ai_evidence_bom.Maps.{elem, add}
use ai_evidence_bom.Maps.Laws.{elem-add}
use ai_evidence_bom.Model.Level.{rank, valid, evidence_observed}
use ai_evidence_bom.Trust.{
  SourceRule, Policy, Verdict, validate, validate_rules, maximum_of, maximum_for, policy_version,
}

-- A source name that is not empty and has no surrounding whitespace.
abbrev pub IsExact : Text → Type 0
IsExact source = (trim_space source ≡ source) × (is_empty source ≡ false)

abbrev pub is_listed : Text → List SourceRule → Bool
is_listed source [] = false
is_listed source (rule ∷ rules) = text_eq rule.source source || is_listed source rules

-- The rules of an accepted policy, after those whose sources are `seen`.
abbrev pub AreSound : List Text → List SourceRule → Type 0
AreSound seen [] = Unit
AreSound seen (rule ∷ rules) =
    IsExact rule.source
    × (valid rule.max_evidence ≡ true)
    × (elem rule.source seen ≡ false)
    × AreSound (add rule.source seen) rules

validate_rules_iff :
    (index : ℕ) (seen : List Text) (rules : List SourceRule)
    → (validate_rules index seen rules ≡ Verdict.accepted) ↔ AreSound seen rules
unfolding validate_rules
validate_rules_iff index seen [] = ground arith
validate_rules_iff index seen (rule ∷ rules) = ground (
  arith,
  validate_rules_iff (index + 1) (add (trim_space rule.source) seen) rules,
  text_eq_iff (trim_space rule.source) rule.source,
)

-- A trust policy is accepted exactly where it is the zero value, or has the supported version and rules
-- with exact, distinct sources and valid levels.
pub validate_trust_iff :
    (policy : Policy)
    → (validate policy ≡ Verdict.accepted) ↔ (
        ((policy.version ≡ []) × (policy.sources ≡ []))
        ⊎ ((policy.version ≡ policy_version) × AreSound [] policy.sources))
unfolding validate
validate_trust_iff policy =
    ground
      (arith, validate_rules_iff 0 [] policy.sources, text_eq_iff policy.version policy_version)

pub sound_of_accepted :
    (policy : Policy) → validate policy ≡ Verdict.accepted → AreSound [] policy.sources
sound_of_accepted policy h = elim ((validate_trust_iff policy).0 h) [
  | inl e ↦ rw (e.1) tt
  | inr e ↦ e.1
]

pub rank-observed : rank evidence_observed ≡ 3
unfolding rank text_eq
rank-observed = refl

-- Only a rule grants more than observed evidence, and its source is exact.
pub IsExact-of_maximum :
    (seen : List Text) (rules : List SourceRule) (source : Text)
    → AreSound seen rules
    → 3 < rank (maximum_of rules source)
    → IsExact source
unfolding maximum_of
IsExact-of_maximum seen [] source h m = absurd (omega (arith, rank-observed))
IsExact-of_maximum seen (rule ∷ rules) source h m = elim (Bool-cases (text_eq rule.source source)) [
  | inl e ↦ ground (arith, text_eq_iff rule.source source)
  | inr e ↦ IsExact-of_maximum (add rule.source seen) rules source h.3 (ground arith)
]

not_seen :
    (seen : List Text) (rules : List SourceRule) (source : Text)
    → AreSound seen rules
    → elem source seen ≡ true
    → is_listed source rules ≡ false
not_seen seen [] source h e = refl
not_seen seen (rule ∷ rules) source h e = ground (
  arith,
  not_seen (add rule.source seen) rules source h.3,
  elem-add rule.source source seen,
  text_eq_iff rule.source source,
)

listed_of_mem :
    (rules : List SourceRule) (rule : SourceRule)
    → Memᴰ rule rules
    → is_listed rule.source rules ≡ true
listed_of_mem [] rule m = elim m [ ]
listed_of_mem (r ∷ rules) rule (Memᴰ.head e) =
    ground (arith, text_eq_iff r.source rule.source, ap (λ (x : SourceRule). x.source) e)
listed_of_mem (r ∷ rules) rule (Memᴰ.tail m) = ground (arith, listed_of_mem rules rule m)

maximum_of_rule :
    (seen : List Text) (rules : List SourceRule) (rule : SourceRule)
    → AreSound seen rules
    → Memᴰ rule rules
    → maximum_of rules rule.source ≡ rule.max_evidence
unfolding maximum_of
maximum_of_rule seen [] rule h m = elim m [ ]
maximum_of_rule seen (r ∷ rules) rule h (Memᴰ.head e) = ground (
  arith,
  text_eq_iff r.source rule.source,
  ap (λ (x : SourceRule). x.source) e,
  ap (λ (x : SourceRule). x.max_evidence) e,
)
maximum_of_rule seen (r ∷ rules) rule h (Memᴰ.tail m) = ground (
  arith,
  maximum_of_rule (add r.source seen) rules rule h.3 m,
  listed_of_mem rules rule m,
  not_seen (add r.source seen) rules rule.source h.3,
  elem-add r.source rule.source seen,
  text_eq_iff r.source rule.source,
)

-- In an accepted policy every rule decides the maximum of its source, wherever it stands.
pub maximum_for-rule :
    (policy : Policy) (rule : SourceRule)
    → validate policy ≡ Verdict.accepted
    → Memᴰ rule policy.sources
    → maximum_for policy rule.source ≡ rule.max_evidence
maximum_for-rule policy rule h m =
    maximum_of_rule [] policy.sources rule (sound_of_accepted policy h) m
