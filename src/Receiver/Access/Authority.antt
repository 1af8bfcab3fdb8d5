-- ===== src/Receiver/Access/Authority.antt =====
-- What a request may claim without a credential of its own.
use ai_evidence_bom.Prelude.{ℕ, ◌<◌, ◌≤◌, ◌≡◌, sym, false, List, [], ◌∷◌, none, some, All, arith}
use ai_evidence_bom.Text.{Text}
use ai_evidence_bom.Text.Order.{text_order, text_eq_iff}
use ai_evidence_bom.Model.Level.{rank, evidence_observed}
use ai_evidence_bom.Observation.{Observation}
use ai_evidence_bom.Trust
use ai_evidence_bom.Trust.{SourceRule, maximum_of, maximum_for, apply}
use ai_evidence_bom.Trust.Observations.{AreCapped, apply_lem}
use ai_evidence_bom.SourceAuth
use ai_evidence_bom.SourceAuth.{authenticate, protects}
use ai_evidence_bom.Receiver.Config.{
  Config, Settings, created, check_policies, check_config, unbound_rule, positive_or,
}
use ai_evidence_bom.Receiver.Access.{claims_protected, bind_source}

-- Where every rule above observed has a binding, an unprotected source is at most observed.
maximum_of-unprotected :
    (policy : SourceAuth.Policy) (rules : List SourceRule) (source : Text)
    → unbound_rule policy rules ≡ none
    → protects policy source ≡ false
    → rank (maximum_of rules source) ≤ rank evidence_observed
unfolding unbound_rule maximum_of
maximum_of-unprotected policy [] source h k = omega arith
maximum_of-unprotected policy (rule ∷ rules) source h k =
    ground (arith, maximum_of-unprotected policy rules source, text_eq_iff rule.source source)

pub check_policies-none :
    (sha256 : Text → List ℕ) (config : Config)
    → check_policies sha256 config ≡ none
    → (Trust.validate config.source_trust ≡ Trust.Verdict.accepted)
      × (SourceAuth.validate config.source_auth ≡ SourceAuth.Verdict.accepted)
      × ((authenticate sha256 config.source_auth config.auth_token).1 ≡ false)
      × (unbound_rule config.source_auth config.source_trust.sources ≡ none)
unfolding check_policies
check_policies-none sha256 config h = ground arith

pub check_config-created :
    (sha256 : Text → List ℕ) (config : Config) (settings : Settings)
    → check_config sha256 config ≡ created settings
    → (settings.config.source_auth ≡ config.source_auth)
      × (settings.config.source_trust ≡ config.source_trust)
      × (check_policies sha256 config ≡ none)
      × (0 < settings.request_bytes)
      × (0 < settings.dedupe_items)
unfolding check_config positive_or
check_config-created sha256 config settings h = ground arith

claims_protected-none :
    (config : Config) (os : List Observation)
    → claims_protected config os ≡ false
    → All (λ o. protects config.source_auth o.source ≡ false) os
unfolding claims_protected
claims_protected-none config [] h = tt
claims_protected-none config (o ∷ os) h =
    (ground arith, claims_protected-none config os (ground arith))

capped-observed :
    (policy : Trust.Policy) (auth : SourceAuth.Policy) (os cs : List Observation)
    → unbound_rule auth policy.sources ≡ none
    → All (λ o. protects auth o.source ≡ false) os
    → AreCapped policy os cs
    → All (λ o. rank o.level ≤ rank evidence_observed) cs
capped-observed policy auth [] [] u h k = tt
capped-observed policy auth [] (c ∷ cs) u h k = absurd k
capped-observed policy auth (o ∷ os) [] u h k = tt
capped-observed policy auth (o ∷ os) (c ∷ cs) u h k = (
  omega (arith, k.0.bounded, maximum_of-unprotected auth policy.sources o.source u h.0),
  capped-observed policy auth os cs u h.1 k.1,
)

-- Under a configuration that `New` accepts, a request that authenticates no source contributes nothing
-- above observed evidence: where `acceptAuthenticated` hands its observations on, every observation
-- that the trust policy leaves of them is at most observed.
pub bind_source-observed :
    (sha256 : Text → List ℕ) (config : Config) (settings : Settings) (os : List Observation)
    (source : Text) {bound : List Observation} {name : Text}
    → check_config sha256 config ≡ created settings
    → bind_source settings.config os source [] ≡ some (bound, name)
    → All
        (λ o. rank o.level ≤ rank evidence_observed)
        (apply settings.config.source_trust bound).observations
unfolding bind_source
bind_source-observed sha256 config settings os source {bound} {name} h k =
    let (auth, trust, sound, bytes, items) = check_config-created sha256 config settings h in
    let unbound : unbound_rule settings.config.source_auth settings.config.source_trust.sources
        ≡ none =
      rw (auth, trust) ((check_policies-none sha256 config sound).3) in
    let unclaimed : claims_protected settings.config os ≡ false = ground arith in
    let same : os ≡ bound = ground arith in
    rw (sym same) (
      capped-observed settings.config.source_trust settings.config.source_auth os _ unbound
        (claims_protected-none settings.config os unclaimed)
        (apply_lem settings.config.source_trust os).0)
