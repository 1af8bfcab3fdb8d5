-- ===== src/Receiver/Config.antt =====
-- internal/collector/receiver.go: `New` checks a configuration.
use ai_evidence_bom.Prelude.{
  ℕ, zero, suc, true, false, not, ◌&&◌, List, [], ◌∷◌, Option, none, some, if◌then◌else◌, is_empty,
  ltb,
}
use ai_evidence_bom.Integer.{ℤ, pos, negsuc}
use ai_evidence_bom.Text.{Text, codes, trim_space}
use ai_evidence_bom.Model.Level.{rank, evidence_observed}
use ai_evidence_bom.Trust
use ai_evidence_bom.Trust.{SourceRule}
use ai_evidence_bom.SourceAuth
use ai_evidence_bom.SourceAuth.{authenticate, protects}

pub record Config : Type 0 where
  pub graph_out : Text
  pub bom_out : Text
  pub source : Text
  pub auth_token : Text
  pub sensitive_hmac_key : List ℕ
  pub source_auth : SourceAuth.Policy
  pub source_trust : Trust.Policy
  pub max_request_bytes : ℤ
  pub max_dedupe_items : ℤ

pub data Error : Type 0 where
  no_graph_output : Error
  request_bytes_not_positive : Error
  dedupe_items_not_positive : Error
  invalid_source_trust : Trust.Verdict → Error
  invalid_source_auth : SourceAuth.Verdict → Error
  global_token_authenticates : Text → Error
  authority_without_binding : Text → Error

pub data Result {ℓ} (A : Type ℓ) : Type ℓ where
  refused : (reason : Error) → Result A
  created : A → Result A

abbrev pub default_max_request_bytes : ℕ
default_max_request_bytes = 67108864

abbrev pub default_max_dedupe_items : ℕ
default_max_dedupe_items = 100000

-- A number that is positive once its default stands for zero.
unfoldable pub positive_or : ℕ → ℤ → Option ℕ
positive_or default (pos zero) = some default
positive_or default (pos (suc n)) = some (suc n)
positive_or default (negsuc n) = none

-- The loop over the rules: the first one that grants more than observed evidence to a source that no
-- binding protects.
unfoldable pub unbound_rule : SourceAuth.Policy → List SourceRule → Option Text
unbound_rule policy [] = none
unbound_rule policy (rule ∷ rules) =
    let rest = unbound_rule policy rules in
    if ltb (rank evidence_observed) (rank rule.max_evidence) && not (protects policy rule.source)
    then some rule.source
    else rest

-- The configuration that a receiver works with.
pub record Settings : Type 0 where
  pub config : Config
  pub request_bytes : ℕ
  pub dedupe_items : ℕ

-- The checks of the two policies, in the order of the code.
unfoldable pub check_policies : (Text → List ℕ) → Config → Option Error
check_policies sha256 config = elim (Trust.validate config.source_trust) [
  | Trust.Verdict.accepted ↦ elim (SourceAuth.validate config.source_auth) [
    | SourceAuth.Verdict.accepted ↦
        let (source, matches) = authenticate sha256 config.source_auth config.auth_token in
        elim matches [
          | true ↦ some (global_token_authenticates source)
          | false ↦ elim (unbound_rule config.source_auth config.source_trust.sources) [
            | none ↦ none
            | some unbound ↦ some (authority_without_binding unbound)
          ]
        ]
    | verdict ↦ some (invalid_source_auth verdict)
  ]
  | verdict ↦ some (invalid_source_trust verdict)
]

-- The checks of `New`, before it loads a stored graph.
unfoldable pub check_config : (Text → List ℕ) → Config → Result Settings
check_config sha256 config =
    if is_empty (trim_space config.graph_out)
    then refused no_graph_output
    else elim (positive_or default_max_request_bytes config.max_request_bytes) [
      | none ↦ refused request_bytes_not_positive
      | some bytes ↦ elim (positive_or default_max_dedupe_items config.max_dedupe_items) [
        | none ↦ refused dedupe_items_not_positive
        | some items ↦ elim (check_policies sha256 config) [
          | some reason ↦ refused reason
          | none ↦ created (record {
            config = record config {
              source = if is_empty config.source then codes "otlp-http" else config.source;
            };
            request_bytes = bytes;
            dedupe_items = items;
          })
        ]
      ]
    ]
