-- ===== src/Tests/Policies.antt =====
-- Trust policies, source bindings and policy reports at concrete values.
use mathlib.Core.List.{Memᴰ}
use ai_evidence_bom.Prelude.{
  ℕ, ◌≤◌, ◌≡◌, ◌↔◌, ◌⊎◌, refl, true, false, List, [], ◌∷◌, is_empty, leb→le,
}
use ai_evidence_bom.Text.{Text, codes, text_eq, trim_space, byte_length, to_lower}
use ai_evidence_bom.Maps.{elem}
use ai_evidence_bom.Text.Order.{text_order}
use ai_evidence_bom.Time.{pos}
use ai_evidence_bom.Model.Level.{evidence_verified, valid}
use ai_evidence_bom.Model.Graph.{Graph}
use ai_evidence_bom.Model.Invariant.{GraphHolds}
use ai_evidence_bom.Observation.{Observation}
use ai_evidence_bom.Aggregate.{merge}
use ai_evidence_bom.Trust
use ai_evidence_bom.Trust.{SourceRule, apply, maximum_for, cap_graph_in_place}
use ai_evidence_bom.Trust.Rules
use ai_evidence_bom.Trust.Rules.{validate_trust_iff, maximum_for-rule}
use ai_evidence_bom.Trust.Observations.{AreCapped, changes, apply_lem}
use ai_evidence_bom.Trust.Grants.{IsGranted, cap_graph_in_place-IsGranted, merge-IsGranted}
use ai_evidence_bom.SourceAuth
use ai_evidence_bom.SourceAuth.{Binding, authenticate, minimum_credential_bytes}
use ai_evidence_bom.SourceAuth.Bindings
use ai_evidence_bom.SourceAuth.Bindings.{
  IsDigestOf, validate_auth_iff, authenticate-bound, authenticate_sound,
}
use ai_evidence_bom.Tests.{verified, node_of, small_graph, graph_of, agent_to_model}

abbrev trusted_rule : SourceRule
trusted_rule = record { source = codes "cosign"; max_evidence = evidence_verified }

abbrev pub trust_policy : Trust.Policy
trust_policy = record { version = Trust.policy_version; sources = trusted_rule ∷ [] }

trust_policy-accepted : Trust.validate trust_policy ≡ Trust.Verdict.accepted
unfolding Trust.validate text_eq trim_space valid elem
trust_policy-accepted = refl

-- One node that a trusted source verified, and one that an unknown source claims to have verified.
abbrev pub claimed_graph : Graph
claimed_graph =
    graph_of
      (node_of (codes "v") (codes "model") verified []
        ∷ node_of (codes "w") (codes "model") (record verified { sources = codes "unknown" ∷ [] })
            []
        ∷ [])
      (agent_to_model ∷ [])

cap_graph_in_place-IsGranted_example :
    GraphHolds (IsGranted trust_policy) (cap_graph_in_place trust_policy claimed_graph).0
cap_graph_in_place-IsGranted_example =
    cap_graph_in_place-IsGranted trust_policy claimed_graph trust_policy-accepted

merge-IsGranted_example : GraphHolds (IsGranted trust_policy) (
    merge
      (cap_graph_in_place trust_policy claimed_graph).0
      (cap_graph_in_place trust_policy small_graph).0
      (pos 11))
merge-IsGranted_example =
    merge-IsGranted trust_policy (cap_graph_in_place trust_policy claimed_graph).0
      (cap_graph_in_place trust_policy small_graph).0 (pos 11)
      (cap_graph_in_place-IsGranted trust_policy claimed_graph trust_policy-accepted)
      (cap_graph_in_place-IsGranted trust_policy small_graph trust_policy-accepted)

abbrev observation : Observation
observation = record {
  timestamp = pos 3;
  level = evidence_verified;
  source = codes "otel";
  trace_id = [];
  span_id = [];
  parent_span_id = [];
  attributes = [];
}

apply_lem_example :
    AreCapped trust_policy (observation ∷ []) (apply trust_policy (observation ∷ [])).observations
    × ((apply trust_policy (observation ∷ [])).downgraded
        ≡ changes (observation ∷ []) (apply trust_policy (observation ∷ [])).observations)
apply_lem_example = apply_lem trust_policy (observation ∷ [])

validate_trust_iff_example : (Trust.validate trust_policy ≡ Trust.Verdict.accepted) ↔ (
    ((trust_policy.version ≡ []) × (trust_policy.sources ≡ []))
    ⊎ ((trust_policy.version ≡ Trust.policy_version)
        × Trust.Rules.AreSound [] trust_policy.sources))
validate_trust_iff_example = validate_trust_iff trust_policy

maximum_for-rule_example : maximum_for trust_policy (codes "cosign") ≡ evidence_verified
maximum_for-rule_example =
    maximum_for-rule trust_policy trusted_rule trust_policy-accepted (Memᴰ.head refl)

-- A hash that is the identity, and a token of 32 characters.
abbrev same : Text → List ℕ
same token = token

abbrev token : Text
token = codes "aaaaaaaaaaaaaaaaaaaaaaaaaaaaaaaa"

abbrev binding : Binding
binding = record {
  source = codes "ci";
  token_sha256 = codes "6161616161616161616161616161616161616161616161616161616161616161";
}

abbrev auth_policy : SourceAuth.Policy
auth_policy = record { version = SourceAuth.policy_version; bindings = binding ∷ [] }

auth_policy-accepted : SourceAuth.validate auth_policy ≡ SourceAuth.Verdict.accepted
unfolding SourceAuth.validate text_eq trim_space byte_length to_lower elem
auth_policy-accepted = refl

token-long : minimum_credential_bytes ≤ byte_length token
unfolding byte_length
token-long = leb→le 32 (byte_length token) refl

token-IsDigestOf : IsDigestOf (same token) binding
unfolding SourceAuth.hex_decode
token-IsDigestOf = refl

token-authenticated : authenticate same auth_policy token ≡ (codes "ci", true)
unfolding authenticate byte_length SourceAuth.hex_decode text_eq
token-authenticated = refl

authenticate-bound_example : authenticate same auth_policy token ≡ (codes "ci", true)
authenticate-bound_example =
    authenticate-bound same auth_policy token binding auth_policy-accepted token-long
      (Memᴰ.head refl) token-IsDigestOf

authenticate_sound_example :
    (minimum_credential_bytes ≤ byte_length token)
    × ((b : Binding) × Memᴰ b auth_policy.bindings
        × IsDigestOf (same token) b
        × (codes "ci" ≡ b.source))
authenticate_sound_example =
    authenticate_sound same auth_policy token (codes "ci") token-authenticated

validate_auth_iff_example : (SourceAuth.validate auth_policy ≡ SourceAuth.Verdict.accepted) ↔ (
    ((auth_policy.version ≡ []) × (auth_policy.bindings ≡ []))
    ⊎ ((auth_policy.version ≡ SourceAuth.policy_version)
        × (is_empty auth_policy.bindings ≡ false)
        × SourceAuth.Bindings.AreSound [] auth_policy.bindings))
validate_auth_iff_example = validate_auth_iff auth_policy
