-- ===== src/Tests/Builds.antt =====
-- Observations of an agent and of the model that it calls.
use ai_evidence_bom.Prelude.{
  ℕ, ◌≡◌, ◌&&◌, not, refl, List, [], ◌∷◌, none, some, if◌then◌else◌, is_empty,
}
use ai_evidence_bom.Text.{codes, text_eq, trim_space}
use ai_evidence_bom.Text.Order.{text_order}
use ai_evidence_bom.Time.{pos}
use ai_evidence_bom.Maps.{lookup, elem}
use ai_evidence_bom.Model.Level.{evidence_verified, evidence_observed, valid}
use ai_evidence_bom.Observation.{Observation}
use ai_evidence_bom.Platform.{Platform, hex_encode}
use ai_evidence_bom.Normalize.Prepare.{prepare_observations}
use ai_evidence_bom.Normalize.Prepare.Returns.{evidences, Returns, prepare_observations-Returns}
use ai_evidence_bom.Normalize.Privacy.{
  metadata_only_observation, prompt_hmac_attribute, prompt_content_present_attribute,
  retained_observation_attributes,
}
use ai_evidence_bom.Normalize.Privacy.Keys.{
  prompt_content, filled, lookup-metadata_only_observation,
}
use ai_evidence_bom.Normalize.Builder.{build_with_options}
use ai_evidence_bom.Normalize.Builder.Building.{Builds}
use ai_evidence_bom.Trust
use ai_evidence_bom.Trust.{apply}
use ai_evidence_bom.Trust.Grants.{IsGranted}
use ai_evidence_bom.Trust.Building.{build_with_options-IsGranted}
use ai_evidence_bom.Tests.{ascii_only}

-- Hashes that are the text, so that no two texts share one.
abbrev simple_platform : Platform
simple_platform = record {
  lower_rune = ascii_only;
  fold_rune = ascii_only;
  sha256 = λ text. text;
  hmac_sha256 = λ key text. text;
}

abbrev secret_key : List ℕ
secret_key = 7 ∷ []

abbrev agent_span : Observation
agent_span = record {
  timestamp = pos 3;
  level = evidence_verified;
  source = codes "otel";
  trace_id = codes "t";
  span_id = codes "1";
  parent_span_id = [];
  attributes =
      (codes "gen_ai.agent.name", codes "helper")
      ∷ (codes "gen_ai.operation.name", codes "invoke_agent")
      ∷ (codes "gen_ai.request.model", codes "small")
      ∷ [];
}

abbrev model_span : Observation
model_span = record {
  timestamp = pos 4;
  level = evidence_observed;
  source = codes "otel";
  trace_id = codes "t";
  span_id = codes "2";
  parent_span_id = codes "1";
  attributes =
      (codes "gen_ai.operation.name", codes "chat")
      ∷ (codes "gen_ai.request.model", codes "small")
      ∷ (codes "gen_ai.prompt", codes "hello")
      ∷ [];
}

abbrev spans : List Observation
spans = agent_span ∷ model_span ∷ []

prepare_observations-Returns_example :
    Returns (evidences spans) (prepare_observations simple_platform spans)
prepare_observations-Returns_example = prepare_observations-Returns simple_platform spans

abbrev otel_policy : Trust.Policy
otel_policy = record {
  version = Trust.policy_version;
  sources = record { source = codes "otel"; max_evidence = evidence_verified } ∷ [];
}

otel_policy-accepted : Trust.validate otel_policy ≡ Trust.Verdict.accepted
unfolding Trust.validate text_eq trim_space valid elem
otel_policy-accepted = refl

build_with_options-IsGranted_example : Builds (IsGranted otel_policy) (
    build_with_options simple_platform secret_key
      (apply otel_policy spans).observations
      (codes "live")
      (pos 9))
build_with_options-IsGranted_example =
    build_with_options-IsGranted simple_platform secret_key otel_policy spans (codes "live") (pos 9)
      otel_policy-accepted

lookup-metadata_only_observation_example :
    lookup
      (codes "gen_ai.prompt")
      (metadata_only_observation simple_platform model_span secret_key).attributes
    ≡ (if text_eq prompt_hmac_attribute (codes "gen_ai.prompt")
          && (not (is_empty (prompt_content model_span)) && not (is_empty secret_key))
        then some (hex_encode (simple_platform.hmac_sha256 secret_key (prompt_content model_span)))
        else if text_eq prompt_content_present_attribute (codes "gen_ai.prompt")
            && not (is_empty (prompt_content model_span))
        then some (codes "true")
        else if elem (codes "gen_ai.prompt") retained_observation_attributes
        then filled (lookup (codes "gen_ai.prompt") model_span.attributes)
        else none)
lookup-metadata_only_observation_example =
    lookup-metadata_only_observation simple_platform model_span secret_key (codes "gen_ai.prompt")
