-- ===== src/Normalize/Privacy.antt =====
-- internal/normalize/privacy.go: what is kept of an observation while the receiver waits.
pub mod Keys
use ai_evidence_bom.Prelude.{ℕ, Bool, List, [], ◌∷◌, Option, if◌then◌else◌, is_empty}
use ai_evidence_bom.Text.{Text, codes}
use ai_evidence_bom.Text.Order.{text_order}
use ai_evidence_bom.Maps.{lookup, put}
use ai_evidence_bom.Model.Graph.{TextMap}
use ai_evidence_bom.Observation.{Observation}
use ai_evidence_bom.Platform.{Platform, hex_encode, read_text}
use ai_evidence_bom.Normalize.{first}

abbrev pub prompt_content_present_attribute : Text
prompt_content_present_attribute = codes "aiebom.prompt.content_present"

abbrev pub prompt_hmac_attribute : Text
prompt_hmac_attribute = codes "aiebom.prompt.hmac_sha256"

abbrev pub retained_observation_attributes : List Text
retained_observation_attributes =
    codes "aiebom.artifact.sha256"
    ∷ codes "aiebom.artifact.uri"
    ∷ codes "aiebom.evidence.level"
    ∷ codes "aiebom.mcp.discovery.source"
    ∷ codes "aiebom.mcp.server.id"
    ∷ codes "aiebom.mcp.server.identity_source"
    ∷ codes "aiebom.mcp.server.name"
    ∷ codes "aiebom.mcp.server.provider"
    ∷ codes "aiebom.mcp.server.version"
    ∷ codes "aiebom.mcp.tool.annotations_untrusted"
    ∷ codes "aiebom.mcp.tool.destructive"
    ∷ codes "aiebom.mcp.tool.input_schema_sha256"
    ∷ codes "aiebom.mcp.tool.read_only"
    ∷ codes "aiebom.mcp.tool.version"
    ∷ codes "agent.name"
    ∷ codes "data.source.name"
    ∷ codes "db.namespace"
    ∷ codes "db.system.name"
    ∷ codes "deployment.environment.name"
    ∷ codes "dify.app_id"
    ∷ codes "dify.app_name"
    ∷ codes "dify.workflow_id"
    ∷ codes "gen_ai.agent.id"
    ∷ codes "gen_ai.agent.name"
    ∷ codes "gen_ai.agent.provider"
    ∷ codes "gen_ai.agent.version"
    ∷ codes "gen_ai.data_source.id"
    ∷ codes "gen_ai.framework"
    ∷ codes "gen_ai.model"
    ∷ codes "gen_ai.model.digest"
    ∷ codes "gen_ai.operation.name"
    ∷ codes "gen_ai.prompt.template.id"
    ∷ codes "gen_ai.prompt.template.name"
    ∷ codes "gen_ai.prompt.template.version"
    ∷ codes "gen_ai.provider.name"
    ∷ codes "gen_ai.request.encoding_formats"
    ∷ codes "gen_ai.request.model"
    ∷ codes "gen_ai.response.finish_reasons"
    ∷ codes "gen_ai.response.model"
    ∷ codes "gen_ai.retrieval.data_source.id"
    ∷ codes "gen_ai.span.kind"
    ∷ codes "gen_ai.system"
    ∷ codes "gen_ai.tool.call.name"
    ∷ codes "gen_ai.tool.name"
    ∷ codes "gen_ai.tool.type"
    ∷ codes "gen_ai.tool.version"
    ∷ codes "host.name"
    ∷ codes "llm.provider"
    ∷ codes "llm.request.model"
    ∷ codes "llm.response.model"
    ∷ codes "mcp.server.id"
    ∷ codes "mcp.server.name"
    ∷ codes "mcp.server.provider"
    ∷ codes "mcp.server.url"
    ∷ codes "mcp.server.version"
    ∷ codes "mcp.method.name"
    ∷ codes "mcp.protocol.version"
    ∷ codes "mcp.tool.destructive"
    ∷ codes "mcp.tool.name"
    ∷ codes "mcp.tool.read_only"
    ∷ codes "mcp.tool.version"
    ∷ codes "mcp.transport"
    ∷ codes "model.digest"
    ∷ codes "network.transport"
    ∷ codes "otel.scope.name"
    ∷ codes "otel.scope.schema_url"
    ∷ codes "otel.scope.version"
    ∷ codes "otel.span.name"
    ∷ codes "server.address"
    ∷ codes "server.port"
    ∷ codes "service.name"
    ∷ codes "service.namespace"
    ∷ codes "service.version"
    ∷ codes "tool.name"
    ∷ []

-- The loop over the retained keys, with the map that it fills.
unfoldable pub retain : TextMap → List Text → TextMap → TextMap
retain attrs [] kept = kept
retain attrs (key ∷ keys) kept =
    let value = read_text (lookup key attrs) in
    retain attrs keys (if is_empty value then kept else put key value kept)

module _ (platform : Platform) where
  -- The content of a prompt leaves its presence and, under a key, its HMAC.
  unfoldable pub mark_prompt : (content : Text) (key : List ℕ) → TextMap → TextMap
  mark_prompt content key kept =
      if is_empty content
      then kept
      else let present = put prompt_content_present_attribute (codes "true") kept in
        if is_empty key
        then present
        else put prompt_hmac_attribute (hex_encode (platform.hmac_sha256 key content)) present

  unfoldable pub metadata_only_observation : Observation → (key : List ℕ) → Observation
  unfolding retain mark_prompt
  metadata_only_observation observation key =
      let kept = retain observation.attributes retained_observation_attributes [] in
      let content =
        first observation.attributes
          (codes "gen_ai.system_instructions" ∷ codes "gen_ai.prompt" ∷ []) in
      record observation { attributes = mark_prompt content key kept }
