-- ===== src/Normalize/Inputs.antt =====
-- internal/normalize/normalize.go: the nodes that `addObservation` reads from the attributes of an
-- observation. `none` stands for a node that the observation does not report.
use ai_evidence_bom.Prelude.{
  ℕ, Bool, not, ◌&&◌, ◌||◌, List, [], ◌∷◌, Option, none, some, if◌then◌else◌, is_empty,
}
use ai_evidence_bom.Text.{Text, codes, text_eq}
use ai_evidence_bom.Model.Graph.{TextMap}
use ai_evidence_bom.Platform.{Platform, trim_prefix, hex_encode}
use ai_evidence_bom.Normalize.{
  first, first_non_empty, selected, truth, has_gen_ai_attributes, span_entity_name,
}
use ai_evidence_bom.Normalize.Privacy.{prompt_content_present_attribute, prompt_hmac_attribute}

pub record NodeInput : Type 0 where
  pub node_type : Text
  pub name : Text
  pub identity : Text
  pub version : Text
  pub provider : Text
  pub digests : TextMap
  pub properties : TextMap

abbrev pub operation_of : TextMap → Text
operation_of attrs = first attrs (codes "gen_ai.operation.name" ∷ [])

abbrev pub span_name_of : TextMap → Text
span_name_of attrs = first attrs (codes "otel.span.name" ∷ [])

abbrev pub provider_of : TextMap → Text
provider_of attrs =
    first attrs (codes "gen_ai.provider.name" ∷ codes "gen_ai.system" ∷ codes "llm.provider" ∷ [])

abbrev pub service_name_of : TextMap → Text
service_name_of attrs =
    first attrs (codes "service.name" ∷ codes "service.namespace" ∷ codes "host.name" ∷ [])

-- The name of the agent, before the service's name takes its place.
unfoldable pub named_agent : TextMap → Text
named_agent attrs =
    let name = first attrs (codes "gen_ai.agent.name" ∷ codes "agent.name" ∷ []) in
    if is_empty name && text_eq (operation_of attrs) (codes "invoke_agent")
    then span_entity_name (span_name_of attrs) (codes "invoke_agent")
    else name

-- Whether the service's name takes its place.
unfoldable pub is_service_agent : TextMap → Bool
unfolding named_agent
is_service_agent attrs =
    is_empty (named_agent attrs)
    && has_gen_ai_attributes attrs
    && is_empty (first attrs (codes "aiebom.mcp.discovery.source" ∷ []))

unfoldable pub agent_input : TextMap → Option NodeInput
unfolding is_service_agent
agent_input attrs =
    let name = if is_service_agent attrs then service_name_of attrs else named_agent attrs in
    let version = first attrs (codes "gen_ai.agent.version" ∷ []) in
    if is_empty name
    then none
    else some (record {
      node_type = codes "agent";
      name = name;
      identity = first_non_empty (first attrs (codes "gen_ai.agent.id" ∷ []) ∷ name ∷ []);
      version =
          if is_empty version && is_service_agent attrs
          then first attrs (codes "service.version" ∷ [])
          else version;
      provider = first attrs (codes "gen_ai.agent.provider" ∷ codes "service.namespace" ∷ []);
      digests = [];
      properties = selected attrs (
          codes "gen_ai.agent.id"
          ∷ codes "gen_ai.framework"
          ∷ codes "dify.app_id"
          ∷ codes "dify.workflow_id"
          ∷ codes "deployment.environment.name"
          ∷ codes "service.namespace"
          ∷ codes "otel.scope.name"
          ∷ codes "otel.scope.version"
          ∷ codes "otel.scope.schema_url"
          ∷ []);
    })

-- `digests["sha256"]`, where there is a digest.
abbrev pub sha256_digest : Text → TextMap
sha256_digest digest =
    if is_empty digest then [] else (codes "sha256", trim_prefix digest (codes "sha256:")) ∷ []

unfoldable pub model_input : TextMap → Option NodeInput
model_input attrs =
    let requested =
      first attrs
        (codes "gen_ai.request.model" ∷ codes "llm.request.model" ∷ codes "gen_ai.model" ∷ []) in
    let response = first attrs (codes "gen_ai.response.model" ∷ codes "llm.response.model" ∷ []) in
    let name = first_non_empty (requested ∷ response ∷ []) in
    if is_empty name
    then none
    else some (record {
      node_type = codes "model";
      name = name;
      identity = [];
      version = if not (is_empty response) && not (text_eq response name) then response else [];
      provider = provider_of attrs;
      digests =
          sha256_digest (first attrs (codes "gen_ai.model.digest" ∷ codes "model.digest" ∷ []));
      properties = selected attrs (
          codes "gen_ai.operation.name"
          ∷ codes "gen_ai.request.encoding_formats"
          ∷ codes "gen_ai.response.finish_reasons"
          ∷ codes "server.address"
          ∷ codes "server.port"
          ∷ codes "otel.scope.name"
          ∷ codes "otel.scope.version"
          ∷ codes "otel.scope.schema_url"
          ∷ []);
    })

abbrev pub mcp_name_of : TextMap → Text
mcp_name_of attrs = first attrs (
    codes "aiebom.mcp.server.name"
    ∷ codes "aiebom.mcp.server.id"
    ∷ codes "mcp.server.name"
    ∷ codes "mcp.server.id"
    ∷ codes "mcp.server.url"
    ∷ [])

unfoldable pub mcp_input : TextMap → Option NodeInput
mcp_input attrs =
    let name = mcp_name_of attrs in
    if is_empty name
    then none
    else some (record {
      node_type = codes "mcp_server";
      name = name;
      identity =
          first_non_empty
            (first attrs (codes "aiebom.mcp.server.id" ∷ codes "mcp.server.id" ∷ []) ∷ name ∷ []);
      version = first attrs (codes "aiebom.mcp.server.version" ∷ codes "mcp.server.version" ∷ []);
      provider =
          first attrs (codes "aiebom.mcp.server.provider" ∷ codes "mcp.server.provider" ∷ []);
      digests = sha256_digest (first attrs (codes "aiebom.artifact.sha256" ∷ []));
      properties = selected attrs (
          codes "aiebom.artifact.uri"
          ∷ codes "aiebom.mcp.server.identity_source"
          ∷ codes "aiebom.mcp.discovery.source"
          ∷ codes "mcp.protocol.version"
          ∷ codes "mcp.method.name"
          ∷ codes "mcp.server.url"
          ∷ codes "mcp.transport"
          ∷ codes "network.transport"
          ∷ codes "server.address"
          ∷ codes "server.port"
          ∷ []);
    })

unfoldable pub tool_input : TextMap → Option NodeInput
tool_input attrs =
    let named = first attrs (
      codes "gen_ai.tool.name"
      ∷ codes "gen_ai.tool.call.name"
      ∷ codes "tool.name"
      ∷ codes "mcp.tool.name"
      ∷ []) in
    let name =
      if is_empty named && text_eq (operation_of attrs) (codes "execute_tool")
      then span_entity_name (span_name_of attrs) (codes "execute_tool")
      else named in
    if is_empty name
    then none
    else some (record {
      node_type = codes "tool";
      name = name;
      identity = [];
      version = first attrs (
          codes "gen_ai.tool.version"
          ∷ codes "aiebom.mcp.tool.version"
          ∷ codes "mcp.tool.version"
          ∷ []);
      provider = first_non_empty (mcp_name_of attrs ∷ provider_of attrs ∷ []);
      digests = [];
      properties = selected attrs (
          codes "gen_ai.tool.type"
          ∷ codes "aiebom.mcp.discovery.source"
          ∷ codes "aiebom.mcp.tool.input_schema_sha256"
          ∷ codes "aiebom.mcp.tool.read_only"
          ∷ codes "aiebom.mcp.tool.destructive"
          ∷ codes "aiebom.mcp.tool.annotations_untrusted"
          ∷ codes "mcp.tool.read_only"
          ∷ codes "mcp.tool.destructive"
          ∷ codes "mcp.method.name"
          ∷ codes "mcp.protocol.version"
          ∷ codes "network.transport"
          ∷ []);
    })

unfoldable pub data_input : TextMap → Option NodeInput
data_input attrs =
    let name = first attrs (
      codes "gen_ai.data_source.id"
      ∷ codes "gen_ai.retrieval.data_source.id"
      ∷ codes "db.namespace"
      ∷ codes "data.source.name"
      ∷ []) in
    if is_empty name
    then none
    else some (record {
      node_type = codes "data_source";
      name = name;
      identity = [];
      version = [];
      provider = first attrs (codes "db.system.name" ∷ codes "server.address" ∷ []);
      digests = [];
      properties =
          selected attrs
            (codes "db.system.name" ∷ codes "server.address" ∷ codes "server.port" ∷ []);
    })

module _ (platform : Platform) (key : List ℕ) where
  -- The fingerprint of a prompt: the one that an attribute has, or the HMAC of the content.
  unfoldable pub prompt_digest : TextMap → Text
  prompt_digest attrs =
      let fingerprint = first attrs (prompt_hmac_attribute ∷ []) in
      let content = first attrs (codes "gen_ai.system_instructions" ∷ codes "gen_ai.prompt" ∷ []) in
      if not (is_empty fingerprint)
      then fingerprint
      else if not (is_empty content) && not (is_empty key)
      then hex_encode (platform.hmac_sha256 key content)
      else []

  unfoldable pub prompt_input : TextMap → Option NodeInput
  unfolding prompt_digest
  prompt_input attrs =
      let name =
        first attrs
          (codes "gen_ai.prompt.template.name" ∷ codes "gen_ai.prompt.template.id" ∷ []) in
      let content = first attrs (codes "gen_ai.system_instructions" ∷ codes "gen_ai.prompt" ∷ []) in
      let present =
        not (is_empty content)
        || text_eq (first attrs (prompt_content_present_attribute ∷ [])) (codes "true") in
      let digest = prompt_digest attrs in
      if is_empty name && not present
      then none
      else some (record {
        node_type = codes "prompt";
        name = if is_empty name then codes "system-instructions" else name;
        identity = [];
        version = first attrs (codes "gen_ai.prompt.template.version" ∷ []);
        provider = [];
        digests = if is_empty digest then [] else (codes "hmac-sha256", digest) ∷ [];
        properties =
            (codes "content.retained", codes "false")
            ∷ (codes "content.hashed", truth (not (is_empty digest)))
            ∷ [];
      })
