-- ===== src/Normalize/Context.antt =====
-- internal/normalize/context.go: the identity of the agent behind an observation.
use ai_evidence_bom.Prelude.{Bool, true, not, ◌&&◌, ◌||◌, [], ◌∷◌, ◌++◌, if◌then◌else◌, is_empty}
use ai_evidence_bom.Text.{Text, codes, text_eq, trim_space, to_lower}
use ai_evidence_bom.Text.Order.{text_order}
use ai_evidence_bom.Maps.{lookup, put}
use ai_evidence_bom.Model.Graph.{TextMap}
use ai_evidence_bom.Observation.{Observation}
use ai_evidence_bom.Platform.{Platform, equal_fold, read_text}
use ai_evidence_bom.Normalize.{first, first_non_empty}

pub record AgentContext : Type 0 where
  pub id : Text
  pub name : Text
  pub version : Text

unfoldable pub is_empty_context : AgentContext → Bool
is_empty_context context = is_empty context.id && is_empty context.name

-- What `gen_ai` and `agent` attributes say, completed by the Dify application.
unfoldable pub explicit_context : TextMap → AgentContext
explicit_context attrs =
    let id = first attrs (codes "gen_ai.agent.id" ∷ []) in
    let name = first attrs (codes "gen_ai.agent.name" ∷ codes "agent.name" ∷ []) in
    let version = first attrs (codes "gen_ai.agent.version" ∷ []) in
    let dify = first attrs (codes "dify.app_id" ∷ []) in
    record {
      id = if not (is_empty dify) && is_empty id then dify else id;
      name =
          if not (is_empty dify) && is_empty name
          then first_non_empty (first attrs (codes "dify.app_name" ∷ []) ∷ dify ∷ [])
          else name;
      version = version;
    }

unfoldable pub direct_agent_context : TextMap → AgentContext
unfolding explicit_context
direct_agent_context attrs =
    let context = explicit_context attrs in
    let name = if is_empty context.name then context.id else context.name in
    record context { name = name; id = if is_empty context.id then name else context.id }

-- `if attributes[key] == "" { attributes[key] = value }`.
unfoldable pub put_missing : Text → Text → TextMap → TextMap
put_missing key value attrs =
    if is_empty (read_text (lookup key attrs)) then put key value attrs else attrs

unfoldable pub apply_agent_context : Observation → AgentContext → Observation
unfolding put_missing
apply_agent_context observation context =
    let named =
      put_missing (codes "gen_ai.agent.name") context.name
        (put_missing (codes "gen_ai.agent.id") context.id observation.attributes) in
    record observation {
      attributes =
          if is_empty context.version
          then named
          else put_missing (codes "gen_ai.agent.version") context.version named;
    }

module _ (platform : Platform) where
  unfoldable pub is_concrete_model_span : TextMap → Bool
  is_concrete_model_span attrs =
      if equal_fold platform.fold_rune (first attrs (codes "gen_ai.span.kind" ∷ [])) (codes "llm")
      then true
      else let operation =
          to_lower platform.lower_rune (first attrs (codes "gen_ai.operation.name" ∷ [])) in
        text_eq operation (codes "chat")
        || text_eq operation (codes "text_completion")
        || text_eq operation (codes "generate_content")
        || text_eq operation (codes "embeddings")

  unfoldable pub trace_span_key : (trace_id span_id : Text) → Text
  trace_span_key trace_id span_id =
      let trace = to_lower platform.lower_rune (trim_space trace_id) in
      let span = to_lower platform.lower_rune (trim_space span_id) in
      if is_empty trace || is_empty span then [] else trace ++ 0 ∷ span
