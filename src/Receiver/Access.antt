-- ===== src/Receiver/Access.antt =====
-- internal/collector/receiver.go: who may read, and which source a request may speak for.
pub mod Authority
pub mod Headers
use ai_evidence_bom.Prelude.{
  ℕ, Bool, true, false, not, ◌&&◌, ◌||◌, List, [], ◌∷◌, Option, none, some, if◌then◌else◌, is_empty,
  map, ◌==◌, any,
}
use ai_evidence_bom.Text.{Text, codes, text_eq, trim_space}
use ai_evidence_bom.Observation.{Observation}
use ai_evidence_bom.Platform.{Platform, equal_fold}
use ai_evidence_bom.SourceAuth.{authenticate, enabled, protects}
use ai_evidence_bom.Receiver.Config.{Config}

-- `strings.SplitN(text, " ", 2)`, where it gives two parts.
unfoldable pub split_space : Text → Option (Text × Text)
split_space [] = none
split_space (c ∷ cs) =
    let rest = split_space cs in
    if c == 32 then some ([], cs) else (elim rest [ none ↦ none | some (a, b) ↦ some (c ∷ a, b) ])

module _ (platform : Platform) where
  -- `none` where the header has no bearer token.
  unfoldable pub bearer_token : Text → Option Text
  unfolding split_space
  bearer_token header = elim (split_space (trim_space header)) [
    | none ↦ none
    | some (scheme, rest) ↦
        if not (equal_fold platform.fold_rune scheme (codes "Bearer"))
        then none
        else if is_empty (trim_space rest)
        then none
        else some (trim_space rest)
  ]

  unfoldable pub authorized_read_header : Config → Text → Bool
  unfolding bearer_token
  authorized_read_header config header =
      if is_empty config.auth_token then true else elim (bearer_token header) [
        | none ↦ false
        | some token ↦ text_eq token config.auth_token
      ]

  -- The source that the header authenticates, which is empty for the global token, and whether the
  -- request may go on.
  unfoldable pub authorized_ingest_header : Config → Text → Text × Bool
  authorized_ingest_header config header =
      if is_empty config.auth_token && not (enabled config.source_auth)
      then ([], true)
      else elim (bearer_token header) [
        | none ↦ ([], false)
        | some token ↦
            if not (is_empty config.auth_token) && text_eq token config.auth_token
            then ([], true)
            else authenticate platform.sha256 config.source_auth token
      ]

  -- The loop over the values of the metadata, with its two variables.
  unfoldable pub scan_headers : Config → List Text → Bool → Text → Text × Bool
  scan_headers config [] global_authorized authenticated =
      if is_empty authenticated then ([], global_authorized) else (authenticated, true)
  scan_headers config (value ∷ values) global_authorized authenticated =
      let (source, authorized) = authorized_ingest_header config value in
      elim authorized [
        | false ↦ scan_headers config values global_authorized authenticated
        | true ↦ elim (is_empty source) [
          | true ↦ scan_headers config values true authenticated
          | false ↦ elim (not (is_empty authenticated) && not (text_eq authenticated source)) [
            | true ↦ ([], false)
            | false ↦ scan_headers config values global_authorized source
          ]
        ]
      ]

  unfoldable pub authorized_grpc : Config → List Text → Text × Bool
  authorized_grpc config values =
      if is_empty config.auth_token && not (enabled config.source_auth)
      then ([], true)
      else scan_headers config values false []

-- The loop that looks for a source that needs a credential.
unfoldable pub claims_protected : Config → List Observation → Bool
claims_protected config [] = false
claims_protected config (o ∷ os) =
    protects config.source_auth o.source || claims_protected config os

-- `bound[index].Source = authenticatedSource`.
abbrev pub speak_for : Text → Observation → Observation
speak_for authenticated o = record o { source = authenticated }

-- What `acceptAuthenticated` hands on, or `none` for `errSourceCredentialRequired`.
unfoldable pub bind_source :
    Config → List Observation → (source authenticated : Text) → Option (List Observation × Text)
unfolding claims_protected
bind_source config observations source authenticated =
    if not (is_empty authenticated)
    then some (map (speak_for authenticated) observations, authenticated)
    else if claims_protected config observations
    then none
    else some (observations, source)
