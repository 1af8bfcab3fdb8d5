-- ===== src/Tests/Receivers.antt =====
-- A receiver of two sources, one of which needs a credential.
use ai_evidence_bom.Prelude.{
  ℕ, ◌+◌, ◌≤◌, ◌≡◌, refl, List, [], ◌∷◌, some, All, length, arith, ◌↔◌, true, all, any,
}
use ai_evidence_bom.Text.{Text, codes, text_eq, trim_space, byte_length, to_lower}
use ai_evidence_bom.Text.Order.{text_order}
use ai_evidence_bom.Time
use ai_evidence_bom.Maps.{elem}
use ai_evidence_bom.Model.Level.{rank, valid, evidence_observed, evidence_verified}
use ai_evidence_bom.Observation.{Observation}
use ai_evidence_bom.Platform.{Platform}
use ai_evidence_bom.Trust
use ai_evidence_bom.Trust.{apply}
use ai_evidence_bom.SourceAuth
use ai_evidence_bom.SourceAuth.{authenticate, protects, is_digest}
use ai_evidence_bom.Receiver.Config.{
  Config, Settings, check_config, check_policies, positive_or, created, unbound_rule,
}
use ai_evidence_bom.Integer
use ai_evidence_bom.Receiver.Access.{bind_source, authorized_grpc}
use ai_evidence_bom.Receiver.Access.Headers.{agrees, authenticates, authorized_grpc_iff}
use ai_evidence_bom.Receiver.Access.Authority.{bind_source-observed}
use ai_evidence_bom.Receiver.Seen.{Seen, Admission, admit, trim_dedupe}
use ai_evidence_bom.Receiver.Seen.Window.{IsWindow, admit-IsWindow, trim_dedupe-IsWindow}
use ai_evidence_bom.Tests.{ascii_only}

abbrev pub same_bytes : Text → List ℕ
same_bytes text = text

abbrev pub plain_platform : Platform
plain_platform = record {
  lower_rune = ascii_only;
  fold_rune = ascii_only;
  sha256 = same_bytes;
  hmac_sha256 = λ key text. text;
}

abbrev pub live_config : Config
live_config = record {
  graph_out = codes "graph.json";
  bom_out = [];
  source = codes "live";
  auth_token = [];
  sensitive_hmac_key = [];
  source_auth = record {
    version = SourceAuth.policy_version;
    bindings =
        record {
          source = codes "ci";
          token_sha256 = codes "6161616161616161616161616161616161616161616161616161616161616161";
        }
        ∷ [];
  };
  source_trust = record {
    version = Trust.policy_version;
    sources = record { source = codes "ci"; max_evidence = evidence_verified } ∷ [];
  };
  max_request_bytes = Integer.pos 0;
  max_dedupe_items = Integer.pos 2;
}

abbrev pub live_settings : Settings
live_settings = record { config = live_config; request_bytes = 67108864; dedupe_items = 2 }

pub live_config-created : check_config same_bytes live_config ≡ created live_settings
unfolding check_config trim_space positive_or check_policies Trust.validate text_eq valid elem
    SourceAuth.validate byte_length to_lower authenticate unbound_rule rank protects
live_config-created = refl

abbrev pub claimed_span : Text → Observation
claimed_span span = record {
  timestamp = Time.pos 3;
  level = evidence_verified;
  source = codes "app";
  trace_id = codes "t";
  span_id = span;
  parent_span_id = [];
  attributes = [];
}

abbrev pub claimed_spans : List Observation
claimed_spans = claimed_span (codes "1") ∷ claimed_span (codes "2") ∷ claimed_span (codes "1") ∷ []

claimed_spans-bound :
    bind_source live_settings.config claimed_spans (codes "app") []
    ≡ some (claimed_spans, codes "app")
unfolding bind_source protects text_eq
claimed_spans-bound = refl

bind_source-observed_example :
    All
      (λ o. rank o.level ≤ rank evidence_observed)
      (apply live_settings.config.source_trust claimed_spans).observations
bind_source-observed_example =
    bind_source-observed same_bytes live_config live_settings claimed_spans (codes "app")
      live_config-created claimed_spans-bound

abbrev pub full_window : Seen
full_window = record {
  seen = codes "c" ∷ codes "b" ∷ codes "a" ∷ [];
  seen_order = codes "a" ∷ codes "b" ∷ codes "c" ∷ [];
  contexts = [];
}

pub full_window-IsWindow : IsWindow full_window
unfolding elem text_eq
full_window-IsWindow = record { distinct = (refl, (refl, (refl, tt))); listed = λ k. ground arith }

trim_dedupe-IsWindow_example :
    IsWindow (trim_dedupe 2 full_window) × (length (trim_dedupe 2 full_window).seen_order ≤ 2)
trim_dedupe-IsWindow_example = trim_dedupe-IsWindow 2 full_window full_window-IsWindow

abbrev before_admission : Admission
before_admission = record { state = full_window; unique = []; duplicates = 0 }

admit-IsWindow_example :
    IsWindow (admit plain_platform claimed_spans before_admission).state
    × (length (admit plain_platform claimed_spans before_admission).unique
          + (admit plain_platform claimed_spans before_admission).duplicates
        ≡ length before_admission.unique + before_admission.duplicates + length claimed_spans)
admit-IsWindow_example =
    admit-IsWindow plain_platform claimed_spans before_admission full_window-IsWindow

abbrev ci_header : Text
ci_header = codes "Bearer aaaaaaaaaaaaaaaaaaaaaaaaaaaaaaaa"

authorized_grpc_iff_example :
    (authorized_grpc plain_platform live_config (codes "Basic x" ∷ ci_header ∷ [])
      ≡ (codes "ci", true))
    ↔ ((all (agrees plain_platform live_config (codes "ci")) (codes "Basic x" ∷ ci_header ∷ [])
          ≡ true)
        × (any
              (authenticates plain_platform live_config (codes "ci"))
              (codes "Basic x" ∷ ci_header ∷ [])
            ≡ true))
authorized_grpc_iff_example =
    authorized_grpc_iff plain_platform live_config (codes "ci") (codes "Basic x" ∷ ci_header ∷ [])
      refl
