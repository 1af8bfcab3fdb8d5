-- ===== src/Receiver/Access/Headers.antt =====
-- The credentials of a request with several headers.
use ai_evidence_bom.Prelude.{
  ◌≡◌, ◌↔◌, ◌⊎◌, refl, Bool, true, false, not, ◌&&◌, ◌||◌, List, [], ◌∷◌, arith, is_empty, any, all,
}
use ai_evidence_bom.Text.{Text, text_eq}
use ai_evidence_bom.Text.Order.{text_order, text_eq_iff}
use ai_evidence_bom.Platform.{Platform}
use ai_evidence_bom.SourceAuth.{enabled}
use ai_evidence_bom.Receiver.Config.{Config}
use ai_evidence_bom.Receiver.Access.{authorized_ingest_header, scan_headers, authorized_grpc}

module _ (platform : Platform) (config : Config) (source : Text) where
  -- The header authenticates the source.
  abbrev pub authenticates : Text → Bool
  authenticates value =
      let (found, authorized) = authorized_ingest_header platform config value in
      authorized && text_eq found source

  -- The header authenticates no other source.
  abbrev pub agrees : Text → Bool
  agrees value =
      let (found, authorized) = authorized_ingest_header platform config value in
      not authorized || (is_empty found || text_eq found source)

  scan_headers-agrees :
      (values : List Text) (global : Bool) (before : Text)
      → is_empty source ≡ false
      → scan_headers platform config values global before ≡ (source, true)
      → (all agrees values ≡ true)
        × ((before ≡ source) ⊎ (any authenticates values ≡ true))
        × ((is_empty before ≡ true) ⊎ (before ≡ source))
  unfolding scan_headers
  scan_headers-agrees [] global before s h = ground arith
  scan_headers-agrees (value ∷ values) global before s h =
      let (found, authorized) = authorized_ingest_header platform config value in
      ground (
        arith,
        scan_headers-agrees values global before s,
        scan_headers-agrees values true before s,
        scan_headers-agrees values global found s,
        text_eq_iff found source,
        text_eq_iff before found,
      )

  scan_headers-of_agrees :
      (values : List Text) (global : Bool) (before : Text)
      → is_empty source ≡ false
      → all agrees values ≡ true
      → (before ≡ source) ⊎ ((is_empty before ≡ true) × (any authenticates values ≡ true))
      → scan_headers platform config values global before ≡ (source, true)
  unfolding scan_headers
  scan_headers-of_agrees [] global before s a h = ground arith
  scan_headers-of_agrees (value ∷ values) global before s a h =
      let (found, authorized) = authorized_ingest_header platform config value in
      ground (
        arith,
        scan_headers-of_agrees values global before s,
        scan_headers-of_agrees values true before s,
        scan_headers-of_agrees values global found s,
        text_eq_iff found source,
        text_eq_iff before found,
      )

  open_authenticates :
      (values : List Text)
      → is_empty source ≡ false
      → is_empty config.auth_token && not (enabled config.source_auth) ≡ true
      → any authenticates values ≡ false
  unfolding authorized_ingest_header
  open_authenticates [] s h = refl
  open_authenticates (value ∷ values) s h =
      ground (arith, open_authenticates values s h, text_eq_iff [] source)

  -- The headers of a gRPC request authenticate a source exactly where one of them does and none of them
  -- authenticates another source.
  pub authorized_grpc_iff :
      (values : List Text)
      → is_empty source ≡ false
      → (authorized_grpc platform config values ≡ (source, true))
        ↔ ((all agrees values ≡ true) × (any authenticates values ≡ true))
  unfolding authorized_grpc
  authorized_grpc_iff values s = ground (
    arith,
    scan_headers-agrees values false [] s,
    scan_headers-of_agrees values false [] s,
    open_authenticates values s,
  )
