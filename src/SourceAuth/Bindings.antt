-- ===== src/SourceAuth/Bindings.antt =====
-- Which source a token authenticates.
use mathlib.Core.List.{Memᴰ}
use ai_evidence_bom.Prelude.{
  ℕ, ◌+◌, ◌≤◌, ◌≡◌, ◌↔◌, refl, ap, Bool, true, false, List, [], ◌∷◌, some, arith, is_empty, ◌⊎◌,
  inl, inr, Bool-cases, Option-cases, ltb, ltb→le, subst,
}
use ai_evidence_bom.Text.{Text, trim_space, byte_length}
use ai_evidence_bom.Text.Order.{text_order, text_eq_iff}
use ai_evidence_bom.Maps.{elem, add}
use ai_evidence_bom.Maps.Laws.{elem-add}
use ai_evidence_bom.SourceAuth.{
  Binding, Policy, Verdict, validate, validate_bindings, is_digest, hex_decode, policy_version,
  matches_binding, scan_bindings, authenticate, minimum_credential_bytes,
}
use ai_evidence_bom.SourceAuth.Hex.{to_lower-IsLowercase, hex_decode-injective}

-- The bindings of an accepted policy, after those whose digests are `seen`.
abbrev pub AreSound : List Text → List Binding → Type 0
AreSound seen [] = Unit
AreSound seen (b ∷ bs) =
    (trim_space b.source ≡ b.source)
    × (is_empty b.source ≡ false)
    × (is_digest b.token_sha256 ≡ true)
    × (elem b.token_sha256 seen ≡ false)
    × AreSound (add b.token_sha256 seen) bs

validate_bindings_iff :
    (index : ℕ) (seen : List Text) (bs : List Binding)
    → (validate_bindings index seen bs ≡ Verdict.accepted) ↔ AreSound seen bs
unfolding validate_bindings
validate_bindings_iff index seen [] = ground arith
validate_bindings_iff index seen (b ∷ bs) = ground (
  arith,
  validate_bindings_iff (index + 1) (add b.token_sha256 seen) bs,
  text_eq_iff (trim_space b.source) b.source,
)

-- A source authentication policy is accepted exactly where it is the zero value, or has the supported version and at least
-- one binding, whose sources are exact and whose digests are well formed and distinct.
pub validate_auth_iff :
    (policy : Policy)
    → (validate policy ≡ Verdict.accepted) ↔ (
        ((policy.version ≡ []) × (policy.bindings ≡ []))
        ⊎ ((policy.version ≡ policy_version)
            × (is_empty policy.bindings ≡ false)
            × AreSound [] policy.bindings))
unfolding validate
validate_auth_iff policy =
    ground
      (arith, validate_bindings_iff 0 [] policy.bindings, text_eq_iff policy.version policy_version)

pub sound_of_accepted :
    (policy : Policy) → validate policy ≡ Verdict.accepted → AreSound [] policy.bindings
sound_of_accepted policy h = elim ((validate_auth_iff policy).0 h) [
  | inl e ↦ rw (e.1) tt
  | inr e ↦ e.2
]

-- Whether the digest is that of a binding.
abbrev pub IsDigestOf : List ℕ → Binding → Type 0
IsDigestOf digest b = hex_decode b.token_sha256 ≡ some digest

matches_binding_iff :
    (digest : List ℕ) (b : Binding) → (matches_binding digest b ≡ true) ↔ IsDigestOf digest b
unfolding matches_binding
matches_binding_iff digest b = elim (Option-cases (hex_decode b.token_sha256)) [
  | inl e ↦ ground arith
  | inr (bytes, e) ↦ ground (arith, text_eq_iff digest bytes)
]

-- Two well-formed digests that decode alike are one text.
same_digest :
    (digest : List ℕ) (b c : Binding)
    → is_digest b.token_sha256 ≡ true
    → is_digest c.token_sha256 ≡ true
    → IsDigestOf digest b
    → IsDigestOf digest c
    → b.token_sha256 ≡ c.token_sha256
unfolding is_digest
same_digest digest b c u v p q =
    hex_decode-injective b.token_sha256 c.token_sha256 digest
      (to_lower-IsLowercase b.token_sha256 (ground arith))
      (to_lower-IsLowercase c.token_sha256 (ground arith)) p q

-- The loop without a match leaves its variables alone.
scan_no_match :
    (digest : List ℕ) (seen : List Text) (bs : List Binding) (b : Binding) (source : Text)
    → is_digest b.token_sha256 ≡ true
    → IsDigestOf digest b
    → AreSound seen bs
    → elem b.token_sha256 seen ≡ true
    → scan_bindings digest bs source true ≡ (source, true)
unfolding scan_bindings
scan_no_match digest seen [] b source u p s m = refl
scan_no_match digest seen (c ∷ bs) b source u p s m = ground (
  arith,
  matches_binding_iff digest c,
  same_digest digest b c u s.2 p,
  scan_no_match digest (add c.token_sha256 seen) bs b source u p s.4,
  elem-add c.token_sha256 b.token_sha256 seen,
)

-- The loop ends with the source of the binding that matches.
scan_match :
    (digest : List ℕ) (seen : List Text) (bs : List Binding) (b : Binding)
    → Memᴰ b bs
    → IsDigestOf digest b
    → AreSound seen bs
    → (source : Text) (matched : Bool) → scan_bindings digest bs source matched ≡ (b.source, true)
unfolding scan_bindings
scan_match digest seen [] b m p s source matched = elim m [ ]
scan_match digest seen (c ∷ bs) b (Memᴰ.head e) p s source matched =
    let q = subst (IsDigestOf digest) e p in
    ground (
      arith,
      (matches_binding_iff digest c).1 q,
      scan_no_match digest (add c.token_sha256 seen) bs c c.source s.2 q s.4,
      elem-add c.token_sha256 c.token_sha256 seen,
      text_eq_iff c.token_sha256 c.token_sha256,
      ap (λ (x : Binding). x.source) e,
    )
scan_match digest seen (c ∷ bs) b (Memᴰ.tail m) p s source matched =
    scan_match digest (add c.token_sha256 seen) bs b m p s.4 _ _

-- What the loop reports as matched is a binding's source, or was matched before.
scan_bindings-matched :
    (digest : List ℕ) (bs : List Binding) (source : Text) (matched : Bool) (s : Text)
    → scan_bindings digest bs source matched ≡ (s, true)
    → ((matched ≡ true) × (s ≡ source))
      ⊎ ((b : Binding) × Memᴰ b bs × IsDigestOf digest b × (s ≡ b.source))
unfolding scan_bindings
scan_bindings-matched digest [] source matched s h = inl (ground arith, ground arith)
scan_bindings-matched digest (b ∷ bs) source matched s h =
    elim (Bool-cases (matches_binding digest b)) [
      | inl e ↦ elim (scan_bindings-matched digest bs b.source true s (ground arith)) [
        | inl k ↦ inr (b, Memᴰ.head refl, (matches_binding_iff digest b).0 e, k.1)
        | inr (c, m, d, k) ↦ inr (c, Memᴰ.tail m, d, k)
      ]
      | inr e ↦ elim (scan_bindings-matched digest bs source matched s (ground arith)) [
        | inl k ↦ inl k
        | inr (c, m, d, k) ↦ inr (c, Memᴰ.tail m, d, k)
      ]
    ]

module _ (sha256 : Text → List ℕ) where
  -- Under an accepted policy a token of at least 32 bytes whose hash is the digest of a binding
  -- authenticates that binding's source, wherever the binding stands.
  pub authenticate-bound :
      (policy : Policy) (token : Text) (b : Binding)
      → validate policy ≡ Verdict.accepted
      → minimum_credential_bytes ≤ byte_length token
      → Memᴰ b policy.bindings
      → IsDigestOf (sha256 token) b
      → authenticate sha256 policy token ≡ (b.source, true)
  unfolding authenticate
  authenticate-bound policy token b h long m d = ground (
    arith,
    scan_match (sha256 token) [] policy.bindings b m d (sound_of_accepted policy h) [] false,
  )

  -- A token that authenticates a source has at least 32 bytes, and its hash is the digest of a binding
  -- of that source.
  pub authenticate_sound :
      (policy : Policy) (token source : Text)
      → authenticate sha256 policy token ≡ (source, true)
      → (minimum_credential_bytes ≤ byte_length token)
        × ((b : Binding) × Memᴰ b policy.bindings
            × IsDigestOf (sha256 token) b
            × (source ≡ b.source))
  unfolding authenticate
  authenticate_sound policy token source h =
      elim (Bool-cases (ltb (byte_length token) minimum_credential_bytes)) [
        | inl short ↦ absurd (ground arith)
        | inr long ↦ (
          ltb→le _ _ long,
          elim (scan_bindings-matched (sha256 token) policy.bindings [] false source
              (rw long at h)) [ inl k ↦ absurd (ground arith) | inr found ↦ found ],
        )
      ]
