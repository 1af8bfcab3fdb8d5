-- ===== src/Model/Invariant/Claims.antt =====
-- Adding claims and upgrading a node, for a closed property of its evidence.
use ai_evidence_bom.Prelude.{List, [], ◌∷◌, Bool-cases, inl, inr, is_empty, ◌||◌, if◌then◌else◌}
use ai_evidence_bom.Text.{Text, text_eq, trim_space}
use ai_evidence_bom.Time.{zero_time}
use ai_evidence_bom.Model.Evidence.{EvidenceSummary}
use ai_evidence_bom.Model.Graph.{
  FieldValueEvidence, FieldEvidence, Node, TextMap, field_version, field_digest, field_property,
}
use ai_evidence_bom.Model.Claims.{
  add_value, is_about, add_claim, add_field_evidence, has_field_value, ensure_value,
  ensure_versions, ensure_entries, ensure_field_evidence, legacy_field_evidence,
}
use ai_evidence_bom.Model.Invariant.{IsClosed, ValuesHold, ClaimsHold, NodeHolds}

module _ (P : EvidenceSummary → Type 0) (closed : IsClosed P) where
  add_value-holds :
      (value : Text) (e : EvidenceSummary) (vs : List FieldValueEvidence)
      → P e
      → ValuesHold P vs
      → ValuesHold P (add_value value e vs)
  unfolding add_value
  add_value-holds value e [] p h = (p, tt)
  add_value-holds value e (v ∷ vs) p h = elim (Bool-cases (text_eq v.value value)) [
    | inl t ↦ rw t (closed.merged v.evidence e h.0 p, h.1)
    | inr f ↦ rw f (h.0, add_value-holds value e vs p h.1)
  ]

  add_claim-holds :
      (field key value : Text) (e : EvidenceSummary) (cs : List FieldEvidence)
      → P e
      → ClaimsHold P cs
      → ClaimsHold P (add_claim field key value e cs)
  unfolding add_claim
  add_claim-holds field key value e [] p h = ((p, tt), tt)
  add_claim-holds field key value e (c ∷ cs) p h = elim (Bool-cases (is_about field key c)) [
    | inl t ↦ rw t (add_value-holds value e c.values p h.0, h.1)
    | inr f ↦ rw f (h.0, add_claim-holds field key value e cs p h.1)
  ]

  pub add_field_evidence-holds :
      (n : Node) (field key value : Text) (e : EvidenceSummary)
      → P e
      → NodeHolds P n
      → NodeHolds P (add_field_evidence n field key value e)
  unfolding add_field_evidence
  add_field_evidence-holds n field key value e p h =
      elim (Bool-cases (is_empty (trim_space field) || is_empty (trim_space value))) [
        | inl t ↦ rw t h
        | inr f ↦ rw f (record {
          summary = h.summary;
          claims =
              add_claim-holds (trim_space field) (trim_space key) (trim_space value) e
                n.field_evidence p h.claims;
        })
      ]

  ensure_value-holds :
      (field key value : Text) (e : EvidenceSummary) (n : Node)
      → P e
      → NodeHolds P n
      → NodeHolds P (ensure_value field key value e n)
  unfolding ensure_value
  ensure_value-holds field key value e n p h =
      elim (Bool-cases (has_field_value n field key value)) [
        | inl t ↦ rw t h
        | inr f ↦ rw f (add_field_evidence-holds n field key value e p h)
      ]

  ensure_versions-holds :
      (vs : List Text) (e : EvidenceSummary) (n : Node)
      → P e
      → NodeHolds P n
      → NodeHolds P (ensure_versions vs e n)
  unfolding ensure_versions
  ensure_versions-holds [] e n p h = h
  ensure_versions-holds (v ∷ vs) e n p h = elim (Bool-cases (is_empty v)) [
    | inl t ↦ rw t (ensure_versions-holds vs e n p h)
    | inr f ↦ rw f (ensure_versions-holds vs e _ p (ensure_value-holds field_version [] v e n p h))
  ]

  ensure_entries-holds :
      (field : Text) (entries : TextMap) (e : EvidenceSummary) (n : Node)
      → P e
      → NodeHolds P n
      → NodeHolds P (ensure_entries field entries e n)
  unfolding ensure_entries
  ensure_entries-holds field [] e n p h = h
  ensure_entries-holds field ((key, value) ∷ entries) e n p h =
      ensure_entries-holds field entries e _ p (ensure_value-holds field key value e n p h)

  ensure_version-holds :
      (e : EvidenceSummary) (n : Node)
      → P e
      → NodeHolds P n
      → NodeHolds P (if is_empty n.version then n else ensure_value field_version [] n.version e n)
  ensure_version-holds e n p h = elim (Bool-cases (is_empty n.version)) [
    | inl t ↦ rw t h
    | inr f ↦ rw f (ensure_value-holds field_version [] n.version e n p h)
  ]

  pub ensure_field_evidence-holds :
      (n : Node) → NodeHolds P n → NodeHolds P (ensure_field_evidence n)
  unfolding ensure_field_evidence legacy_field_evidence
  ensure_field_evidence-holds n h =
      let p = closed.legacy n.evidence n.evidence.first_seen n.evidence.last_seen h.summary in
      let q = closed.legacy n.evidence zero_time zero_time h.summary in
      ensure_entries-holds field_property n.properties _ _ p (
        ensure_entries-holds field_digest n.digests _ _ p
          (ensure_versions-holds n.observed_versions _ _ q (ensure_version-holds _ n p h)))
