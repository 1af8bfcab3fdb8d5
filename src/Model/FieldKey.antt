-- ===== src/Model/FieldKey.antt =====
-- internal/model/model.go: `fieldKey`, the comparable pair by which claims are grouped, and the
-- comparator by which they are sorted.
use ai_evidence_bom.Prelude.{Bool, ◌&&◌, ◌≡◌, ◌↔◌, true, false, if◌then◌else◌, arith, LinearOrder}
use ai_evidence_bom.Text.{Text, text_eq, text_less}
use ai_evidence_bom.Text.Order.{
  text_order, text_eq_iff, text_less_irrefl, text_less_trans, text_less_total,
}
use ai_evidence_bom.Model.Graph.{FieldEvidence}

abbrev pub FieldKey : Type 0
FieldKey = Text × Text

abbrev pub claim_key : FieldEvidence → FieldKey
claim_key claim = (claim.field, claim.key)

unfoldable pub less_key : FieldKey → FieldKey → Bool
less_key a b = if text_eq a.0 b.0 then text_less a.1 b.1 else text_less a.0 b.0

-- The comparator of the claims.
abbrev pub less_claim : FieldEvidence → FieldEvidence → Bool
less_claim a b = less_key (claim_key a) (claim_key b)

unfoldable pub key_eq : FieldKey → FieldKey → Bool
key_eq a b = text_eq a.0 b.0 && text_eq a.1 b.1

pub key_eq_iff : (a b : FieldKey) → (key_eq a b ≡ true) ↔ (a ≡ b)
unfolding key_eq
key_eq_iff a b = ground (arith, text_eq_iff a.0 b.0, text_eq_iff a.1 b.1)

pub less_key_irrefl : (a : FieldKey) → less_key a a ≡ false
unfolding less_key
less_key_irrefl a = ground (arith, text_less_irrefl a.0, text_less_irrefl a.1)

pub less_key_trans :
    (a b c : FieldKey) → less_key a b ≡ true → less_key b c ≡ true → less_key a c ≡ true
unfolding less_key
less_key_trans a b c h k = ground (
  arith,
  text_eq_iff a.0 b.0,
  text_eq_iff b.0 c.0,
  text_eq_iff a.0 c.0,
  text_less_trans a.0 b.0 c.0,
  text_less_trans a.1 b.1 c.1,
  text_less_irrefl a.0,
  text_less_trans b.0 a.0 b.0,
  text_less_irrefl b.0,
)

pub less_key_total : (a b : FieldKey) → less_key a b ≡ false → less_key b a ≡ false → a ≡ b
unfolding less_key
less_key_total a b h k = ground (
  arith,
  text_eq_iff a.0 b.0,
  text_eq_iff b.0 a.0,
  text_less_total a.0 b.0,
  text_less_total a.1 b.1,
)

instance abbrev pub field_key_order : LinearOrder FieldKey
field_key_order = record {
  beq = key_eq;
  less = less_key;
  beq_iff = key_eq_iff;
  irrefl = less_key_irrefl;
  trans = less_key_trans;
  total = less_key_total;
}
