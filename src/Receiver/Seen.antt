-- ===== src/Receiver/Seen.antt =====
-- internal/collector/receiver.go: the window of spans that the receiver has seen, the part of
-- `acceptBound` that drops duplicates, and `trimDedupe`.
pub mod Window
pub mod Kept
pub mod Fifo
use ai_evidence_bom.Prelude.{
  ℕ, ◌+◌, ◌-◌, ◌%◌, ◌^◌, Bool, ◌||◌, List, [], ◌∷◌, ◌++◌, if◌then◌else◌, is_empty, length, take,
  drop, ltb,
}
use ai_evidence_bom.Text.{Text, text_eq, to_lower}
use ai_evidence_bom.Text.Order.{text_order}
use ai_evidence_bom.Maps.{elem, add, delete}
use ai_evidence_bom.Model.Evidence.{add_int}
use ai_evidence_bom.Observation.{Observation}
use ai_evidence_bom.Platform.{Platform}
use ai_evidence_bom.Normalize.Context.{AgentContext}

-- `delete(set, key)` on a set.
unfoldable pub discard : Text → List Text → List Text
discard key [] = []
discard key (k ∷ ks) = let rest = discard key ks in if text_eq k key then rest else k ∷ rest

pub record Seen : Type 0 where
  pub seen : List Text
  pub seen_order : List Text
  pub contexts : List (Text × AgentContext)

-- The variables of the loop over the observations: `duplicates` is what it adds to
-- `stats.DuplicateSpans`, a 64-bit count.
pub record Admission : Type 0 where
  pub state : Seen
  pub unique : List Observation
  pub duplicates : ℕ

module _ (platform : Platform) where
  unfoldable pub observation_key : Observation → Text
  observation_key o =
      if is_empty o.trace_id || is_empty o.span_id
      then []
      else to_lower platform.lower_rune o.trace_id ++ 0 ∷ to_lower platform.lower_rune o.span_id

  -- The body of the loop.
  unfoldable pub admit_one : Observation → Admission → Admission
  admit_one o a =
      let key = observation_key o in
      if is_empty key
      then record a { unique = a.unique ++ o ∷ [] }
      else if elem key a.state.seen
      then record a { duplicates = a.duplicates + 1 }
      else record a {
        state = record a.state {
          seen = add key a.state.seen;
          seen_order = a.state.seen_order ++ key ∷ [];
        };
        unique = a.unique ++ o ∷ [];
      }

  unfoldable pub admit : List Observation → Admission → Admission
  admit [] a = a
  admit (o ∷ os) a = admit os (admit_one o a)

-- The loop over the keys that leave the window.
unfoldable pub forget : List Text → Seen → Seen
unfolding discard
forget [] s = s
forget (key ∷ keys) s =
    forget keys (record s { seen = discard key s.seen; contexts = delete key s.contexts })

unfoldable pub trim_dedupe : ℕ → Seen → Seen
unfolding forget
trim_dedupe max_items s =
    let overflow = length s.seen_order - max_items in
    if ltb max_items (length s.seen_order)
    then record (forget (take overflow s.seen_order) s) { seen_order = drop overflow s.seen_order }
    else s
