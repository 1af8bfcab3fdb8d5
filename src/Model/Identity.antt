-- ===== src/Model/Identity.antt =====
-- internal/model/model.go: the IDs of nodes and edges.
use ai_evidence_bom.Prelude.{◌∷◌, ◌++◌, take}
use ai_evidence_bom.Text.{Text, codes, trim_space, to_lower}
use ai_evidence_bom.Platform.{Platform, hex_encode}

module _ (platform : Platform) where
  abbrev pub normal_part : Text → Text
  normal_part part = to_lower platform.lower_rune (trim_space part)

  unfoldable pub stable_node_id : (node_type provider name : Text) → Text
  stable_node_id node_type provider name =
      let identity = normal_part node_type ++ 0 ∷ (normal_part provider ++ 0 ∷ normal_part name) in
      node_type ++ b':' ∷ hex_encode (take 12 (platform.sha256 identity))

  unfoldable pub stable_edge_id : (from relation to : Text) → Text
  stable_edge_id from relation to =
      codes "edge:" ++ hex_encode (take 12 (platform.sha256 (from ++ 0 ∷ (relation ++ 0 ∷ to))))
