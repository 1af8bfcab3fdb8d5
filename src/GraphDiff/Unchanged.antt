-- ===== src/GraphDiff/Unchanged.antt =====
-- When `HasChanges` says that two snapshots do not differ.
use ai_evidence_bom.Prelude.{
  ◌+◌, ◌≡◌, refl, sym, ◌∙◌, ◌↔◌, Bool, true, false, List, [], ◌∷◌, Option, none, some, arith,
  Bool-cases, inl, inr, subst₂, length, is_empty,
}
use ai_evidence_bom.Text.{Text}
use ai_evidence_bom.Text.Order.{text_order, text_eq_iff}
use ai_evidence_bom.Time.{Instant}
use ai_evidence_bom.Maps.{lookup, put}
use ai_evidence_bom.Maps.Laws.{entry_key, lookup-put, put-IsDistinct}
use ai_evidence_bom.Maps.Last.{later, last_with, later-none}
use ai_evidence_bom.Sorting.{insert, sort_slice, by_key}
use ai_evidence_bom.Sorting.Keys.{IsDistinct}
use ai_evidence_bom.Model.Graph.{Node, Edge, Graph}
use ai_evidence_bom.GraphDiff.{
  Deeply, index_nodes, index_edges, changed_fields, node_change, edge_change, compare_entries,
  removed_entries, compare, has_changes,
}
use ai_evidence_bom.GraphDiff.Entries.{Agrees, all_agree, none_collected}

-- Two nodes that differ in no field that `Compare` looks at.
pub record AreAlike (deeply : Deeply) (b a : Node) : Type 0 where
  pub name : b.name ≡ a.name
  pub version : b.version ≡ a.version
  pub versions : deeply.versions b.observed_versions a.observed_versions ≡ true
  pub provider : b.provider ≡ a.provider
  pub digests : deeply.texts b.digests a.digests ≡ true
  pub properties : deeply.texts b.properties a.properties ≡ true
  pub claims : deeply.claims b.field_evidence a.field_evidence ≡ true
  pub level : b.evidence.level ≡ a.evidence.level

-- Both snapshots lack the node, or both have it and it is alike.
abbrev pub SameNode : Deeply → Option Node → Option Node → Type 0
SameNode deeply none none = Unit
SameNode deeply (some b) (some a) = AreAlike deeply b a
SameNode deeply _ _ = ⊥

abbrev pub SameEdge : Option Edge → Option Edge → Type 0
SameEdge none none = Unit
SameEdge (some b) (some a) = b.evidence.level ≡ a.evidence.level
SameEdge _ _ = ⊥

lookup-index_nodes :
    (id : Text) (out : List (Text × Node)) (ns : List Node)
    → lookup id (index_nodes out ns) ≡ later (last_with (λ n. n.id) id ns) (lookup id out)
unfolding index_nodes last_with later
lookup-index_nodes id out [] = refl
lookup-index_nodes id out (n ∷ ns) =
    ground (arith, lookup-index_nodes id (put n.id n out) ns, lookup-put n.id id n out)

lookup-index_edges :
    (id : Text) (out : List (Text × Edge)) (es : List Edge)
    → lookup id (index_edges out es) ≡ later (last_with (λ e. e.id) id es) (lookup id out)
unfolding index_edges last_with later
lookup-index_edges id out [] = refl
lookup-index_edges id out (e ∷ es) =
    ground (arith, lookup-index_edges id (put e.id e out) es, lookup-put e.id id e out)

index_nodes-IsDistinct :
    (out : List (Text × Node)) (ns : List Node)
    → IsDistinct entry_key out
    → IsDistinct entry_key (index_nodes out ns)
unfolding index_nodes
index_nodes-IsDistinct out [] d = d
index_nodes-IsDistinct out (n ∷ ns) d =
    index_nodes-IsDistinct (put n.id n out) ns (put-IsDistinct n.id n out d)

index_edges-IsDistinct :
    (out : List (Text × Edge)) (es : List Edge)
    → IsDistinct entry_key out
    → IsDistinct entry_key (index_edges out es)
unfolding index_edges
index_edges-IsDistinct out [] d = d
index_edges-IsDistinct out (e ∷ es) d =
    index_edges-IsDistinct (put e.id e out) es (put-IsDistinct e.id e out d)

length-insert {ℓ} :
    {B : Type ℓ} (less : B → B → Bool) (x : B) (xs : List B)
    → length (insert less x xs) ≡ length xs + 1
unfolding insert
length-insert less x [] = omega arith
length-insert less x (y ∷ ys) = ground (arith, length-insert less x ys)

-- Sorting leaves nothing exactly where there is nothing.
sort_slice-nothing_iff {ℓ} :
    {B : Type ℓ} (less : B → B → Bool) (xs : List B) → (length (sort_slice less xs) ≡ 0) ↔ (xs ≡ [])
unfolding sort_slice
sort_slice-nothing_iff less [] = ground arith
sort_slice-nothing_iff less (x ∷ xs) = ground (arith, length-insert less x (sort_slice less xs))

changed_fields-nothing :
    (deeply : Deeply) (b a : Node) → changed_fields deeply b a ≡ [] → AreAlike deeply b a
unfolding changed_fields
changed_fields-nothing deeply b a h = record {
  name = ground (arith, h, text_eq_iff b.name a.name);
  version = ground (arith, h, text_eq_iff b.version a.version);
  versions = ground (arith, h);
  provider = ground (arith, h, text_eq_iff b.provider a.provider);
  digests = ground (arith, h);
  properties = ground (arith, h);
  claims = ground (arith, h);
  level = ground (arith, h, text_eq_iff b.evidence.level a.evidence.level);
}

alike-changed_fields :
    (deeply : Deeply) (b a : Node) → AreAlike deeply b a → changed_fields deeply b a ≡ []
unfolding changed_fields
alike-changed_fields deeply b a h =
    rw
      (
        (text_eq_iff b.name a.name).1 h.name,
        (text_eq_iff b.version a.version).1 h.version,
        h.versions,
        (text_eq_iff b.provider a.provider).1 h.provider,
        h.digests,
        h.properties,
        h.claims,
        (text_eq_iff b.evidence.level a.evidence.level).1 h.level,
      )
      refl

last_node_lem :
    (id : Text) (ns : List Node) → lookup id (index_nodes [] ns) ≡ last_with (λ n. n.id) id ns
unfolding lookup
last_node_lem id ns = lookup-index_nodes id [] ns ∙ later-none (last_with (λ n. n.id) id ns)

last_edge_lem :
    (id : Text) (es : List Edge) → lookup id (index_edges [] es) ≡ last_with (λ e. e.id) id es
unfolding lookup
last_edge_lem id es = lookup-index_edges id [] es ∙ later-none (last_with (λ e. e.id) id es)

nil_of_is_empty {ℓ} : {A : Type ℓ} (xs : List A) → is_empty xs ≡ true → xs ≡ []
nil_of_is_empty [] h = refl
nil_of_is_empty (x ∷ xs) h = absurd (ground (arith, h))

nothing_changed :
    (deeply : Deeply) (id : Text) (b a : Node)
    → node_change deeply id b a ≡ none
    → changed_fields deeply b a ≡ []
unfolding node_change
nothing_changed deeply id b a h = elim (Bool-cases (is_empty (changed_fields deeply b a))) [
  | inl e ↦ nil_of_is_empty (changed_fields deeply b a) e
  | inr e ↦ absurd (ground (arith, h, e))
]

-- The changes that the loop looks for, as what the two nodes have in common.
node-Agrees_iff :
    (deeply : Deeply) (id : Text) (before after : Option Node)
    → Agrees (node_change deeply) id before after ↔ SameNode deeply before after
unfolding node_change
node-Agrees_iff deeply id none none = (λ h. h, λ h. h)
node-Agrees_iff deeply id none (some a) = (λ h. h, λ h. h)
node-Agrees_iff deeply id (some b) none = (λ h. h, λ h. h)
node-Agrees_iff deeply id (some b) (some a) = (
  λ h. changed_fields-nothing deeply b a (nothing_changed deeply id b a h),
  λ h. rw (alike-changed_fields deeply b a h) refl,
)

edge-Agrees_iff :
    (id : Text) (before after : Option Edge)
    → Agrees edge_change id before after ↔ SameEdge before after
unfolding edge_change
edge-Agrees_iff id none none = (λ h. h, λ h. h)
edge-Agrees_iff id none (some a) = (λ h. h, λ h. h)
edge-Agrees_iff id (some b) none = (λ h. h, λ h. h)
edge-Agrees_iff id (some b) (some a) = ground (arith, text_eq_iff b.evidence.level a.evidence.level)

-- Nothing is reported exactly where none of the loops collects anything.
has_changes_iff :
    (deeply : Deeply) (before after : Graph) (at : Instant)
    → let bn = index_nodes [] before.nodes in
      let an = index_nodes [] after.nodes in
      let be = index_edges [] before.edges in
      let ae = index_edges [] after.edges in
      (has_changes (compare deeply before after at) ≡ false) ↔ (
        (((compare_entries (node_change deeply) bn an).added ≡ [])
          × ((compare_entries (node_change deeply) bn an).changed ≡ [])
          × (removed_entries an bn ≡ []))
        × (((compare_entries edge_change be ae).added ≡ [])
            × ((compare_entries edge_change be ae).changed ≡ [])
            × (removed_entries ae be ≡ [])))
unfolding has_changes compare
has_changes_iff deeply before after at =
    let bn = index_nodes [] before.nodes in
    let an = index_nodes [] after.nodes in
    let be = index_edges [] before.edges in
    let ae = index_edges [] after.edges in
    let nodes = compare_entries (node_change deeply) bn an in
    let edges = compare_entries edge_change be ae in
    ground (
      arith,
      sort_slice-nothing_iff (by_key (λ n. n.id)) nodes.added,
      sort_slice-nothing_iff (by_key (λ n. n.id)) (removed_entries an bn),
      sort_slice-nothing_iff (by_key (λ c. c.id)) nodes.changed,
      sort_slice-nothing_iff (by_key (λ e. e.id)) edges.added,
      sort_slice-nothing_iff (by_key (λ e. e.id)) (removed_entries ae be),
      sort_slice-nothing_iff (by_key (λ c. c.id)) edges.changed,
    )

-- `HasChanges` is false exactly where no ID tells the snapshots apart. For every ID, the last nodes with
-- it are both missing, or agree in the name, version, provider and evidence level and deeply in the
-- observed versions, digests, properties and claims; and the last edges with it are both missing, or
-- agree in the evidence level.
pub compare-has_changes_iff :
    (deeply : Deeply) (before after : Graph) (at : Instant)
    → (has_changes (compare deeply before after at) ≡ false) ↔ (
        ((id : Text)
          → SameNode deeply
              (last_with (λ n. n.id) id before.nodes)
              (last_with (λ n. n.id) id after.nodes))
        × ((id : Text)
            → SameEdge
                (last_with (λ e. e.id) id before.edges)
                (last_with (λ e. e.id) id after.edges)))
compare-has_changes_iff deeply before after at =
    let bn = index_nodes [] before.nodes in
    let an = index_nodes [] after.nodes in
    let be = index_edges [] before.edges in
    let ae = index_edges [] after.edges in
    let (quiet, loud) = has_changes_iff deeply before after at in
    (
      λ h.
          let (nodes, edges) = quiet h in
          (
            λ id.
                subst₂ (SameNode deeply) (last_node_lem id before.nodes)
                  (last_node_lem id after.nodes)
                  ((node-Agrees_iff deeply id (lookup id bn) (lookup id an)).0
                    (all_agree (node_change deeply) bn an nodes.0 nodes.1 nodes.2 id)),
            λ id. subst₂ SameEdge (last_edge_lem id before.edges) (last_edge_lem id after.edges) (
                (edge-Agrees_iff id (lookup id be) (lookup id ae)).0
                  (all_agree edge_change be ae edges.0 edges.1 edges.2 id)),
          ),
      λ (nodes, edges). loud (
        none_collected (node_change deeply) bn an (index_nodes-IsDistinct [] before.nodes tt)
            (index_nodes-IsDistinct [] after.nodes tt)
            (λ id. (node-Agrees_iff deeply id (lookup id bn) (lookup id an)).1 (
              subst₂ (SameNode deeply) (sym (last_node_lem id before.nodes))
                (sym (last_node_lem id after.nodes)) (nodes id))),
        none_collected edge_change be ae (index_edges-IsDistinct [] before.edges tt)
            (index_edges-IsDistinct [] after.edges tt)
            (λ id. (edge-Agrees_iff id (lookup id be) (lookup id ae)).1 (
              subst₂ SameEdge (sym (last_edge_lem id before.edges))
                (sym (last_edge_lem id after.edges)) (edges id))),
      ),
    )
