-- ===== src/Aggregate/Merged.antt =====
-- What stands under an ID in a merged graph.
use ai_evidence_bom.Prelude.{◌≡◌, refl, ◌∙◌, ap, List, [], ◌∷◌, Option, none, some, arith, map}
use ai_evidence_bom.Text.{Text}
use ai_evidence_bom.Text.Order.{text_order}
use ai_evidence_bom.Time.{Instant}
use ai_evidence_bom.Sorting.{sort_slice, by_key, find}
use ai_evidence_bom.Sorting.Keys.{
  Below, IsAscending, IsDistinct, find-sort_slice, sort_slice-IsAscending,
}
use ai_evidence_bom.Model.Graph.{Graph, Node, Edge}
use ai_evidence_bom.Model.Canonicalize.{canonicalize, canonicalize_node, canonicalize_edge}
use ai_evidence_bom.Aggregate.{
  merge, merge_nodes, merge_edges, merge_node, merge_edge, prepare_node, node_id, edge_id,
  limit_node, limit_edge,
}
use ai_evidence_bom.Aggregate.Identity.{joined, merge_all-joined}
use ai_evidence_bom.Aggregate.NodeIds.{
  id-prepare_node, id-merge_node, id-canonicalize_node, id-limit_node,
}

-- A step on what is found, if anything is.
abbrev pub mapped {ℓ} : {A : Type ℓ} → (A → A) → Option A → Option A
mapped f none = none
mapped f (some x) = some (f x)

module _ {ℓ} {A : Type ℓ} (id : A → Text) where
  module _ (f : A → A) (keeps : (x : A) → id (f x) ≡ id x) where
    find-map : (t : Text) (xs : List A) → find id t (map f xs) ≡ mapped f (find id t xs)
    unfolding find
    find-map t [] = refl
    find-map t (x ∷ xs) = ground (arith, find-map t xs, keeps x)

    Below-map : (t : Text) (xs : List A) → Below id t xs → Below id t (map f xs)
    Below-map t [] h = tt
    Below-map t (x ∷ xs) h = (rw (keeps x) h.0, Below-map t xs h.1)

    map-IsAscending : (xs : List A) → IsAscending id xs → IsAscending id (map f xs)
    map-IsAscending [] h = tt
    map-IsAscending (x ∷ xs) h = (rw (keeps x) (Below-map (id x) xs h.0), map-IsAscending xs h.1)

    map-IsDistinct : (xs : List A) → IsDistinct id xs → IsDistinct id (map f xs)
    map-IsDistinct [] h = tt
    map-IsDistinct (x ∷ xs) h =
        (rw (keeps x) (find-map (id x) xs ∙ ap (mapped f) h.0), map-IsDistinct xs h.1)

  -- Sorting and two steps on the elements that keep their IDs.
  settled :
      (f g : A → A)
      → ((x : A) → id (f x) ≡ id x)
      → ((x : A) → id (g x) ≡ id x)
      → (t : Text) (xs : List A) → IsDistinct id xs
      → (find id t (map g (map f (sort_slice (by_key id) xs))) ≡ mapped g (mapped f (find id t xs)))
        × IsAscending id (map g (map f (sort_slice (by_key id) xs)))
  settled f g keeps_f keeps_g t xs d =
      let sorted = sort_slice (by_key id) xs in
      (
        find-map g keeps_g t (map f sorted)
            ∙ ap (mapped g) (find-map f keeps_f t sorted ∙ ap (mapped f) (find-sort_slice id t xs)),
        map-IsAscending g keeps_g (map f sorted)
            (map-IsAscending f keeps_f sorted (sort_slice-IsAscending id xs d)),
      )

id-canonicalize_edge : (e : Edge) → (canonicalize_edge e).id ≡ e.id
unfolding canonicalize_edge
id-canonicalize_edge e = refl

id-limit_edge : (e : Edge) → (limit_edge e).id ≡ e.id
unfolding limit_edge
id-limit_edge e = refl

id-merge_edge : (e f : Edge) → (merge_edge e f).id ≡ e.id
unfolding merge_edge
id-merge_edge e f = refl

find-merge_edges :
    (t : Text) (current incoming : List Edge)
    → IsDistinct edge_id current
    → (find edge_id t (merge_edges current incoming)
        ≡ joined edge_id merge_edge t (find edge_id t current) incoming)
      × IsDistinct edge_id (merge_edges current incoming)
unfolding merge_edges
find-merge_edges t current incoming d =
    merge_all-joined edge_id merge_edge id-merge_edge t incoming current d

find-merge_nodes :
    (t : Text) (current incoming : List Node)
    → IsDistinct node_id current
    → (find node_id t (merge_nodes current incoming)
        ≡ joined node_id merge_node t
            (mapped prepare_node (find node_id t current))
            (map prepare_node incoming))
      × IsDistinct node_id (merge_nodes current incoming)
unfolding merge_nodes
find-merge_nodes t current incoming d =
    let (found, distinct) =
      merge_all-joined node_id merge_node id-merge_node t (map prepare_node incoming)
        (map prepare_node current)
        (map-IsDistinct node_id prepare_node id-prepare_node current d) in
    (
      found
          ∙ ap (λ start. joined node_id merge_node t start (map prepare_node incoming))
              (find-map node_id prepare_node id-prepare_node t current),
      distinct,
    )

-- Under an ID of the merged graph stands what merging makes of the edges with the ID.
pub merge-edges-joined :
    (current incoming : Graph) (now : Instant) (t : Text)
    → IsDistinct edge_id current.edges
    → (find edge_id t (merge current incoming now).edges
        ≡ mapped limit_edge (
            mapped canonicalize_edge
              (joined edge_id merge_edge t (find edge_id t current.edges) incoming.edges)))
      × IsAscending edge_id (merge current incoming now).edges
unfolding merge canonicalize
merge-edges-joined current incoming now t d =
    let (found, distinct) = find-merge_edges t current.edges incoming.edges d in
    let (at, ascending) =
      settled edge_id canonicalize_edge limit_edge id-canonicalize_edge id-limit_edge t
        (merge_edges current.edges incoming.edges) distinct in
    (at ∙ ap (λ e. mapped limit_edge (mapped canonicalize_edge e)) found, ascending)

-- Where the nodes of the current graph have distinct IDs, under an ID of the merged graph stands, in
-- canonical form and with its trace IDs limited, the prepared node of the current graph with the
-- prepared incoming nodes with the ID merged into it, one by one, or the first of those where the
-- current graph has none. The merged nodes ascend by ID.
pub merge-nodes :
    (current incoming : Graph) (now : Instant) (t : Text)
    → IsDistinct node_id current.nodes
    → (find node_id t (merge current incoming now).nodes
        ≡ mapped limit_node (
            mapped canonicalize_node (
              joined node_id merge_node t
                (mapped prepare_node (find node_id t current.nodes))
                (map prepare_node incoming.nodes))))
      × IsAscending node_id (merge current incoming now).nodes
unfolding merge canonicalize
merge-nodes current incoming now t d =
    let (found, distinct) = find-merge_nodes t current.nodes incoming.nodes d in
    let (at, ascending) =
      settled node_id canonicalize_node limit_node id-canonicalize_node id-limit_node t
        (merge_nodes current.nodes incoming.nodes) distinct in
    (at ∙ ap (λ n. mapped limit_node (mapped canonicalize_node n)) found, ascending)
