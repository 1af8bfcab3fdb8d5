-- ===== src/Policy/Paths.antt =====
-- internal/policy/policy.go: the search for a path that a rule denies.
pub mod Selecting
pub mod Edges
pub mod Search
pub mod Matches
use ai_evidence_bom.Prelude.{
  ℕ, zero, suc, ◌+◌, Bool, true, false, not, ◌&&◌, ◌||◌, List, [], ◌∷◌, ◌++◌, Option, none, some,
  if◌then◌else◌, is_empty, any, get_elem?, length, ltb,
}
use ai_evidence_bom.Text.{Text, text_eq, text_less}
use ai_evidence_bom.Text.Order.{text_order}
use ai_evidence_bom.Maps.{lookup, put}
use ai_evidence_bom.Sorting.{sort_slice}
use ai_evidence_bom.Model.Graph.{Graph, Node, Edge}
use ai_evidence_bom.Policy.Selector.{Regexp, CompiledSelector, CompiledPathRule, selector_matches}

-- The nodes by ID; of two nodes with one ID the last stays.
unfoldable pub node_table : List Node → List (Text × Node) → List (Text × Node)
node_table [] table = table
node_table (n ∷ ns) table = node_table ns (put n.id n table)

-- `adjacency[from]`: the edges that leave a node, by relation and target.
abbrev pub less_step : Edge → Edge → Bool
less_step a b =
    if text_eq a.relation b.relation then text_less a.to b.to else text_less a.relation b.relation

unfoldable pub edges_from : Text → List Edge → List Edge
edges_from from [] = []
edges_from from (e ∷ es) =
    let rest = edges_from from es in if text_eq e.from from then e ∷ rest else rest

unfoldable pub adjacency : List Edge → Text → List Edge
unfolding edges_from
adjacency edges from = sort_slice less_step (edges_from from edges)

unfoldable pub contains : List Text → Text → Bool
contains [] target = false
contains (value ∷ values) target = text_eq value target || contains values target

-- A loop that returns at the first hit.
unfoldable pub first_found {ℓ κ} : {A : Type ℓ} {B : Type κ} → (A → Option B) → List A → Option B
first_found f [] = none
first_found f (x ∷ xs) = let rest = first_found f xs in elim (f x) [ none ↦ rest | some b ↦ some b ]

module _ (lower_rune : ℕ → ℕ) (re : Regexp) (rule : CompiledPathRule re) where
  -- The test of an intermediate node: `index` is `relationIndex`. Reading a missing selector would be
  -- a panic; `compile_path_rule` admits no such rule.
  unfoldable pub via_admits : ℕ → Node → Bool
  via_admits index next =
      if ltb (index + 1) (length rule.relations) && not (is_empty rule.via)
      then elim (get_elem? rule.via index) [
        | none ↦ false
        | some selector ↦ selector_matches lower_rune re selector next
      ]
      else true

  -- Where the path ends.
  unfoldable pub arrives : Option Node → Bool
  arrives none = false
  arrives (some node) = selector_matches lower_rune re rule.to node

  -- Whether the loop goes on along the edge.
  unfoldable pub can_follow : List (Text × Node) → Text → ℕ → List Text → Edge → Bool
  unfolding via_admits contains
  can_follow nodes relation index path edge =
      if not (text_eq edge.relation relation) || contains path edge.to
      then false
      else elim (lookup edge.to nodes) [ none ↦ false | some next ↦ via_admits index next ]

  -- `findPath`: `left` is `rule.relations` from `relationIndex`.
  unfoldable pub find_path :
      List (Text × Node)
      → List Edge
      → (left : List Text) → ℕ
      → Text
      → List Text
      → Option (List Text)
  unfolding arrives can_follow adjacency first_found
  find_path nodes edges [] index current path =
      if arrives (lookup current nodes) then some path else none
  find_path nodes edges (relation ∷ left) index current path =
      first_found
        (λ edge. elim (can_follow nodes relation index path edge) [
          | true ↦ find_path nodes edges left (suc index) edge.to (path ++ edge.to ∷ [])
          | false ↦ none
        ])
        (adjacency edges current)

  pub record PathMatch : Type 0 where
    pub start : Node
    pub node_ids : List Text

  -- The start nodes, in the order of the graph.
  unfoldable pub starts_of : List Node → List Node
  starts_of [] = []
  starts_of (n ∷ ns) =
      let rest = starts_of ns in
      if selector_matches lower_rune re rule.from n then n ∷ rest else rest

  unfoldable pub matches_from : List (Text × Node) → List Edge → List Node → List PathMatch
  unfolding find_path
  matches_from nodes edges [] = []
  matches_from nodes edges (start ∷ starts) =
      let rest = matches_from nodes edges starts in
      elim (find_path nodes edges rule.relations 0 start.id (start.id ∷ [])) [
        | none ↦ rest
        | some path ↦ record { start = start; node_ids = path } ∷ rest
      ]

  unfoldable pub rule_matches : Graph → List PathMatch
  unfolding matches_from starts_of node_table
  rule_matches graph =
      matches_from (node_table graph.nodes []) graph.edges
        (sort_slice (λ a b. text_less a.id b.id) (starts_of graph.nodes))
