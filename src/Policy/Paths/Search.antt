-- ===== src/Policy/Paths/Search.antt =====
-- The search for a path, and walks of the graph.
use mathlib.Core.List.{Memᴰ}
use mathlib.Core.List.Memᴰ
use ai_evidence_bom.Prelude.{
  ℕ, suc, ◌≡◌, refl, ◌≢◌, Bool, true, List, [], ◌∷◌, ◌++◌, Option, none, some, arith, inl, inr,
  Bool-cases, Option-cases, subst, if◌then◌else◌, ◌+◌, ◌<◌, ◌↔◌, false, not, ◌&&◌, ltb, length,
  is_empty, get_elem?, sym, ◌∙◌,
}
use ai_evidence_bom.Text.{Text, text_eq}
use ai_evidence_bom.Text.Order.{text_order, text_eq_iff}
use ai_evidence_bom.Maps.{lookup, put}
use ai_evidence_bom.Maps.Laws.{lookup-put}
use ai_evidence_bom.Maps.Last.{later, last_with, later-none}
use ai_evidence_bom.Sorting.Members.{Memᴰ-cases}
use ai_evidence_bom.Model.Graph.{Node, Edge, Graph}
use ai_evidence_bom.Policy.Selector.{Regexp, CompiledSelector, CompiledPathRule}
use ai_evidence_bom.Policy.Paths.Selecting.{Selects, matches-Selects, Selects-matches}
use ai_evidence_bom.Policy.Paths.{
  adjacency, contains, node_table, via_admits, arrives, can_follow, find_path,
}
use ai_evidence_bom.Policy.Paths.Edges.{
  first_found-some, first_found-of_mem, mem-adjacency, mem_of_mem-adjacency,
}

if_some {ℓ} :
    {A : Type ℓ} (b : Bool) (x y : A) → (if b then some x else none) ≡ some y → (b ≡ true) × (x ≡ y)
if_some b x y h = ground arith

module _ (lower_rune : ℕ → ℕ) (re : Regexp) (rule : CompiledPathRule re) where
  -- An intermediate node has a selector of its own where the rule gives such selectors.
  abbrev pub Passes : ℕ → Node → Type 0
  Passes index node =
      index + 1 < length rule.relations
      → is_empty rule.via ≡ false
      → (selector : CompiledSelector re) × (get_elem? rule.via index ≡ some selector)
        × Selects lower_rune re selector node

  via_admits-Passes :
      (index : ℕ) (node : Node)
      → via_admits lower_rune re rule index node ≡ true
      → Passes index node
  unfolding via_admits
  via_admits-Passes index node h before given = elim (Option-cases (get_elem? rule.via index)) [
    | inl e ↦ absurd (ground (arith, h, before, given, e))
    | inr (selector, e) ↦ (
      selector,
      e,
      matches-Selects lower_rune re selector node (ground (arith, h, before, given, e)),
    )
  ]

  Passes-via_admits :
      (index : ℕ) (node : Node)
      → Passes index node
      → via_admits lower_rune re rule index node ≡ true
  unfolding via_admits
  Passes-via_admits index node h =
      elim (Bool-cases (ltb (index + 1) (length rule.relations) && not (is_empty rule.via))) [
        | inr e ↦ rw e refl
        | inl e ↦
            let (selector, found, selected) = h (ground (arith, e)) (ground (arith, e)) in
            rw (e, found, Selects-matches lower_rune re selector node selected) refl
      ]

contains_iff : (path : List Text) (id : Text) → (contains path id ≡ true) ↔ Memᴰ id path
unfolding contains
contains_iff [] id = (λ h. absurd (ground (arith, h)), λ m. elim (Memᴰ.not-nil m) [ ])
contains_iff (x ∷ path) id = elim (Bool-cases (text_eq x id)) [
  | inl e ↦ rw e (λ h. Memᴰ.head (sym ((text_eq_iff x id).0 e)), λ m. refl)
  | inr e ↦ rw e (
    λ h. Memᴰ.tail ((contains_iff path id).0 h),
    λ m. elim (Memᴰ-cases m) [
      | inl same ↦ absurd (ground (arith, e, text_eq_iff x id, sym same))
      | inr k ↦ (contains_iff path id).1 k
    ],
  )
]

lookup-node_table :
    (id : Text) (ns : List Node) (table : List (Text × Node))
    → lookup id (node_table ns table) ≡ later (last_with (λ n. n.id) id ns) (lookup id table)
unfolding node_table last_with later
lookup-node_table id [] table = refl
lookup-node_table id (n ∷ ns) table =
    ground (arith, lookup-node_table id ns (put n.id n table), lookup-put n.id id n table)

pub node_table_lem :
    (id : Text) (ns : List Node) → lookup id (node_table ns []) ≡ last_with (λ n. n.id) id ns
unfolding lookup
node_table_lem id ns = lookup-node_table id ns [] ∙ later-none (last_with (λ n. n.id) id ns)

module _ (lower_rune : ℕ → ℕ) (re : Regexp) (rule : CompiledPathRule re) (graph : Graph) where
  -- The node of the graph with an ID; of several ones the last.
  abbrev pub node_with : Text → Option Node
  node_with id = last_with (λ n. n.id) id graph.nodes

  -- A path of the graph from `current` to a node that the rule's last selector selects. Its edges have
  -- the relations `left`, in order; the nodes between pass the rule's other selectors; and no node of
  -- `path` or of its own is visited a second time. `walked` is `path` with the nodes that it visits.
  pub data Walk : List Text → ℕ → Text → List Text → List Text → Type 0 where
    arrive :
        {index : ℕ} {current : Text} {path : List Text}
        → (node : Node) → node_with current ≡ some node
        → Selects lower_rune re rule.to node
        → Walk [] index current path path
    follow :
        {relation : Text} {left : List Text} {index : ℕ} {current : Text} {path walked : List Text}
        → (edge : Edge) (next : Node) → Memᴰ edge graph.edges
        → edge.from ≡ current
        → edge.relation ≡ relation
        → ¬ Memᴰ edge.to path
        → node_with edge.to ≡ some next
        → Passes lower_rune re rule index next
        → Walk left (suc index) edge.to (path ++ edge.to ∷ []) walked
        → Walk (relation ∷ left) index current path walked

  abbrev pub table : List (Text × Node)
  table = node_table graph.nodes []

  arrives-node :
      (id : Text)
      → arrives lower_rune re rule (lookup id table) ≡ true
      → (node : Node) × (node_with id ≡ some node) × Selects lower_rune re rule.to node
  unfolding arrives
  arrives-node id h = elim (Option-cases (lookup id table)) [
    | inl e ↦ absurd (ground (arith, h, e))
    | inr (node, e) ↦ (
      node,
      sym (node_table_lem id graph.nodes) ∙ e,
      matches-Selects lower_rune re rule.to node (ground (arith, h, e)),
    )
  ]

  -- What lets the loop go on along an edge.
  can_follow-next :
      (relation : Text) (index : ℕ) (path : List Text) (edge : Edge)
      → can_follow lower_rune re rule table relation index path edge ≡ true
      → (next : Node) × (edge.relation ≡ relation)
        × ¬ Memᴰ edge.to path
        × (node_with edge.to ≡ some next)
        × Passes lower_rune re rule index next
  unfolding can_follow
  can_follow-next relation index path edge h =
      let old = contains_iff path edge.to in
      elim (Option-cases (lookup edge.to table)) [
        | inl e ↦ absurd (ground (arith, h, e))
        | inr (next, e) ↦ (
          next,
          ground (arith, h, text_eq_iff edge.relation relation),
          λ m. absurd (ground (arith, h, old.1 m)),
          sym (node_table_lem edge.to graph.nodes) ∙ e,
          via_admits-Passes lower_rune re rule index next (ground (arith, h, e)),
        )
      ]

  next-can_follow :
      (relation : Text) (index : ℕ) (path : List Text) (edge : Edge) (next : Node)
      → edge.relation ≡ relation
      → ¬ Memᴰ edge.to path
      → node_with edge.to ≡ some next
      → Passes lower_rune re rule index next
      → can_follow lower_rune re rule table relation index path edge ≡ true
  unfolding can_follow
  next-can_follow relation index path edge next related new found passes =
      let new_test : contains path edge.to ≡ false = elim (Bool-cases (contains path edge.to)) [
        | inl e ↦ absurd (new ((contains_iff path edge.to).0 e))
        | inr e ↦ e
      ] in
      rw
        (
          (text_eq_iff edge.relation relation).1 related,
          new_test,
          node_table_lem edge.to graph.nodes ∙ found,
          Passes-via_admits lower_rune re rule index next passes,
        )
        refl

  -- What the search returns is a walk.
  pub find_path-Walk :
      (left : List Text) (index : ℕ) (current : Text) (path : List Text) {walked : List Text}
      → find_path lower_rune re rule table graph.edges left index current path ≡ some walked
      → Walk left index current path walked
  unfolding find_path
  find_path-Walk [] index current path h =
      let (t, e) = if_some (arrives lower_rune re rule (lookup current table)) path _ h in
      let (node, found, selected) = arrives-node current t in
      subst (λ p. Walk [] index current path p) e (arrive node found selected)
  find_path-Walk (relation ∷ left) index current path h =
      let (edge, m, k) = first_found-some _ (adjacency graph.edges current) h in
      let (l, from) = mem_of_mem-adjacency edge current graph.edges m in
      elim (Bool-cases (can_follow lower_rune re rule table relation index path edge)) [
        | inl t ↦
            let (next, related, new, found, passes) = can_follow-next relation index path edge t in
            follow edge next l from related new found passes
              (find_path-Walk left (suc index) edge.to (path ++ edge.to ∷ []) (rw t at k))
        | inr f ↦ cc (rw f at k)
      ]

  -- Where there is a walk, the search returns one.
  pub Walk-find_path :
      {left : List Text} {index : ℕ} {current : Text} {path walked : List Text}
      → Walk left index current path walked
      → find_path lower_rune re rule table graph.edges left index current path ≢ none
  unfolding find_path arrives
  Walk-find_path (arrive {current = current} node found selected) = λ e. ground (
    arith,
    e,
    node_table_lem current graph.nodes,
    found,
    Selects-matches lower_rune re rule.to node selected,
  )
  Walk-find_path
        (follow {relation = relation} {index = index} {current = current} {path = path} edge next m
          from related new found passes rest) =
      first_found-of_mem _ (mem-adjacency edge current graph.edges m from) (
        rw (next-can_follow relation index path edge next related new found passes)
          (Walk-find_path rest))
