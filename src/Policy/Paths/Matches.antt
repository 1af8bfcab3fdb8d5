-- ===== src/Policy/Paths/Matches.antt =====
-- The matches of a path rule.
use mathlib.Core.List.{Memᴰ}
use mathlib.Core.List.Memᴰ
use ai_evidence_bom.Prelude.{
  ℕ, ◌≡◌, refl, ◌≢◌, true, List, [], ◌∷◌, Option, none, some, inl, inr, Bool-cases, Option-cases,
  sym, ap, ◌∙◌,
}
use ai_evidence_bom.Text.{Text}
use ai_evidence_bom.Sorting.Members.{mem-sort_slice, mem_of_mem-sort_slice, Memᴰ-cases}
use ai_evidence_bom.Model.Graph.{Graph, Node, Edge}
use ai_evidence_bom.Policy.Selector.{Regexp, CompiledPathRule, selector_matches}
use ai_evidence_bom.Policy.Paths.{
  node_table, find_path, starts_of, matches_from, rule_matches, PathMatch,
}
use ai_evidence_bom.Policy.Paths.Selecting.{Selects, matches-Selects, Selects-matches}
use ai_evidence_bom.Policy.Paths.Search.{Walk, find_path-Walk, Walk-find_path}

module _ (lower_rune : ℕ → ℕ) (re : Regexp) (rule : CompiledPathRule re) where
  -- The rule denies a path of the graph from the node, which visits `walked`.
  abbrev pub Denies : Graph → Node → List Text → Type 0
  Denies graph start walked =
      Walk lower_rune re rule graph rule.relations 0 start.id (start.id ∷ []) walked

  mem-starts_of :
      (n : Node) (ns : List Node)
      → Memᴰ n ns
      → selector_matches lower_rune re rule.from n ≡ true
      → Memᴰ n (starts_of lower_rune re rule ns)
  unfolding starts_of
  mem-starts_of n [] m h = m
  mem-starts_of n (x ∷ ns) m h = elim (Memᴰ-cases m) [
    | inl e ↦ rw (ap (selector_matches lower_rune re rule.from) (sym e), h) (Memᴰ.head e)
    | inr k ↦ elim (Bool-cases (selector_matches lower_rune re rule.from x)) [
      | inl t ↦ rw t (Memᴰ.tail (mem-starts_of n ns k h))
      | inr f ↦ rw f (mem-starts_of n ns k h)
    ]
  ]

  mem_of_mem-starts_of :
      (n : Node) (ns : List Node)
      → Memᴰ n (starts_of lower_rune re rule ns)
      → Memᴰ n ns × (selector_matches lower_rune re rule.from n ≡ true)
  unfolding starts_of
  mem_of_mem-starts_of n [] m = elim (Memᴰ.not-nil m) [ ]
  mem_of_mem-starts_of n (x ∷ ns) m =
      elim (Bool-cases (selector_matches lower_rune re rule.from x)) [
        | inl t ↦ elim (Memᴰ-cases (rw t at m)) [
          | inl e ↦ (Memᴰ.head e, ap (selector_matches lower_rune re rule.from) e ∙ t)
          | inr k ↦ let (l, h) = mem_of_mem-starts_of n ns k in (Memᴰ.tail l, h)
        ]
        | inr f ↦ let (l, h) = mem_of_mem-starts_of n ns (rw f at m) in (Memᴰ.tail l, h)
      ]

  module _ (nodes : List (Text × Node)) (edges : List Edge) where
    -- The search from a start node.
    search_from : Node → Option (List Text)
    search_from start =
        find_path lower_rune re rule nodes edges rule.relations 0 start.id (start.id ∷ [])

    matches_from-hit :
        (x : Node) (ns : List Node) (path : List Text)
        → search_from x ≡ some path
        → matches_from lower_rune re rule nodes edges (x ∷ ns)
          ≡ record { start = x; node_ids = path } ∷ matches_from lower_rune re rule nodes edges ns
    unfolding matches_from search_from
    matches_from-hit x ns path e = rw (e, matches_from) refl

    matches_from-miss :
        (x : Node) (ns : List Node)
        → search_from x ≡ none
        → matches_from lower_rune re rule nodes edges (x ∷ ns)
          ≡ matches_from lower_rune re rule nodes edges ns
    unfolding matches_from search_from
    matches_from-miss x ns e = rw (e, matches_from) refl

    same_match :
        (n x : Node) (path q : List Text)
        → n ≡ x
        → search_from n ≡ some path
        → search_from x ≡ some q
        → ◌≡◌ {A = PathMatch lower_rune re rule}
            (record { start = n; node_ids = path })
            (record { start = x; node_ids = q })
    same_match n x path q e h k =
        let paths : path ≡ q = cc (ap search_from e) in
        λ i. record { start = e i; node_ids = paths i }

    mem-matches_from :
        (n : Node) (ns : List Node) (path : List Text)
        → Memᴰ n ns
        → search_from n ≡ some path
        → Memᴰ
            (record { start = n; node_ids = path })
            (matches_from lower_rune re rule nodes edges ns)
    unfolding matches_from
    mem-matches_from n [] path m h = elim (Memᴰ.not-nil m) [ ]
    mem-matches_from n (x ∷ ns) path m h = elim (Option-cases (search_from x)) [
      | inl e ↦ elim (Memᴰ-cases m) [
        | inl p ↦ cc (ap search_from p)
        | inr k ↦ rw (matches_from-miss x ns e) (mem-matches_from n ns path k h)
      ]
      | inr (q, e) ↦ elim (Memᴰ-cases m) [
        | inl p ↦ rw (matches_from-hit x ns q e) (Memᴰ.head (same_match n x path q p h e))
        | inr k ↦ rw (matches_from-hit x ns q e) (Memᴰ.tail (mem-matches_from n ns path k h))
      ]
    ]

    found_at :
        (p : PathMatch lower_rune re rule) (x : Node) (q : List Text)
        → p ≡ record { start = x; node_ids = q }
        → search_from x ≡ some q
        → search_from p.start ≡ some p.node_ids
    found_at p x q k e =
        ap (λ (r : PathMatch lower_rune re rule). search_from r.start) k
        ∙ e
        ∙ sym (ap (λ (r : PathMatch lower_rune re rule). some r.node_ids) k)

    mem_of_mem-matches_from :
        (p : PathMatch lower_rune re rule) (ns : List Node)
        → Memᴰ p (matches_from lower_rune re rule nodes edges ns)
        → Memᴰ p.start ns × (search_from p.start ≡ some p.node_ids)
    unfolding matches_from
    mem_of_mem-matches_from p [] m = elim (Memᴰ.not-nil m) [ ]
    mem_of_mem-matches_from p (x ∷ ns) m = elim (Option-cases (search_from x)) [
      | inl e ↦
          let (l, h) = mem_of_mem-matches_from p ns (rw (matches_from-miss x ns e) at m) in
          (Memᴰ.tail l, h)
      | inr (q, e) ↦ elim (Memᴰ-cases (rw (matches_from-hit x ns q e) at m)) [
        | inl k ↦
            (Memᴰ.head (ap (λ (r : PathMatch lower_rune re rule). r.start) k), found_at p x q k e)
        | inr k ↦ let (l, h) = mem_of_mem-matches_from p ns k in (Memᴰ.tail l, h)
      ]
    ]

  Walk-of_search :
      (graph : Graph) (n : Node) {path : List Text}
      → search_from (node_table graph.nodes []) graph.edges n ≡ some path
      → Denies graph n path
  unfolding search_from
  Walk-of_search graph n h =
      find_path-Walk lower_rune re rule graph rule.relations 0 n.id (n.id ∷ []) h

  search_of_Walk :
      (graph : Graph) (n : Node) {path : List Text}
      → Denies graph n path
      → search_from (node_table graph.nodes []) graph.edges n ≢ none
  unfolding search_from
  search_of_Walk graph n w = Walk-find_path lower_rune re rule graph w

  -- Every match names a node of the graph that the rule's first selector selects, and a path from it
  -- that the rule denies: along edges of the graph with the rule's relations, in order, over nodes that
  -- its other selectors select, to one that its last selector selects, and through no node twice.
  pub rule_matches_sound :
      (graph : Graph) (p : PathMatch lower_rune re rule)
      → Memᴰ p (rule_matches lower_rune re rule graph)
      → Memᴰ p.start graph.nodes
        × Selects lower_rune re rule.from p.start
        × Denies graph p.start p.node_ids
  unfolding rule_matches
  rule_matches_sound graph p m =
      let nodes = node_table graph.nodes [] in
      let (l, found) = mem_of_mem-matches_from nodes graph.edges p _ m in
      let (in_graph, selected) =
        mem_of_mem-starts_of p.start graph.nodes (mem_of_mem-sort_slice _ p.start _ l) in
      (
        in_graph,
        matches-Selects lower_rune re rule.from p.start selected,
        Walk-of_search graph p.start found,
      )

  -- A node of the graph that the rule's first selector selects has a match if there is a path from it
  -- that the rule denies: along edges of the graph with the rule's relations, in order, over nodes that
  -- its other selectors select, to one that its last selector selects, and through no node twice.
  pub rule_matches-complete :
      (graph : Graph) (n : Node) {walked : List Text}
      → Memᴰ n graph.nodes
      → Selects lower_rune re rule.from n
      → Denies graph n walked
      → (path : List Text) × Memᴰ
          (record { start = n; node_ids = path })
          (rule_matches lower_rune re rule graph)
  unfolding rule_matches
  rule_matches-complete graph n m h w =
      let nodes = node_table graph.nodes [] in
      elim (Option-cases (search_from nodes graph.edges n)) [
        | inl e ↦ absurd (search_of_Walk graph n w e)
        | inr (path, e) ↦ (
          path,
          mem-matches_from nodes graph.edges n _ path
              (mem-sort_slice _ n _
                (mem-starts_of n graph.nodes m (Selects-matches lower_rune re rule.from n h)))
              e,
        )
      ]
