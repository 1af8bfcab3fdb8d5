-- ===== src/Sarif/Only.antt =====
-- The component that `findTarget` finds.
use ai_evidence_bom.Prelude.{
  ℕ, ◌≡◌, ◌↔◌, refl, sym, ◌∙◌, ap, subst, Bool, true, false, List, [], ◌∷◌, ◌++◌, All,
  if◌then◌else◌, done, arith, inl, inr, Bool-cases, All-imp,
}
use mathlib.Core.List.{append_assoc, append-nil}
use ai_evidence_bom.Text.{Text}
use ai_evidence_bom.Text.Order.{text_order}
use ai_evidence_bom.SourceAuth.{is_digest}
use ai_evidence_bom.Model.Graph.{Graph, Node}
use ai_evidence_bom.Sarif
use ai_evidence_bom.Sarif.Target.{
  Urls, Matches, match_node, match_nodes, only_match, find_target, validate_relative_artifact_uri,
}
use ai_evidence_bom.Sarif.Exact.{is_bound, IsTarget, bound-IsTarget, target-is_bound}

-- Exactly one node of the list has the property.
pub record IsOnly (P : Node → Type 0) (node : Node) (nodes : List Node) : Type 0 where
  pub before : List Node
  pub after : List Node
  pub split : nodes ≡ before ++ node ∷ after
  pub passes : P node
  pub none_before : All (λ n. ¬ P n) before
  pub none_after : All (λ n. ¬ P n) after

IsOnly-imp :
    {P Q : Node → Type 0} {node : Node} {nodes : List Node}
    → ((n : Node) → P n ↔ Q n)
    → IsOnly P node nodes
    → IsOnly Q node nodes
IsOnly-imp {P} {Q} {node} same h = record {
  before = h.before;
  after = h.after;
  split = h.split;
  passes = (same node).0 h.passes;
  none_before =
      All-imp (λ n. ¬ P n) (λ n. ¬ Q n) h.before (λ n no q. no ((same n).1 q)) h.none_before;
  none_after = All-imp (λ n. ¬ P n) (λ n. ¬ Q n) h.after (λ n no q. no ((same n).1 q)) h.none_after;
}

module _ (p : Node → Bool) where
  abbrev kept : List Node → List Node
  kept [] = []
  kept (n ∷ ns) = let rest = kept ns in if p n then n ∷ rest else rest

  failing : (n : Node) → p n ≡ false → ¬ (p n ≡ true)
  failing n e h = ground arith

  none_pass : (ns : List Node) → All (λ n. p n ≡ false) ns → All (λ n. ¬ (p n ≡ true)) ns
  none_pass ns h = All-imp (λ n. p n ≡ false) (λ n. ¬ (p n ≡ true)) ns failing h

  none_passes : (ns : List Node) → All (λ n. ¬ (p n ≡ true)) ns → All (λ n. p n ≡ false) ns
  none_passes ns h = All-imp (λ n. ¬ (p n ≡ true)) (λ n. p n ≡ false) ns (λ n e. ground arith) h

  kept-none : (ns : List Node) → kept ns ≡ [] → All (λ n. p n ≡ false) ns
  kept-none [] h = tt
  kept-none (n ∷ ns) h = elim (Bool-cases (p n)) [
    | inl e ↦ absurd (ground (arith, e, h))
    | inr e ↦ (e, kept-none ns (ground (arith, e, h)))
  ]

  kept-nothing : (ns : List Node) → All (λ n. p n ≡ false) ns → kept ns ≡ []
  kept-nothing [] h = refl
  kept-nothing (n ∷ ns) h = rw h.0 (kept-nothing ns h.1)

  IsOnly-of-kept :
      (node : Node) (ns : List Node) → kept ns ≡ node ∷ [] → IsOnly (λ n. p n ≡ true) node ns
  IsOnly-of-kept node [] h = cc
  IsOnly-of-kept node (n ∷ ns) h = elim (Bool-cases (p n)) [
    | inl e ↦
        let same : n ≡ node = ground (arith, e, h) in
        let rest : kept ns ≡ [] = ground (arith, e, h) in
        record {
          before = [];
          after = ns;
          split = ap (λ m. m ∷ ns) same;
          passes = subst (λ m. p m ≡ true) same e;
          none_before = tt;
          none_after = none_pass ns (kept-none ns rest);
        }
    | inr e ↦
        let only = IsOnly-of-kept node ns (ground (arith, e, h)) in
        record {
          before = n ∷ only.before;
          after = only.after;
          split = ap (λ ms. n ∷ ms) only.split;
          passes = only.passes;
          none_before = (failing n e, only.none_before);
          none_after = only.none_after;
        }
  ]

  kept-append :
      (node : Node) (before after : List Node)
      → p node ≡ true
      → All (λ n. p n ≡ false) before
      → All (λ n. p n ≡ false) after
      → kept (before ++ node ∷ after) ≡ node ∷ []
  kept-append node [] after h b a = rw h (ap (λ ms. node ∷ ms) (kept-nothing after a))
  kept-append node (n ∷ before) after h b a = rw b.0 (kept-append node before after h b.1 a)

module _ (artifact_uri digest : Text) where
  exact-match_nodes :
      (ns : List Node) (m : Matches)
      → (match_nodes artifact_uri digest ns m).exact
        ≡ m.exact ++ kept (is_bound artifact_uri digest) ns
  unfolding match_nodes match_node
  exact-match_nodes [] m = sym (append-nil m.exact)
  exact-match_nodes (n ∷ ns) m = ground (
    arith,
    exact-match_nodes ns (match_node artifact_uri digest n m),
    append_assoc m.exact (n ∷ []) (kept (is_bound artifact_uri digest) ns),
  )

  only_match_iff :
      (exact : List Node) (count : ℕ) (node : Node)
      → (only_match exact count ≡ done node) ↔ (exact ≡ node ∷ [])
  unfolding only_match
  only_match_iff [] count node = ground arith
  only_match_iff (a ∷ []) count node = ground arith
  only_match_iff (a ∷ b ∷ ns) count node = ground arith

-- Where the URI is a clean relative one and the digest has 64 lowercase hexadecimal characters,
-- `findTarget` returns a node exactly where it is the only node of the graph that is no finding, has
-- the URI and the digest, and has at most one claim about either of them, which has no conflict, and
-- the URI or the digest as its selected and only value.
pub find_target_iff :
    (urls : Urls) (graph : Graph) (artifact_uri digest : Text) (node : Node)
    → validate_relative_artifact_uri urls Sarif.artifact_uri_name artifact_uri ≡ done tt
    → is_digest digest ≡ true
    → (find_target urls graph artifact_uri digest ≡ done node)
      ↔ IsOnly (IsTarget artifact_uri digest) node graph.nodes
unfolding find_target
find_target_iff urls graph artifact_uri digest node valid hex =
    let p = is_bound artifact_uri digest in
    let to = bound-IsTarget artifact_uri digest in
    let from = target-is_bound artifact_uri digest in
    let nothing : Matches = record { uri_matches = 0; exact = [] } in
    let m = match_nodes artifact_uri digest graph.nodes nothing in
    let exact = exact-match_nodes artifact_uri digest graph.nodes nothing in
    let (only, back) = only_match_iff artifact_uri digest m.exact m.uri_matches node in
    rw (valid, hex, find_target)
      (
        λ h.
            IsOnly-imp (λ n. (to n, from n))
              (IsOnly-of-kept p node graph.nodes (sym exact ∙ only h)),
        λ w.
            let h = IsOnly-imp (λ n. (from n, to n)) w in
            back (
              exact
              ∙ ap (kept p) h.split
              ∙ kept-append p node h.before h.after h.passes (none_passes p h.before h.none_before)
                  (none_passes p h.after h.none_after)),
      )
