-- ===== src/Model/Resolve/Pile.antt =====
-- Evidence that is piled up in another order.
use mathlib.Core.List.{Permᴰ}
use ai_evidence_bom.Prelude.{◌≡◌, refl, sym, ◌∙◌, ap, ap₂, List, [], ◌∷◌, ◌++◌, Option, some, arith}
use ai_evidence_bom.Text.{Text}
use ai_evidence_bom.Maps.{elem}
use ai_evidence_bom.Text.Order.{text_order}
use ai_evidence_bom.Model.Level.{EvidenceLevel, stronger_level}
use ai_evidence_bom.Model.Level.Laws.{
  IsSettled, stronger_level-IsSettled, rank-no_level, rank-injective,
}
use ai_evidence_bom.Model.Texts.{unique_sorted}
use ai_evidence_bom.Model.Texts.Laws.{unique_sorted_ext, names, names-append, elem-unique_sorted}
use ai_evidence_bom.Model.Evidence.{
  EvidenceSummary, merge_evidence_summary, merge_first, merge_last, add_int, canonicalize_evidence,
}
use ai_evidence_bom.Model.Evidence.Laws.{
  merge_first_comm, merge_first_assoc, merge_last_comm, merge_last_assoc, add_int_comm,
  add_int_assoc,
}
use ai_evidence_bom.Model.Resolve.{read_evidence}
use ai_evidence_bom.Model.Resolve.Gather.{pile}
use ai_evidence_bom.Model.Resolve.Canonical.{canonical_evidence}

-- After a settled level the next two levels may come in either order.
stronger_level_swap :
    (a b c : EvidenceLevel)
    → IsSettled a
    → stronger_level (stronger_level a b) c ≡ stronger_level (stronger_level a c) b
unfolding stronger_level
stronger_level_swap a b c h = ground (arith, rank-injective b c, rank-no_level)

names_of_unique_sorted :
    (vs ws : List Text) (t : Text) → unique_sorted vs ≡ unique_sorted ws → names t vs ≡ names t ws
names_of_unique_sorted vs ws t e =
    sym (elem-unique_sorted t vs) ∙ ap (elem t) e ∙ elem-unique_sorted t ws

unique_sorted-append :
    (vs ws us : List Text)
    → unique_sorted vs ≡ unique_sorted ws
    → unique_sorted (vs ++ us) ≡ unique_sorted (ws ++ us)
unique_sorted-append vs ws us e = unique_sorted_ext (vs ++ us) (ws ++ us) λ t.
    ground (arith, names-append t vs us, names-append t ws us, names_of_unique_sorted vs ws t e)

unique_sorted_swap :
    (vs ws us : List Text) → unique_sorted ((vs ++ ws) ++ us) ≡ unique_sorted ((vs ++ us) ++ ws)
unique_sorted_swap vs ws us = unique_sorted_ext ((vs ++ ws) ++ us) ((vs ++ us) ++ ws) λ t. ground (
  arith,
  names-append t (vs ++ ws) us,
  names-append t (vs ++ us) ws,
  names-append t vs ws,
  names-append t vs us,
)

-- Two summaries that look alike still do after the same evidence is merged into both.
merge-alike :
    (a b e : EvidenceSummary)
    → canonicalize_evidence a ≡ canonicalize_evidence b
    → canonicalize_evidence (merge_evidence_summary a e)
      ≡ canonicalize_evidence (merge_evidence_summary b e)
unfolding canonicalize_evidence merge_evidence_summary
merge-alike a b e h =
    let sources =
      unique_sorted-append a.sources b.sources e.sources
        (ap (λ (s : EvidenceSummary). s.sources) h) in
    let traces =
      unique_sorted-append a.trace_ids b.trace_ids e.trace_ids
        (ap (λ (s : EvidenceSummary). s.trace_ids) h) in
    λ i. record (merge_evidence_summary (h i) e) { sources = sources i; trace_ids = traces i }

-- An associative and commutative operation takes its last two arguments in either order.
right_swap :
    {A : Type 0} (f : A → A → A)
    → ((a b : A) → f a b ≡ f b a)
    → ((a b c : A) → f (f a b) c ≡ f a (f b c))
    → (a b c : A) → f (f a b) c ≡ f (f a c) b
right_swap f comm assoc a b c = assoc a b c ∙ ap (f a) (comm b c) ∙ sym (assoc a c b)

merge_swap :
    (a b c : EvidenceSummary)
    → IsSettled a.level
    → canonicalize_evidence (merge_evidence_summary (merge_evidence_summary a b) c)
      ≡ canonicalize_evidence (merge_evidence_summary (merge_evidence_summary a c) b)
unfolding canonicalize_evidence merge_evidence_summary
merge_swap a b c h = λ i. record {
  level = stronger_level_swap a.level b.level c.level h i;
  sources = unique_sorted_swap a.sources b.sources c.sources i;
  first_seen =
      right_swap merge_first merge_first_comm merge_first_assoc a.first_seen b.first_seen
        c.first_seen i;
  last_seen =
      right_swap merge_last merge_last_comm merge_last_assoc a.last_seen b.last_seen c.last_seen i;
  observation_count =
      right_swap add_int add_int_comm add_int_assoc a.observation_count b.observation_count
        c.observation_count i;
  trace_ids = unique_sorted_swap a.trace_ids b.trace_ids c.trace_ids i;
}

read-alike :
    (acc acc' : Option EvidenceSummary)
    → canonical_evidence acc ≡ canonical_evidence acc'
    → canonicalize_evidence (read_evidence acc) ≡ canonicalize_evidence (read_evidence acc')
read-alike acc acc' e = ground arith

merge-IsSettled :
    (a b : EvidenceSummary) → IsSettled a.level → IsSettled (merge_evidence_summary a b).level
unfolding merge_evidence_summary
merge-IsSettled a b h = stronger_level-IsSettled a.level b.level h

pile-alike :
    (acc acc' : Option EvidenceSummary) (xs : List EvidenceSummary)
    → canonical_evidence acc ≡ canonical_evidence acc'
    → canonical_evidence (pile acc xs) ≡ canonical_evidence (pile acc' xs)
unfolding pile
pile-alike acc acc' [] e = e
pile-alike acc acc' (x ∷ xs) e =
    pile-alike (some (merge_evidence_summary (read_evidence acc) x))
      (some (merge_evidence_summary (read_evidence acc') x)) xs
      (ap some (merge-alike _ _ x (read-alike acc acc' e)))

-- Two rounds in either order.
swap-alike :
    (a a' x y x' y' : EvidenceSummary)
    → IsSettled a.level
    → canonicalize_evidence a ≡ canonicalize_evidence a'
    → x ≡ y'
    → y ≡ x'
    → canonicalize_evidence (merge_evidence_summary (merge_evidence_summary a x) y)
      ≡ canonicalize_evidence (merge_evidence_summary (merge_evidence_summary a' x') y')
swap-alike a a' x y x' y' h e p q =
    merge_swap a x y h
    ∙ merge-alike _ _ x (merge-alike a a' y e)
    ∙ ap₂
        (λ (u v : EvidenceSummary).
          canonicalize_evidence (merge_evidence_summary (merge_evidence_summary a' u) v))
        q p

-- Evidence piled up in another order looks alike.
pub pile_perm :
    (acc acc' : Option EvidenceSummary) {xs ys : List EvidenceSummary}
    → IsSettled (read_evidence acc).level
    → IsSettled (read_evidence acc').level
    → canonical_evidence acc ≡ canonical_evidence acc'
    → Permᴰ xs ys
    → canonical_evidence (pile acc xs) ≡ canonical_evidence (pile acc' ys)
unfolding pile
pile_perm acc acc' h h' e Permᴰ.nil = e
pile_perm acc acc' h h' e (Permᴰ.cons {a = x} {b = y} p d) =
    pile_perm (some (merge_evidence_summary (read_evidence acc) x))
      (some (merge_evidence_summary (read_evidence acc') y)) (merge-IsSettled _ x h)
      (merge-IsSettled _ y h')
      (ap some (
        merge-alike _ _ x (read-alike acc acc' e)
        ∙ ap
            (λ (z : EvidenceSummary).
              canonicalize_evidence (merge_evidence_summary (read_evidence acc') z))
            p))
      d
pile_perm acc acc' h h' e (Permᴰ.swap {a = x} {b = y} {a' = x'} {b' = y'} {l = l} p q) =
    pile-alike _ _ l (
      ap some (
        swap-alike (read_evidence acc) (read_evidence acc') x y x' y' h (read-alike acc acc' e) p
          q))
pile_perm acc acc' h h' e (Permᴰ.trans d d') =
    pile_perm acc acc h h refl d ∙ pile_perm acc acc' h h' e d'
