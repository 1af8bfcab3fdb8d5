-- ===== src/Receiver/Traces/Draining.antt =====
-- The second loop of `resolveTraceContexts`: its fuel and its indices.
use ai_evidence_bom.Prelude.{
  ℕ, zero, suc, ◌+◌, ◌≤◌, ◌<◌, ◌≡◌, refl, ◌∙◌, ap, true, false, List, [], ◌∷◌, ◌++◌, some, All,
  All-append, arith, inl, inr, Bool-cases, is_empty, length, length-append, get_elem?,
}
use ai_evidence_bom.Text.{Text, text_eq}
use ai_evidence_bom.Text.Order.{text_order}
use ai_evidence_bom.Maps.{lookup, put, delete}
use ai_evidence_bom.Aggregate.{update_at}
use ai_evidence_bom.Observation.{Observation}
use ai_evidence_bom.Platform.{Platform}
use ai_evidence_bom.Normalize.Context.{AgentContext}
use ai_evidence_bom.Receiver.Seen.{observation_key}
use ai_evidence_bom.Receiver.Traces.{
  Waiting, Resolved, Progress, read_indices, released, resolve_one, visit, drain, with_context,
}

-- The number of indices that wait.
unfoldable pub total : Waiting → ℕ
total [] = 0
total ((key, indices) ∷ waiting) = length indices + total waiting

pub total-put :
    (key : Text) (index : ℕ) (w : Waiting)
    → total (put key (read_indices (lookup key w) ++ index ∷ []) w) ≡ total w + 1
unfolding total put lookup
total-put key index [] = refl
total-put key index ((k, is) ∷ w) =
    ground (arith, length-append is (index ∷ []), total-put key index w)

total-delete :
    (key : Text) (w : Waiting)
    → total (delete key w) + length (read_indices (lookup key w)) ≤ total w
unfolding total delete lookup
total-delete key [] = omega arith
total-delete key ((k, is) ∷ w) = ground (arith, total-delete key w)

length-released : (c : AgentContext) (is : List ℕ) → length (released c is) ≡ length is
unfolding released
length-released c [] = refl
length-released c (i ∷ is) = ap suc (length-released c is)

-- Every index is one of the work, which has as many marks as observations.
pub record Fits (n : ℕ) (queue : List Resolved) (p : Progress) : Type 0 where
  pub work : length p.work ≡ n
  pub marks : length p.resolved ≡ n
  pub queued : All (λ item. item.index < n) queue
  pub waiting : All (λ entry. All (λ i. i < n) entry.1) p.waiting

pub length-update_at {ℓ} :
    {A : Type ℓ} (i : ℕ) (f : A → A) (xs : List A) → length (update_at i f xs) ≡ length xs
unfolding update_at
length-update_at i f [] = refl
length-update_at zero f (x ∷ xs) = refl
length-update_at (suc i) f (x ∷ xs) = ap suc (length-update_at i f xs)

get_elem?-below {ℓ} :
    {A : Type ℓ} (i : ℕ) (xs : List A) → i < length xs → (x : A) × (get_elem? xs i ≡ some x)
get_elem?-below i [] h = absurd (omega arith)
get_elem?-below zero (x ∷ xs) h = (x, refl)
get_elem?-below (suc i) (x ∷ xs) h = get_elem?-below i xs (omega arith)

released-All :
    (n : ℕ) (c : AgentContext) (is : List ℕ)
    → All (λ i. i < n) is
    → All (λ item. item.index < n) (released c is)
unfolding released
released-All n c [] h = tt
released-All n c (i ∷ is) h = (h.0, released-All n c is h.1)

pub read-All :
    (n : ℕ) (key : Text) (w : Waiting)
    → All (λ entry. All (λ i. i < n) entry.1) w
    → All (λ i. i < n) (read_indices (lookup key w))
unfolding lookup
read-All n key [] h = tt
read-All n key ((k, is) ∷ w) h = elim (Bool-cases (text_eq k key)) [
  | inl e ↦ rw e h.0
  | inr e ↦ rw e (read-All n key w h.1)
]

delete-All :
    (n : ℕ) (key : Text) (w : Waiting)
    → All (λ entry. All (λ i. i < n) entry.1) w
    → All (λ entry. All (λ i. i < n) entry.1) (delete key w)
unfolding delete
delete-All n key [] h = tt
delete-All n key ((k, is) ∷ w) h = elim (Bool-cases (text_eq k key)) [
  | inl e ↦ rw e (delete-All n key w h.1)
  | inr e ↦ rw e (h.0, delete-All n key w h.1)
]

module _ (platform : Platform) where
  -- A round leaves indices in range, and no more of them.
  resolve_one-Fits :
      (n : ℕ) (item : Resolved) (items : List Resolved) (o : Observation) (p : Progress)
      → Fits n (item ∷ items) p
      → Fits n (items ++ (resolve_one platform item o p).0) (resolve_one platform item o p).1
        × (length (items ++ (resolve_one platform item o p).0)
              + total (resolve_one platform item o p).1.waiting
            ≤ length items + total p.waiting)
  unfolding resolve_one
  resolve_one-Fits n item items o p h =
      let key = observation_key platform (with_context item.context o) in
      let children = released item.context (read_indices (lookup key p.waiting)) in
      let kept = length-append items [] in
      elim (Bool-cases (is_empty key)) [
        | inl e ↦
            rw (e, resolve_one)
              (
                record {
                  work =
                      length-update_at item.index (λ old. with_context item.context o) p.work
                      ∙ h.work;
                  marks = length-update_at item.index (λ old. true) p.resolved ∙ h.marks;
                  queued = All-append (λ i. i.index < n) items [] h.queued.1 tt;
                  waiting = h.waiting;
                },
                omega (arith, kept),
              )
        | inr e ↦
            rw (e, resolve_one)
              (
                record {
                  work =
                      length-update_at item.index (λ old. with_context item.context o) p.work
                      ∙ h.work;
                  marks = length-update_at item.index (λ old. true) p.resolved ∙ h.marks;
                  queued =
                      All-append (λ i. i.index < n) items children h.queued.1
                        (released-All n item.context _ (read-All n key p.waiting h.waiting));
                  waiting = delete-All n key p.waiting h.waiting;
                },
                omega (
                  arith,
                  length-append items children,
                  length-released item.context (read_indices (lookup key p.waiting)),
                  total-delete key p.waiting,
                ),
              )
      ]

  -- The fuel is enough, and what every round keeps holds in the end.
  pub record Drains {ℓ} (n : ℕ) (Q : List Resolved → Progress → Type ℓ) (fuel : ℕ)
      (queue : List Resolved) (p : Progress) : Type ℓ where
    pub result : Progress
    pub returns : drain platform fuel queue p ≡ some result
    pub fits : Fits n [] result
    pub holds : Q [] result

  visit-skip :
      (item : Resolved) (p : Progress)
      → get_elem? p.resolved item.index ≡ some true
      → visit platform item p ≡ some ([], p)
  unfolding visit
  visit-skip item p h = ground arith

  visit-resolve :
      (item : Resolved) (o : Observation) (p : Progress)
      → get_elem? p.resolved item.index ≡ some false
      → get_elem? p.work item.index ≡ some o
      → visit platform item p ≡ some (resolve_one platform item o p)
  unfolding visit
  visit-resolve item o p h k = rw (h, k, visit) refl

  drain-visit :
      (fuel : ℕ) (item : Resolved) (items children : List Resolved) (p q : Progress)
      → visit platform item p ≡ some (children, q)
      → drain platform (suc fuel) (item ∷ items) p ≡ drain platform fuel (items ++ children) q
  unfolding drain
  drain-visit fuel item items children p q h = rw (h, drain) refl

  module _ {ℓ} (Q : List Resolved → Progress → Type ℓ)
      (skips : (item : Resolved) (items : List Resolved) (p : Progress)
        → get_elem? p.resolved item.index ≡ some true
        → Q (item ∷ items) p
        → Q (items ++ []) p)
      (resolves : (item : Resolved) (items : List Resolved) (o : Observation) (p : Progress)
        → get_elem? p.resolved item.index ≡ some false
        → get_elem? p.work item.index ≡ some o
        → Q (item ∷ items) p
        → Q (items ++ (resolve_one platform item o p).0) (resolve_one platform item o p).1) where
    after_visit :
        (n fuel : ℕ) (item : Resolved) (items children : List Resolved) (p q : Progress)
        → visit platform item p ≡ some (children, q)
        → Drains n Q fuel (items ++ children) q
        → Drains n Q (suc fuel) (item ∷ items) p
    after_visit n fuel item items children p q step rest = record {
      result = rest.result;
      returns = drain-visit fuel item items children p q step ∙ rest.returns;
      fits = rest.fits;
      holds = rest.holds;
    }

    pub drain_induction :
        (n fuel : ℕ) (queue : List Resolved) (p : Progress)
        → Fits n queue p
        → length queue + total p.waiting ≤ fuel
        → Q queue p
        → Drains n Q fuel queue p
    unfolding drain
    drain_induction n fuel [] p h e q = record { result = p; returns = refl; fits = h; holds = q }
    drain_induction n zero (item ∷ items) p h e q = absurd (omega arith)
    drain_induction n (suc fuel) (item ∷ items) p h e q =
        let (b, marked) = get_elem?-below item.index p.resolved (rw h.marks h.queued.0) in
        elim (Bool-cases b) [
          | inl t ↦ after_visit n fuel item items [] p p (visit-skip item p (marked ∙ ap some t)) (
              drain_induction n fuel (items ++ []) p
                (record {
                  work = h.work;
                  marks = h.marks;
                  queued = All-append (λ i. i.index < n) items [] h.queued.1 tt;
                  waiting = h.waiting;
                })
                (omega (arith, e, length-append items []))
                (skips item items p (marked ∙ ap some t) q))
          | inr t ↦
              let (o, found) = get_elem?-below item.index p.work (rw h.work h.queued.0) in
              let (fits, smaller) = resolve_one-Fits n item items o p h in
              after_visit n fuel item items _ p _
                (visit-resolve item o p (marked ∙ ap some t) found)
                (drain_induction n fuel (items ++ (resolve_one platform item o p).0)
                  (resolve_one platform item o p).1 fits (omega (arith, e, smaller))
                  (resolves item items o p (marked ∙ ap some t) found q))
        ]
