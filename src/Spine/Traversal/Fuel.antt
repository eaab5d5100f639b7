-- ===== src/Spine/Traversal/Fuel.antt =====
-- spine/traversal.py: the walk ends, with one round for the root and at most one for each conclusion.
use unwind.Base.{
  ℕ, zero, suc, ◌+◌, ◌≤◌, ◌≡◌, refl, String, true, false, not, ◌||◌, List, [], ◌∷◌, Option, some,
  arith, ap, contains, text_eq, text_eq_iff, Bool-cases, inl, inr, length, length-append,
  length-keep, keep, All,
}
use unwind.Base.Text.{codes, text_leb}
use unwind.Base.Dict.{has_key}
use unwind.Base.Sorting.{All-sort_by}
use unwind.Spine.Traversal.{
  ReverseEdge, GraphStore, Waiting, Walk, visit, visit_all, walk_claim, pop_left, is_too_deep,
  sorted_dependents, walk, start, traverse,
}
use unwind.Spine.Traversal.Steps.{Followed, visit-known, visit-Followed, visit-nodes}

module _ {Weight : Type 0} (universe : List String) where
  -- The conclusions that the walk has not reached.
  missing : Walk Weight → List String → ℕ
  missing s ids = length (keep (λ u. not (has_key u s.nodes)) ids)

  -- The claims that wait, and one for each conclusion that may still be reached.
  measure : Walk Weight → ℕ
  measure s = length s.queue + missing s universe

  module _ (s t : Walk Weight) (id : String)
      (nodes : (i : String) → has_key i t.nodes ≡ (has_key i s.nodes || text_eq i id)) where
    missing_mono : (ids : List String) → missing t ids ≤ missing s ids
    unfolding missing
    missing_mono [] = ground arith
    missing_mono (u ∷ ids) = ground (arith, missing_mono ids, nodes u)

    missing-fresh :
        (ids : List String)
        → has_key id s.nodes ≡ false
        → contains id ids ≡ true
        → suc (missing t ids) ≤ missing s ids
    unfolding missing
    missing-fresh [] h k = ground arith
    missing-fresh (u ∷ ids) h k = elim (Bool-cases (text_eq id u)) [
      | inl e ↦ ground (
        arith,
        missing_mono ids,
        nodes u,
        (text_eq_iff id u).0 e,
        text_eq_iff u id,
        text_eq_iff id u,
      )
      | inr e ↦ ground (arith, missing-fresh ids h (ground arith), nodes u)
    ]

  module _ (store : GraphStore Weight) where
    queue-Followed :
        {o : Option String} (s t : Walk Weight)
        → Followed s o t
        → length t.queue ≤ suc (length s.queue)
    queue-Followed s t (Followed.quiet q v k) = ground (arith, ap length q)
    queue-Followed s t (Followed.sent x o q v) =
        ground (arith, ap length q, length-append s.queue (x ∷ []))

    visit-measure :
        (w : Waiting) (s : Walk Weight) (e : ReverseEdge Weight)
        → contains e.conclusion_id universe ≡ true
        → measure (visit store w s e) ≤ measure s
    unfolding measure
    visit-measure w s e h = elim (Bool-cases (has_key e.conclusion_id s.nodes)) [
      | inl k ↦ ground (arith, ap measure (visit-known store w s e k))
      | inr k ↦ ground (
        arith,
        queue-Followed s (visit store w s e) (visit-Followed store w s e k),
        missing-fresh s (visit store w s e) e.conclusion_id (visit-nodes store w s e) universe k h,
      )
    ]

    visit_all-measure :
        (w : Waiting) (s : Walk Weight) (es : List (ReverseEdge Weight))
        → All (λ e. contains e.conclusion_id universe ≡ true) es
        → measure (visit_all store w s es) ≤ measure s
    unfolding visit_all
    visit_all-measure w s [] h = ground arith
    visit_all-measure w s (e ∷ es) h =
        ground (arith, visit-measure w s e h.0, visit_all-measure w (visit store w s e) es h.1)

    walk_claim-measure :
        (limit : Option ℕ) (s : Walk Weight) (w : Waiting) (queue : List Waiting)
        → ((k : String)
            → All (λ e. contains e.conclusion_id universe ≡ true) (store.direct_dependents k))
        → measure (walk_claim store limit s w queue) ≤ length queue + missing s universe
    unfolding walk_claim measure pop_left missing sorted_dependents
    walk_claim-measure limit s w queue known = elim (Bool-cases (is_too_deep store limit w.depth)) [
      | inl e ↦ rw e (ground arith)
      | inr e ↦ rw e (
          visit_all-measure w (pop_left store s queue) (sorted_dependents store w.claim_id) (
            All-sort_by (λ a b. text_leb (codes a.conclusion_id) (codes b.conclusion_id))
              (λ e. contains e.conclusion_id universe ≡ true) (store.direct_dependents w.claim_id)
              (known w.claim_id)))
    ]

    walk_enough :
        (limit : Option ℕ) (fuel : ℕ) (s : Walk Weight) (queue : List Waiting)
        → ((k : String)
            → All (λ e. contains e.conclusion_id universe ≡ true) (store.direct_dependents k))
        → length queue + missing s universe ≤ fuel
        → (t : Walk Weight) × (walk store limit fuel s queue ≡ some t)
    unfolding walk measure
    walk_enough limit fuel s [] known h = (s, refl)
    walk_enough limit zero s (w ∷ queue) known h = absurd (ground arith)
    walk_enough limit (suc fuel) s (w ∷ queue) known h =
        let later = walk_claim store limit s w queue in
        walk_enough limit fuel later later.queue known
          (ground (arith, walk_claim-measure limit s w queue known))

    -- Where every edge of the store points into a list of conclusions, cycles included, the walk ends
    -- within one round more than the list is long, whatever the root and the depth limit.
    pub traverse-ends :
        (root_claim_id : String) (limit : Option ℕ)
        → ((k : String)
            → All (λ e. contains e.conclusion_id universe ≡ true) (store.direct_dependents k))
        → (t : Walk Weight) × (traverse store root_claim_id limit (suc (length universe)) ≡ some t)
    unfolding traverse start missing
    traverse-ends root_claim_id limit known =
        walk_enough limit (suc (length universe)) (start store root_claim_id)
          (start store root_claim_id).queue known
          (ground
            (arith, length-keep (λ u. not (has_key u (start store root_claim_id).nodes)) universe))
