-- ===== src/Spine/Traversal/Reach.antt =====
-- spine/traversal.py: what the walk reaches is exactly what rests on the root, directly or through the
-- claims that conclusions emit.
use unwind.Base.{
  ℕ, zero, suc, ◌≡◌, refl, String, Bool, true, ◌||◌, List, [], ◌∷◌, none, some, arith, sym, ◌∙◌,
  contains, text_eq, text_eq_iff, Bool-cases, inl, inr, any, ◌↔◌, All, length,
}
use mathlib.Core.Bool.{false≢true}
use unwind.Spine.Traversal.Fuel.{traverse-ends}
use unwind.Base.Text.{codes, text_leb}
use unwind.Base.Dict.{has_key}
use unwind.Base.Sorting.{insert_by, sort_by}
use unwind.Spine.Traversal.{
  ReverseEdge, GraphStore, Waiting, Walk, walk_claim, pop_left, is_too_deep, sorted_dependents,
  walk, start, traverse,
}
use unwind.Spine.Traversal.Invariant.{
  is_dependent, ReachesClaim, Reaches, Walked, visit_all-Walked, visit_all-nodes,
}

module _ {Weight : Type 0} (store : GraphStore Weight) (root_claim_id : String) where
  any-insert_by :
      (le : ReverseEdge Weight → ReverseEdge Weight → Bool) (p : ReverseEdge Weight → Bool)
      → (x : ReverseEdge Weight) (ys : List (ReverseEdge Weight))
      → any p (insert_by le x ys) ≡ (p x || any p ys)
  unfolding insert_by
  any-insert_by le p x [] = refl
  any-insert_by le p x (y ∷ ys) = ground (arith, any-insert_by le p x ys)

  any-sort_by :
      (le : ReverseEdge Weight → ReverseEdge Weight → Bool) (p : ReverseEdge Weight → Bool)
      → (xs : List (ReverseEdge Weight)) → any p (sort_by le xs) ≡ any p xs
  unfolding sort_by
  any-sort_by le p [] = refl
  any-sort_by le p (x ∷ xs) =
      ground (arith, any-insert_by le p x (sort_by le xs), any-sort_by le p xs)

  sorted_lem :
      (k c : String)
      → any (λ e. text_eq c e.conclusion_id) (sorted_dependents store k)
        ≡ is_dependent store root_claim_id k c
  unfolding sorted_dependents is_dependent
  sorted_lem k c =
      any-sort_by (λ a b. text_leb (codes a.conclusion_id) (codes b.conclusion_id))
        (λ e. text_eq c e.conclusion_id) (store.direct_dependents k)

  walk_claim-Walked :
      (w : Waiting) (queue : List Waiting) (s : Walk Weight)
      → Walked store root_claim_id s (w ∷ queue)
      → Walked store root_claim_id
          (walk_claim store none s w queue)
          (walk_claim store none s w queue).queue
  unfolding walk_claim is_too_deep pop_left
  walk_claim-Walked w queue s inv =
      let popped : Walked store root_claim_id (pop_left store s queue) (w ∷ queue) = record {
        rooted = inv.rooted;
        node = inv.node;
        claim = inv.claim;
        queued = inv.queued;
        emits = inv.emits;
        done = inv.done;
      } in
      let es = sorted_dependents store w.claim_id in
      let all =
        visit_all-Walked store root_claim_id w es (pop_left store s queue)
          (λ c h. sym (sorted_lem w.claim_id c) ∙ h) popped in
      record {
        rooted = all.rooted;
        node = all.node;
        claim = all.claim;
        queued = λ k h. all.queued k (ground arith);
        emits = all.emits;
        done = λ k h f c d. elim (Bool-cases (text_eq k w.claim_id)) [
          | inl i ↦ ground (
            arith,
            visit_all-nodes store root_claim_id w es (pop_left store s queue) c,
            sorted_lem w.claim_id c ∙ rw ((text_eq_iff k w.claim_id).0 i) at d,
          )
          | inr i ↦ all.done k h (ground arith) c d
        ];
      }

  walk-Walked :
      (fuel : ℕ) (s : Walk Weight) (queue : List Waiting) (t : Walk Weight)
      → walk store none fuel s queue ≡ some t
      → Walked store root_claim_id s queue
      → Walked store root_claim_id t []
  unfolding walk
  walk-Walked fuel s [] t h inv = let same : s ≡ t = cc h in rw same at inv
  walk-Walked zero s (w ∷ queue) t h inv = absurd (cc h)
  walk-Walked (suc fuel) s (w ∷ queue) t h inv =
      let later = walk_claim store none s w queue in
      walk-Walked fuel later later.queue t h (walk_claim-Walked w queue s inv)

  start-Walked :
      Walked store root_claim_id (start store root_claim_id) (start store root_claim_id).queue
  unfolding start
  start-Walked = record {
    rooted = ground (arith, text_eq_iff root_claim_id root_claim_id);
    node = λ c h. absurd (false≢true h);
    claim = λ k h. rw ((text_eq_iff k root_claim_id).0 (ground arith)) ReachesClaim.root;
    queued = λ k h. ground arith;
    emits = λ c k h m. absurd (false≢true h);
    done = λ k h f c d. absurd (ground arith);
  }

  claim_visited :
      (t : Walk Weight) (k : String)
      → Walked store root_claim_id t []
      → ReachesClaim store root_claim_id k
      → contains k t.visited_claims ≡ true
  claim_visited t k inv ReachesClaim.root = inv.rooted
  claim_visited t k inv (ReachesClaim.next j c i r d o) =
      inv.emits c k (inv.done j (claim_visited t j inv r) refl c d) o

  -- Without a depth limit, whatever the cycles: where every edge points into a list of conclusions, one
  -- round more than the list is long gives a result, and a conclusion is a node of it exactly when
  -- it rests on the root claim, directly or through claims that conclusions emit.
  pub traverse-Reaches :
      (universe : List String)
      → ((k : String)
          → All (λ e. contains e.conclusion_id universe ≡ true) (store.direct_dependents k))
      → (t : Walk Weight) × (traverse store root_claim_id none (suc (length universe)) ≡ some t)
        × ((c : String) → (has_key c t.nodes ≡ true) ↔ Reaches store root_claim_id c)
  unfolding traverse Reaches
  traverse-Reaches universe known =
      let ended = traverse-ends universe store root_claim_id none known in
      let inv =
        walk-Walked (suc (length universe)) (start store root_claim_id)
          (start store root_claim_id).queue ended.0 ended.1 start-Walked in
      (
        ended.0,
        ended.1,
        λ c. (inv.node c, λ r. inv.done r.0 (claim_visited ended.0 r.0 inv r.1) refl c r.2),
      )
