-- ===== src/Spine/Traversal/Invariant.antt =====
-- spine/traversal.py: what holds of the walk between two edges, and that each edge keeps it.
use unwind.Base.{
  ◌≡◌, String, Bool, true, false, ◌||◌, List, [], ◌∷◌, ◌++◌, some, arith, ap, ◌∙◌, contains,
  text_eq, text_eq_iff, Bool-cases, inl, inr, any, any-append,
}
use unwind.Base.Dict.{has_key}
use unwind.Spine.Traversal.{ReverseEdge, GraphStore, Waiting, Walk, visit, visit_all}
use unwind.Spine.Traversal.Steps.{Followed, emitted_by, visit-known, visit-Followed, visit-nodes}

module _ {Weight : Type 0} (store : GraphStore Weight) (root_claim_id : String) where
  unfoldable pub is_dependent : String → String → Bool
  is_dependent k c = any (λ e. text_eq c e.conclusion_id) (store.direct_dependents k)

  -- The claims that rest on the root: the root, and what a conclusion that rests on one of them emits.
  pub data ReachesClaim : String → Type 0 where
    root : ReachesClaim root_claim_id
    next :
        (k c j : String)
        → ReachesClaim k
        → is_dependent k c ≡ true
        → emitted_by (store.get_conclusion c) ≡ some j
        → ReachesClaim j

  -- The conclusions that rest on the root.
  unfoldable pub Reaches : String → Type 0
  Reaches c = (k : String) × ReachesClaim k × (is_dependent k c ≡ true)

  abbrev pub is_queued : String → List Waiting → Bool
  is_queued k queue = any (λ w. text_eq k w.claim_id) queue

  -- The walk so far, with the claims that are still to be walked through.
  pub record Walked (s : Walk Weight) (pending : List Waiting) : Type 0 where
    pub rooted : contains root_claim_id s.visited_claims ≡ true
    pub node : (c : String) → has_key c s.nodes ≡ true → Reaches c
    pub claim : (k : String) → contains k s.visited_claims ≡ true → ReachesClaim k
    pub queued : (k : String) → is_queued k pending ≡ true → contains k s.visited_claims ≡ true
    pub emits :
        (c k : String)
        → has_key c s.nodes ≡ true
        → emitted_by (store.get_conclusion c) ≡ some k
        → contains k s.visited_claims ≡ true
    pub done :
        (k : String)
        → contains k s.visited_claims ≡ true
        → is_queued k pending ≡ false
        → (c : String) → is_dependent k c ≡ true
        → has_key c s.nodes ≡ true

  module _ (w : Waiting) (e : ReverseEdge Weight) (s t : Walk Weight)
      (nodes : (i : String) → has_key i t.nodes ≡ (has_key i s.nodes || text_eq i e.conclusion_id))
      (dependent : is_dependent w.claim_id e.conclusion_id ≡ true)
      (inv : Walked s (w ∷ s.queue)) where
    reached_claim : ReachesClaim w.claim_id
    reached_claim =
        inv.claim w.claim_id
          (inv.queued w.claim_id (ground (arith, text_eq_iff w.claim_id w.claim_id)))

    node_lem : (c : String) → has_key c t.nodes ≡ true → Reaches c
    unfolding Reaches
    node_lem c h = elim (Bool-cases (text_eq c e.conclusion_id)) [
      | inl k ↦ rw ((text_eq_iff c e.conclusion_id).0 k) (w.claim_id, reached_claim, dependent)
      | inr k ↦ inv.node c (ground (arith, nodes c))
    ]

    done_lem :
        (k : String)
        → contains k s.visited_claims ≡ true
        → is_queued k (w ∷ s.queue) ≡ false
        → (c : String) → is_dependent k c ≡ true
        → has_key c t.nodes ≡ true
    done_lem k h f c d = ground (arith, nodes c, inv.done k h f c d)

    quiet_lem :
        t.queue ≡ s.queue
        → t.visited_claims ≡ s.visited_claims
        → ((k : String)
            → emitted_by (store.get_conclusion e.conclusion_id) ≡ some k
            → contains k s.visited_claims ≡ true)
        → Walked t (w ∷ t.queue)
    quiet_lem q v known = record {
      rooted = rw v inv.rooted;
      node = node_lem;
      claim = λ k h. inv.claim k (rw v at h);
      queued = λ k h. rw v (inv.queued k (rw q at h));
      emits = λ c k h m. rw v (elim (Bool-cases (text_eq c e.conclusion_id)) [
        | inl i ↦ known k (rw ((text_eq_iff c e.conclusion_id).0 i) at m)
        | inr i ↦ inv.emits c k (ground (arith, nodes c)) m
      ]);
      done = λ k h f c d. done_lem k (rw v at h) (rw q at f) c d;
    }

    visited_lem :
        (x : Waiting) (k : String)
        → t.visited_claims ≡ x.claim_id ∷ s.visited_claims
        → contains k t.visited_claims ≡ (text_eq k x.claim_id || contains k s.visited_claims)
    visited_lem x k v = ap (contains k) v

    queue_lem :
        (x : Waiting) (k : String)
        → t.queue ≡ s.queue ++ x ∷ []
        → is_queued k (w ∷ t.queue) ≡ (is_queued k (w ∷ s.queue) || text_eq k x.claim_id)
    queue_lem x k q =
        ap (λ l. is_queued k (w ∷ l)) q
        ∙ ground (arith, any-append (λ w. text_eq k w.claim_id) s.queue (x ∷ []))

    sent_lem :
        (x : Waiting)
        → emitted_by (store.get_conclusion e.conclusion_id) ≡ some x.claim_id
        → t.queue ≡ s.queue ++ x ∷ []
        → t.visited_claims ≡ x.claim_id ∷ s.visited_claims
        → Walked t (w ∷ t.queue)
    sent_lem x o q v = record {
      rooted = ground (arith, inv.rooted, visited_lem x root_claim_id v);
      node = node_lem;
      claim = λ k h. elim (Bool-cases (text_eq k x.claim_id)) [
        | inl i ↦
            rw ((text_eq_iff k x.claim_id).0 i)
              (ReachesClaim.next w.claim_id e.conclusion_id x.claim_id reached_claim dependent o)
        | inr i ↦ inv.claim k (ground (arith, rw v at h))
      ];
      queued = λ k h. elim (Bool-cases (is_queued k (w ∷ s.queue))) [
        | inl i ↦ ground (arith, inv.queued k i, visited_lem x k v)
        | inr i ↦ ground (arith, queue_lem x k q, visited_lem x k v)
      ];
      emits = λ c k h m. elim (Bool-cases (text_eq c e.conclusion_id)) [
        | inl i ↦
            let same : x.claim_id ≡ k = cc (o, rw ((text_eq_iff c e.conclusion_id).0 i) at m) in
            ground (arith, visited_lem x k v, text_eq_iff k x.claim_id)
        | inr i ↦ ground (arith, inv.emits c k (ground (arith, nodes c)) m, visited_lem x k v)
      ];
      done = λ k h f c d.
          done_lem k (ground (arith, visited_lem x k v, queue_lem x k q))
            (ground (arith, queue_lem x k q)) c d;
    }

  visit-Walked :
      (w : Waiting) (e : ReverseEdge Weight) (s : Walk Weight)
      → is_dependent w.claim_id e.conclusion_id ≡ true
      → Walked s (w ∷ s.queue)
      → Walked (visit store w s e) (w ∷ (visit store w s e).queue)
  visit-Walked w e s d inv = elim (Bool-cases (has_key e.conclusion_id s.nodes)) [
    | inl h ↦ rw (visit-known store w s e h) inv
    | inr h ↦ followed (visit-Followed store w s e h)
  ]
    where
      followed :
          Followed s (emitted_by (store.get_conclusion e.conclusion_id)) (visit store w s e)
          → Walked (visit store w s e) (w ∷ (visit store w s e).queue)
      followed (Followed.quiet q v k) =
          quiet_lem w e s (visit store w s e) (visit-nodes store w s e) d inv q v k
      followed (Followed.sent x o q v) =
          sent_lem w e s (visit store w s e) (visit-nodes store w s e) d inv x o q v

  pub visit_all-Walked :
      (w : Waiting) (es : List (ReverseEdge Weight)) (s : Walk Weight)
      → ((c : String)
          → any (λ e. text_eq c e.conclusion_id) es ≡ true
          → is_dependent w.claim_id c ≡ true)
      → Walked s (w ∷ s.queue)
      → Walked (visit_all store w s es) (w ∷ (visit_all store w s es).queue)
  unfolding visit_all
  visit_all-Walked w [] s d inv = inv
  visit_all-Walked w (e ∷ es) s d inv =
      visit_all-Walked w es (visit store w s e) (λ c h. d c (ground arith))
        (visit-Walked w e s
          (d e.conclusion_id (ground (arith, text_eq_iff e.conclusion_id e.conclusion_id))) inv)

  -- After the pass over the edges, each of them has a node.
  pub visit_all-nodes :
      (w : Waiting) (es : List (ReverseEdge Weight)) (s : Walk Weight) (c : String)
      → has_key c (visit_all store w s es).nodes
        ≡ (has_key c s.nodes || any (λ e. text_eq c e.conclusion_id) es)
  unfolding visit_all
  visit_all-nodes w [] s c = ground arith
  visit_all-nodes w (e ∷ es) s c =
      ground (arith, visit_all-nodes w es (visit store w s e) c, visit-nodes store w s e c)
