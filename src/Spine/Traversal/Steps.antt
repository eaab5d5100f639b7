-- ===== src/Spine/Traversal/Steps.antt =====
-- spine/traversal.py: what one edge does to the nodes, the visited claims and the queue.
use unwind.Base.{
  ◌≡◌, refl, String, true, false, ◌||◌, [], ◌∷◌, ◌++◌, Option, none, some, if◌then◌else◌, arith, ap,
  ◌∙◌, contains, text_eq, text_eq_iff, Bool-cases, inl, inr,
}
use unwind.Base.Dict.{has_key, has_key-put}
use unwind.Spine.Schema.{Conclusion}
use unwind.Spine.Traversal.{
  ReverseEdge, GraphStore, TraversalNode, Waiting, Walk, add_node, follow, read_node, node_of,
  visit, note_dangling, note_cycle, enqueue,
}

-- The claim that a conclusion asserts: an empty one is none.
nonempty : Option String → Option String
nonempty none = none
nonempty (some k) = if text_eq k "" then none else some k

pub emitted_by : Option Conclusion → Option String
emitted_by none = none
emitted_by (some c) = nonempty c.emits_claim_id

-- Either the queue stays, and what is emitted was visited, or what is emitted is queued.
pub data Followed {Weight : Type 0} (s : Walk Weight) (o : Option String) (t : Walk Weight)
    : Type 0 where
  quiet :
      t.queue ≡ s.queue
      → t.visited_claims ≡ s.visited_claims
      → ((k : String) → o ≡ some k → contains k s.visited_claims ≡ true)
      → Followed s o t
  sent :
      (x : Waiting)
      → o ≡ some x.claim_id
      → t.queue ≡ s.queue ++ x ∷ []
      → t.visited_claims ≡ x.claim_id ∷ s.visited_claims
      → Followed s o t

module _ {Weight : Type 0} where
  follow_fresh :
      (s : Walk Weight) (n : TraversalNode Weight) (k : String)
      → Followed s (some k) (
          if contains k s.visited_claims
          then note_cycle s n.conclusion_id k
          else enqueue s (record { claim_id = k; depth = n.depth; path = n.path ++ k ∷ [] }))
  unfolding note_cycle enqueue
  follow_fresh s n k = elim (Bool-cases (contains k s.visited_claims)) [
    | inl e ↦ rw e (Followed.quiet refl refl (λ j h. cc (e, h)))
    | inr e ↦ rw e (
        Followed.sent (record { claim_id = k; depth = n.depth; path = n.path ++ k ∷ [] }) refl refl
          refl)
  ]

  follow-Followed :
      (s : Walk Weight) (n : TraversalNode Weight) (o : Option String)
      → Followed s (nonempty o) (follow s n o)
  unfolding follow nonempty
  follow-Followed s n none = Followed.quiet refl refl (λ k e. absurd (cc e))
  follow-Followed s n (some k) = elim (Bool-cases (text_eq k "")) [
    | inl e ↦ rw e (Followed.quiet refl refl (λ k e. absurd (cc e)))
    | inr e ↦ rw e (follow_fresh s n k)
  ]

  read_node-Followed :
      (s : Walk Weight) (n : TraversalNode Weight) (o : Option Conclusion)
      → Followed s (emitted_by o) (read_node s n o)
  unfolding read_node emitted_by note_dangling
  read_node-Followed s n none = Followed.quiet refl refl (λ k e. absurd (cc e))
  read_node-Followed s n (some c) = follow-Followed s n c.emits_claim_id

  follow-nodes :
      (s : Walk Weight) (n : TraversalNode Weight) (o : Option String)
      → (follow s n o).nodes ≡ s.nodes
  unfolding follow note_cycle enqueue
  follow-nodes s n none = refl
  follow-nodes s n (some k) = ground arith

  read_node-nodes :
      (s : Walk Weight) (n : TraversalNode Weight) (o : Option Conclusion)
      → (read_node s n o).nodes ≡ s.nodes
  unfolding read_node note_dangling
  read_node-nodes s n none = refl
  read_node-nodes s n (some c) = follow-nodes s n c.emits_claim_id

  module _ (store : GraphStore Weight) where
    pub visit-known :
        (w : Waiting) (s : Walk Weight) (e : ReverseEdge Weight)
        → has_key e.conclusion_id s.nodes ≡ true
        → visit store w s e ≡ s
    unfolding visit
    visit-known w s e h = rw h refl

    pub visit-fresh :
        (w : Waiting) (s : Walk Weight) (e : ReverseEdge Weight)
        → has_key e.conclusion_id s.nodes ≡ false
        → visit store w s e
          ≡ read_node
              (add_node s (node_of w e))
              (node_of w e)
              (store.get_conclusion e.conclusion_id)
    unfolding visit
    visit-fresh w s e h = rw h refl

    -- A new node's conclusion is followed.
    pub visit-Followed :
        (w : Waiting) (s : Walk Weight) (e : ReverseEdge Weight)
        → has_key e.conclusion_id s.nodes ≡ false
        → Followed s (emitted_by (store.get_conclusion e.conclusion_id)) (visit store w s e)
    unfolding add_node node_of
    visit-Followed w s e h = rw (visit-fresh w s e h) (
        of_node (
          read_node-Followed (add_node s (node_of w e)) (node_of w e)
            (store.get_conclusion e.conclusion_id)))
      where
        of_node :
            {o : Option String} {t : Walk Weight}
            → Followed (add_node s (node_of w e)) o t
            → Followed s o t
        of_node (Followed.quiet q v k) = Followed.quiet q v k
        of_node (Followed.sent x o q v) = Followed.sent x o q v

    -- The nodes after an edge are those before it and the edge's conclusion.
    pub visit-nodes :
        (w : Waiting) (s : Walk Weight) (e : ReverseEdge Weight) (i : String)
        → has_key i (visit store w s e).nodes ≡ (has_key i s.nodes || text_eq i e.conclusion_id)
    unfolding add_node node_of
    visit-nodes w s e i = elim (Bool-cases (has_key e.conclusion_id s.nodes)) [
      | inl h ↦
          ap (λ t. has_key i t.nodes) (visit-known w s e h)
          ∙ ground (arith, text_eq_iff i e.conclusion_id)
      | inr h ↦
          ap (λ t. has_key i t.nodes) (visit-fresh w s e h)
          ∙ ap (has_key i) (
              read_node-nodes (add_node s (node_of w e)) (node_of w e)
                (store.get_conclusion e.conclusion_id))
          ∙ has_key-put i e.conclusion_id (node_of w e) s.nodes
          ∙ ground arith
    ]
