-- ===== src/Spine/Traversal.antt =====
-- spine/traversal.py: the breadth-first walk from a claim over the conclusions that rest on it. The
-- store is two of its reads, the loop runs on fuel and answers nothing without it, and an edge's
-- weight is of any type.
pub mod Steps
pub mod Fuel
pub mod Invariant
pub mod Reach
use unwind.Base.{
  ℕ, zero, suc, String, Bool, true, false, ◌||◌, List, [], ◌∷◌, ◌++◌, Option, none, some,
  if◌then◌else◌, max, leb, contains, text_eq,
}
use unwind.Base.Text.{codes, text_leb}
use unwind.Base.Dict.{has_key, put}
use unwind.Base.Sorting.{sort_by}
use unwind.Spine.Schema.{Conclusion}

pub record ReverseEdge (Weight : Type 0) : Type 0 where
  pub conclusion_id : String
  pub weight : Weight

pub record GraphStore (Weight : Type 0) : Type 0 where
  pub get_conclusion : String → Option Conclusion
  pub direct_dependents : String → List (ReverseEdge Weight)

pub record TraversalNode (Weight : Type 0) : Type 0 where
  pub conclusion_id : String
  pub depth : ℕ
  pub path : List String
  pub weight : Weight

-- A claim that waits to be walked through.
pub record Waiting : Type 0 where
  pub claim_id : String
  pub depth : ℕ
  pub path : List String

-- The result so far, with the visited claims and the queue of the walk.
pub record Walk (Weight : Type 0) : Type 0 where
  pub nodes : List (String × TraversalNode Weight)
  pub dangling_edges : List String
  pub cycles_detected : List (String × String)
  pub claims_visited : ℕ
  pub max_depth : ℕ
  pub visited_claims : List String
  pub queue : List Waiting

module _ {Weight : Type 0} where
  pub add_node : Walk Weight → TraversalNode Weight → Walk Weight
  add_node s n = record {
    nodes = put n.conclusion_id n s.nodes;
    dangling_edges = s.dangling_edges;
    cycles_detected = s.cycles_detected;
    claims_visited = s.claims_visited;
    max_depth = max s.max_depth n.depth;
    visited_claims = s.visited_claims;
    queue = s.queue;
  }

  pub note_dangling : Walk Weight → String → Walk Weight
  note_dangling s id = record {
    nodes = s.nodes;
    dangling_edges = s.dangling_edges ++ id ∷ [];
    cycles_detected = s.cycles_detected;
    claims_visited = s.claims_visited;
    max_depth = s.max_depth;
    visited_claims = s.visited_claims;
    queue = s.queue;
  }

  pub note_cycle : Walk Weight → String → String → Walk Weight
  note_cycle s id emitted = record {
    nodes = s.nodes;
    dangling_edges = s.dangling_edges;
    cycles_detected = s.cycles_detected ++ (id, emitted) ∷ [];
    claims_visited = s.claims_visited;
    max_depth = s.max_depth;
    visited_claims = s.visited_claims;
    queue = s.queue;
  }

  pub enqueue : Walk Weight → Waiting → Walk Weight
  enqueue s w = record {
    nodes = s.nodes;
    dangling_edges = s.dangling_edges;
    cycles_detected = s.cycles_detected;
    claims_visited = s.claims_visited;
    max_depth = s.max_depth;
    visited_claims = w.claim_id ∷ s.visited_claims;
    queue = s.queue ++ w ∷ [];
  }

  -- What a conclusion emits, where it emits anything.
  pub follow : Walk Weight → TraversalNode Weight → Option String → Walk Weight
  follow s n none = s
  follow s n (some emitted) =
      if text_eq emitted ""
      then s
      else if contains emitted s.visited_claims
      then note_cycle s n.conclusion_id emitted
      else enqueue s (record { claim_id = emitted; depth = n.depth; path = n.path ++ emitted ∷ [] })

  pub read_node : Walk Weight → TraversalNode Weight → Option Conclusion → Walk Weight
  read_node s n none = note_dangling s n.conclusion_id
  read_node s n (some c) = follow s n c.emits_claim_id

  pub node_of : Waiting → ReverseEdge Weight → TraversalNode Weight
  node_of w e = record {
    conclusion_id = e.conclusion_id;
    depth = suc w.depth;
    path = w.path ++ e.conclusion_id ∷ [];
    weight = e.weight;
  }

  module _ (store : GraphStore Weight) where
    -- One round of the inner loop: a conclusion that was reached is left as it is.
    pub visit : Waiting → Walk Weight → ReverseEdge Weight → Walk Weight
    visit w s e =
        if has_key e.conclusion_id s.nodes
        then s
        else read_node (add_node s (node_of w e)) (node_of w e)
            (store.get_conclusion e.conclusion_id)

    pub visit_all : Waiting → Walk Weight → List (ReverseEdge Weight) → Walk Weight
    visit_all w s [] = s
    visit_all w s (e ∷ es) = visit_all w (visit w s e) es

    pub sorted_dependents : String → List (ReverseEdge Weight)
    sorted_dependents claim_id =
        sort_by (λ a b. text_leb (codes a.conclusion_id) (codes b.conclusion_id))
          (store.direct_dependents claim_id)

    -- `queue.popleft()`, counted.
    pub pop_left : Walk Weight → List Waiting → Walk Weight
    pop_left s queue = record {
      nodes = s.nodes;
      dangling_edges = s.dangling_edges;
      cycles_detected = s.cycles_detected;
      claims_visited = suc s.claims_visited;
      max_depth = s.max_depth;
      visited_claims = s.visited_claims;
      queue = queue;
    }

    -- `max_depth is not None and depth >= max_depth`
    pub is_too_deep : Option ℕ → ℕ → Bool
    is_too_deep none depth = false
    is_too_deep (some limit) depth = leb limit depth

    -- One round of the outer loop, for the claim at the head of the queue.
    pub walk_claim : Option ℕ → Walk Weight → Waiting → List Waiting → Walk Weight
    walk_claim limit s w queue =
        if is_too_deep limit w.depth
        then pop_left s queue
        else visit_all w (pop_left s queue) (sorted_dependents w.claim_id)

    -- The outer loop, by what is left in the queue.
    pub walk : Option ℕ → ℕ → Walk Weight → List Waiting → Option (Walk Weight)
    walk limit fuel s [] = some s
    walk limit zero s (w ∷ queue) = none
    walk limit (suc fuel) s (w ∷ queue) =
        let later = walk_claim limit s w queue in walk limit fuel later later.queue

    pub start : String → Walk Weight
    start root_claim_id = record {
      nodes = [];
      dangling_edges = [];
      cycles_detected = [];
      claims_visited = 0;
      max_depth = 0;
      visited_claims = root_claim_id ∷ [];
      queue = (record { claim_id = root_claim_id; depth = 0; path = root_claim_id ∷ [] }) ∷ [];
    }

    pub traverse : String → Option ℕ → ℕ → Option (Walk Weight)
    traverse root_claim_id limit fuel =
        walk limit fuel (start root_claim_id) (start root_claim_id).queue
