-- ===== src/Court/Allocation.antt =====
-- court/arbiter.py: where each plea ends.
pub mod Contention
use unwind.Base.{
  suc, ◌+◌, ◌≡◌, refl, String, Bool, true, false, not, ◌&&◌, List, [], ◌∷◌, ◌++◌, Option, none,
  some, if◌then◌else◌, map, length, lookup, text_eq, text_eq_iff, arith, All, All-append, contains,
  Bool-cases, inl, inr, ap, sym, ◌∙◌, length-append,
}
use unwind.Court.Schema.{Floats, Plea, PleaStance, Challenge}
use unwind.Court.Arbiter.{
  Tally, empty_tally, settle_plea, settle_all, note_discount, tally_pleas, weigh_all, is_lost,
  is_other, lost_allocation, contested_resources, allocate, is_concede,
}
use mathlib.Core.Bool.{false≢true}
use mathlib.Core.List.{append-nil, append_assoc}

pub is_unchanged : PleaStance → Bool
is_unchanged PleaStance.survive_unchanged = true
is_unchanged _ = false

module _ (floats : Floats) where
  preserved_lem :
      (converged : Bool) (contested winners : List (String × String)) (t : Tally floats.Float)
      → (w : Plea floats.Float × floats.Float)
      → (note_discount floats w (settle_plea floats converged contested winners t w.0)).preserved
        ≡ (if converged
              && not (lost_allocation floats contested winners w.0.conclusion_id)
              && is_unchanged w.0.stance
            then t.preserved ++ w.0.conclusion_id ∷ []
            else t.preserved)
  unfolding settle_plea note_discount is_unchanged is_concede
  preserved_lem converged contested winners t w = ground arith

  length_lem :
      (converged : Bool) (contested winners : List (String × String)) (t : Tally floats.Float)
      → (w : Plea floats.Float × floats.Float)
      → let later = note_discount floats w (settle_plea floats converged contested winners t w.0) in
        length later.preserved + length later.amended + length later.conceded
        ≡ suc (length t.preserved + length t.amended + length t.conceded)
  unfolding settle_plea note_discount is_concede
  length_lem converged contested winners t w = ground (
    arith,
    length-append t.preserved (w.0.conclusion_id ∷ []),
    length-append t.amended (w.0.conclusion_id ∷ []),
    length-append t.conceded (w.0.conclusion_id ∷ []),
  )

  settle_all-length :
      (converged : Bool) (contested winners : List (String × String)) (t : Tally floats.Float)
      → (ws : List (Plea floats.Float × floats.Float))
      → let later = settle_all floats converged contested winners t ws in
        length later.preserved + length later.amended + length later.conceded
        ≡ length t.preserved + length t.amended + length t.conceded + length ws
  unfolding settle_all
  settle_all-length converged contested winners t [] = ground arith
  settle_all-length converged contested winners t (w ∷ ws) = ground (
    arith,
    length_lem converged contested winners t w,
    settle_all-length converged contested winners
        (note_discount floats w (settle_plea floats converged contested winners t w.0)) ws,
  )

  unconverged_lem :
      (contested winners : List (String × String)) (t : Tally floats.Float)
      → (w : Plea floats.Float × floats.Float)
      → let later = note_discount floats w (settle_plea floats false contested winners t w.0) in
        (later.preserved ≡ t.preserved)
        × (later.amended ≡ t.amended)
        × (later.conceded ≡ t.conceded ++ w.0.conclusion_id ∷ [])
  unfolding settle_plea note_discount
  unconverged_lem contested winners t w = ground arith

  settle_all-unconverged :
      (contested winners : List (String × String)) (t : Tally floats.Float)
      → (ws : List (Plea floats.Float × floats.Float))
      → let later = settle_all floats false contested winners t ws in
        (later.preserved ≡ t.preserved)
        × (later.amended ≡ t.amended)
        × (later.conceded ≡ t.conceded ++ map (λ w. w.0.conclusion_id) ws)
  unfolding settle_all
  settle_all-unconverged contested winners t [] = (refl, refl, sym (append-nil t.conceded))
  settle_all-unconverged contested winners t (w ∷ ws) =
      let one = unconverged_lem contested winners t w in
      let rest =
        settle_all-unconverged contested winners
          (note_discount floats w (settle_plea floats false contested winners t w.0)) ws in
      (
        rest.0 ∙ one.0,
        rest.1 ∙ one.1,
        rest.2
            ∙ ap (λ l. l ++ map (λ w. w.0.conclusion_id) ws) one.2
            ∙ append_assoc t.conceded (w.0.conclusion_id ∷ []) (map (λ w. w.0.conclusion_id) ws),
      )

  -- A commitment that keeps what it contends for, or contends for nothing.
  IsKept : List (String × String) → List (String × String) → String → Type 0
  IsKept contested winners id = lost_allocation floats contested winners id ≡ false

  All-if_append :
      (P : String → Type 0) (b : Bool) (x : String) (xs : List String)
      → (b ≡ true → P x)
      → All P xs
      → All P (if b then xs ++ x ∷ [] else xs)
  All-if_append P true x xs h a = All-append P xs (x ∷ []) a (h refl, tt)
  All-if_append P false x xs h a = a

  settle_all-IsKept :
      (converged : Bool) (contested winners : List (String × String)) (t : Tally floats.Float)
      → (ws : List (Plea floats.Float × floats.Float)) → All (IsKept contested winners) t.preserved
      → All
          (IsKept contested winners)
          (settle_all floats converged contested winners t ws).preserved
  unfolding settle_all IsKept
  settle_all-IsKept converged contested winners t [] h = h
  settle_all-IsKept converged contested winners t (w ∷ ws) h =
      settle_all-IsKept converged contested winners
        (note_discount floats w (settle_plea floats converged contested winners t w.0)) ws
        (rw (preserved_lem converged contested winners t w) (
          All-if_append (IsKept contested winners)
            (converged
              && not (lost_allocation floats contested winners w.0.conclusion_id)
              && is_unchanged w.0.stance)
            w.0.conclusion_id t.preserved (λ e. ground arith) h))

  All-contains :
      (P : String → Type 0) (id : String) (xs : List String)
      → All P xs
      → contains id xs ≡ true
      → P id
  All-contains P id (x ∷ xs) h k = elim (Bool-cases (text_eq id x)) [
    | inl e ↦ rw ((text_eq_iff id x).0 e) h.0
    | inr e ↦ All-contains P id xs h.1 (ground arith)
  ]
  All-contains P id [] h k = ground arith

  length-weigh_all :
      (pleas : List (Plea floats.Float)) → length (weigh_all floats pleas) ≡ length pleas
  unfolding weigh_all
  length-weigh_all [] = refl
  length-weigh_all (p ∷ ps) = ground (arith, length-weigh_all ps)

  weigh_all-ids :
      (pleas : List (Plea floats.Float))
      → map (λ w. w.0.conclusion_id) (weigh_all floats pleas) ≡ map (λ p. p.conclusion_id) pleas
  unfolding weigh_all
  weigh_all-ids [] = refl
  weigh_all-ids (p ∷ ps) = ap (λ l. p.conclusion_id ∷ l) (weigh_all-ids ps)

  -- The ruling leaves no plea out and counts none twice: the preserved, the amended and the conceded
  -- together are as many as the pleas. A hearing that did not converge preserves and amends nothing:
  -- it concedes the commitment of every plea, in the order of the pleas.
  pub tally_pleas-total :
      (pleas : List (Plea floats.Float)) (challenges : List Challenge) (converged : Bool)
      → let t = tally_pleas floats pleas challenges converged in
        (length t.preserved + length t.amended + length t.conceded ≡ length pleas)
        × ((if converged then [] else t.preserved ++ t.amended) ≡ [])
        × ((if converged then [] else t.conceded)
            ≡ (if converged then [] else map (λ p. p.conclusion_id) pleas))
  unfolding tally_pleas
  tally_pleas-total pleas challenges converged = (
    ground (
      arith,
      length-weigh_all pleas,
      settle_all-length converged (contested_resources floats challenges pleas)
          (allocate floats (weigh_all floats pleas) (contested_resources floats challenges pleas))
          empty_tally (weigh_all floats pleas),
    ),
    (unconverged converged).0,
    (unconverged converged).1,
  )
    where
      unconverged :
          (converged : Bool)
          → let t = tally_pleas floats pleas challenges converged in
            ((if converged then [] else t.preserved ++ t.amended) ≡ [])
            × ((if converged then [] else t.conceded)
                ≡ (if converged then [] else map (λ p. p.conclusion_id) pleas))
      unconverged true = (refl, refl)
      unconverged false =
          let all =
            settle_all-unconverged (contested_resources floats challenges pleas)
              (allocate floats (weigh_all floats pleas)
                (contested_resources floats challenges pleas))
              empty_tally (weigh_all floats pleas) in
          (cc (all.0, all.1), all.2 ∙ weigh_all-ids pleas)

  is_other_lem :
      (winner : Option String) (id : String) → is_other winner id ≡ false → winner ≡ some id
  unfolding is_other
  is_other_lem none id h = absurd (false≢true (sym h))
  is_other_lem (some winner) id h = ap some ((text_eq_iff winner id).0 (ground arith))

  winner_lem :
      (contested winners : List (String × String)) (id resource : String)
      → lost_allocation floats contested winners id ≡ false
      → lookup id contested ≡ some resource
      → lookup resource winners ≡ some id
  unfolding lost_allocation is_lost
  winner_lem contested winners id resource h a =
      is_other_lem (lookup resource winners) id (rw a at h)

  kept_resource :
      (contested winners : List (String × String)) (id other resource : String)
      → lost_allocation floats contested winners id ≡ false
      → lost_allocation floats contested winners other ≡ false
      → lookup id contested ≡ some resource
      → lookup other contested ≡ some resource
      → id ≡ other
  kept_resource contested winners id other resource h k a b = cc (
    winner_lem contested winners id resource h a,
    winner_lem contested winners other resource k b,
  )

  -- Two preserved commitments that the table of contested resources has under one are the same.
  pub preserved-alone :
      (pleas : List (Plea floats.Float)) (challenges : List Challenge) (converged : Bool)
      → (id other resource : String)
      → contains id (tally_pleas floats pleas challenges converged).preserved ≡ true
      → contains other (tally_pleas floats pleas challenges converged).preserved ≡ true
      → lookup id (contested_resources floats challenges pleas) ≡ some resource
      → lookup other (contested_resources floats challenges pleas) ≡ some resource
      → id ≡ other
  unfolding tally_pleas IsKept
  preserved-alone pleas challenges converged id other resource h k a b =
      let contested = contested_resources floats challenges pleas in
      let winners = allocate floats (weigh_all floats pleas) contested in
      let all =
        settle_all-IsKept converged contested winners empty_tally (weigh_all floats pleas) tt in
      let preserved = (tally_pleas floats pleas challenges converged).preserved in
      kept_resource contested winners id other resource
        (All-contains (IsKept contested winners) id preserved all h)
        (All-contains (IsKept contested winners) other preserved all k) a b
