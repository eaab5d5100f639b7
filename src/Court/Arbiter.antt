-- ===== src/Court/Arbiter.antt =====
-- court/arbiter.py: the neutral arbiter. A dissent is the data that its sentence interpolates, and the
-- model writes the rationale only.
use unwind.Base.{
  ℕ, String, Bool, true, false, not, ◌&&◌, List, [], ◌∷◌, ◌++◌, Option, none, some, if◌then◌else◌,
  map, length, lookup, text_eq, Result, ok, ◌>>=◌,
}
use unwind.Base.Dict.{put, set_default}
use unwind.Base.Int.{ℤ, pos, ltb_ℤ}
use unwind.Base.Text.{codes, text_leb}
use unwind.Principals.{SeparationError, assert_arbiter_is_third}
use unwind.Court.Schema.{Floats, Plea, PleaStance, Challenge, Ruling, Decision, Prompt, T2Model}
use unwind.Court.Owners.{written}

abbrev pub advisory_exposure_minor : ℤ
advisory_exposure_minor = pos 5000000

pub data Dissent (Float : Type 0) : Type 0 where
  not_converged : String → PleaStance → String → Dissent Float
  allocation_lost : String → PleaStance → String → Option String → Dissent Float
  disputed : String → String → Dissent Float
  discounted : String → String → Float → Dissent Float

-- The four lists that the ruling fills.
pub record Tally (Float : Type 0) : Type 0 where
  pub preserved : List String
  pub amended : List String
  pub conceded : List String
  pub dissent : List (Dissent Float)

pub record ArbiterOutcome (Float : Type 0) : Type 0 where
  pub ruling : Ruling
  pub tally : Tally Float
  pub escalated : Bool

unfoldable pub is_concede : PleaStance → Bool
is_concede PleaStance.concede = true
is_concede _ = false

-- `if challenge.contested_resource`
unfoldable pub named : Option String → Option String
named none = none
named (some r) = if text_eq r "" then none else some r

module _ {Float : Type 0} where
  abbrev pub empty_tally : Tally Float
  empty_tally = record { preserved = []; amended = []; conceded = []; dissent = [] }

  abbrev pub preserve : Tally Float → String → Tally Float
  preserve t id = record {
    preserved = t.preserved ++ id ∷ [];
    amended = t.amended;
    conceded = t.conceded;
    dissent = t.dissent;
  }

  abbrev pub amend_with : Tally Float → String → List (Dissent Float) → Tally Float
  amend_with t id why = record {
    preserved = t.preserved;
    amended = t.amended ++ id ∷ [];
    conceded = t.conceded;
    dissent = t.dissent ++ why;
  }

  abbrev pub concede_with : Tally Float → String → List (Dissent Float) → Tally Float
  concede_with t id why = record {
    preserved = t.preserved;
    amended = t.amended;
    conceded = t.conceded ++ id ∷ [];
    dissent = t.dissent ++ why;
  }

  abbrev pub dissent_with : Tally Float → Dissent Float → Tally Float
  dissent_with t why = record {
    preserved = t.preserved;
    amended = t.amended;
    conceded = t.conceded;
    dissent = t.dissent ++ why ∷ [];
  }

-- A weighted claim on a resource, and the commitment that it is for.
pub record Bid (Float : Type 0) : Type 0 where
  pub score : Float
  pub conclusion_id : String

-- `winners.get(resource) != id`
unfoldable pub is_other : Option String → String → Bool
is_other none id = true
is_other (some winner) id = not (text_eq winner id)

module _ (floats : Floats) where
  -- `{p.member_owner_id: p.conclusion_id for p in pleas}`: the last plea of an owner wins.
  unfoldable pub index_owners :
      List (String × String) → List (Plea floats.Float) → List (String × String)
  index_owners d [] = d
  index_owners d (p ∷ ps) = index_owners (put p.member_owner_id p.conclusion_id d) ps

  -- `_weight`
  unfoldable pub weigh : Plea floats.Float → floats.Float
  weigh p = elim p.evidence [ [] ↦ floats.unevidenced | e ∷ es ↦ floats.one ]

  unfoldable pub weigh_all : List (Plea floats.Float) → List (Plea floats.Float × floats.Float)
  weigh_all = map (λ p. (p, weigh p))

  -- A challenge's resource is contested by the commitment of one of its owners.
  unfoldable pub contest_by :
      List (String × String) → String → String → List (String × String) → List (String × String)
  contest_by owner_to_conclusion resource owner_id contested =
      elim (lookup owner_id owner_to_conclusion) [
        | none ↦ contested
        | some conclusion_id ↦ set_default conclusion_id resource contested
      ]

  unfoldable pub contest_all :
      List (String × String) → List Challenge → List (String × String) → List (String × String)
  contest_all owner_to_conclusion [] contested = contested
  contest_all owner_to_conclusion (c ∷ cs) contested =
      contest_all owner_to_conclusion cs (elim (named c.contested_resource) [
        | none ↦ contested
        | some resource ↦
            contest_by owner_to_conclusion resource c.target_owner_id
              (contest_by owner_to_conclusion resource c.challenger_owner_id contested)
      ])

  -- `_contested_resources`
  unfoldable pub contested_resources :
      List Challenge → List (Plea floats.Float) → List (String × String)
  contested_resources challenges pleas = contest_all (index_owners [] pleas) challenges []

  -- `key > best[resource]`, for pairs of a score and a commitment.
  unfoldable pub is_better : Bid floats.Float → Option (Bid floats.Float) → Bool
  is_better key none = true
  is_better key (some old) =
      if floats.equal key.score old.score
      then not (text_leb (codes key.conclusion_id) (codes old.conclusion_id))
      else floats.above key.score old.score

  -- `claimed_materiality or 0.0`, weighted, and the commitment.
  unfoldable pub bid_of : Plea floats.Float × floats.Float → Bid floats.Float
  bid_of (p, weight) = record {
    score = floats.times (elim p.claimed_materiality [ none ↦ floats.zero | some m ↦ m ]) weight;
    conclusion_id = p.conclusion_id;
  }

  abbrev pub Best : Type 0
  Best = List (String × Bid floats.Float)

  unfoldable pub bid : Bid floats.Float → String → Best → Best
  bid key resource best =
      if is_better key (lookup resource best) then put resource key best else best

  unfoldable pub bid_all :
      List (String × String) → List (Plea floats.Float × floats.Float) → Best → Best
  bid_all contested [] best = best
  bid_all contested (w ∷ ws) best =
      bid_all contested ws (elim (lookup w.0.conclusion_id contested) [
        | none ↦ best
        | some resource ↦ bid (bid_of w) resource best
      ])

  -- `_allocate`
  unfoldable pub allocate :
      List (Plea floats.Float × floats.Float) → List (String × String) → List (String × String)
  allocate weighed contested = map (λ b. (b.0, b.1.conclusion_id)) (bid_all contested weighed [])

  -- `cid in contested and winners.get(contested[cid]) != cid`
  unfoldable pub is_lost : Option String → List (String × String) → String → Bool
  is_lost none winners id = false
  is_lost (some resource) winners id = is_other (lookup resource winners) id

  unfoldable pub lost_allocation : List (String × String) → List (String × String) → String → Bool
  lost_allocation contested winners id = is_lost (lookup id contested) winners id

  -- Where a plea goes, and the dissent that its branch records.
  unfoldable pub settle_plea :
      Bool
      → List (String × String)
      → List (String × String)
      → Tally floats.Float
      → Plea floats.Float
      → Tally floats.Float
  settle_plea converged contested winners t p =
      let id = p.conclusion_id in
      if not converged
      then concede_with t id (Dissent.not_converged p.member_owner_id p.stance id ∷ [])
      else if lost_allocation contested winners id
      then amend_with t id
          (Dissent.allocation_lost p.member_owner_id p.stance id (lookup id contested) ∷ [])
      else elim p.stance [
        | PleaStance.survive_unchanged ↦ preserve t id
        | PleaStance.survive_amended ↦ amend_with t id []
        | PleaStance.dispute_retraction ↦
            concede_with t id (Dissent.disputed p.member_owner_id id ∷ [])
        | PleaStance.concede ↦ concede_with t id []
      ]

  -- `weight < 1.0`, for a plea that does not concede.
  unfoldable pub note_discount :
      Plea floats.Float × floats.Float → Tally floats.Float → Tally floats.Float
  note_discount (p, weight) t =
      if floats.above floats.one weight && not (is_concede p.stance)
      then dissent_with t (Dissent.discounted p.member_owner_id p.conclusion_id weight)
      else t

  unfoldable pub settle_all :
      Bool
      → List (String × String)
      → List (String × String)
      → Tally floats.Float
      → List (Plea floats.Float × floats.Float)
      → Tally floats.Float
  settle_all converged contested winners t [] = t
  settle_all converged contested winners t (w ∷ ws) =
      settle_all converged contested winners
        (note_discount w (settle_plea converged contested winners t w.0)) ws

  -- `_decision_line`
  unfoldable pub decide_line : Tally floats.Float → Bool → Decision
  decide_line t converged =
      if converged
      then Decision.decided (length t.preserved) (length t.amended) (length t.conceded)
      else Decision.non_convergent (length t.conceded)

  unfoldable pub tally_pleas : List (Plea floats.Float) → List Challenge → Bool → Tally floats.Float
  tally_pleas pleas challenges converged =
      let contested = contested_resources challenges pleas in
      settle_all converged contested (allocate (weigh_all pleas) contested) empty_tally
        (weigh_all pleas)

  unfoldable pub write_ruling :
      String
      → Tally floats.Float
      → List (Plea floats.Float)
      → List Challenge
      → T2Model floats.Float
      → ℕ
      → ℤ
      → Bool
      → ArbiterOutcome floats.Float
  write_ruling arbiter_id tally pleas challenges model now total_exposure_minor converged =
      let advisory = not (ltb_ℤ total_exposure_minor advisory_exposure_minor) in
      let decision = decide_line tally converged in
      record {
        ruling = record {
          arbiter_id = arbiter_id;
          decision = decision;
          rationale = written (
              model (
                Prompt.ruling_prompt decision converged
                  (map (λ w. (w.0.member_owner_id, w.0.stance, w.1)) (weigh_all pleas))
                  (map (λ c. (c.challenger_owner_id, c.contested_resource)) challenges)));
          decided_at = now;
          advisory = advisory;
          converged = converged;
          conceded_conclusion_ids = tally.conceded;
        };
        tally = tally;
        escalated = advisory;
      }

  -- `rule`: separation is checked before a plea is read.
  unfoldable pub rule :
      String
      → List (Plea floats.Float)
      → List Challenge
      → List String
      → T2Model floats.Float
      → ℕ
      → ℤ
      → Bool
      → Option String
      → Option String
      → Result SeparationError (ArbiterOutcome floats.Float)
  rule arbiter_id pleas challenges owner_ids model now total_exposure_minor converged assessor
        rederiver =
      assert_arbiter_is_third arbiter_id owner_ids assessor rederiver >>= λ checked. ok (
        write_ruling arbiter_id (tally_pleas pleas challenges converged) pleas challenges model now
          total_exposure_minor converged)
