-- ===== src/Court/Owners.antt =====
-- court/owners.py: a commitment's owner, who argues and may not rule. The prompts and the fallback
-- texts are kept as data.
use unwind.Base.{
  ℕ, ◌≤◌, ◌≡◌, String, not, List, [], ◌∷◌, Option, none, some, if◌then◌else◌, arith, text_eq,
  Result, ok, err,
}
use unwind.Base.Int.{ℤ, pos, ltb_ℤ, ◌+ℤ◌, ◌-ℤ◌, ◌≤ℤ◌}
use unwind.Base.Text.{strip}
use unwind.Court.Schema.{
  Floats, Brief, Plea, PleaStance, Challenge, Argument, Evidence, Reply, Prompt, T2Model,
}

pub record CommitmentOwner (Float : Type 0) : Type 0 where
  pub owner_id : String
  pub conclusion_id : String
  pub committed_lead_days : Option ℤ
  pub exposure : Float
  pub available_evidence : List Evidence

pub data OwnerError : Type 0 where
  owner_cannot_adjudicate principal_separation : OwnerError

abbrev pub amendment_room : ℤ
amendment_room = pos 3

-- The stance for a shock and a slack that are both known.
pub stance_for : ℤ → ℤ → PleaStance
stance_for shock slack =
    if not (ltb_ℤ slack shock)
    then PleaStance.survive_unchanged
    else if not (ltb_ℤ (slack +ℤ amendment_room) shock)
    then PleaStance.survive_amended
    else PleaStance.concede

-- `_stance`
unfoldable pub take_stance : Option ℤ → Option ℤ → PleaStance
take_stance (some shock) (some slack) = stance_for shock slack
take_stance _ _ = PleaStance.dispute_retraction

-- `reply.text.strip()`, where the reply is there and says something.
unfoldable pub written : Reply → Argument
written reply =
    let fallback = Argument.no_model reply.reason_unavailable in
    if reply.available
    then elim (strip reply.text) [ [] ↦ fallback | c ∷ s ↦ Argument.drafted (c ∷ s) ]
    else fallback

module _ (floats : Floats) where
  unfoldable pub claim_materiality : ℤ → ℤ → Option floats.Float
  claim_materiality shock slack =
      if ltb_ℤ (pos 0) shock
      then some
          (floats.max floats.zero (floats.min floats.one (floats.divide (shock -ℤ slack) shock)))
      else none

  unfoldable pub claimed_materiality : Option ℤ → Option ℤ → Option floats.Float
  claimed_materiality (some shock) (some slack) = claim_materiality shock slack
  claimed_materiality _ _ = none

  unfoldable pub adjudicate :
      CommitmentOwner floats.Float → Brief → Result OwnerError (Plea floats.Float)
  adjudicate owner brief = err OwnerError.owner_cannot_adjudicate

  unfoldable pub plead :
      CommitmentOwner floats.Float → Brief → T2Model floats.Float → Plea floats.Float
  plead owner brief model =
      let stance = take_stance brief.shock_days brief.slack_days in
      record {
        member_owner_id = owner.owner_id;
        conclusion_id = owner.conclusion_id;
        argument = written (
            model (
              Prompt.plea_prompt owner.conclusion_id owner.committed_lead_days brief stance
                owner.available_evidence));
        claimed_materiality = claimed_materiality brief.shock_days brief.slack_days;
        stance = stance;
        evidence = owner.available_evidence;
      }

  unfoldable pub challenge :
      CommitmentOwner floats.Float → Plea floats.Float → Option String → Option Challenge
  challenge owner other resource =
      if text_eq other.member_owner_id owner.owner_id then none else elim resource [
        | none ↦ none
        | some r ↦ some record {
          challenger_owner_id = owner.owner_id;
          target_owner_id = other.member_owner_id;
          contested_resource = some r;
        }
      ]

  unfoldable pub assert_not_own_judge :
      CommitmentOwner floats.Float → String → Result {0, 0} OwnerError Unit
  assert_not_own_judge owner arbiter_id =
      if text_eq owner.owner_id arbiter_id then err OwnerError.principal_separation else ok tt

-- How far a stance gives way.
pub give_way : PleaStance → ℕ
give_way PleaStance.survive_unchanged = 0
give_way PleaStance.survive_amended = 1
give_way PleaStance.concede = 2
give_way PleaStance.dispute_retraction = 0

-- Of two shocks against the same slack, an owner never gives way less to the larger, gives way to none
-- that its slack holds, and concedes exactly those that are more than three days past it.
stance_for_mono :
    (shock larger slack : ℤ)
    → shock ≤ℤ larger
    → (give_way (stance_for shock slack) ≤ give_way (stance_for larger slack))
      × (shock ≤ℤ slack → stance_for shock slack ≡ PleaStance.survive_unchanged)
      × (slack +ℤ pos 3 ≤ℤ shock -ℤ pos 1 → stance_for shock slack ≡ PleaStance.concede)
unfolding stance_for give_way
stance_for_mono shock larger slack h = (ground arith, λ k. ground arith, λ k. ground arith)
