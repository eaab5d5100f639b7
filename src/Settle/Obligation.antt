-- ===== src/Settle/Obligation.antt =====
-- settle/obligation.py: build_obligation, and the obligation of lib/schema.py. The lines of the
-- document are kept as data in place of their text; rendering it is left out.
use unwind.Base.{
  ◌≡◌, refl, String, Bool, true, false, List, [], ◌∷◌, ◌++◌, Option, some, if◌then◌else◌, arith,
  All, All-append, map, keep, not, map-append,
}
use unwind.Base.{Result, ok, err}
use unwind.Base.Text.{Text, codes}
use unwind.Spine.Schema.{Reversibility, ExternalEffect, Conclusion, kind_value}
use unwind.Settle.Irreversibility.{
  Triage, triage_effect, triage_effect-conservative, is_unknown, is_irreversible, triage_all,
}
use unwind.Settle.Cartography.{
  CounterpartyMap, Wording, map_counterparties, counterparties, sole_counterparty,
  map_counterparties-sole,
}
use unwind.Settle.Exposure.{ResidualExposure, residual_exposure}

pub data ObligationStatus : Type 0 where
  raised awaiting_signature signed discharged declined : ObligationStatus

pub data Action : Type 0 where
  reissue : ExternalEffect → Action
  compensate : ExternalEffect → Bool → Action

pub record Obligation : Type 0 where
  pub obligation_id : String
  pub conclusion_id : String
  pub counterparties : List Text
  pub reversible_actions : List Action
  pub residual_exposure : ResidualExposure
  pub approver : Option Text
  pub status : ObligationStatus
  pub ruling_id : Option String

pub record DraftedObligation : Type 0 where
  pub obligation : Obligation
  pub conclusion_id : String
  pub counterparty_map : CounterpartyMap
  pub triaged : List Triage
  pub unrecoverable : List Triage
  pub correction_text : Wording

unfoldable pub approver_for : Conclusion → Text
approver_for conclusion = codes "human::commercial-lead::" ++ kind_value conclusion.kind

-- The actions that are listed for an item.
actions_of : Triage → List Action
actions_of item = elim item.reversibility [
  | Reversibility.idempotent ↦ Action.reissue item.effect ∷ []
  | Reversibility.compensable ↦ Action.compensate item.effect item.requires_signature ∷ []
  | _ ↦ []
]

losses_of : Triage → List Triage
losses_of item = elim item.reversibility [
  | Reversibility.idempotent ↦ []
  | Reversibility.compensable ↦ []
  | _ ↦ item ∷ []
]

pub list_actions : List Triage → List Action
list_actions [] = []
list_actions (item ∷ items) = actions_of item ++ list_actions items

pub list_losses : List Triage → List Triage
list_losses [] = []
list_losses (item ∷ items) = losses_of item ++ list_losses items

pub data ObligationError : Type 0 where
  obligation_incomplete : ObligationError

-- `bool(text)`
unfoldable pub is_empty : Text → Bool
is_empty [] = true
is_empty (c ∷ s) = false

unfoldable pub draft :
    Conclusion → String → Wording → Wording → Wording → Option String → DraftedObligation
draft conclusion obligation_id old_summary new_summary correction_text ruling_id =
    let cmap = map_counterparties conclusion old_summary new_summary in
    let triaged = triage_all conclusion.external_effects in
    record {
      obligation = record {
        obligation_id = obligation_id;
        conclusion_id = conclusion.conclusion_id;
        counterparties = counterparties cmap;
        reversible_actions = list_actions triaged;
        residual_exposure = residual_exposure triaged;
        approver = some (approver_for conclusion);
        status = ObligationStatus.raised;
        ruling_id = ruling_id;
      };
      conclusion_id = conclusion.conclusion_id;
      counterparty_map = cmap;
      triaged = triaged;
      unrecoverable = list_losses triaged;
      correction_text = correction_text;
    }

unfoldable pub build_obligation :
    Conclusion
    → String
    → Wording
    → Wording
    → Wording
    → Option String
    → Result ObligationError DraftedObligation
build_obligation conclusion obligation_id old_summary new_summary correction_text ruling_id =
    if is_empty (approver_for conclusion)
    then err ObligationError.obligation_incomplete
    else ok (draft conclusion obligation_id old_summary new_summary correction_text ruling_id)

abbrev pub action_effect : Action → ExternalEffect
action_effect (Action.reissue e) = e
action_effect (Action.compensate e needs) = e

-- The triage of an effect leaves nothing of it to be done.
abbrev pub is_past_recall : ExternalEffect → Bool
is_past_recall e = is_irreversible (triage_effect e).reversibility

actions_of_lem :
    (item : Triage)
    → is_unknown item.reversibility ≡ false
    → map action_effect (actions_of item)
      ≡ (if is_irreversible item.reversibility then [] else item.effect ∷ [])
unfolding actions_of is_unknown
actions_of_lem item known = ground (arith, known)

losses_of_lem :
    (item : Triage)
    → is_unknown item.reversibility ≡ false
    → map (λ t. t.effect) (losses_of item)
      ≡ (if is_irreversible item.reversibility then item.effect ∷ [] else [])
unfolding losses_of is_unknown
losses_of_lem item known = ground (arith, known)

-- Each effect is listed once, in order: as an action, or as a loss.
listed_actions :
    (es : List ExternalEffect)
    → map action_effect (list_actions (triage_all es)) ≡ keep (λ e. not (is_past_recall e)) es
unfolding list_actions triage_all
listed_actions [] = refl
listed_actions (e ∷ es) =
    let t = triage_effect-conservative e in
    ground (
      arith,
      t.0,
      t.5,
      actions_of_lem (triage_effect e) t.0,
      map-append action_effect (actions_of (triage_effect e)) (list_actions (triage_all es)),
      listed_actions es,
    )

listed_losses :
    (es : List ExternalEffect)
    → map (λ t. t.effect) (list_losses (triage_all es)) ≡ keep is_past_recall es
unfolding list_losses triage_all
listed_losses [] = refl
listed_losses (e ∷ es) =
    let t = triage_effect-conservative e in
    ground (
      arith,
      t.0,
      t.5,
      losses_of_lem (triage_effect e) t.0,
      map-append {B = ExternalEffect} (λ t. t.effect) (losses_of (triage_effect e))
          (list_losses (triage_all es)),
      listed_losses es,
    )

pub IsLoss : Triage → Type 0
IsLoss item = item.reversibility ≡ Reversibility.irreversible

losses_of-IsLoss :
    (item : Triage) → is_unknown item.reversibility ≡ false → All IsLoss (losses_of item)
unfolding losses_of IsLoss is_unknown
losses_of-IsLoss item h = ground arith

-- What the triage answers is a loss only where it is irreversible.
list_losses-IsLoss : (es : List ExternalEffect) → All IsLoss (list_losses (triage_all es))
unfolding list_losses triage_all
list_losses-IsLoss [] = tt
list_losses-IsLoss (e ∷ es) =
    All-append IsLoss (losses_of (triage_effect e)) (list_losses (triage_all es))
      (losses_of-IsLoss (triage_effect e) (triage_effect-conservative e).0) (list_losses-IsLoss es)

-- Whatever the commitment and the texts, the obligation is drafted, and it is raised. Its one
-- counterparty is that of the commitment, or nobody where nothing was sent; it names someone who must
-- sign. The actions that remain are about the effects that the triage does not find irreversible,
-- and what is lost about those that it does, each effect once and in the order of the record.
pub build_obligation-drafts :
    (c : Conclusion) (obligation_id : String)
    → (old_summary new_summary correction_text : Wording) → (ruling_id : Option String)
    → (d : DraftedObligation) × (build_obligation c obligation_id old_summary new_summary
          correction_text ruling_id
        ≡ ok d)
      × (d.obligation.status ≡ ObligationStatus.raised)
      × (d.obligation.counterparties ≡ sole_counterparty c c.external_effects)
      × (d.obligation.approver ≡ some (approver_for c))
      × (map action_effect d.obligation.reversible_actions
          ≡ keep (λ e. not (is_past_recall e)) c.external_effects)
      × (map (λ t. t.effect) d.unrecoverable ≡ keep is_past_recall c.external_effects)
      × All IsLoss d.unrecoverable
unfolding build_obligation draft approver_for is_empty
build_obligation-drafts c o old new text ruling = (
  draft c o old new text ruling,
  refl,
  refl,
  (map_counterparties-sole c old new).0,
  refl,
  listed_actions c.external_effects,
  listed_losses c.external_effects,
  list_losses-IsLoss c.external_effects,
)
