-- ===== src/Settle/Tests.antt =====
-- The theorems on settle/ at one commitment whose supplier slipped.
use unwind.Base.{
  ℕ, ◌+◌, ◌≤◌, ◌≡◌, refl, String, Bool, true, false, not, ◌&&◌, ◌||◌, List, [], ◌∷◌, ◌++◌, Option,
  none, some, map, length, lookup, keep, any, All, text_eq, arith, Result, ok, err, if◌then◌else◌,
  ◌==◌,
}
use unwind.Base.Int.{pos, ◌≤ℤ◌, ◌+ℤ◌, ltb_ℤ}
use unwind.Base.Text.{codes}
use unwind.Base.Dict.{has_key, firsts}
use unwind.Principals.{assert_arbiter_is_third}
use unwind.Spine.Schema.{Conclusion, ConclusionKind, ExternalEffect, Reversibility}
use unwind.Spine.Escapement.{amount_or_zero}
use unwind.Court.Schema.{Floats, T2Model}
use unwind.Court.Team.{Verdict, owner_ids, dissolve}
use unwind.Court.Protocol.{Proceedings}
use unwind.Settle.Irreversibility.{
  Triage, triage_effect, triage_all, severity, is_unknown, is_irreversible, is_compensable,
  from_op_table, compensable_signature_threshold_minor, triage_effect-conservative,
}
use unwind.Settle.Exposure.{
  IsNonnegative, recorded_sum, count_unpriced, residual_exposure, residual_exposure-sums,
}
use unwind.Settle.Cartography.{Wording, sole_counterparty}
use unwind.Settle.Obligation.{
  Obligation, ObligationStatus, DraftedObligation, IsLoss, action_effect, is_past_recall,
  approver_for, build_obligation, build_obligation-drafts, draft,
}
use unwind.Settle.Broker.{
  Outstanding, SignatureRequest, Why, request_signature, record_human_signature,
}
use unwind.Settle.Broker.Signing.{
  Call, after_all, waits_after_all, after_all-waits_after_all, build_obligation-signed,
}
use unwind.Settle.Merging.{merge_alerts, flatten, count, merge_alerts-firsts}
use unwind.Settle.Pipeline.{Store, Request, Settlement, CascadeResult, settle, team_of, to_correct}
use unwind.Settle.Pipeline.Drafting.{obligation_id_of}
use unwind.Settle.Settling.{IsAwaiting, raised_ids, is_readable, settle-raises}

abbrev email : ExternalEffect
email = record {
  connector = "email";
  op = "send_quote";
  ref = "m-1";
  reversibility = Reversibility.irreversible;
  occurred_at = 3;
  amount_minor = some (pos 900);
  currency = some "USD";
}

abbrev credit : ExternalEffect
credit = record {
  connector = "payments";
  op = "issue_credit";
  ref = "p-1";
  reversibility = Reversibility.compensable;
  occurred_at = 4;
  amount_minor = some (pos 200000);
  currency = some "USD";
}

abbrev commitment : Conclusion
commitment = record {
  conclusion_id = "q1";
  kind = ConclusionKind.quote;
  decided_at = 2;
  owner_principal = "desk-1";
  premise_ids = "c1" ∷ [];
  external_effects = email ∷ credit ∷ [];
  effects_recorded = true;
  committed_lead_days = some (pos 30);
  closes_at = none;
  emits_claim_id = none;
}

triage_effect-conservative_example :
    let t = triage_effect credit in
    (is_unknown t.reversibility ≡ false)
    × (severity credit.reversibility ≤ severity t.reversibility)
    × (severity (from_op_table credit).0 ≤ severity t.reversibility)
    × (t.defaulted ≡ is_unknown credit.reversibility)
    × (t.requires_signature ≡ (
        is_irreversible t.reversibility
        || (is_compensable t.reversibility
            && not (
                ltb_ℤ (amount_or_zero credit.amount_minor) compensable_signature_threshold_minor))))
    × (t.effect ≡ credit)
triage_effect-conservative_example = triage_effect-conservative credit

abbrev triaged : List Triage
triaged = triage_effect email ∷ triage_effect credit ∷ []

nonnegative : All (λ item. IsNonnegative item.effect.amount_minor) triaged
unfolding triage_effect unwind.Settle.Irreversibility.triage_resolved
    unwind.Settle.Irreversibility.worse_of is_unknown from_op_table
    unwind.Settle.Irreversibility.is_listed severity text_eq IsNonnegative
nonnegative = (ground arith, (ground arith, tt))

residual_exposure-sums_example :
    let range = residual_exposure triaged in
    (range.low ≡ recorded_sum is_irreversible triaged)
    × (range.high ≡ recorded_sum is_irreversible triaged +ℤ recorded_sum is_compensable triaged)
    × (range.low ≤ℤ range.high)
    × (range.unpriced_effects ≡ count_unpriced triaged)
residual_exposure-sums_example = residual_exposure-sums triaged nonnegative

abbrev old_text : Wording
old_text = Wording.under_review "q1"

abbrev new_text : Wording
new_text = Wording.moved (pos 6) (pos 36)

build_obligation-drafts_example :
    (d : DraftedObligation) × (build_obligation commitment "obl-1" old_text new_text new_text none
      ≡ ok d)
    × (d.obligation.status ≡ ObligationStatus.raised)
    × (d.obligation.counterparties ≡ sole_counterparty commitment commitment.external_effects)
    × (d.obligation.approver ≡ some (approver_for commitment))
    × (map action_effect d.obligation.reversible_actions
        ≡ keep (λ e. not (is_past_recall e)) commitment.external_effects)
    × (map (λ t. t.effect) d.unrecoverable ≡ keep is_past_recall commitment.external_effects)
    × All IsLoss d.unrecoverable
build_obligation-drafts_example =
    build_obligation-drafts commitment "obl-1" old_text new_text new_text none

abbrev drafted : DraftedObligation
drafted = draft commitment "obl-1" old_text new_text new_text none

abbrev calls : List Call
calls =
    Call.call_request drafted.obligation 1 5 Why.without_ruling
    ∷ Call.call_sign drafted.obligation (codes "agent::desk")
    ∷ []

after_all-waits_after_all_example :
    has_key "obl-1" (after_all [] calls)
    ≡ waits_after_all "obl-1" (has_key {V = SignatureRequest} "obl-1" []) calls
after_all-waits_after_all_example = after_all-waits_after_all "obl-1" [] calls

build_obligation-signed_example :
    (d : DraftedObligation) × (r : SignatureRequest) × (o : Obligation) × (waiting : Outstanding)
    × (done : Obligation) × (left : Outstanding) × (build_obligation commitment "obl-1" old_text
          new_text new_text none
        ≡ ok d)
    × (request_signature [] d.obligation 1 5 Why.without_ruling ≡ ok (r, o, waiting))
    × (o.status ≡ ObligationStatus.awaiting_signature)
    × (has_key "obl-1" waiting ≡ true)
    × (record_human_signature waiting o (approver_for commitment) ≡ ok (done, left))
    × (done.status ≡ ObligationStatus.signed)
    × (has_key "obl-1" left ≡ false)
build_obligation-signed_example =
    build_obligation-signed commitment "obl-1" old_text new_text new_text none [] 1 5
      Why.without_ruling

abbrev ids : String → String
ids s = s

abbrev two_results : List (List String)
two_results = ("q1" ∷ "q2" ∷ []) ∷ ("q2" ∷ []) ∷ []

merge_alerts-firsts_example :
    let merged = merge_alerts ids two_results in
    (merged.0 ≡ firsts ids [] (flatten ids two_results))
    × ((id : String)
        → count ids id merged.0 ≡ (if count ids id (flatten ids two_results) == 0 then 0 else 1))
    × (length merged.0 + merged.1 ≡ length (flatten ids two_results))
merge_alerts-firsts_example = merge_alerts-firsts ids two_results

abbrev store : Store
store id = if text_eq id "q1" then some commitment else none

-- Natural numbers in place of floats: no plea of this hearing is compared.
abbrev naturals : Floats
naturals = record {
  Float = ℕ;
  zero = 0;
  one = 100;
  unevidenced = 40;
  times = λ a b. a;
  divide = λ a b. 0;
  min = λ a b. a;
  max = λ a b. a;
  equal = ◌==◌;
  above = λ a b. false;
}

abbrev silent : T2Model ℕ
silent prompt = record { available = false; text = []; reason_unavailable = none }

abbrev verdict : Verdict ℕ
verdict = record {
  conclusion_id = "q1";
  exposure = 900;
  depth = 1;
  shock_days = some (pos 6);
  slack_days = some (pos 1);
}

abbrev request : Request naturals store silent
request = record {
  results = record { claim_id = "c1"; radius = ("q1", verdict) ∷ []; alerts = verdict ∷ [] } ∷ [];
  now = 10;
  repair_id = "r1";
  arbiter_id = "neutral-arbiter";
  contested_resources = [];
  assessor = none;
  rederiver = none;
}

seated_lem : length (team_of naturals store silent request).members == 0 ≡ false
unfolding team_of unwind.Court.Team.form_team unwind.Court.Team.list_eligible
    unwind.Settle.Pipeline.merged_of merge_alerts unwind.Settle.Merging.merge_all
    unwind.Settle.Merging.merge_result unwind.Settle.Merging.merge_verdict unwind.Court.Team.place
    unwind.Settle.Pipeline.owner_lookup text_eq
seated_lem = refl

third_lem :
    assert_arbiter_is_third "neutral-arbiter"
      (owner_ids (team_of naturals store silent request))
      none
      none
    ≡ ok tt
unfolding assert_arbiter_is_third team_of unwind.Court.Team.form_team
    unwind.Court.Team.list_eligible unwind.Settle.Pipeline.merged_of merge_alerts
    unwind.Settle.Merging.merge_all unwind.Settle.Merging.merge_result
    unwind.Settle.Merging.merge_verdict unwind.Court.Team.place unwind.Settle.Pipeline.owner_lookup
    text_eq unwind.Principals.assert_separate_principals unwind.Principals.check_pairs
    unwind.Base.Sorting.sort_by unwind.Principals.is_held unwind.Base.Sorting.insert_by
    unwind.Principals.role_le unwind.Principals.text_le unwind.Principals.Roles.role_value
    unwind.Principals.check_against unwind.Principals.shared_by unwind.Principals.optional_role
    owner_ids unwind.Court.Team.seat
third_lem = refl

settle-raises_example :
    (p : Proceedings naturals) × (s : Settlement naturals store silent) × (after : Outstanding)
    × (settle naturals store silent request [] ≡ ok (s, after))
    × (s.proceedings ≡ some (record p { team = dissolve p.team }))
    × (p.turns_used ≡ 4)
    × All (IsAwaiting naturals store silent) s.obligations
    × (raised_ids naturals store silent s.obligations
        ≡ map
            (obligation_id_of "r1")
            (keep (is_readable naturals store silent) (to_correct naturals store silent p.outcome)))
    × ((i : String)
        → has_key i after ≡ (
            has_key {V = SignatureRequest} i []
            || any
                (λ id. text_eq i (obligation_id_of "r1" id))
                (keep
                  (is_readable naturals store silent)
                  (to_correct naturals store silent p.outcome))))
    × (s.team.dissolved ≡ true)
settle-raises_example = settle-raises naturals store silent request [] seated_lem third_lem
