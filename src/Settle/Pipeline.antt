-- ===== src/Settle/Pipeline.antt =====
-- settle/pipeline.py: cascades, court and settlement, composed. The store is a function, and a float
-- is the court's.
pub mod Drafting
use unwind.Base.{
  ℕ, String, List, [], ◌∷◌, ◌++◌, Option, none, some, if◌then◌else◌, length, map, lookup, Result,
  ok, err, ◌>>=◌, ◌==◌,
}
use unwind.Base.Int.{ℤ, pos, ◌+ℤ◌}
use unwind.Base.Text.{strip, join}
use unwind.Base.Dict.{put}
use unwind.Spine.Schema.{Conclusion}
use unwind.Spine.Escapement.{amount_at_risk}
use unwind.Court.Schema.{Floats, Brief, Evidence, Prompt, T2Model}
use unwind.Court.Team.{Verdict, TeamMember, RepairTeam, form_team, dissolve}
use unwind.Court.Owners.{CommitmentOwner}
use unwind.Court.Arbiter.{ArbiterOutcome}
use unwind.Court.Protocol.{Hearing, Proceedings, CourtError, run_repair}
use unwind.Settle.Merging.{merge_alerts}
use unwind.Settle.Cartography.{Wording}
use unwind.Settle.Obligation.{DraftedObligation, ObligationError, build_obligation}
use unwind.Settle.Pipeline.Drafting.{
  lead_evidence, closing_evidence, evidence_for, old_summary, days_or_zero, new_summary, shock_of,
  slack_of, obligation_id_of,
}
use unwind.Settle.Broker.{Outstanding, SignatureRequest, BrokerError, Why, request_signature}

abbrev pub Store : Type 0
Store = String → Option Conclusion

pub data SettleError : Type 0 where
  court : CourtError → SettleError
  incomplete : ObligationError → SettleError
  broker : BrokerError → SettleError

unfoldable pub from_court {ℓ} : {A : Type ℓ} → Result CourtError A → Result SettleError A
from_court (ok a) = ok a
from_court (err e) = err (SettleError.court e)

unfoldable pub from_obligation {ℓ} : {A : Type ℓ} → Result ObligationError A → Result SettleError A
from_obligation (ok a) = ok a
from_obligation (err e) = err (SettleError.incomplete e)

unfoldable pub from_broker {ℓ} : {A : Type ℓ} → Result BrokerError A → Result SettleError A
from_broker (ok a) = ok a
from_broker (err e) = err (SettleError.broker e)

-- `radius.update(result.radius)`: a later result's verdict replaces an earlier one's.
unfoldable pub update {ℓ} : {V : Type ℓ} → List (String × V) → List (String × V) → List (String × V)
update d [] = d
update d ((k, v) ∷ e) = update (put k v d) e

-- What is done with a commitment that the store can read, and for the others.
unfoldable pub when_found {ℓ} : {A : Type ℓ} → Option Conclusion → A → (Conclusion → A) → A
when_found none skipped found = skipped
when_found (some c) skipped found = found c

module _ (floats : Floats) (store : Store) (model : T2Model floats.Float) where
  -- What one cascade hands to the settlement.
  pub record CascadeResult : Type 0 where
    pub claim_id : String
    pub radius : List (String × Verdict floats.Float)
    pub alerts : List (Verdict floats.Float)

  pub record Settlement : Type 0 where
    pub claim_ids : List String
    pub team : RepairTeam floats.Float
    pub proceedings : Option (Proceedings floats)
    pub obligations : List DraftedObligation
    pub requests : List SignatureRequest
    pub duplicates_suppressed : ℕ
    pub radius_size : ℕ

  -- `_draft_correction`
  unfoldable pub draft_correction : Conclusion → Option ℤ → Wording
  draft_correction c shock =
      let reply = model (Prompt.draft_prompt c.conclusion_id c.kind c.committed_lead_days shock) in
      let fallback = Wording.undrafted c.kind c.conclusion_id c.committed_lead_days shock in
      if reply.available
      then elim (strip reply.text) [ [] ↦ fallback | ch ∷ s ↦ Wording.drafted (ch ∷ s) ]
      else fallback

  -- `_total_exposure_minor`
  unfoldable pub exposure_of : Option Conclusion → ℤ
  exposure_of none = pos 0
  exposure_of (some c) = amount_at_risk c.external_effects

  unfoldable pub total_exposure_minor : List (TeamMember floats.Float) → ℤ
  total_exposure_minor [] = pos 0
  total_exposure_minor (m ∷ ms) = exposure_of (store m.conclusion_id) +ℤ total_exposure_minor ms

  unfoldable pub owner_lookup : String → Option String
  owner_lookup conclusion_id = elim (store conclusion_id) [
    | none ↦ none
    | some c ↦ some c.owner_principal
  ]

  unfoldable pub merge_radius :
      List (String × Verdict floats.Float)
      → List CascadeResult
      → List (String × Verdict floats.Float)
  merge_radius radius [] = radius
  merge_radius radius (r ∷ rs) = merge_radius (update radius r.radius) rs

  unfoldable pub first_claim : List CascadeResult → String
  first_claim [] = ""
  first_claim (r ∷ rs) = r.claim_id

  unfoldable pub owner_for : TeamMember floats.Float → Conclusion → CommitmentOwner floats.Float
  owner_for m c = record {
    owner_id = m.owner_id;
    conclusion_id = m.conclusion_id;
    committed_lead_days = c.committed_lead_days;
    exposure = m.exposure;
    available_evidence = evidence_for c;
  }

  -- The owners of the members whose commitments the store can read.
  unfoldable pub list_owners : List (TeamMember floats.Float) → List (CommitmentOwner floats.Float)
  list_owners [] = []
  list_owners (m ∷ ms) = elim (store m.conclusion_id) [
    | none ↦ list_owners ms
    | some c ↦ owner_for m c ∷ list_owners ms
  ]

  unfoldable pub brief_member :
      List (String × Verdict floats.Float)
      → List (String × String)
      → TeamMember floats.Float
      → Brief
  brief_member radius contested_resources m =
      let verdict = lookup m.conclusion_id radius in
      record {
        conclusion_id = m.conclusion_id;
        owner_id = m.owner_id;
        shock_days = shock_of verdict;
        slack_days = slack_of verdict;
        rederived_lead_days = none;
        contested_resource = lookup m.conclusion_id contested_resources;
      }

  unfoldable pub list_briefs :
      List (String × Verdict floats.Float)
      → List (String × String)
      → List (String × Brief)
      → List (TeamMember floats.Float)
      → List (String × Brief)
  list_briefs radius contested_resources briefs [] = briefs
  list_briefs radius contested_resources briefs (m ∷ ms) =
      list_briefs radius contested_resources
        (elim (store m.conclusion_id) [
          | none ↦ briefs
          | some c ↦ put m.conclusion_id (brief_member radius contested_resources m) briefs
        ])
        ms

  -- What the loop over the commitments to correct has raised and requested.
  pub record Raised : Type 0 where
    pub obligations : List DraftedObligation
    pub requests : List SignatureRequest
    pub outstanding : Outstanding

  unfoldable pub raise_next : Raised → DraftedObligation → ℕ → Why → Result SettleError Raised
  raise_next r d now why =
      from_broker (request_signature r.outstanding d.obligation (length d.unrecoverable) now why)
      >>= λ q. ok record {
        obligations = r.obligations ++ record d { obligation = q.1 } ∷ [];
        requests = r.requests ++ q.0 ∷ [];
        outstanding = q.2;
      }

  unfoldable pub correct :
      String
      → List (String × Verdict floats.Float)
      → ℕ
      → Why
      → Raised
      → String
      → Conclusion
      → Result SettleError Raised
  correct repair_id radius now why r conclusion_id c =
      let shock = shock_of (lookup conclusion_id radius) in
      from_obligation (
        build_obligation c (obligation_id_of repair_id conclusion_id) (old_summary c)
          (new_summary c shock) (draft_correction c shock) (some repair_id))
      >>= λ d. raise_next r d now why

  unfoldable pub correct_all :
      String
      → List (String × Verdict floats.Float)
      → ℕ
      → Why
      → Raised
      → List String
      → Result SettleError Raised
  correct_all repair_id radius now why r [] = ok r
  correct_all repair_id radius now why r (id ∷ ids) =
      when_found (store id) (correct_all repair_id radius now why r ids) (λ c.
        correct repair_id radius now why r id c >>= λ later.
        correct_all repair_id radius now why later ids)

  -- `list(outcome.conceded) + list(outcome.amended) if outcome else []`
  unfoldable pub to_correct : Option (ArbiterOutcome floats.Float) → List String
  to_correct none = []
  to_correct (some o) = o.tally.conceded ++ o.tally.amended

  unfoldable pub why_of : Option (ArbiterOutcome floats.Float) → Why
  why_of none = Why.without_ruling
  why_of (some o) = Why.court_ruled o.ruling.decision

  -- What the caller of a settlement gives beside the store and the model.
  pub record Request : Type 0 where
    pub results : List CascadeResult
    pub now : ℕ
    pub repair_id : String
    pub arbiter_id : String
    pub contested_resources : List (String × String)
    pub assessor : Option String
    pub rederiver : Option String

  unfoldable pub merged_of : Request → List (Verdict floats.Float) × ℕ
  merged_of q = merge_alerts (λ v. v.conclusion_id) (map (λ r. r.alerts) q.results)

  unfoldable pub radius_of : Request → List (String × Verdict floats.Float)
  radius_of q = merge_radius [] q.results

  unfoldable pub team_of : Request → RepairTeam floats.Float
  team_of q =
      form_team owner_lookup q.repair_id (first_claim q.results) (merged_of q).0
        (length (radius_of q))

  unfoldable pub hearing_of : Request → Hearing floats
  hearing_of q = record {
    briefs = list_briefs (radius_of q) q.contested_resources [] (team_of q).members;
    owners = list_owners (team_of q).members;
    model = model;
    now = q.now;
    arbiter_id = q.arbiter_id;
    total_exposure_minor = total_exposure_minor (team_of q).members;
    assessor = q.assessor;
    rederiver = q.rederiver;
  }

  -- The settlement, with the team it leaves and what it raised.
  unfoldable pub settlement_of :
      Request → RepairTeam floats.Float → Option (Proceedings floats) → Raised → Settlement
  settlement_of q team proceedings r = record {
    claim_ids = map (λ r. r.claim_id) q.results;
    team = team;
    proceedings = proceedings;
    obligations = r.obligations;
    requests = r.requests;
    duplicates_suppressed = (merged_of q).1;
    radius_size = length (radius_of q);
  }

  unfoldable pub settle_hearing :
      Request → Outstanding → Proceedings floats → Result SettleError (Settlement × Outstanding)
  settle_hearing q outstanding p =
      correct_all q.repair_id (radius_of q) q.now (why_of p.outcome)
        (record { obligations = []; requests = []; outstanding = outstanding })
        (to_correct p.outcome)
      >>= λ r. ok (
        settlement_of q (dissolve (team_of q)) (some (record p { team = dissolve p.team })) r,
        r.outstanding,
      )

  -- `settle`, on the requests that wait with the broker.
  unfoldable pub settle : Request → Outstanding → Result SettleError (Settlement × Outstanding)
  settle q outstanding =
      if length (team_of q).members == 0
      then ok (
        settlement_of q (team_of q) none
            (record { obligations = []; requests = []; outstanding = outstanding }),
        outstanding,
      )
      else from_court (run_repair floats (hearing_of q) (team_of q)) >>= λ p.
          settle_hearing q outstanding p
