-- ===== src/Court/Protocol.antt =====
-- court/protocol.py: the four turns of a hearing, with its cost ledger. The phases take and give the
-- proceedings; owners that plead in parallel plead in the order they were submitted.
use unwind.Base.{
  ℕ, suc, ◌+◌, String, Bool, true, false, ◌&&◌, List, [], ◌∷◌, ◌++◌, Option, none, some,
  if◌then◌else◌, map, length, lookup, text_eq, leb, ltb, Result, ok, err, ◌>>=◌,
}
use unwind.Base.Int.{ℤ}
use unwind.Base.Text.{codes, text_leb}
use unwind.Base.Dict.{put}
use unwind.Base.Sorting.{sort_by}
use unwind.Principals.{SeparationError}
use unwind.Court.Schema.{Floats, Brief, Plea, Challenge, T2Model}
use unwind.Court.Team.{RepairTeam, size, owner_ids}
use unwind.Court.Owners.{CommitmentOwner, plead, challenge}
use unwind.Court.Arbiter.{ArbiterOutcome, rule, named}

abbrev pub turn_cap : ℕ
turn_cap = 4

unfoldable pub budget_for : ℕ → ℕ
budget_for team_size = team_size + 3

pub record CostLedger : Type 0 where
  pub allowance : ℕ
  pub spent : ℕ

unfoldable pub is_exhausted : CostLedger → Bool
is_exhausted l = leb l.allowance l.spent

-- `draw`: whether it was granted, and the ledger after it.
unfoldable pub draw : CostLedger → ℕ → Bool × CostLedger
draw l n =
    if ltb l.allowance (l.spent + n)
    then (false, l)
    else (true, record { allowance = l.allowance; spent = l.spent + n })

-- `notice.briefs`
abbrev pub Briefs : Type 0
Briefs = List (String × Brief)

pub data CourtError : Type 0 where
  team_dissolved : CourtError
  separation : SeparationError → CourtError

unfoldable pub or_raise {ℓ} : {A : Type ℓ} → Result SeparationError A → Result CourtError A
or_raise (ok a) = ok a
or_raise (err e) = err (CourtError.separation e)

module _ (floats : Floats) where
  -- What a hearing is given.
  pub record Hearing : Type 0 where
    pub briefs : Briefs
    pub owners : List (CommitmentOwner floats.Float)
    pub model : T2Model floats.Float
    pub now : ℕ
    pub arbiter_id : String
    pub total_exposure_minor : ℤ
    pub assessor : Option String
    pub rederiver : Option String

  -- What the turns change: the proceedings, with the pleas and the challenges of the shared state.
  pub record Proceedings : Type 0 where
    pub team : RepairTeam floats.Float
    pub member_owner_ids : List String
    pub pleas : List (Plea floats.Float)
    pub challenges : List Challenge
    pub outcome : Option (ArbiterOutcome floats.Float)
    pub turns_used : ℕ
    pub converged : Bool
    pub ledger : CostLedger

  -- The owners that are admitted: one draw each, and the first refusal ends the loop.
  pub record Admission : Type 0 where
    pub admitted : List (CommitmentOwner floats.Float × Brief)
    pub converged : Bool
    pub ledger : CostLedger

  unfoldable pub admit :
      Briefs → List (CommitmentOwner floats.Float) → Bool → CostLedger → Admission
  admit briefs [] converged l = record { admitted = []; converged = converged; ledger = l }
  admit briefs (owner ∷ owners) converged l =
      let skipped = admit briefs owners converged l in
      let after = admit briefs owners converged (draw l 1).1 in
      elim (lookup owner.conclusion_id briefs) [
        | none ↦ skipped
        | some brief ↦
            if (draw l 1).0
            then record {
              admitted = (owner, brief) ∷ after.admitted;
              converged = after.converged;
              ledger = after.ledger;
            }
            else record { admitted = []; converged = false; ledger = l }
      ]

  -- Turn 1: publication draws nothing.
  unfoldable pub turn_notice : Hearing → Proceedings → Result CourtError Proceedings
  turn_notice h p = ok record {
    team = p.team;
    member_owner_ids = owner_ids p.team;
    pleas = p.pleas;
    challenges = p.challenges;
    outcome = p.outcome;
    turns_used = p.turns_used;
    converged = p.converged;
    ledger = p.ledger;
  }

  -- Turn 2: one plea of each admitted owner.
  unfoldable pub turn_plea : Hearing → Proceedings → Result CourtError Proceedings
  turn_plea h p =
      let a = admit h.briefs h.owners p.converged p.ledger in
      ok record {
        team = p.team;
        member_owner_ids = p.member_owner_ids;
        pleas = map (λ o. plead floats o.0 o.1 h.model) a.admitted;
        challenges = p.challenges;
        outcome = p.outcome;
        turns_used = p.turns_used;
        converged = a.converged;
        ledger = a.ledger;
      }

  abbrev pub Contenders : Type 0
  Contenders = List (String × List (Plea floats.Float))

  -- `by_resource.setdefault(resource, []).append(plea)`
  unfoldable pub contend : String → Plea floats.Float → Contenders → Contenders
  contend resource plea by_resource = elim (lookup resource by_resource) [
    | none ↦ put resource (plea ∷ []) by_resource
    | some pleas ↦ put resource (pleas ++ plea ∷ []) by_resource
  ]

  -- The resource that a plea's commitment was served with, unless it is empty.
  unfoldable pub resource_of : Briefs → Plea floats.Float → Option String
  resource_of briefs plea = elim (lookup plea.conclusion_id briefs) [
    | none ↦ none
    | some brief ↦ named brief.contested_resource
  ]

  unfoldable pub group : Briefs → List (Plea floats.Float) → Contenders → Contenders
  group briefs [] by_resource = by_resource
  group briefs (plea ∷ pleas) by_resource = group briefs pleas (elim (resource_of briefs plea) [
    | none ↦ by_resource
    | some resource ↦ contend resource plea by_resource
  ])

  -- `{o.conclusion_id: o for o in owners}`
  unfoldable pub index_conclusions :
      List (String × CommitmentOwner floats.Float)
      → List (CommitmentOwner floats.Float)
      → List (String × CommitmentOwner floats.Float)
  index_conclusions d [] = d
  index_conclusions d (o ∷ os) = index_conclusions (put o.conclusion_id o d) os

  -- What one contender's owner contests of the others.
  unfoldable pub contest_others :
      CommitmentOwner floats.Float → String → String → List (Plea floats.Float) → List Challenge
  contest_others owner id resource [] = []
  contest_others owner id resource (other ∷ others) =
      let rest = contest_others owner id resource others in
      if text_eq other.conclusion_id id
      then rest
      else elim (challenge floats owner other (some resource)) [ none ↦ rest | some c ↦ c ∷ rest ]

  unfoldable pub contest_each :
      List (String × CommitmentOwner floats.Float)
      → String
      → List (Plea floats.Float)
      → List (Plea floats.Float)
      → List Challenge
  contest_each owners resource contenders [] = []
  contest_each owners resource contenders (plea ∷ pleas) =
      let rest = contest_each owners resource contenders pleas in
      elim (lookup plea.conclusion_id owners) [
        | none ↦ rest
        | some owner ↦ contest_others owner plea.conclusion_id resource contenders ++ rest
      ]

  -- Nothing is contended when only one party wants it.
  unfoldable pub contest_groups :
      List (String × CommitmentOwner floats.Float) → Contenders → List Challenge
  contest_groups owners [] = []
  contest_groups owners ((resource, contenders) ∷ groups) =
      let rest = contest_groups owners groups in
      if ltb (length contenders) 2
      then rest
      else contest_each owners resource contenders contenders ++ rest

  unfoldable pub list_challenges : Hearing → List (Plea floats.Float) → List Challenge
  list_challenges h pleas =
      contest_groups (index_conclusions [] h.owners)
        (sort_by (λ a b. text_leb (codes a.0) (codes b.0)) (group h.briefs pleas []))

  -- Turn 3.
  unfoldable pub turn_challenge : Hearing → Proceedings → Result CourtError Proceedings
  turn_challenge h p = ok record {
    team = p.team;
    member_owner_ids = p.member_owner_ids;
    pleas = p.pleas;
    challenges = list_challenges h p.pleas;
    outcome = p.outcome;
    turns_used = p.turns_used;
    converged = p.converged;
    ledger = p.ledger;
  }

  unfoldable pub with_outcome :
      Proceedings → Bool → CostLedger → ArbiterOutcome floats.Float → Proceedings
  with_outcome p converged l outcome = record {
    team = p.team;
    member_owner_ids = p.member_owner_ids;
    pleas = p.pleas;
    challenges = p.challenges;
    outcome = some outcome;
    turns_used = p.turns_used;
    converged = converged;
    ledger = l;
  }

  -- Turn 4: without budget for the ruling, the hearing does not converge.
  unfoldable pub turn_ruling : Hearing → Proceedings → Result CourtError Proceedings
  turn_ruling h p =
      let drawn = draw p.ledger 1 in
      let converged = p.converged && drawn.0 in
      or_raise (
        rule floats h.arbiter_id p.pleas p.challenges (owner_ids p.team) h.model h.now
          h.total_exposure_minor converged h.assessor h.rederiver)
      >>= λ outcome. ok (with_outcome p converged drawn.1 outcome)

  abbrev pub Phase : Type 0
  Phase = Hearing → Proceedings → Result CourtError Proceedings

  abbrev pub phases : List Phase
  phases = turn_notice ∷ turn_plea ∷ turn_challenge ∷ turn_ruling ∷ []

  unfoldable pub with_turns : ℕ → Proceedings → Proceedings
  with_turns index p = record {
    team = p.team;
    member_owner_ids = p.member_owner_ids;
    pleas = p.pleas;
    challenges = p.challenges;
    outcome = p.outcome;
    turns_used = index;
    converged = p.converged;
    ledger = p.ledger;
  }

  -- `for index, phase in enumerate(PHASES, start=1)`
  unfoldable pub run_phases : Hearing → ℕ → List Phase → Proceedings → Result CourtError Proceedings
  run_phases h index [] p = ok p
  run_phases h index (phase ∷ rest) p =
      phase h p >>= λ q. run_phases h (suc index) rest (with_turns index q)

  unfoldable pub open_proceedings : RepairTeam floats.Float → Proceedings
  open_proceedings team = record {
    team = team;
    member_owner_ids = owner_ids team;
    pleas = [];
    challenges = [];
    outcome = none;
    turns_used = 0;
    converged = true;
    ledger = record { allowance = budget_for (size team); spent = 0 };
  }

  unfoldable pub run_repair : Hearing → RepairTeam floats.Float → Result CourtError Proceedings
  run_repair h team =
      if team.dissolved
      then err CourtError.team_dissolved
      else run_phases h 1 phases (open_proceedings team)
