-- ===== src/Court/Hearing.antt =====
-- court/protocol.py: every hearing ends after its four turns, and what its budget decides.
use unwind.Base.{
  ℕ, suc, ◌+◌, ◌-◌, ◌≡◌, refl, Bool, true, false, not, ◌&&◌, List, [], ◌∷◌, Option, none, some,
  if◌then◌else◌, map, length, lookup, arith, leb, ltb, Result, ok, err, min, keep, Bool-cases, inl,
  inr, ap, sym, ◌∙◌, ◌⊎◌,
}
use unwind.Principals.{SeparationError, assert_arbiter_is_third}
use unwind.Principals.Separation.{
  is_ok, pairwise, none_in, holders_of, is_ok-assert_arbiter_is_third,
}
use unwind.Court.Schema.{Floats, Brief}
use unwind.Court.Team.{RepairTeam, size, owner_ids}
use unwind.Court.Owners.{CommitmentOwner, plead}
use unwind.Court.Arbiter.{ArbiterOutcome, rule, tally_pleas, write_ruling}
use unwind.Court.Protocol.{
  Briefs, CostLedger, draw, admit, Hearing, Proceedings, run_repair, run_phases, open_proceedings,
  turn_notice, turn_plea, turn_challenge, turn_ruling, list_challenges, with_turns, with_outcome,
  or_raise, budget_for, CourtError,
}

module _ (floats : Floats) where
  is_some : Option Brief → Bool
  is_some none = false
  is_some (some b) = true

  -- The owners whose commitment the notice concerns.
  pub count_briefed : Briefs → List (CommitmentOwner floats.Float) → ℕ
  unfolding is_some
  count_briefed briefs owners = length (keep (λ o. is_some (lookup o.conclusion_id briefs)) owners)

  admit_lem :
      (briefs : Briefs) (owners : List (CommitmentOwner floats.Float)) (converged : Bool)
      → (l : CostLedger)
      → let a = admit floats briefs owners converged l in
        (length a.admitted ≡ min (count_briefed briefs owners) (l.allowance - l.spent))
        × (a.converged ≡ (converged && leb (count_briefed briefs owners) (l.allowance - l.spent)))
        × (a.ledger.allowance ≡ l.allowance)
        × (a.ledger.spent ≡ l.spent + min (count_briefed briefs owners) (l.allowance - l.spent))
  unfolding admit count_briefed draw is_some
  admit_lem briefs [] converged l = ground arith
  admit_lem briefs (o ∷ os) converged l =
      ground (arith, admit_lem briefs os converged l, admit_lem briefs os converged (draw l 1).1)

  -- The proceedings after the first three turns.
  before_ruling : Hearing floats → RepairTeam floats.Float → Proceedings floats
  before_ruling h team =
      let a = admit floats h.briefs h.owners true (open_proceedings floats team).ledger in
      let pleas = map (λ o. plead floats o.0 o.1 h.model) a.admitted in
      record {
        team = team;
        member_owner_ids = owner_ids team;
        pleas = pleas;
        challenges = list_challenges floats h pleas;
        outcome = none;
        turns_used = 3;
        converged = a.converged;
        ledger = a.ledger;
      }

  ruling_on : Hearing floats → Proceedings floats → ArbiterOutcome floats.Float
  ruling_on h p =
      let converged = p.converged && (draw p.ledger 1).0 in
      write_ruling floats h.arbiter_id (tally_pleas floats p.pleas p.challenges converged) p.pleas
        p.challenges h.model h.now h.total_exposure_minor converged

  -- The proceedings after all four.
  after_ruling : Hearing floats → Proceedings floats → Proceedings floats
  after_ruling h p =
      let drawn = draw p.ledger 1 in
      with_turns floats 4 (with_outcome floats p (p.converged && drawn.0) drawn.1 (ruling_on h p))

  if_false : {A : Type 0} {b : Bool} (x : A) {y : A} → b ≡ false → (if b then x else y) ≡ y
  if_false x e = rw e refl

  run_repair-after_ruling :
      (h : Hearing floats) (team : RepairTeam floats.Float)
      → team.dissolved ≡ false
      → assert_arbiter_is_third h.arbiter_id (owner_ids team) h.assessor h.rederiver ≡ ok tt
      → run_repair floats h team ≡ ok (after_ruling h (before_ruling h team))
  unfolding run_repair run_phases open_proceedings turn_notice turn_plea turn_challenge turn_ruling
      with_turns with_outcome or_raise after_ruling before_ruling ruling_on rule owner_ids
      write_ruling admit list_challenges draw
  run_repair-after_ruling h team live third =
      if_false (err CourtError.team_dissolved) live ∙ rw third refl

  spent_lem :
      (h : Hearing floats) (p : Proceedings floats) (n budget : ℕ)
      → p.ledger.allowance ≡ budget
      → p.ledger.spent ≡ min n budget
      → p.converged ≡ leb n budget
      → ((after_ruling h p).converged ≡ ltb n budget)
        × ((after_ruling h p).ledger.spent ≡ min (suc n) budget)
  unfolding after_ruling with_turns with_outcome draw
  spent_lem h p n budget a s c = ground arith

  length-map {ℓ κ} :
      {A : Type ℓ} {B : Type κ} (f : A → B) (xs : List A) → length (map f xs) ≡ length xs
  length-map f [] = refl
  length-map f (x ∷ xs) = ap suc (length-map f xs)

  -- Every hearing of a team that has not dissolved, before an arbiter that is no party to it, ends
  -- after exactly four turns with a ruling. It hears the plea of every owner that was served, up to
  -- its budget of three calls more than the team has members, spends one call for each plea and one for
  -- the ruling and never more than the budget, and converges exactly when fewer owners were served
  -- than the budget has calls. The ruling is the arbiter's tally of those pleas.
  pub run_repair-ends :
      (h : Hearing floats) (team : RepairTeam floats.Float)
      → team.dissolved ≡ false
      → assert_arbiter_is_third h.arbiter_id (owner_ids team) h.assessor h.rederiver ≡ ok tt
      → let n = count_briefed h.briefs h.owners in
        let budget = size team + 3 in
        (p : Proceedings floats) × (o : ArbiterOutcome floats.Float) × (run_repair floats h team
          ≡ ok p)
        × (p.turns_used ≡ 4)
        × (length p.pleas ≡ min n budget)
        × (p.ledger.spent ≡ min (suc n) budget)
        × (p.converged ≡ ltb n budget)
        × (p.outcome ≡ some o)
        × (o.tally ≡ tally_pleas floats p.pleas p.challenges p.converged)
  unfolding after_ruling before_ruling with_turns with_outcome write_ruling ruling_on
      open_proceedings budget_for
  run_repair-ends h team live third =
      let before = before_ruling h team in
      let p = after_ruling h before in
      let budget = size team + 3 in
      let admitted = admit_lem h.briefs h.owners true (open_proceedings floats team).ledger in
      let spent =
        spent_lem h before (count_briefed h.briefs h.owners) budget admitted.2
          (ground (arith, admitted.3)) (ground (arith, admitted.1)) in
      (
        p,
        ruling_on h before,
        run_repair-after_ruling h team live third,
        refl,
        length-map (λ o. plead floats o.0 o.1 h.model) _ ∙ ground (arith, admitted.0),
        spent.1,
        spent.0,
        refl,
        refl,
      )

  run_repair-separation :
      (h : Hearing floats) (team : RepairTeam floats.Float) (e : SeparationError)
      → team.dissolved ≡ false
      → assert_arbiter_is_third h.arbiter_id (owner_ids team) h.assessor h.rederiver ≡ err e
      → run_repair floats h team ≡ err (CourtError.separation e)
  unfolding run_repair run_phases open_proceedings turn_notice turn_plea turn_challenge turn_ruling
      with_turns with_outcome or_raise rule owner_ids write_ruling admit list_challenges draw
  run_repair-separation h team e live third =
      if_false (err CourtError.team_dissolved) live ∙ rw third refl

  check-cases :
      (r : Result SeparationError (Unit {0})) → (r ≡ ok tt) ⊎ ((e : SeparationError) × (r ≡ err e))
  check-cases (ok tt) = inl refl
  check-cases (err e) = inr (e, refl)

  is_ok-checked :
      (h : Hearing floats) (team : RepairTeam floats.Float)
      → team.dissolved ≡ false
      → is_ok (run_repair floats h team)
        ≡ is_ok (assert_arbiter_is_third h.arbiter_id (owner_ids team) h.assessor h.rederiver)
  unfolding is_ok
  is_ok-checked h team live =
      elim (check-cases
        (assert_arbiter_is_third h.arbiter_id (owner_ids team) h.assessor h.rederiver)) [
          | inl third ↦ ap is_ok (run_repair-after_ruling h team live third) ∙ sym (ap is_ok third)
          | inr (e, third) ↦
              ap is_ok (run_repair-separation h team e live third) ∙ sym (ap is_ok third)
        ]

  is_ok-dissolved :
      (h : Hearing floats) (team : RepairTeam floats.Float)
      → team.dissolved ≡ true
      → is_ok (run_repair floats h team) ≡ false
  unfolding is_ok run_repair
  is_ok-dissolved h team gone = rw gone refl

  -- A hearing is held exactly when the team has not dissolved and no principal holds two of the roles
  -- arbiter, owner, assessor and re-deriver; otherwise it raises, and no other cause makes it raise.
  pub is_ok-run_repair :
      (h : Hearing floats) (team : RepairTeam floats.Float)
      → is_ok (run_repair floats h team) ≡ (
          not team.dissolved
          && pairwise none_in (
              (h.arbiter_id ∷ [])
              ∷ owner_ids team
              ∷ holders_of h.assessor
              ∷ holders_of h.rederiver
              ∷ []))
  is_ok-run_repair h team = elim (Bool-cases team.dissolved) [
    | inl gone ↦ ground (arith, is_ok-dissolved h team gone)
    | inr live ↦
        is_ok-checked h team live
        ∙ is_ok-assert_arbiter_is_third h.arbiter_id (owner_ids team) h.assessor h.rederiver
        ∙ ground arith
  ]
