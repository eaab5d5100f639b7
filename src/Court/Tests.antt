-- ===== src/Court/Tests.antt =====
-- The theorems on court/ at a small hearing: two owners contend for one slot.
use unwind.Base.{
  take, ℕ, suc, ◌+◌, ◌*◌, ◌/◌, ◌≤◌, ◌≡◌, refl, String, Bool, true, false, not, ◌&&◌, List, [], ◌∷◌,
  ◌++◌, if◌then◌else◌, Option, none, some, map, length, lookup, ltb, min, max, contains, All,
  text_eq, arith, Result, ok, err, if◌then◌else◌, ◌==◌,
}
use unwind.Base.Int.{pos, pos_part}
use unwind.Base.Dict.{set_default, put}
use unwind.Principals.{assert_arbiter_is_third}
use unwind.Principals.Separation.{is_ok, pairwise, none_in, holders_of}
use unwind.Court.Schema.{Floats, Brief, Plea, PleaStance, Challenge, Evidence, T2Model, Argument}
use unwind.Court.Team.{
  Verdict, RepairTeam, form_team, size, is_capped, owner_ids, IsDistinct, IsOwned,
  form_team-bounded, of_seat, of_alert, eligible_alerts,
}
use unwind.Court.Owners.{CommitmentOwner}
use unwind.Court.Arbiter.{
  ArbiterOutcome, tally_pleas, contested_resources, settle_all, settle_plea, note_discount,
  weigh_all, weigh, contest_all, contest_by, index_owners, named, allocate, bid_all, bid, is_better,
  bid_of, lost_allocation, is_lost, is_other, is_concede,
}
use unwind.Court.Allocation.{tally_pleas-total}
use unwind.Court.Allocation.Contention.{argued_over, is_party, IsOneToOne, tally_pleas-exclusive}
use unwind.Court.Protocol.{Hearing, Proceedings, run_repair}
use unwind.Court.Hearing.{count_briefed, run_repair-ends, is_ok-run_repair}

-- Hundredths in place of floats.
abbrev pub hundredths : Floats
hundredths = record {
  Float = ℕ;
  zero = 0;
  one = 100;
  unevidenced = 40;
  times = λ a b. a * b / 100;
  divide = λ a b. pos_part a * 100 / pos_part b;
  min = min;
  max = max;
  equal = ◌==◌;
  above = λ a b. ltb b a;
}

abbrev alerts : List (Verdict ℕ)
alerts =
    record {
      conclusion_id = "q1";
      exposure = 500;
      depth = 1;
      shock_days = some (pos 6);
      slack_days = some (pos 4);
    }
    ∷ record {
      conclusion_id = "q1";
      exposure = 500;
      depth = 2;
      shock_days = none;
      slack_days = none;
    }
    ∷ record {
      conclusion_id = "q2";
      exposure = 300;
      depth = 1;
      shock_days = some (pos 2);
      slack_days = some (pos 4);
    }
    ∷ []

abbrev owner_of : String → Option String
owner_of id = if text_eq id "q1" then some "desk-1" else some "desk-2"

abbrev team : RepairTeam ℕ
team = form_team owner_of "r1" "c1" alerts 2

form_team-bounded_example :
    (map (of_seat owner_of) team.members
      ≡ take 12 (map (of_alert owner_of) (eligible_alerts owner_of [] alerts)))
    × (team.eligible ≡ length (eligible_alerts owner_of [] alerts))
    × (size team ≡ min 12 team.eligible)
    × IsDistinct owner_of [] team.members
    × All (IsOwned owner_of) team.members
    × (is_capped team ≡ ltb 12 team.eligible)
    × (team.dissolved ≡ false)
form_team-bounded_example = form_team-bounded owner_of "r1" "c1" alerts 2

abbrev plea_1 : Plea ℕ
plea_1 = record {
  member_owner_id = "desk-1";
  conclusion_id = "q1";
  argument = Argument.no_model none;
  claimed_materiality = some 33;
  stance = PleaStance.survive_unchanged;
  evidence = Evidence.committed_lead (pos 30) ∷ [];
}

abbrev plea_2 : Plea ℕ
plea_2 = record {
  member_owner_id = "desk-2";
  conclusion_id = "q2";
  argument = Argument.no_model none;
  claimed_materiality = some 60;
  stance = PleaStance.survive_unchanged;
  evidence = [];
}

abbrev pleas : List (Plea ℕ)
pleas = plea_1 ∷ plea_2 ∷ []

abbrev two_challenges : List Challenge
two_challenges =
    record {
      challenger_owner_id = "desk-1";
      target_owner_id = "desk-2";
      contested_resource = some "slot-7";
    }
    ∷ []

tally_pleas-total_example :
    let t = tally_pleas hundredths pleas two_challenges false in
    (length t.preserved + length t.amended + length t.conceded ≡ length pleas)
    × ((if false then [] else t.preserved ++ t.amended) ≡ [])
    × ((if false then [] else t.conceded)
        ≡ (if false then [] else map (λ p. p.conclusion_id) pleas))
tally_pleas-total_example = tally_pleas-total hundredths pleas two_challenges false

argued_lem : argued_over "desk-1" two_challenges ≡ some "slot-7"
unfolding argued_over is_party text_eq
argued_lem = refl

pleas-IsOneToOne : IsOneToOne hundredths pleas
unfolding IsOneToOne text_eq
pleas-IsOneToOne = ((refl, tt), (tt, tt))

argued_too_lem : argued_over "desk-2" two_challenges ≡ some "slot-7"
unfolding argued_over is_party text_eq
argued_too_lem = refl

apart_lem : text_eq "q1" "q2" ≡ false
unfolding text_eq
apart_lem = refl

-- The evidenced plea keeps the slot, though the other claims more.
kept_in_lem : contains "q1" (tally_pleas hundredths pleas two_challenges true).preserved ≡ true
unfolding tally_pleas settle_all settle_plea note_discount weigh_all weigh contested_resources
    contest_all contest_by index_owners named set_default put allocate bid_all bid is_better bid_of
    lost_allocation is_lost is_other is_concede text_eq
kept_in_lem = refl

tally_pleas-exclusive_example :
    let preserved = (tally_pleas hundredths pleas two_challenges true).preserved in
    (contains "q1" preserved && contains "q2" preserved) ≡ false
tally_pleas-exclusive_example =
    tally_pleas-exclusive hundredths pleas two_challenges true plea_1 plea_2 0 1 "slot-7"
      pleas-IsOneToOne refl refl argued_lem argued_too_lem apart_lem

abbrev silent : T2Model ℕ
silent prompt = record { available = false; text = []; reason_unavailable = some "off" }

abbrev brief_1 : Brief
brief_1 = record {
  conclusion_id = "q1";
  owner_id = "desk-1";
  shock_days = some (pos 6);
  slack_days = some (pos 4);
  rederived_lead_days = none;
  contested_resource = none;
}

abbrev owner_1 : CommitmentOwner ℕ
owner_1 = record {
  owner_id = "desk-1";
  conclusion_id = "q1";
  committed_lead_days = some (pos 30);
  exposure = 500;
  available_evidence = [];
}

abbrev hearing : Hearing hundredths
hearing = record {
  briefs = ("q1", brief_1) ∷ [];
  owners = owner_1 ∷ [];
  model = silent;
  now = 10;
  arbiter_id = "neutral-arbiter";
  total_exposure_minor = pos 700;
  assessor = some "assessor";
  rederiver = none;
}

abbrev one_seat : RepairTeam ℕ
one_seat = record {
  repair_id = "r1";
  claim_id = "c1";
  members = record { owner_id = "desk-1"; conclusion_id = "q1"; exposure = 500; depth = 1 } ∷ [];
  radius_size = 1;
  eligible = 1;
  dissolved = false;
  seated = 1;
}

third_lem :
    assert_arbiter_is_third "neutral-arbiter" (owner_ids one_seat) (some "assessor") none ≡ ok tt
unfolding assert_arbiter_is_third owner_ids text_eq unwind.Principals.assert_separate_principals
    unwind.Principals.check_pairs unwind.Base.Sorting.sort_by unwind.Principals.is_held
    unwind.Base.Sorting.insert_by unwind.Principals.role_le unwind.Principals.text_le
    unwind.Principals.Roles.role_value unwind.Principals.check_against unwind.Principals.shared_by
third_lem = refl

run_repair-ends_example :
    (p : Proceedings hundredths) × (o : ArbiterOutcome ℕ) × (run_repair hundredths hearing one_seat
      ≡ ok p)
    × (p.turns_used ≡ 4)
    × (length p.pleas
        ≡ min (count_briefed hundredths hearing.briefs hearing.owners) (size one_seat + 3))
    × (p.ledger.spent
        ≡ min (suc (count_briefed hundredths hearing.briefs hearing.owners)) (size one_seat + 3))
    × (p.converged
        ≡ ltb (count_briefed hundredths hearing.briefs hearing.owners) (size one_seat + 3))
    × (p.outcome ≡ some o)
    × (o.tally ≡ tally_pleas hundredths p.pleas p.challenges p.converged)
run_repair-ends_example = run_repair-ends hundredths hearing one_seat refl third_lem

is_ok-run_repair_example : is_ok (run_repair hundredths hearing one_seat) ≡ (
    not one_seat.dissolved
    && pairwise none_in (
        (hearing.arbiter_id ∷ [])
        ∷ owner_ids one_seat
        ∷ holders_of hearing.assessor
        ∷ holders_of hearing.rederiver
        ∷ []))
is_ok-run_repair_example = is_ok-run_repair hundredths hearing one_seat
