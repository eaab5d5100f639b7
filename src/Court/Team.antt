-- ===== src/Court/Team.antt =====
-- court/team.py: a repair team drawn from the alerts of a radius.
use unwind.Base.{
  ℕ, ◌≡◌, refl, String, Bool, true, false, List, [], ◌∷◌, Option, none, some, if◌then◌else◌, arith,
  length, take, contains, All, ltb, map, Result, ok, err, suc, zero, min, take-All, length-take,
  take-map, length-map, keep, ap, ◌∙◌, sym, Option-cases, Bool-cases, inl, inr,
}
use unwind.Base.Int.{ℤ}
use unwind.Base.Dict.{firsts}

abbrev pub max_team : ℕ
max_team = 12

-- What the court reads of a verdict of the cascade.
pub record Verdict (Float : Type 0) : Type 0 where
  pub conclusion_id : String
  pub exposure : Float
  pub depth : ℕ
  pub shock_days : Option ℤ
  pub slack_days : Option ℤ

pub record TeamMember (Float : Type 0) : Type 0 where
  pub owner_id : String
  pub conclusion_id : String
  pub exposure : Float
  pub depth : ℕ

pub record RepairTeam (Float : Type 0) : Type 0 where
  pub repair_id : String
  pub claim_id : String
  pub members : List (TeamMember Float)
  pub radius_size : ℕ
  pub eligible : ℕ
  pub dissolved : Bool
  pub seated : ℕ

pub data TeamError : Type 0 where
  team_dissolved : TeamError

abbrev pub is_found : Option String → Bool
is_found none = false
is_found (some owner) = true

module _ {Float : Type 0} where
  pub size : RepairTeam Float → ℕ
  size team = length team.members

  unfoldable pub owner_ids : RepairTeam Float → List String
  owner_ids team = map (λ m. m.owner_id) team.members

  pub is_capped : RepairTeam Float → Bool
  is_capped team = ltb (length team.members) team.eligible

  unfoldable pub require_live : RepairTeam Float → Result {0, 0} TeamError Unit
  require_live team = if team.dissolved then err TeamError.team_dissolved else ok tt

  unfoldable pub dissolve : RepairTeam Float → RepairTeam Float
  dissolve team = record {
    repair_id = team.repair_id;
    claim_id = team.claim_id;
    members = [];
    radius_size = team.radius_size;
    eligible = team.eligible;
    dissolved = true;
    seated = team.seated;
  }

  unfoldable pub seat : Verdict Float → String → TeamMember Float
  seat v owner = record {
    owner_id = owner;
    conclusion_id = v.conclusion_id;
    exposure = v.exposure;
    depth = v.depth;
  }

  -- One round of the loop over the alerts: an alert is skipped without an owner, or when its
  -- commitment was seen.
  unfoldable pub place :
      Verdict Float
      → Option String
      → Bool
      → List (TeamMember Float)
      → List (TeamMember Float)
      → List (TeamMember Float)
  place v none known skipped later = skipped
  place v (some owner) known skipped later = if known then skipped else seat v owner ∷ later

  place-cases {κ} :
      (P : List (TeamMember Float) → Type κ) (v : Verdict Float) (owner : Option String)
      → (known : Bool) (skipped later : List (TeamMember Float)) → P skipped
      → ((o : String) → owner ≡ some o → known ≡ false → P (seat v o ∷ later))
      → P (place v owner known skipped later)
  unfolding place
  place-cases P v none known skipped later s l = s
  place-cases P v (some o) true skipped later s l = s
  place-cases P v (some o) false skipped later s l = l o refl refl

  module _ (owner_lookup : String → Option String) where
    unfoldable pub list_eligible : List String → List (Verdict Float) → List (TeamMember Float)
    list_eligible seen [] = []
    list_eligible seen (v ∷ alerts) =
        place v (owner_lookup v.conclusion_id) (contains v.conclusion_id seen)
          (list_eligible seen alerts) (list_eligible (v.conclusion_id ∷ seen) alerts)

    unfoldable pub form_team : String → String → List (Verdict Float) → ℕ → RepairTeam Float
    form_team repair_id claim_id alerts radius_size =
        let eligible = list_eligible [] alerts in
        record {
          repair_id = repair_id;
          claim_id = claim_id;
          members = take max_team eligible;
          radius_size = radius_size;
          eligible = length eligible;
          dissolved = false;
          seated = length (take max_team eligible);
        }

    -- No two members hold the same commitment, and none holds one of the given ones.
    pub IsDistinct : List String → List (TeamMember Float) → Type 0
    IsDistinct seen [] = Unit
    IsDistinct seen (m ∷ ms) =
        (contains m.conclusion_id seen ≡ false) × IsDistinct (m.conclusion_id ∷ seen) ms

    -- A seat speaks for a commitment whose owner is the one that is looked up.
    pub IsOwned : TeamMember Float → Type 0
    IsOwned m = owner_lookup m.conclusion_id ≡ some m.owner_id

    list_eligible-IsDistinct :
        (seen : List String) (alerts : List (Verdict Float))
        → IsDistinct seen (list_eligible seen alerts)
    unfolding list_eligible IsDistinct seat
    list_eligible-IsDistinct seen [] = tt
    list_eligible-IsDistinct seen (v ∷ alerts) =
        place-cases (IsDistinct seen) v (owner_lookup v.conclusion_id)
          (contains v.conclusion_id seen) (list_eligible seen alerts)
          (list_eligible (v.conclusion_id ∷ seen) alerts) (list_eligible-IsDistinct seen alerts)
          (λ o e k. (k, list_eligible-IsDistinct (v.conclusion_id ∷ seen) alerts))

    list_eligible-IsOwned :
        (seen : List String) (alerts : List (Verdict Float))
        → All IsOwned (list_eligible seen alerts)
    unfolding list_eligible IsOwned seat
    list_eligible-IsOwned seen [] = tt
    list_eligible-IsOwned seen (v ∷ alerts) =
        place-cases (All IsOwned) v (owner_lookup v.conclusion_id) (contains v.conclusion_id seen)
          (list_eligible seen alerts) (list_eligible (v.conclusion_id ∷ seen) alerts)
          (list_eligible-IsOwned seen alerts)
          (λ o e k. (e, list_eligible-IsOwned (v.conclusion_id ∷ seen) alerts))

    -- The alert's commitment has an owner.
    abbrev pub has_owner : Verdict Float → Bool
    has_owner v = is_found (owner_lookup v.conclusion_id)

    -- Of the alerts with an owner, the first for each commitment.
    abbrev pub eligible_alerts : List String → List (Verdict Float) → List (Verdict Float)
    eligible_alerts seen alerts = firsts (λ v. v.conclusion_id) seen (keep has_owner alerts)

    abbrev pub of_alert : Verdict Float → String × Float × ℕ
    of_alert v = (v.conclusion_id, v.exposure, v.depth)

    abbrev pub of_seat : TeamMember Float → String × Float × ℕ
    of_seat m = (m.conclusion_id, m.exposure, m.depth)

    list_eligible-firsts :
        (seen : List String) (alerts : List (Verdict Float))
        → map of_seat (list_eligible seen alerts) ≡ map of_alert (eligible_alerts seen alerts)
    unfolding list_eligible firsts place seat
    list_eligible-firsts seen [] = refl
    list_eligible-firsts seen (v ∷ alerts) = elim (Option-cases (owner_lookup v.conclusion_id)) [
      | inl e ↦ rw e (list_eligible-firsts seen alerts)
      | inr (o, e) ↦ elim (Bool-cases (contains v.conclusion_id seen)) [
        | inl k ↦ rw (e, k) (list_eligible-firsts seen alerts)
        | inr k ↦
            rw (e, k)
              (ap (λ l. of_alert v ∷ l) (list_eligible-firsts (v.conclusion_id ∷ seen) alerts))
      ]
    ]

    take-IsDistinct :
        (n : ℕ) (seen : List String) (ms : List (TeamMember Float))
        → IsDistinct seen ms
        → IsDistinct seen (take n ms)
    unfolding IsDistinct
    take-IsDistinct zero seen ms h = tt
    take-IsDistinct (suc n) seen [] h = tt
    take-IsDistinct (suc n) seen (m ∷ ms) h =
        (h.0, take-IsDistinct n (m.conclusion_id ∷ seen) ms h.1)

    -- A team's seats are those of the first twelve eligible alerts in the order that they came, or of
    -- all if there are fewer, where an alert is eligible when its commitment has an owner and no
    -- earlier such alert is about it: each seat has the alert's commitment, exposure and depth, and
    -- the owner that is looked up. The members hold different commitments, the number of the eligible
    -- is recorded, and the team is capped exactly when it exceeds twelve.
    pub form_team-bounded :
        (repair_id claim_id : String) (alerts : List (Verdict Float)) (radius_size : ℕ)
        → let team = form_team repair_id claim_id alerts radius_size in
          (map of_seat team.members ≡ take 12 (map of_alert (eligible_alerts [] alerts)))
          × (team.eligible ≡ length (eligible_alerts [] alerts))
          × (size team ≡ min 12 team.eligible)
          × IsDistinct [] team.members
          × All IsOwned team.members
          × (is_capped team ≡ ltb 12 team.eligible)
          × (team.dissolved ≡ false)
    unfolding form_team size is_capped
    form_team-bounded repair_id claim_id alerts radius_size =
        let eligible = list_eligible [] alerts in
        (
          take-map of_seat max_team eligible ∙ ap (take 12) (list_eligible-firsts [] alerts),
          sym (length-map of_seat eligible)
              ∙ ap length (list_eligible-firsts [] alerts)
              ∙ length-map of_alert (eligible_alerts [] alerts),
          length-take max_team eligible,
          take-IsDistinct max_team [] eligible (list_eligible-IsDistinct [] alerts),
          take-All IsOwned max_team eligible (list_eligible-IsOwned [] alerts),
          ground (arith, length-take max_team eligible),
          refl,
        )
