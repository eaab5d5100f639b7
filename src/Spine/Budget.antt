-- ===== src/Spine/Budget.antt =====
-- spine/budget.py: how much investigation a radius earns. Irreversibility is in tenths, as in
-- Spine/Escapement; a cost cap is in cents. A rationale keeps the values that it interpolates.
use unwind.Base.{
  ℕ, ◌≤◌, ◌≡◌, refl, ◌↔◌, true, ◌&&◌, ◌||◌, not, List, [], ◌∷◌, Option, none, some, arith, leb, ltb,
  ◌==◌, if◌then◌else◌,
}
use unwind.Base.Int.{ℤ, pos, ltb_ℤ, ◌≤ℤ◌}

pub data BudgetTier : Type 0 where
  low medium high critical : BudgetTier

pub record RadiusSeverity : Type 0 where
  pub radius_size : ℕ
  pub alert_count : ℕ
  pub material_count : ℕ
  pub unresolved_count : ℕ
  pub total_money_minor : ℤ
  pub max_irreversibility : ℕ

abbrev pub high_exposure_minor : ℤ
high_exposure_minor = pos 1000000

abbrev pub medium_alert_count : ℕ
medium_alert_count = 1

abbrev pub high_alert_count : ℕ
high_alert_count = 10

pub record TierBudget : Type 0 where
  pub cost_cap_cents : ℕ
  pub time_cap_seconds : ℕ
  pub max_model_calls : ℕ

tier_budget : BudgetTier → TierBudget
tier_budget BudgetTier.low = record {
  cost_cap_cents = 0;
  time_cap_seconds = 30;
  max_model_calls = 0;
}
tier_budget BudgetTier.medium = record {
  cost_cap_cents = 50;
  time_cap_seconds = 120;
  max_model_calls = 200;
}
tier_budget BudgetTier.high = record {
  cost_cap_cents = 500;
  time_cap_seconds = 600;
  max_model_calls = 2000;
}
tier_budget BudgetTier.critical = record {
  cost_cap_cents = 2000;
  time_cap_seconds = 3600;
  max_model_calls = 5000;
}

pub data Rationale : Type 0 where
  irreversible_escaped : ℕ → Rationale
  exposure : ℕ → ℤ → Rationale
  undecided : ℕ → ℕ → Rationale
  all_settled : Rationale
  radius : ℕ → ℕ → ℕ → Rationale

-- `stopped_reason` names the tier that is not implemented.
pub record Budget : Type 0 where
  pub caps : TierBudget
  pub policy_tier : BudgetTier
  pub stopped_reason : Option BudgetTier
  pub rationale : List Rationale

tier_of : RadiusSeverity → BudgetTier
tier_of s =
    if leb 10 s.max_irreversibility && ltb 0 s.alert_count
    then BudgetTier.critical
    else if not (ltb_ℤ s.total_money_minor high_exposure_minor)
        || leb high_alert_count s.alert_count
    then BudgetTier.high
    else if leb medium_alert_count s.alert_count || ltb 0 s.unresolved_count
    then BudgetTier.medium
    else BudgetTier.low

unfoldable pub rationale_of : BudgetTier → RadiusSeverity → Rationale
rationale_of BudgetTier.critical s = Rationale.irreversible_escaped s.alert_count
rationale_of BudgetTier.high s = Rationale.exposure s.alert_count s.total_money_minor
rationale_of BudgetTier.medium s = Rationale.undecided s.alert_count s.unresolved_count
rationale_of BudgetTier.low s = Rationale.all_settled

-- `None if tier is IMPLEMENTED_TIER else NOT_IMPLEMENTED_REASON[tier]`
pub stopped : BudgetTier → Option BudgetTier
stopped BudgetTier.low = none
stopped tier = some tier

pub decide_budget : RadiusSeverity → Budget
decide_budget s = record {
  caps = tier_budget (tier_of s);
  policy_tier = tier_of s;
  stopped_reason = stopped (tier_of s);
  rationale =
      rationale_of (tier_of s) s
      ∷ Rationale.radius s.radius_size s.material_count s.unresolved_count
      ∷ [];
}

-- One radius is at least as severe as another.
pub record IsSeverer (s s' : RadiusSeverity) : Type 0 where
  pub alerts : s.alert_count ≤ s'.alert_count
  pub unresolved : s.unresolved_count ≤ s'.unresolved_count
  pub money : s.total_money_minor ≤ℤ s'.total_money_minor
  pub irreversibility : s.max_irreversibility ≤ s'.max_irreversibility

abbrev rank : BudgetTier → ℕ
rank BudgetTier.low = 0
rank BudgetTier.medium = 1
rank BudgetTier.high = 2
rank BudgetTier.critical = 3

rank-tier_of : (s s' : RadiusSeverity) → IsSeverer s s' → rank (tier_of s) ≤ rank (tier_of s')
unfolding tier_of
rank-tier_of s s' w = ground (arith, w.alerts, w.unresolved, w.money, w.irreversibility)

-- The caps are read off the rank.
caps_at : ℕ → TierBudget
caps_at n =
    if n == 0
    then tier_budget BudgetTier.low
    else if n == 1
    then tier_budget BudgetTier.medium
    else if n == 2
    then tier_budget BudgetTier.high
    else tier_budget BudgetTier.critical

caps_at-rank : (t : BudgetTier) → caps_at (rank t) ≡ tier_budget t
unfolding caps_at
caps_at-rank BudgetTier.low = refl
caps_at-rank BudgetTier.medium = refl
caps_at-rank BudgetTier.high = refl
caps_at-rank BudgetTier.critical = refl

caps_at_mono :
    (m n : ℕ)
    → m ≤ n
    → ((caps_at m).cost_cap_cents ≤ (caps_at n).cost_cap_cents)
      × ((caps_at m).time_cap_seconds ≤ (caps_at n).time_cap_seconds)
      × ((caps_at m).max_model_calls ≤ (caps_at n).max_model_calls)
unfolding caps_at tier_budget
caps_at_mono m n h = (ground arith, ground arith, ground arith)

-- A radius that is at least as severe never earns less: no cap on money, time or model calls is
-- lower for it.
pub decide_budget_mono :
    (s s' : RadiusSeverity)
    → IsSeverer s s'
    → ((decide_budget s).caps.cost_cap_cents ≤ (decide_budget s').caps.cost_cap_cents)
      × ((decide_budget s).caps.time_cap_seconds ≤ (decide_budget s').caps.time_cap_seconds)
      × ((decide_budget s).caps.max_model_calls ≤ (decide_budget s').caps.max_model_calls)
unfolding decide_budget
decide_budget_mono s s' w =
    rw (← caps_at-rank (tier_of s), ← caps_at-rank (tier_of s'))
      (caps_at_mono (rank (tier_of s)) (rank (tier_of s')) (rank-tier_of s s' w))

-- Nothing is stopped exactly when no obligation escaped, nothing was left undecided and less than
-- the high exposure is at stake.
pub stopped-decide_budget :
    (s : RadiusSeverity)
    → ((decide_budget s).stopped_reason ≡ none) ↔ (
        (s.alert_count ≡ 0)
        × (s.unresolved_count ≡ 0)
        × (ltb_ℤ s.total_money_minor high_exposure_minor ≡ true))
unfolding decide_budget tier_of stopped
stopped-decide_budget s = (λ h. ground (arith, h), λ h. ground (arith, h.0, h.1, h.2))
