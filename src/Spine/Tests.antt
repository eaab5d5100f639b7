-- ===== src/Spine/Tests.antt =====
-- The theorems on the gates of spine/ at a concrete retraction.
use unwind.Base.{◌≤◌, ◌<◌, ◌≡◌, ◌↔◌, refl, true, false, [], ◌∷◌, none, some, arith}
use unwind.Base.Int.{ℤ, pos, ◌-ℤ◌}
use unwind.Base.Text.{codes, same_text}
use unwind.Spine.Schema.{
  ClaimType, ClaimStatus, ConclusionKind, Claim, Source, Conclusion, ExternalEffect, Reversibility,
  is_machine_checkable,
}
use unwind.Spine.Authority.{check_authority, HasStanding, check_authority-HasStanding}
use unwind.Spine.Materiality.{
  MaterialityOutcome, Arithmetic, IsExact, is_arithmetic, is_material, has_closed,
  score_materiality, score_materiality-whole_days, score_lead, compare_shock,
}
use unwind.Spine.Escapement.{lookup_escapement, IsContained, lookup_escapement-IsContained}
use unwind.Spine.Regimes.{
  is_unresolved, is_decided, route_regime, route_regime-cells, route_regime-readable,
}
use unwind.Spine.Budget.{RadiusSeverity, IsSeverer, decide_budget, decide_budget_mono}

-- Integers in place of floats.
abbrev integers : Arithmetic
integers = record { Float = ℤ; sub = ◌-ℤ◌; of_int = λ z. z; round = λ z. z; trunc = λ z. z }

integers-IsExact : IsExact integers
integers-IsExact = record {
  round-sub = λ a b h k. ground arith;
  trunc-sub = λ a b h k. ground arith;
}

abbrev source : Source
source = record {
  source_id = "supplier-K";
  name = "Supplier K";
  authority = codes "supplier_K." ∷ [];
}

abbrev claim : Claim
claim = record {
  claim_id = "claim-1";
  type = ClaimType.numeric;
  canonical = codes "supplier_K.lead_time_days";
  value = "35";
  unit = some "days";
  source_id = "supplier-K";
  falsified_when = record { op = codes "gt"; unresolvable_reason = none };
  extracted_at = 1;
  valid_from = 1;
  invalidated_at = none;
  invalidation_reason = none;
  authority_scope = "desk-1" ∷ [];
  status = ClaimStatus.live;
}

abbrev quote_effect : ExternalEffect
quote_effect = record {
  connector = "email";
  op = "send_quote";
  ref = "q-1";
  reversibility = Reversibility.irreversible;
  occurred_at = 5;
  amount_minor = some (pos 1200);
  currency = some "USD";
}

abbrev conclusion : Conclusion
conclusion = record {
  conclusion_id = "quote-1";
  kind = ConclusionKind.quote;
  decided_at = 4;
  owner_principal = "user:ann";
  premise_ids = "claim-1" ∷ [];
  external_effects = quote_effect ∷ [];
  effects_recorded = true;
  committed_lead_days = some (pos 30);
  closes_at = none;
  emits_claim_id = none;
}

check_authority-HasStanding_example :
    ((check_authority (some source) (some claim) "supplier-K" "claim-1" 9).allowed ≡ true)
    ↔ HasStanding (some source) (some claim) "supplier-K"
check_authority-HasStanding_example =
    check_authority-HasStanding (some source) (some claim) "supplier-K" "claim-1" 9

claim_is_arithmetic : is_arithmetic claim.type ≡ true
unfolding is_arithmetic
claim_is_arithmetic = refl

claim_is_checkable : is_machine_checkable claim.falsified_when ≡ true
unfolding is_machine_checkable same_text
claim_is_checkable = refl

-- The lead time moves from 28 to 37 days, and 30 were promised.
score_materiality-whole_days_example :
    ((score_materiality integers (some conclusion) claim (pos 28) (pos 37) (some 9)).outcome
      ≡ MaterialityOutcome.material)
    ↔ ((has_closed none (some 9) ≡ false) × (28 < 37) × (30 < 37))
score_materiality-whole_days_example =
    score_materiality-whole_days integers integers-IsExact conclusion claim 30 28 37 (some 9)
      claim_is_arithmetic claim_is_checkable refl (omega arith) (omega arith) (omega arith)

scored :
    is_material
      (score_materiality integers (some conclusion) claim (pos 28) (pos 37) (some 9)).outcome
    ≡ some true
unfolding score_materiality score_lead compare_shock has_closed is_material is_arithmetic
    is_machine_checkable same_text
scored = refl

lookup_escapement-IsContained_example :
    ((lookup_escapement (some conclusion) (some 3)).escaped ≡ false)
    ↔ IsContained (some conclusion) (some 3)
lookup_escapement-IsContained_example = lookup_escapement-IsContained (some conclusion) (some 3)

routed :
    is_unresolved
      (route_regime
        (score_materiality integers (some conclusion) claim (pos 28) (pos 37) (some 9)).outcome
        (lookup_escapement (some conclusion) (some 9)).escaped).regime
    ≡ false
routed = ground (
  arith,
  scored,
  (route_regime-cells
      (score_materiality integers (some conclusion) claim (pos 28) (pos 37) (some 9)).outcome
      (lookup_escapement (some conclusion) (some 9)).escaped).1,
  decided_true,
)
  where
    decided_true : is_decided (some true) ≡ true
    decided_true = unfold is_decided in refl

route_regime-readable_example :
    (c : Conclusion) × (days : ℤ) × (some conclusion ≡ some c)
    × (c.committed_lead_days ≡ some days)
    × (is_arithmetic claim.type ≡ true)
    × (is_machine_checkable claim.falsified_when ≡ true)
route_regime-readable_example =
    route_regime-readable integers (some conclusion) claim (pos 28) (pos 37) (some 9) routed

abbrev mild : RadiusSeverity
mild = record {
  radius_size = 4;
  alert_count = 0;
  material_count = 0;
  unresolved_count = 1;
  total_money_minor = pos 0;
  max_irreversibility = 0;
}

abbrev grave : RadiusSeverity
grave = record {
  radius_size = 40;
  alert_count = 3;
  material_count = 9;
  unresolved_count = 2;
  total_money_minor = pos 2000000;
  max_irreversibility = 8;
}

mild-IsSeverer : IsSeverer mild grave
mild-IsSeverer = record {
  alerts = omega arith;
  unresolved = omega arith;
  money = omega arith;
  irreversibility = omega arith;
}

decide_budget_mono_example :
    ((decide_budget mild).caps.cost_cap_cents ≤ (decide_budget grave).caps.cost_cap_cents)
    × ((decide_budget mild).caps.time_cap_seconds ≤ (decide_budget grave).caps.time_cap_seconds)
    × ((decide_budget mild).caps.max_model_calls ≤ (decide_budget grave).caps.max_model_calls)
decide_budget_mono_example = decide_budget_mono mild grave mild-IsSeverer
