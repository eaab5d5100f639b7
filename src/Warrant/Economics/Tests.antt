-- ===== src/Warrant/Economics/Tests.antt =====
-- The theorems on warrant/economics.py, with the natural numbers in place of floats.
use unwind.Base.{ℕ, ◌≤◌, ◌≡◌, refl, true, false, none, some, arith, ltb, inr, if◌then◌else◌}
use unwind.Base.Text.{codes, same_text, strip, upper, lstrip, rstrip}
use unwind.Warrant.Economics.{
  ActionKind, Floats, UncertaintySignals, assess_uncertainty, price_action, parse_action_kind,
  kind_named, max_tax_pct, pct_of, band_or,
}
use unwind.Warrant.Economics.Bands.{consequence_rank, drift_rank}
use unwind.Warrant.Economics.Pricing.{
  raw_tax, sum_named, IsWorse, assess_uncertainty-tax, price_action_mono,
}

-- Coverage in percent.
abbrev naturals : Floats
naturals = record {
  Float = ℕ;
  lt = ltb;
  lt_trans = λ x y z h k. ground arith;
  stale_after_seconds = 3600;
  min_completeness = 75;
}

abbrev calm : UncertaintySignals naturals
calm = record {
  evidence_age_seconds = 60;
  evidence_completeness = 100;
  drift_band = codes "normal";
  model_disagreement = false;
  consequence_band = codes "";
  external_state_changed = false;
  risk_divergence = false;
}

abbrev alarmed : UncertaintySignals naturals
alarmed = record {
  evidence_age_seconds = 7200;
  evidence_completeness = 50;
  drift_band = codes "CRITICAL";
  model_disagreement = true;
  consequence_band = codes "severe";
  external_state_changed = true;
  risk_divergence = true;
}

assess_uncertainty-tax_example :
    let a = assess_uncertainty naturals alarmed in
    (a.tax_pct ≡ (
      if ltb max_tax_pct (raw_tax naturals alarmed) then max_tax_pct else raw_tax naturals alarmed))
    × (a.capped ≡ ltb max_tax_pct (raw_tax naturals alarmed))
    × (sum_named naturals a.contributions ≡ raw_tax naturals alarmed)
assess_uncertainty-tax_example = assess_uncertainty-tax naturals alarmed

alarmed_is_capped : raw_tax naturals alarmed ≡ 400
unfolding pct_of band_or upper same_text
alarmed_is_capped = refl

calm-IsWorse : IsWorse naturals calm alarmed
unfolding consequence_rank drift_rank upper same_text
calm-IsWorse = record {
  consequence = omega arith;
  drift = omega arith;
  age = inr refl;
  completeness = inr refl;
  disagreement = λ h. refl;
  external = λ h. refl;
  divergence = λ h. refl;
}

price_action_mono_example :
    (price_action naturals ActionKind.create_pr calm).cost_bp
    ≤ (price_action naturals ActionKind.create_pr alarmed).cost_bp
price_action_mono_example =
    price_action_mono naturals ActionKind.create_pr calm alarmed calm-IsWorse

-- The vocabulary is closed; blanks and small letters are tolerated.
parsed : parse_action_kind (codes " create_pr ") ≡ some ActionKind.create_pr
unfolding parse_action_kind kind_named same_text strip lstrip rstrip upper
parsed = refl

unknown : parse_action_kind (codes "DELETE_EVERYTHING") ≡ none
unfolding parse_action_kind kind_named same_text strip lstrip rstrip upper
unknown = refl
