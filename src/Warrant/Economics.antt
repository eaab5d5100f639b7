-- ===== src/Warrant/Economics.antt =====
-- warrant/economics.py: the price of an action, and the tax that uncertainty adds to it. Python's
-- floats are a parameter, read by `<` only; a contribution keeps what its message interpolates.
mod Bands
pub mod Pricing
mod Tests
use unwind.Base.{
  ℕ, ◌+◌, ◌*◌, ◌/◌, ◌≡◌, Bool, true, false, not, List, [], ◌∷◌, ◌++◌, Option, none, some, Result,
  ok, err, ltb, ◌==◌, if◌then◌else◌,
}
use unwind.Base.Text.{Text, codes, same_text, strip, upper}

pub data ActionKind : Type 0 where
  read_public read_internal analyze write_sandbox create_ticket create_pr production_mutation
        secret_access :
      ActionKind

pub base_cost_bp : ActionKind → ℕ
base_cost_bp ActionKind.read_public = 1
base_cost_bp ActionKind.read_internal = 10
base_cost_bp ActionKind.analyze = 5
base_cost_bp ActionKind.write_sandbox = 25
base_cost_bp ActionKind.create_ticket = 50
base_cost_bp ActionKind.create_pr = 50
base_cost_bp ActionKind.production_mutation = 200
base_cost_bp ActionKind.secret_access = 500

-- `action_kind in MUTATING_ACTIONS`
unfoldable pub is_mutating : ActionKind → Bool
is_mutating ActionKind.write_sandbox = true
is_mutating ActionKind.create_ticket = true
is_mutating ActionKind.create_pr = true
is_mutating ActionKind.production_mutation = true
is_mutating _ = false

-- `action_kind in REQUIRES_HUMAN`
unfoldable pub requires_human : ActionKind → Bool
requires_human ActionKind.create_pr = true
requires_human ActionKind.production_mutation = true
requires_human ActionKind.secret_access = true
requires_human _ = false

-- `d.get(band, 0)`
pub pct_of : Text → List (Text × ℕ) → ℕ
pct_of band [] = 0
pct_of band ((name, pct) ∷ d) =
    let rest = pct_of band d in if same_text band name then pct else rest

abbrev pub tax_consequence_band_pct : List (Text × ℕ)
tax_consequence_band_pct =
    (codes "NONE", 0)
    ∷ (codes "LOW", 0)
    ∷ (codes "MODERATE", 15)
    ∷ (codes "HIGH", 35)
    ∷ (codes "SEVERE", 90)
    ∷ []

abbrev pub tax_drift_band_pct : List (Text × ℕ)
tax_drift_band_pct =
    (codes "NORMAL", 0)
    ∷ (codes "ELEVATED", 20)
    ∷ (codes "DRIFT", 55)
    ∷ (codes "CRITICAL", 120)
    ∷ []

abbrev pub max_tax_pct : ℕ
max_tax_pct = 300

-- `band or default`: the empty text is false.
pub band_or : Text → Text → Text
band_or [] default = default
band_or (c ∷ s) default = c ∷ s

-- What the module uses of floats: their order, and its two thresholds as floats.
pub record Floats : Type 1 where
  pub Float : Type 0
  pub lt : Float → Float → Bool
  pub lt_trans : (x y z : Float) → lt x y ≡ true → lt y z ≡ true → lt x z ≡ true
  pub stale_after_seconds : Float
  pub min_completeness : Float

module _ (N : Floats) where
  pub record UncertaintySignals : Type 0 where
    pub evidence_age_seconds : N.Float
    pub evidence_completeness : N.Float
    pub drift_band : Text
    pub model_disagreement : Bool
    pub consequence_band : Text
    pub external_state_changed : Bool
    pub risk_divergence : Bool

  pub data Contribution : Type 0 where
    of_consequence : Text → ℕ → Contribution
    of_drift : Text → ℕ → Contribution
    stale_evidence : N.Float → Contribution
    incomplete_evidence : N.Float → Contribution
    challenger_disagreed external_changed signals_diverged : Contribution
    capped_at : ℕ → Contribution

  pub record UncertaintyAssessment : Type 0 where
    pub tax_pct : ℕ
    pub contributions : List Contribution
    pub capped : Bool

  -- `if fires: total += pct; contributions.append(c)`
  pub charge : Bool → ℕ → Contribution → ℕ × List Contribution → ℕ × List Contribution
  charge true pct c (total, cs) = (total + pct, cs ++ c ∷ [])
  charge false pct c (total, cs) = (total, cs)

  pub cap_tax : ℕ × List Contribution → UncertaintyAssessment
  cap_tax (total, cs) =
      if ltb max_tax_pct total
      then record {
        tax_pct = max_tax_pct;
        contributions = cs ++ Contribution.capped_at total ∷ [];
        capped = true;
      }
      else record { tax_pct = total; contributions = cs; capped = false }

  pub assess_uncertainty : UncertaintySignals → UncertaintyAssessment
  assess_uncertainty s =
      let consequence = upper (band_or s.consequence_band (codes "NONE")) in
      let consequence_pct = pct_of consequence tax_consequence_band_pct in
      let band = upper (band_or s.drift_band (codes "NORMAL")) in
      let band_pct = pct_of band tax_drift_band_pct in
      cap_tax (
        charge s.risk_divergence 25 Contribution.signals_diverged (
          charge s.external_state_changed 30 Contribution.external_changed (
            charge s.model_disagreement 60 Contribution.challenger_disagreed (
              charge (N.lt s.evidence_completeness N.min_completeness) 35
                (Contribution.incomplete_evidence s.evidence_completeness)
                (charge (N.lt N.stale_after_seconds s.evidence_age_seconds) 40
                  (Contribution.stale_evidence s.evidence_age_seconds)
                  (charge (not (band_pct == 0)) band_pct (Contribution.of_drift band band_pct) (
                    charge (not (consequence_pct == 0)) consequence_pct
                      (Contribution.of_consequence consequence consequence_pct) (0, []))))))))

  pub record PricedAction : Type 0 where
    pub action_kind : ActionKind
    pub base_bp : ℕ
    pub tax_pct : ℕ
    pub cost_bp : ℕ
    pub contributions : List Contribution
    pub requires_human : Bool
    pub mutating : Bool

  -- `-(-(base * (100 + tax)) // 100)`: the quotient rounded up.
  pub ceil_pct : ℕ → ℕ → ℕ
  ceil_pct base tax = (base * (100 + tax) + 99) / 100

  pub price_action : ActionKind → UncertaintySignals → PricedAction
  unfolding ceil_pct
  price_action action_kind signals =
      let assessment = assess_uncertainty signals in
      record {
        action_kind = action_kind;
        base_bp = base_cost_bp action_kind;
        tax_pct = assessment.tax_pct;
        cost_bp = ceil_pct (base_cost_bp action_kind) assessment.tax_pct;
        contributions = assessment.contributions;
        requires_human = requires_human action_kind;
        mutating = is_mutating action_kind;
      }

abbrev pub action_kinds : List (Text × ActionKind)
action_kinds =
    (codes "READ_PUBLIC", ActionKind.read_public)
    ∷ (codes "READ_INTERNAL", ActionKind.read_internal)
    ∷ (codes "ANALYZE", ActionKind.analyze)
    ∷ (codes "WRITE_SANDBOX", ActionKind.write_sandbox)
    ∷ (codes "CREATE_TICKET", ActionKind.create_ticket)
    ∷ (codes "CREATE_PR", ActionKind.create_pr)
    ∷ (codes "PRODUCTION_MUTATION", ActionKind.production_mutation)
    ∷ (codes "SECRET_ACCESS", ActionKind.secret_access)
    ∷ []

-- The member of the enumeration with this value.
pub kind_named : Text → List (Text × ActionKind) → Option ActionKind
kind_named raw [] = none
kind_named raw ((name, kind) ∷ d) =
    let rest = kind_named raw d in if same_text raw name then some kind else rest

-- `none` is the ValueError.
pub parse_action_kind : Text → Option ActionKind
unfolding strip
parse_action_kind raw = kind_named (upper (strip raw)) action_kinds
