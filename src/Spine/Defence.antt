-- ===== src/Spine/Defence.antt =====
-- spine/defence.py: the confidence floor. Floats are of a type of their own, with the operations that
-- the floor uses; the sentence of a verdict is left out.
use unwind.Base.{
  ℕ, suc, String, Bool, true, false, not, ◌&&◌, ◌||◌, List, [], ◌∷◌, if◌then◌else◌, contains,
  text_eq, leb, ltb, max,
}
use unwind.Base.Int.{ℤ, pos, ltb_ℤ}

pub data DecisionState : Type 0 where
  execute ask_human retry defer refuse : DecisionState

pub data DecisionReason : Type 0 where
  no_standing no_such_source no_such_claim claim_not_live below_confidence_floor
        single_source_above_threshold premise_contested blast_radius_requires_confirmation
        low_margin_reconciliation transient_failure all_gates_passed :
      DecisionReason

pub record FloorFloats : Type 1 where
  pub Float : Type 0
  -- The literals 0.55, 0.09 and 0.97.
  pub base_floor : Float
  pub floor_per_decade : Float
  pub max_floor : Float
  pub add : Float → Float → Float
  pub times : Float → Float → Float
  pub min : Float → Float → Float
  -- `math.log10` of a positive integer, and `round(x, 4)`.
  pub log10 : ℕ → Float
  pub round4 : Float → Float
  pub below : Float → Float → Bool

pub record FloorVerdict (Float : Type 0) : Type 0 where
  pub passed : Bool
  pub state : DecisionState
  pub reason_code : DecisionReason
  pub required_confidence : Float
  pub actual_confidence : Float

abbrev pub verdict_of :
    {Float : Type 0} → Bool → DecisionState → DecisionReason → Float → Float → FloorVerdict Float
verdict_of passed state code required actual = record {
  passed = passed;
  state = state;
  reason_code = code;
  required_confidence = required;
  actual_confidence = actual;
}

pub record ConfidenceFloor (Float : Type 0) : Type 0 where
  pub base : Float
  pub per_decade : Float
  pub ceiling : Float
  pub human_radius : ℕ
  pub two_source_exposure : ℤ
  pub two_source_radius : ℕ

-- `len({s for s in corroborating_sources if s})`
unfoldable pub count_distinct : List String → List String → ℕ
count_distinct seen [] = 0
count_distinct seen (s ∷ ss) =
    let skipped = count_distinct seen ss in
    let counted = count_distinct (s ∷ seen) ss in
    if text_eq s "" || contains s seen then skipped else suc counted

module _ (floats : FloorFloats) where
  abbrev pub default_floor : ConfidenceFloor floats.Float
  default_floor = record {
    base = floats.base_floor;
    per_decade = floats.floor_per_decade;
    ceiling = floats.max_floor;
    human_radius = 500;
    two_source_exposure = pos 500000;
    two_source_radius = 1000;
  }

  module _ (policy : ConfidenceFloor floats.Float) where
    unfoldable pub required : ℕ → floats.Float
    required blast_radius = floats.round4 (
        floats.min policy.ceiling (
          floats.add policy.base
            (floats.times policy.per_decade (floats.log10 (max 1 blast_radius)))))

    -- `exposure_minor >= self.two_source_exposure or blast_radius >= self.two_source_radius`
    unfoldable pub needs_two : ℕ → ℤ → Bool
    needs_two blast_radius exposure_minor =
        not (ltb_ℤ exposure_minor policy.two_source_exposure)
        || leb policy.two_source_radius blast_radius

    unfoldable pub evaluate : floats.Float → ℕ → ℤ → List String → FloorVerdict floats.Float
    evaluate confidence blast_radius exposure_minor corroborating_sources =
        let verdict = λ (passed : Bool) (state : DecisionState) (code : DecisionReason).
          verdict_of passed state code (required blast_radius) confidence in
        if floats.below confidence (required blast_radius)
        then verdict false DecisionState.refuse DecisionReason.below_confidence_floor
        else if needs_two blast_radius exposure_minor
            && ltb (count_distinct [] corroborating_sources) 2
        then verdict false DecisionState.ask_human DecisionReason.single_source_above_threshold
        else if leb policy.human_radius blast_radius
        then verdict false DecisionState.ask_human DecisionReason.blast_radius_requires_confirmation
        else verdict true DecisionState.execute DecisionReason.all_gates_passed
