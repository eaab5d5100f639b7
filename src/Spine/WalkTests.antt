-- ===== src/Spine/WalkTests.antt =====
-- The theorems on the walk and the router of spine/, at a cycle of two claims.
use unwind.Base.{
  ℕ, suc, ◌≡◌, ◌↔◌, refl, String, Bool, true, false, List, [], ◌∷◌, none, some, All, contains,
  text_eq, length, if◌then◌else◌, ltb,
}
use unwind.Base.Int.{pos}
use unwind.Base.Text.{codes}
use unwind.Base.Dict.{has_key}
use unwind.Spine.Schema.{Conclusion, ConclusionKind, Claim, ClaimType, ClaimStatus, Source}
use unwind.Spine.Authority.{HasStanding}
use unwind.Spine.Traversal.{GraphStore, ReverseEdge, Walk, traverse}
use unwind.Spine.Traversal.Fuel.{traverse-ends}
use unwind.Spine.Traversal.Invariant.{Reaches}
use unwind.Spine.Traversal.Reach.{traverse-Reaches}
use unwind.Spine.Temporal.{Change, versions, is_valid, value_at, versions-value_at}
use unwind.Base.{map, keep, leb, arith}
use unwind.Spine.Defence.{FloorFloats, DecisionState, default_floor}
use unwind.Spine.Decision.{
  RetractionRequest, DecisionContext, decide, is_transient, clears_floor, find_contesting_claims,
  decide-executes,
}
use unwind.Spine.Decision.Contest.{IsContested, decide-defers}

abbrev conclusion : String → String → Conclusion
conclusion id emitted = record {
  conclusion_id = id;
  kind = ConclusionKind.plan;
  decided_at = 1;
  owner_principal = "desk-1";
  premise_ids = [];
  external_effects = [];
  effects_recorded = true;
  committed_lead_days = none;
  closes_at = none;
  emits_claim_id = some emitted;
}

-- `c1` carries `p1`, which emits `c2`, which carries `p2`, which emits `c1`.
abbrev cycle : GraphStore ℕ
cycle = record {
  get_conclusion =
      λ id. if text_eq id "p1" then some (conclusion "p1" "c2") else some (conclusion "p2" "c1");
  direct_dependents = λ claim_id.
      if text_eq claim_id "c1"
      then record { conclusion_id = "p1"; weight = 1 } ∷ []
      else record { conclusion_id = "p2"; weight = 1 } ∷ [];
}

abbrev universe : List String
universe = "p1" ∷ "p2" ∷ []

abbrev edge : String → ReverseEdge ℕ
edge id = record { conclusion_id = id; weight = 1 }

either_in_universe :
    (first : Bool)
    → All
        (λ e. contains e.conclusion_id universe ≡ true)
        (if first then edge "p1" ∷ [] else edge "p2" ∷ [])
unfolding text_eq
either_in_universe true = (refl, tt)
either_in_universe false = (refl, tt)

in_universe :
    (claim_id : String)
    → All (λ e. contains e.conclusion_id universe ≡ true) (cycle.direct_dependents claim_id)
in_universe claim_id = either_in_universe (text_eq claim_id "c1")

traverse-ends_example :
    (t : Walk ℕ) × (traverse cycle "c1" (some 3) (suc (length universe)) ≡ some t)
traverse-ends_example = traverse-ends universe cycle "c1" (some 3) in_universe

traverse-Reaches_example :
    (t : Walk ℕ) × (traverse cycle "c1" none (suc (length universe)) ≡ some t)
    × ((c : String) → (has_key c t.nodes ≡ true) ↔ Reaches cycle "c1" c)
traverse-Reaches_example = traverse-Reaches cycle "c1" universe in_universe

-- Hundredths in place of floats, with a flat floor.
abbrev hundredths : FloorFloats
hundredths = record {
  Float = ℕ;
  base_floor = 55;
  floor_per_decade = 9;
  max_floor = 97;
  add = λ a b. a;
  times = λ a b. a;
  min = λ a b. b;
  log10 = λ n. 0;
  round4 = λ a. a;
  below = ltb;
}

abbrev source : Source
source = record {
  source_id = "supplier-K";
  name = "Supplier K";
  authority = codes "supplier_K." ∷ [];
}

abbrev claim : Claim
claim = record {
  claim_id = "claim-1";
  type = ClaimType.numeric;
  canonical = codes "supplier_K.lead_time_days";
  value = "35";
  unit = some "days";
  source_id = "supplier-K";
  falsified_when = record { op = codes "gt"; unresolvable_reason = none };
  extracted_at = 1;
  valid_from = 1;
  invalidated_at = none;
  invalidation_reason = none;
  authority_scope = "supplier-K" ∷ [];
  status = ClaimStatus.live;
}

abbrev request : RetractionRequest ℕ
request = record {
  claim_id = "claim-1";
  source_id = "supplier-K";
  confidence = 90;
  corroborating_sources = [];
  transient_error = none;
}

abbrev context : DecisionContext
context = record { blast_radius = 3; contesting_claims = []; exposure_minor = pos 100 }

decide-executes_example :
    ((decide hundredths
        (default_floor hundredths)
        request
        (some source)
        (some claim)
        context
        9).0.state
      ≡ DecisionState.execute)
    ↔ (HasStanding (some source) (some claim) "supplier-K"
        × (context.contesting_claims ≡ [])
        × (is_transient request.transient_error ≡ false)
        × (clears_floor hundredths (default_floor hundredths) request context ≡ true))
decide-executes_example =
    decide-executes hundredths (default_floor hundredths) request (some source) (some claim) context
      9

standing : HasStanding (some source) (some claim) "supplier-K"
unfolding text_eq
standing = HasStanding.stands source claim refl refl refl refl

-- A second source asserts the same fact with a different value.
abbrev rival : Claim
rival = record claim { claim_id = "c9"; value = "41" }

decide-defers_example :
    ((decide hundredths
        (default_floor hundredths)
        request
        (some source)
        (some claim)
        (record {
          blast_radius = 3;
          contesting_claims = find_contesting_claims (some claim) (claim ∷ rival ∷ []);
          exposure_minor = pos 100;
        })
        9).0.state
      ≡ DecisionState.defer)
    ↔ IsContested claim (claim ∷ rival ∷ [])
decide-defers_example =
    decide-defers hundredths (default_floor hundredths) request (some source) claim
      (claim ∷ rival ∷ []) 3 (pos 100) 9 standing

abbrev numbered : String → ℕ → String
numbered id at = id

abbrev changes : List (Change numbered)
changes =
    record { new_value = "41"; reason = ""; at = 5; source_id = none }
    ∷ record { new_value = "38"; reason = "recovered"; at = 9; source_id = none }
    ∷ []

versions-value_at_example :
    map (λ v. v.value) (keep (is_valid numbered 7) (versions numbered claim changes))
    ≡ (if leb 1 7 then value_at numbered 7 "35" changes ∷ [] else [])
versions-value_at_example =
    versions-value_at numbered claim changes 7 refl (ground arith, (ground arith, tt))
