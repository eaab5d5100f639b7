-- ===== src/Spine/Decision.antt =====
-- spine/decision.py: the five-state router, in its two halves. A decision's sentence is kept as its
-- reason, and the telemetry is left out.
pub mod Contest
use unwind.Base.{
  ℕ, ◌≡◌, refl, String, Bool, true, false, not, ◌&&◌, ◌||◌, List, [], ◌∷◌, Option, none, some,
  if◌then◌else◌, arith, text_eq, keep, any, leb, ltb, ◌↔◌, sym, ap, ◌∙◌,
}
use mathlib.Core.Bool.{false≢true}
use unwind.Base.Int.{ℤ}
use unwind.Base.Text.{codes, text_leb, same_text}
use unwind.Base.Sorting.{insert_by, sort_by}
use unwind.Spine.Schema.{Claim, Source}
use unwind.Spine.Authority.{
  AuthorityDecision, AuthorityReason, check_authority, HasStanding, check_authority-HasStanding,
  is_live,
}
use unwind.Spine.Defence.{
  DecisionState, DecisionReason, FloorFloats, ConfidenceFloor, evaluate, needs_two, required,
  count_distinct,
}

pub record StatedDecision : Type 0 where
  pub state : DecisionState
  pub reason : DecisionReason
  pub decided_at : ℕ

pub record RetractionRequest (Float : Type 0) : Type 0 where
  pub claim_id : String
  pub source_id : String
  pub confidence : Float
  pub corroborating_sources : List String
  pub transient_error : Option String

pub record DecisionContext : Type 0 where
  pub blast_radius : ℕ
  pub contesting_claims : List Claim
  pub exposure_minor : ℤ

-- `_AUTHORITY_TO_REASON.get(code, NO_STANDING)`
unfoldable pub authority_to_reason : AuthorityReason → DecisionReason
authority_to_reason AuthorityReason.no_such_source = DecisionReason.no_such_source
authority_to_reason AuthorityReason.no_such_claim = DecisionReason.no_such_claim
authority_to_reason AuthorityReason.claim_not_live = DecisionReason.claim_not_live
authority_to_reason _ = DecisionReason.no_standing

-- `if request.transient_error`
unfoldable pub is_transient : Option String → Bool
is_transient none = false
is_transient (some e) = not (text_eq e "")

abbrev pub is_nil : List Claim → Bool
is_nil [] = true
is_nil (c ∷ cs) = false

abbrev pub state_decision : DecisionState → DecisionReason → ℕ → StatedDecision
state_decision state reason now = record { state = state; reason = reason; decided_at = now }

-- Another live claim of the same fact with a different value.
unfoldable pub contests : Claim → Claim → Bool
contests claim other =
    not (text_eq other.claim_id claim.claim_id)
    && same_text other.canonical claim.canonical
    && is_live other.status
    && not (text_eq other.value claim.value)

pub find_contesting_claims : Option Claim → List Claim → List Claim
find_contesting_claims none all_claims = []
find_contesting_claims (some claim) all_claims =
    sort_by (λ a b. text_leb (codes a.claim_id) (codes b.claim_id))
      (keep (contests claim) all_claims)

module _ (floats : FloorFloats) (policy : ConfidenceFloor floats.Float) where
  unfoldable pub decide_admissibility :
      RetractionRequest floats.Float
      → Option Source
      → Option Claim
      → List Claim
      → ℕ
      → Option StatedDecision × AuthorityDecision
  decide_admissibility request source claim contesting_claims now =
      let authority = check_authority source claim request.source_id request.claim_id now in
      if not authority.allowed
      then (
        some (state_decision DecisionState.refuse (authority_to_reason authority.reason_code) now),
        authority,
      )
      else if not (is_nil contesting_claims)
      then (
        some (state_decision DecisionState.defer DecisionReason.premise_contested now),
        authority,
      )
      else if is_transient request.transient_error
      then (
        some (state_decision DecisionState.retry DecisionReason.transient_failure now),
        authority,
      )
      else (none, authority)

  -- `request.corroborating_sources or [request.source_id]`
  unfoldable pub sources_of : RetractionRequest floats.Float → List String
  sources_of request = elim request.corroborating_sources [
    | [] ↦ request.source_id ∷ []
    | s ∷ ss ↦ s ∷ ss
  ]

  unfoldable pub decide_authorisation :
      RetractionRequest floats.Float → DecisionContext → ℕ → StatedDecision
  decide_authorisation request context now =
      let verdict =
        evaluate floats policy request.confidence context.blast_radius context.exposure_minor
          (sources_of request) in
      if not verdict.passed
      then state_decision verdict.state verdict.reason_code now
      else state_decision DecisionState.execute DecisionReason.all_gates_passed now

  unfoldable pub decide :
      RetractionRequest floats.Float
      → Option Source
      → Option Claim
      → DecisionContext
      → ℕ
      → StatedDecision × AuthorityDecision
  decide request source claim context now =
      let admitted = decide_admissibility request source claim context.contesting_claims now in
      (
        (elim admitted.0 [
          | none ↦ decide_authorisation request context now
          | some decision ↦ decision
        ]),
        admitted.1,
      )

  is_execute : DecisionState → Bool
  is_execute DecisionState.execute = true
  is_execute _ = false

  -- The three tests of the floor.
  pub clears_floor : RetractionRequest floats.Float → DecisionContext → Bool
  clears_floor request context =
      not (floats.below request.confidence (required floats policy context.blast_radius))
      && (not (needs_two floats policy context.blast_radius context.exposure_minor)
          || leb 2 (count_distinct [] (sources_of request)))
      && ltb context.blast_radius policy.human_radius

  decide-tests :
      (request : RetractionRequest floats.Float) (source : Option Source) (claim : Option Claim)
      (context : DecisionContext) (now : ℕ)
      → is_execute (decide request source claim context now).0.state ≡ (
          (check_authority source claim request.source_id request.claim_id now).allowed
          && is_nil context.contesting_claims
          && not (is_transient request.transient_error)
          && clears_floor request context)
  unfolding is_execute decide decide_admissibility decide_authorisation clears_floor evaluate
  decide-tests request source claim context now = ground arith

  state_lem : (d : DecisionState) → is_execute d ≡ true → d ≡ DecisionState.execute
  unfolding is_execute
  state_lem d h = ground arith

  nil_lem : (cs : List Claim) → is_nil cs ≡ true → cs ≡ []
  nil_lem [] h = refl
  nil_lem (c ∷ cs) h = absurd (false≢true h)

  -- A retraction is executed exactly when its source has standing over its claim, no live claim contests
  -- it, no transient error is reported, its confidence is not below the floor for the radius, two
  -- distinct sources corroborate it where the exposure or the radius asks for two, and the radius is
  -- below the one that a human confirms.
  pub decide-executes :
      (request : RetractionRequest floats.Float) (source : Option Source) (claim : Option Claim)
      (context : DecisionContext) (now : ℕ)
      → ((decide request source claim context now).0.state ≡ DecisionState.execute) ↔ (
          HasStanding source claim request.source_id
          × (context.contesting_claims ≡ [])
          × (is_transient request.transient_error ≡ false)
          × (clears_floor request context ≡ true))
  unfolding is_execute
  decide-executes request source claim context now =
      let tests = decide-tests request source claim context now in
      let standing =
        check_authority-HasStanding source claim request.source_id request.claim_id now in
      (
        λ h.
            let yes = sym tests ∙ ap is_execute h in
            (
              standing.0 (ground arith),
              nil_lem context.contesting_claims (ground arith),
              ground arith,
              ground arith,
            ),
        λ h.
            state_lem (decide request source claim context now).0.state
              (tests ∙ ground (arith, standing.1 h.0, ap is_nil h.1, h.2, h.3)),
      )
