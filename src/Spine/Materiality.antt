-- ===== src/Spine/Materiality.antt =====
-- spine/materiality.py: whether a commitment is harmed by the move of a premise. Floats are a
-- parameter, with the operations that the score uses; a reason is known by its code.
use unwind.Base.{
  ℕ, ◌≤◌, ◌<◌, ◌^◌, ◌≡◌, ◌↔◌, refl, Bool, true, false, Option, none, some, arith, leb,
  if◌then◌else◌, Option-cases, inl, inr,
}
use unwind.Base.Int.{ℤ, pos, sub_ℕ, ltb_ℤ}
use unwind.Spine.Schema.{ClaimType, Claim, Conclusion, is_machine_checkable}

pub data MaterialityOutcome : Type 0 where
  material immaterial closed_out pending_judgment unresolved : MaterialityOutcome

pub data ReasonCode : Type 0 where
  conclusion_unreadable non_arithmetic_claim_type predicate_not_machine_checkable
        no_committed_lead_time already_closed_out shock_not_adverse shock_exceeds_slack
        slack_absorbs_shock :
      ReasonCode

pub record MaterialityVerdict : Type 0 where
  pub outcome : MaterialityOutcome
  pub reason_code : ReasonCode
  pub slack_days : Option ℤ
  pub shock_days : Option ℤ

-- The property `material`: true, false, or none.
unfoldable pub is_material : MaterialityOutcome → Option Bool
is_material MaterialityOutcome.material = some true
is_material MaterialityOutcome.immaterial = some false
is_material MaterialityOutcome.closed_out = some false
is_material MaterialityOutcome.pending_judgment = none
is_material MaterialityOutcome.unresolved = none

-- `type in ARITHMETIC_CLAIM_TYPES`
unfoldable pub is_arithmetic : ClaimType → Bool
is_arithmetic ClaimType.numeric = true
is_arithmetic ClaimType.temporal = true
is_arithmetic _ = false

-- `closes_at is not None and as_of is not None and closes_at <= as_of`
unfoldable pub has_closed : Option ℕ → Option ℕ → Bool
has_closed (some closes_at) (some as_of) = leb closes_at as_of
has_closed _ _ = false

-- The operations on floats: subtraction, an integer as a float, `int(round(x))` and `int(x)`.
pub record Arithmetic : Type 1 where
  pub Float : Type 0
  pub sub : Float → Float → Float
  pub of_int : ℤ → Float
  pub round : Float → ℤ
  pub trunc : Float → ℤ

-- Whole numbers of up to 2^53 are exact in a double, and so are their differences.
pub record IsExact (A : Arithmetic) : Type 0 where
  pub round-sub :
      (a b : ℕ)
      → a ≤ 2 ^ 53
      → b ≤ 2 ^ 53
      → A.round (A.sub (A.of_int (pos a)) (A.of_int (pos b))) ≡ sub_ℕ a b
  pub trunc-sub :
      (a b : ℕ)
      → a ≤ 2 ^ 53
      → b ≤ 2 ^ 53
      → A.trunc (A.sub (A.of_int (pos a)) (A.of_int (pos b))) ≡ sub_ℕ a b

abbrev undecided : MaterialityOutcome → ReasonCode → MaterialityVerdict
undecided outcome code = record {
  outcome = outcome;
  reason_code = code;
  slack_days = none;
  shock_days = none;
}

abbrev measured : MaterialityOutcome → ReasonCode → ℤ → ℤ → MaterialityVerdict
measured outcome code slack shock = record {
  outcome = outcome;
  reason_code = code;
  slack_days = some slack;
  shock_days = some shock;
}

-- The arithmetic part: `closed` is whether the commitment had closed before the move.
unfoldable pub compare_shock : Bool → ℤ → ℤ → MaterialityVerdict
compare_shock closed slack shock =
    if closed
    then measured MaterialityOutcome.closed_out ReasonCode.already_closed_out slack shock
    else if ltb_ℤ (pos 0) shock
    then (if ltb_ℤ slack shock
        then measured MaterialityOutcome.material ReasonCode.shock_exceeds_slack slack shock
        else measured MaterialityOutcome.immaterial ReasonCode.slack_absorbs_shock slack shock)
    else measured MaterialityOutcome.immaterial ReasonCode.shock_not_adverse slack shock

module _ (A : Arithmetic) where
  unfoldable pub score_lead :
      Conclusion → Option ℤ → A.Float → A.Float → Option ℕ → MaterialityVerdict
  score_lead conclusion none before after as_of =
      undecided MaterialityOutcome.unresolved ReasonCode.no_committed_lead_time
  score_lead conclusion (some days) before after as_of =
      compare_shock (has_closed conclusion.closes_at as_of) (A.trunc (A.sub (A.of_int days) before))
        (A.round (A.sub after before))

  unfoldable pub score_materiality :
      Option Conclusion → Claim → A.Float → A.Float → Option ℕ → MaterialityVerdict
  score_materiality none root_claim before after as_of =
      undecided MaterialityOutcome.unresolved ReasonCode.conclusion_unreadable
  score_materiality (some conclusion) root_claim before after as_of =
      if is_arithmetic root_claim.type
      then (if is_machine_checkable root_claim.falsified_when
          then score_lead conclusion conclusion.committed_lead_days before after as_of
          else undecided MaterialityOutcome.unresolved ReasonCode.predicate_not_machine_checkable)
      else undecided MaterialityOutcome.pending_judgment ReasonCode.non_arithmetic_claim_type

  compare_shock-whole :
      (closed : Bool) (lead before after : ℕ)
      → ((compare_shock closed (sub_ℕ lead before) (sub_ℕ after before)).outcome
          ≡ MaterialityOutcome.material)
        ↔ ((closed ≡ false) × (before < after) × (lead < after))
  unfolding compare_shock
  compare_shock-whole closed lead before after =
      (λ h. ground arith, λ h. ground (arith, h.0, h.1, h.2))

  -- In whole days, for a readable conclusion with a committed lead time and a computable claim, a
  -- commitment is harmed exactly when it had not closed, and the new value is above both the old one
  -- and the lead time that was committed.
  pub score_materiality-whole_days :
      IsExact A
      → (c : Conclusion) (root : Claim) (lead before after : ℕ) (as_of : Option ℕ)
      → is_arithmetic root.type ≡ true
      → is_machine_checkable root.falsified_when ≡ true
      → c.committed_lead_days ≡ some (pos lead)
      → lead ≤ 2 ^ 53
      → before ≤ 2 ^ 53
      → after ≤ 2 ^ 53
      → ((score_materiality
            (some c)
            root
            (A.of_int (pos before))
            (A.of_int (pos after))
            as_of).outcome
          ≡ MaterialityOutcome.material)
        ↔ ((has_closed c.closes_at as_of ≡ false) × (before < after) × (lead < after))
  unfolding score_materiality score_lead
  score_materiality-whole_days x c root lead before after as_of t m l hl hb ha =
      rw (t, m, l, x.trunc-sub lead before hl hb, x.round-sub after before ha hb)
        (compare_shock-whole (has_closed c.closes_at as_of) lead before after)

  -- A commitment is called harmed or unharmed only when there was something to compute with: a
  -- readable conclusion, a computable claim and a committed lead time. Otherwise the answer is none.
  pub score_materiality-decided :
      (conclusion : Option Conclusion) (root : Claim) (before after : A.Float) (as_of : Option ℕ)
      (b : Bool)
      → is_material (score_materiality conclusion root before after as_of).outcome ≡ some b
      → (c : Conclusion) × (days : ℤ) × (conclusion ≡ some c)
        × (c.committed_lead_days ≡ some days)
        × (is_arithmetic root.type ≡ true)
        × (is_machine_checkable root.falsified_when ≡ true)
  unfolding score_materiality is_material score_lead
  score_materiality-decided none root before after as_of b h = absurd (cc h)
  score_materiality-decided (some c) root before after as_of b h =
      elim (Option-cases c.committed_lead_days) [
        | inl e ↦ absurd (ground (arith, e, h))
        | inr (days, e) ↦ (c, days, refl, e, ground (arith, h), ground (arith, h))
      ]
