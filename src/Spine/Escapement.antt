-- ===== src/Spine/Escapement.antt =====
-- spine/escapement.py: whether anything of a conclusion already left the building. An irreversibility
-- is counted in tenths (0.1, 0.5, 1.0 and 0.8), which keeps its order.
use unwind.Base.{
  ℕ, ◌≡◌, ◌↔◌, refl, Bool, true, false, List, [], ◌∷◌, Option, none, some, max, arith, leb, keep,
  All, if◌then◌else◌, Bool-cases, inl, inr,
}
use unwind.Base.Int.{ℤ, pos, ◌+ℤ◌}
use unwind.Spine.Schema.{Reversibility, ExternalEffect, Conclusion}

unfoldable pub irreversibility : Reversibility → ℕ
irreversibility Reversibility.idempotent = 1
irreversibility Reversibility.compensable = 5
irreversibility Reversibility.irreversible = 10
irreversibility Reversibility.unknown = 8

pub data EscapeReason : Type 0 where
  conclusion_unreadable no_effect_record effects_not_yet_occurred no_effects_asserted
        effects_recorded :
      EscapeReason

pub record EscapementVerdict : Type 0 where
  pub escaped : Bool
  pub reason_code : EscapeReason
  pub effects : List ExternalEffect
  pub earliest_escape : Option ℕ
  pub amount_minor_at_risk : ℤ
  pub worst_irreversibility : ℕ

abbrev bare : Bool → EscapeReason → EscapementVerdict
bare escaped code = record {
  escaped = escaped;
  reason_code = code;
  effects = [];
  earliest_escape = none;
  amount_minor_at_risk = pos 0;
  worst_irreversibility = 0;
}

-- Without `as_of` every effect counts.
unfoldable pub has_occurred : Option ℕ → ExternalEffect → Bool
has_occurred none e = true
has_occurred (some as_of) e = leb e.occurred_at as_of

-- `e.amount_minor or 0`
unfoldable pub amount_or_zero : Option ℤ → ℤ
amount_or_zero none = pos 0
amount_or_zero (some n) = n

unfoldable pub amount_at_risk : List ExternalEffect → ℤ
amount_at_risk [] = pos 0
amount_at_risk (e ∷ es) = amount_or_zero e.amount_minor +ℤ amount_at_risk es

unfoldable pub worst_of : List ExternalEffect → ℕ
worst_of [] = 0
worst_of (e ∷ es) = max (irreversibility e.reversibility) (worst_of es)

-- The earliest of the first effect and the rest.
unfoldable pub earliest_of : ℕ → List ExternalEffect → ℕ
earliest_of at [] = at
earliest_of at (e ∷ es) =
    let rest = earliest_of at es in if leb e.occurred_at rest then e.occurred_at else rest

-- What is left of the record once the effects after `as_of` are dropped.
judge_effects : List ExternalEffect → List ExternalEffect → EscapementVerdict
judge_effects recorded (e ∷ es) = record {
  escaped = true;
  reason_code = EscapeReason.effects_recorded;
  effects = e ∷ es;
  earliest_escape = some (earliest_of e.occurred_at es);
  amount_minor_at_risk = amount_at_risk (e ∷ es);
  worst_irreversibility = worst_of (e ∷ es);
}
judge_effects [] [] = bare false EscapeReason.no_effects_asserted
judge_effects (_ ∷ _) [] = bare false EscapeReason.effects_not_yet_occurred

pub lookup_escapement : Option Conclusion → Option ℕ → EscapementVerdict
lookup_escapement none as_of = bare true EscapeReason.conclusion_unreadable
lookup_escapement (some c) as_of =
    if c.effects_recorded
    then judge_effects c.external_effects (keep (has_occurred as_of) c.external_effects)
    else bare true EscapeReason.no_effect_record

-- A conclusion that is readable, has a trusted record, and none of whose effects has occurred.
pub data IsContained (conclusion : Option Conclusion) (as_of : Option ℕ) : Type 0 where
  contained :
      (c : Conclusion)
      → conclusion ≡ some c
      → c.effects_recorded ≡ true
      → All (λ e. has_occurred as_of e ≡ false) c.external_effects
      → IsContained conclusion as_of

keep-none :
    (p : ExternalEffect → Bool) (es : List ExternalEffect)
    → All (λ e. p e ≡ false) es
    → keep p es ≡ []
keep-none p [] h = refl
keep-none p (e ∷ es) h = rw (h.0) (keep-none p es h.1)

judge_effects-contained :
    (p : ExternalEffect → Bool) (all es : List ExternalEffect)
    → (judge_effects all (keep p es)).escaped ≡ false
    → All (λ e. p e ≡ false) es
unfolding judge_effects
judge_effects-contained p all [] h = tt
judge_effects-contained p all (e ∷ es) h = elim (Bool-cases (p e)) [
  | inl t ↦ absurd (ground (arith, h, t))
  | inr f ↦ (f, judge_effects-contained p all es (rw f at h))
]

judge_effects-empty : (es : List ExternalEffect) → (judge_effects es []).escaped ≡ false
unfolding judge_effects
judge_effects-empty [] = refl
judge_effects-empty (e ∷ es) = refl

lookup-IsContained :
    (conclusion : Option Conclusion) (as_of : Option ℕ)
    → (lookup_escapement conclusion as_of).escaped ≡ false
    → IsContained conclusion as_of
unfolding lookup_escapement
lookup-IsContained none as_of h = absurd (cc h)
lookup-IsContained (some c) as_of h = elim (Bool-cases c.effects_recorded) [
  | inl t ↦ contained c refl t (
      judge_effects-contained (has_occurred as_of) c.external_effects c.external_effects
        (rw t at h))
  | inr f ↦ absurd (ground (arith, h, f))
]

IsContained-lookup :
    (conclusion : Option Conclusion) (as_of : Option ℕ)
    → IsContained conclusion as_of
    → (lookup_escapement conclusion as_of).escaped ≡ false
unfolding lookup_escapement
IsContained-lookup conclusion as_of (contained c e r a) =
    rw (e, r, keep-none (has_occurred as_of) c.external_effects a)
      (judge_effects-empty c.external_effects)

-- A conclusion is called contained exactly when it is readable, its effects are on record, and none
-- of them had occurred: whatever is missing counts as escaped.
pub lookup_escapement-IsContained :
    (conclusion : Option Conclusion) (as_of : Option ℕ)
    → ((lookup_escapement conclusion as_of).escaped ≡ false) ↔ IsContained conclusion as_of
lookup_escapement-IsContained conclusion as_of =
    (lookup-IsContained conclusion as_of, IsContained-lookup conclusion as_of)
