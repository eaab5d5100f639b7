-- ===== src/Settle/Irreversibility.antt =====
-- settle/irreversibility.py: the triage of one external effect. A reason keeps what its message
-- interpolates beside the effect.
use unwind.Base.{
  ℕ, ◌≤◌, String, ◌≡◌, Bool, true, false, not, ◌&&◌, ◌||◌, List, [], ◌∷◌, Option, none, some, any,
  map, text_eq, leb, if◌then◌else◌, arith,
}
use unwind.Base.Int.{ℤ, pos, ltb_ℤ}
use unwind.Spine.Schema.{Reversibility, ExternalEffect}
use unwind.Spine.Escapement.{amount_or_zero}

abbrev pub compensable_signature_threshold_minor : ℤ
compensable_signature_threshold_minor = pos 100000

abbrev pub idempotent_ops : List (String × String)
idempotent_ops =
    ("email", "send_quote")
    ∷ ("email", "send_commitment")
    ∷ ("erp", "issue_po")
    ∷ ("erp", "update_schedule")
    ∷ []

abbrev pub compensable_ops : List (String × String)
compensable_ops =
    ("payments", "issue_credit") ∷ ("ads", "launch_flight") ∷ ("erp", "reserve_capacity") ∷ []

abbrev pub irreversible_ops : List (String × String)
irreversible_ops =
    ("payments", "pay_invoice")
    ∷ ("payments", "settle_batch")
    ∷ ("payments", "pay_expedite_premium")
    ∷ ("email", "send_apology")
    ∷ ("contracts", "countersign")
    ∷ ("email", "countersign_framework")
    ∷ []

-- `(effect.connector, effect.op) in table`
unfoldable pub is_listed : ExternalEffect → List (String × String) → Bool
is_listed e table = any (λ k. text_eq e.connector k.0 && text_eq e.op k.1) table

pub data TriageReason : Type 0 where
  undetermined : TriageReason
  one_way : Option Reversibility → TriageReason
  reverse_path : ℤ → Bool → TriageReason
  converges : Bool → TriageReason

pub record Triage : Type 0 where
  pub effect : ExternalEffect
  pub reversibility : Reversibility
  pub reason : TriageReason
  pub defaulted : Bool
  pub requires_signature : Bool

-- `unknown` is not in the source's table, and is never looked up there.
unfoldable pub severity : Reversibility → ℕ
severity Reversibility.idempotent = 0
severity Reversibility.compensable = 1
severity Reversibility.irreversible = 2
severity Reversibility.unknown = 2

-- What the operation is known to be, and whether it is not in any table.
unfoldable pub from_op_table : ExternalEffect → Reversibility × Bool
from_op_table e =
    if is_listed e irreversible_ops
    then (Reversibility.irreversible, false)
    else if is_listed e compensable_ops
    then (Reversibility.compensable, false)
    else if is_listed e idempotent_ops
    then (Reversibility.idempotent, false)
    else (Reversibility.idempotent, true)

-- `max((recorded, from_table), key=severity)`: the first of the two on a tie.
unfoldable pub worse_of : Reversibility → Reversibility → Reversibility
worse_of recorded from_table =
    if leb (severity from_table) (severity recorded) then recorded else from_table

-- What the record claimed, where it is not believed.
unfoldable pub overridden : Reversibility → Option Reversibility
overridden Reversibility.irreversible = none
overridden recorded = some recorded

-- Classify by what was resolved from the record and the operation.
unfoldable pub triage_resolved : ExternalEffect → Bool → Reversibility → Triage
triage_resolved e unrecognised Reversibility.irreversible = record {
  effect = e;
  reversibility = Reversibility.irreversible;
  reason = TriageReason.one_way (overridden e.reversibility);
  defaulted = false;
  requires_signature = true;
}
triage_resolved e unrecognised Reversibility.compensable =
    let needs = not (ltb_ℤ (amount_or_zero e.amount_minor) compensable_signature_threshold_minor) in
    record {
      effect = e;
      reversibility = Reversibility.compensable;
      reason = TriageReason.reverse_path (amount_or_zero e.amount_minor) needs;
      defaulted = false;
      requires_signature = needs;
    }
triage_resolved e unrecognised _ = record {
  effect = e;
  reversibility = Reversibility.idempotent;
  reason = TriageReason.converges unrecognised;
  defaulted = false;
  requires_signature = false;
}

unfoldable pub is_unknown : Reversibility → Bool
is_unknown Reversibility.unknown = true
is_unknown _ = false

unfoldable pub triage_effect : ExternalEffect → Triage
triage_effect e =
    if is_unknown e.reversibility
    then record {
      effect = e;
      reversibility = Reversibility.irreversible;
      reason = TriageReason.undetermined;
      defaulted = true;
      requires_signature = true;
    }
    else triage_resolved e (from_op_table e).1 (worse_of e.reversibility (from_op_table e).0)

unfoldable pub triage_all : List ExternalEffect → List Triage
triage_all = map triage_effect

abbrev pub is_irreversible : Reversibility → Bool
is_irreversible Reversibility.irreversible = true
is_irreversible _ = false

abbrev pub is_compensable : Reversibility → Bool
is_compensable Reversibility.compensable = true
is_compensable _ = false

-- The triage never answers UNKNOWN, is never milder than the record or than what the operation is
-- known to be, takes the default exactly for an UNKNOWN record, and lets an effect go unsigned
-- exactly when it converges, or has a reverse path and an amount below the threshold.
pub triage_effect-conservative :
    (e : ExternalEffect)
    → let t = triage_effect e in
      (is_unknown t.reversibility ≡ false)
      × (severity e.reversibility ≤ severity t.reversibility)
      × (severity (from_op_table e).0 ≤ severity t.reversibility)
      × (t.defaulted ≡ is_unknown e.reversibility)
      × (t.requires_signature ≡ (
          is_irreversible t.reversibility
          || (is_compensable t.reversibility
              && not
                  (ltb_ℤ (amount_or_zero e.amount_minor) compensable_signature_threshold_minor))))
      × (t.effect ≡ e)
unfolding triage_effect triage_resolved worse_of is_unknown severity from_op_table
triage_effect-conservative e = ground arith
