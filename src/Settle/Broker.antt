-- ===== src/Settle/Broker.antt =====
-- settle/broker.py: the broker that routes an obligation to a human. An obligation that is mutated is
-- returned beside the broker, a signatory is the list of its code points, and a call that raises
-- leaves the broker and the obligation as they were.
pub mod Signing
use unwind.Base.{
  ℕ, ◌≡◌, refl, String, Bool, true, false, not, ◌&&◌, ◌||◌, List, [], ◌∷◌, Option, none, some,
  if◌then◌else◌, arith, length, any, Result, ok, err, text_eq, text_eq_iff,
}
use unwind.Base.Int.{ℤ}
use unwind.Base.Text.{Text, codes, starts_with, lower, remove_prefix, has_infix, text_leb}
use unwind.Base.Sorting.{sort_by}
use unwind.Base.{sym, ◌++◌}
use unwind.Base.Dict.{has_key, put, pop, values, has_key-put, has_key-pop}
use unwind.Court.Schema.{Decision}
use unwind.Settle.Cartography.{Wording}
use unwind.Settle.Obligation.{
  Obligation, ObligationStatus, DraftedObligation, is_empty, approver_for, build_obligation, draft,
}
use unwind.Spine.Schema.{Conclusion, ConclusionKind, kind_value}

-- Why a signature is asked for: what the court ruled, or another text.
pub data Why : Type 0 where
  court_ruled : Decision → Why
  without_ruling : Why
  other_reason : String → Why

pub record SignatureRequest : Type 0 where
  pub obligation_id : String
  pub approver : Text
  pub conclusion_id : String
  pub counterparties : List Text
  pub reversible_count : ℕ
  pub unrecoverable_count : ℕ
  pub exposure_low : ℤ
  pub exposure_high : ℤ
  pub currency : String
  pub requested_at : ℕ
  pub why : Why

-- The requests that wait, under the obligation's id.
abbrev pub Outstanding : Type 0
Outstanding = List (String × SignatureRequest)

pub data BrokerError : Type 0 where
  cannot_approve no_approver not_a_human carries_agent_marker : BrokerError

abbrev pub agent_markers : List Text
agent_markers =
    codes "@"
    ∷ codes "agent::"
    ∷ codes "principal_"
    ∷ codes "scripted"
    ∷ codes "arbiter"
    ∷ codes "owner"
    ∷ []

unfoldable pub approve : Obligation → Result BrokerError Obligation
approve obligation = err BrokerError.cannot_approve

unfoldable pub with_status : ObligationStatus → Obligation → Obligation
with_status status o = record {
  obligation_id = o.obligation_id;
  conclusion_id = o.conclusion_id;
  counterparties = o.counterparties;
  reversible_actions = o.reversible_actions;
  residual_exposure = o.residual_exposure;
  approver = o.approver;
  status = status;
  ruling_id = o.ruling_id;
}

-- `obligation.approver or ""`
unfoldable pub approver_of : Obligation → Text
approver_of o = elim o.approver [ none ↦ [] | some approver ↦ approver ]

unfoldable pub request_for : Obligation → ℕ → ℕ → Why → SignatureRequest
request_for o unrecoverable_count now why = record {
  obligation_id = o.obligation_id;
  approver = approver_of o;
  conclusion_id = o.conclusion_id;
  counterparties = o.counterparties;
  reversible_count = length o.reversible_actions;
  unrecoverable_count = unrecoverable_count;
  exposure_low = o.residual_exposure.low;
  exposure_high = o.residual_exposure.high;
  currency = o.residual_exposure.currency;
  requested_at = now;
  why = why;
}

unfoldable pub request_signature :
    Outstanding
    → Obligation
    → ℕ
    → ℕ
    → Why
    → Result BrokerError (SignatureRequest × Obligation × Outstanding)
request_signature outstanding o unrecoverable_count now why =
    if is_empty (approver_of o)
    then err BrokerError.no_approver
    else ok (
      request_for o unrecoverable_count now why,
      with_status ObligationStatus.awaiting_signature o,
      put o.obligation_id (request_for o unrecoverable_count now why) outstanding,
    )

pub has_agent_marker : Text → Bool
has_agent_marker human =
    any (λ marker. has_infix (remove_prefix (lower human) (codes "human::")) marker) agent_markers

pub record_human_signature :
    Outstanding → Obligation → Text → Result BrokerError (Obligation × Outstanding)
record_human_signature outstanding o human =
    if not (starts_with human (codes "human::"))
    then err BrokerError.not_a_human
    else if has_agent_marker human
    then err BrokerError.carries_agent_marker
    else ok (with_status ObligationStatus.signed o, pop o.obligation_id outstanding)

-- `open_obligations`: by id, and never filtered by age.
unfoldable pub open_obligations : Outstanding → List SignatureRequest
open_obligations outstanding =
    sort_by (λ r q. text_leb (codes r.obligation_id) (codes q.obligation_id)) (values outstanding)
