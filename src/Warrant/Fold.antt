-- ===== src/Warrant/Fold.antt =====
-- warrant/ledger.py: `fold_balance`, `is_case_challenged` and `provenance_for_fold`.
pub mod Total
pub mod Laws
use unwind.Base.{
  ℕ, ◌+◌, ◌-◌, String, Bool, true, false, ◌&&◌, ◌||◌, List, [], ◌∷◌, Option, none, some, Result, ok,
  err, ◌>>=◌, leb, text_eq, keep, any, if◌then◌else◌,
}
use unwind.Base.Int.{sub_ℕ}
use unwind.Base.Sorting.{sort_by}
use unwind.Warrant.Event.{EventKind, Provenance, WarrantEvent, date, event_le}
use unwind.Warrant.Decay.{DecayError, apply_decay}

-- The identity of a balance: (principal, capability, risk_class).
pub record Key : Type 0 where
  pub principal : String
  pub capability : String
  pub risk_class : String

unfoldable pub has_key : Key → WarrantEvent → Bool
has_key k e =
    text_eq e.principal k.principal
    && (text_eq e.capability k.capability && text_eq e.risk_class k.risk_class)

-- `e.kind in (MINT, BURN, SPEND, DECAY)`
unfoldable pub is_folded : EventKind → Bool
is_folded EventKind.challenge = false
is_folded _ = true

unfoldable pub is_relevant : Key → ℕ → WarrantEvent → Bool
is_relevant k as_of e = has_key k e && (is_folded e.kind && leb e.at as_of)

unfoldable pub relevant : List WarrantEvent → Key → ℕ → List WarrantEvent
relevant events k as_of = sort_by event_le (keep (is_relevant k as_of) events)

-- `max(0, balance - amount)` is the truncated subtraction of naturals.
unfoldable pub apply_event : EventKind → ℕ → ℕ → ℕ
apply_event EventKind.mint amount balance = balance + amount
apply_event EventKind.burn amount balance = balance - amount
apply_event EventKind.spend amount balance = balance - amount
apply_event EventKind.decay amount balance = balance
apply_event EventKind.challenge amount balance = balance

-- The decay over the gap since the last event, if there was one.
unfoldable pub decay_since : Option ℕ → ℕ → ℕ → Result DecayError ℕ
decay_since none at balance = ok balance
decay_since (some last_ts) at balance = apply_decay balance (sub_ℕ (date at) (date last_ts))

unfoldable pub fold_events : List WarrantEvent → ℕ → Option ℕ → Result DecayError (ℕ × Option ℕ)
fold_events [] balance last_ts = ok (balance, last_ts)
fold_events (e ∷ es) balance last_ts = do
  left ← decay_since last_ts e.at balance
  fold_events es (apply_event e.kind e.amount_bp left) (some e.at)

unfoldable pub fold_balance : List WarrantEvent → Key → ℕ → Result DecayError ℕ
fold_balance events k as_of = do
  folded ← fold_events (relevant events k as_of) 0 none
  decay_since folded.1 as_of folded.0

is_kind_challenge : EventKind → Bool
is_kind_challenge EventKind.challenge = true
is_kind_challenge _ = false

unfoldable pub is_for_case : String → Option String → Bool
is_for_case case_id none = false
is_for_case case_id (some c) = text_eq c case_id

unfoldable pub challenges : String → WarrantEvent → Bool
unfolding is_kind_challenge
challenges case_id e = is_kind_challenge e.kind && is_for_case case_id e.case_id

unfoldable pub is_case_challenged : List WarrantEvent → String → Bool
is_case_challenged events case_id = any (challenges case_id) events

pub is_synthetic : Provenance → Bool
is_synthetic Provenance.synthetic = true
is_synthetic Provenance.earned = false

pub provenance_for_fold : List WarrantEvent → Provenance
provenance_for_fold [] = Provenance.synthetic
provenance_for_fold (e ∷ es) =
    if any (λ x. is_synthetic x.provenance) (e ∷ es)
    then Provenance.synthetic
    else Provenance.earned
