-- ===== src/Warrant/Ledger.antt =====
-- warrant/ledger.py: reading the log, and the four operations that append to it. An operation takes
-- the clock's reading and the fresh id that it draws, and returns its result and the collections.
pub mod Preconditions
pub mod Reading
pub mod Appends
pub mod Spending
pub mod Outcomes
pub mod History
pub mod Freezing
pub mod Solvency
mod Tests
use unwind.Base.{
  ℕ, ◌+◌, String, Bool, true, false, not, ◌&&◌, ◌||◌, List, [], ◌∷◌, ◌++◌, Option, none, some,
  Result, ok, err, any, keep, lookup, text_eq, ◌==◌, if◌then◌else◌,
}
use unwind.Base.Int.{ℤ, pos, negsuc, ltb_ℤ}
use unwind.Base.Sorting.{sort_by}
use unwind.Principals.{NonTransferableError, assert_warrant_access}
use unwind.Simulation.{Environ}
use unwind.Tower.Schema.{AgentRegistryEntry}
use unwind.Warrant.Event.{EventKind, Provenance, WarrantEvent, event_le}
use unwind.Warrant.Decay.{DecayError}
use unwind.Warrant.Fold.{Key, fold_balance, is_case_challenged}
use unwind.Warrant.Store.{Firestore, Db, events_of, next_seq}
use unwind.Warrant.Ledger.Preconditions.{MintPreconditionError, has_valid_mint_preconditions}

-- What an operation may raise.
pub data LedgerError : Type 0 where
  case_challenged : String → LedgerError
  mint_precondition : MintPreconditionError → LedgerError
  non_transferable : NonTransferableError → LedgerError
  negative_amount : ℤ → LedgerError
  negative_gap : DecayError → LedgerError

abbrev pub default_spend_cost_bp : ℤ
default_spend_cost_bp = pos 100

-- A filter that is left out matches every event.
pub matches : Option String → String → Bool
matches none field = true
matches (some wanted) field = text_eq field wanted

matches_case : Option String → Option String → Bool
matches_case none field = true
matches_case (some wanted) none = false
matches_case (some wanted) (some c) = text_eq c wanted

pub record EventQuery : Type 0 where
  pub principal : Option String
  pub capability : Option String
  pub risk_class : Option String
  pub case_id : Option String

pub selects : EventQuery → WarrantEvent → Bool
unfolding matches matches_case
selects q e =
    matches q.principal e.principal
    && (matches q.capability e.capability
        && (matches q.risk_class e.risk_class && matches_case q.case_id e.case_id))

abbrev pub of_key : Key → EventQuery
of_key k = record {
  principal = some k.principal;
  capability = some k.capability;
  risk_class = some k.risk_class;
  case_id = none;
}

abbrev pub of_case : String → EventQuery
of_case case_id = record {
  principal = none;
  capability = none;
  risk_class = none;
  case_id = some case_id;
}

-- `WarrantEvent.__post_init__`: the amount of an event is never negative.
pub checked_amount : ℤ → Result LedgerError ℕ
checked_amount (pos n) = ok n
checked_amount (negsuc n) = err (LedgerError.negative_amount (negsuc n))

-- `dict.get(key, default)`
unfoldable pub get_or_default : String → List (String × ℤ) → ℤ → ℤ
get_or_default k d default = elim (lookup k d) [ none ↦ default | some v ↦ v ]

-- The text `reason` follows from these fields and the call, and is left out.
pub record SpendResult : Type 0 where
  pub allowed : Bool
  pub balance_before : ℕ
  pub cost_bp : ℤ
  pub event : Option WarrantEvent

abbrev pub key_of : AgentRegistryEntry → String → String → Key
key_of agent capability risk_class = record {
  principal = agent.principal;
  capability = capability;
  risk_class = risk_class;
}

-- An event as its caller states it, before a sequence number is stamped in.
abbrev pub draft :
    String → Key → EventKind → ℕ → Provenance → Option String → String → ℕ → WarrantEvent
draft id k kind amount provenance case_id reason when = record {
  event_id = id;
  principal = k.principal;
  capability = k.capability;
  risk_class = k.risk_class;
  kind = kind;
  amount_bp = amount;
  provenance = provenance;
  case_id = case_id;
  reason = reason;
  at = when;
  seq = 0;
}

module _ (F : Firestore) where
  unfoldable pub read_events : Db F → EventQuery → List WarrantEvent
  read_events db q = sort_by event_le (keep (selects q) (events_of F db))

  unfoldable pub current_balance : Db F → Key → ℕ → Result DecayError ℕ
  current_balance db k when = fold_balance (read_events db (of_key k)) k when

  -- Set the document under its new id.
  pub set_document : WarrantEvent → Db F → Db F
  set_document e db = record db { ledger = F.set_event e db.ledger }

  pub append : WarrantEvent → Db F → WarrantEvent × Db F
  unfolding set_document
  append event db =
      let (seq, db') = next_seq F event.principal db in
      let stamped = record event { seq = seq } in (stamped, set_document stamped db')

  abbrev pub appended : WarrantEvent → Db F → Result LedgerError WarrantEvent × Db F
  appended event db = let (stamped, db') = append event db in (ok stamped, db')

  -- Construct an event of the given amount and append it; a negative amount raises before that.
  pub append_checked : (ℕ → WarrantEvent) → ℤ → Db F → Result LedgerError WarrantEvent × Db F
  append_checked event amount db = elim (checked_amount amount) [
    | ok n ↦ appended (event n) db
    | err e ↦ (err e, db)
  ]

  -- `if not amount_bp`: a risk class without an amount, or with the amount zero, mints nothing.
  pub mint_amount : ℤ → (ℕ → WarrantEvent) → Db F → Result LedgerError WarrantEvent × Db F
  mint_amount (pos n) event db =
      if n == 0
      then (err (LedgerError.mint_precondition MintPreconditionError.no_schedule), db)
      else append_checked event (pos n) db
  mint_amount (negsuc n) event db = append_checked event (negsuc n) db

  pub mint_validated :
      Result MintPreconditionError (Unit {0})
      → ℤ
      → (ℕ → WarrantEvent)
      → Db F
      → Result LedgerError WarrantEvent × Db F
  mint_validated (err e) amount event db = (err (LedgerError.mint_precondition e), db)
  mint_validated (ok _) amount event db = mint_amount amount event db

  pub mint :
      Environ
      → AgentRegistryEntry
      → String
      → String
      → String
      → String
      → ℕ
      → String
      → Db F
      → Result LedgerError WarrantEvent × Db F
  mint env agent capability risk_class case_id reason when id db =
      let event = λ (n : ℕ).
        draft id (key_of agent capability risk_class) EventKind.mint n Provenance.earned
          (some case_id) reason when in
      if is_case_challenged (read_events db (of_case case_id)) case_id
      then (err (LedgerError.case_challenged case_id), db)
      else mint_validated (has_valid_mint_preconditions env (F.chain db.memory case_id))
          (get_or_default risk_class agent.warrant_mint_schedule (pos 0)) event db

  pub burn :
      AgentRegistryEntry
      → String
      → String
      → ℤ
      → String
      → String
      → String
      → ℕ
      → String
      → Db F
      → Result LedgerError WarrantEvent × Db F
  burn agent capability risk_class amount_bp case_id reason acting_principal when id db =
      let event = λ (n : ℕ).
        draft id (key_of agent capability risk_class) EventKind.burn n Provenance.earned
          (some case_id) reason when in
      elim (assert_warrant_access agent.principal acting_principal) [
        | err e ↦ (err (LedgerError.non_transferable e), db)
        | ok _ ↦ append_checked event amount_bp db
      ]

  pub challenge : String → Key → String → ℕ → String → Db F → WarrantEvent × Db F
  challenge case_id k reason when id =
      append (draft id k EventKind.challenge 0 Provenance.earned (some case_id) reason when)

  -- The part of the transaction after the balance has covered the cost. A negative cost raises
  -- when the event is constructed, and the transaction is rolled back.
  pub spend_covered : (ℕ → WarrantEvent) → ℤ → ℕ → Db F → Result LedgerError SpendResult × Db F
  unfolding set_document
  spend_covered event cost balance db = elim (checked_amount cost) [
    | err e ↦ (err e, db)
    | ok n ↦
        let (seq, db') = next_seq F (event n).principal db in
        let stamped = record (event n) { seq = seq } in
        (
          ok (record {
            allowed = true;
            balance_before = balance;
            cost_bp = cost;
            event = some stamped;
          }),
          set_document stamped db',
        )
  ]

  unfoldable pub spend_or_refuse :
      AgentRegistryEntry
      → String
      → String
      → String
      → Option String
      → String
      → ℕ
      → String
      → Db F
      → Result LedgerError SpendResult × Db F
  spend_or_refuse agent capability risk_class task case_id acting_principal when id db =
      let k = key_of agent capability risk_class in
      let cost = get_or_default risk_class agent.warrant_spend_schedule default_spend_cost_bp in
      let event = λ (n : ℕ). draft id k EventKind.spend n Provenance.earned case_id task when in
      elim (assert_warrant_access agent.principal acting_principal) [
        | err e ↦ (err (LedgerError.non_transferable e), db)
        | ok _ ↦ elim (current_balance db k when) [
          | err e ↦ (err (LedgerError.negative_gap e), db)
          | ok balance ↦
              if ltb_ℤ (pos balance) cost
              then (
                ok (record {
                  allowed = false;
                  balance_before = balance;
                  cost_bp = cost;
                  event = none;
                }),
                db,
              )
              else spend_covered event cost balance db
        ]
      ]

  -- The reason of the event narrates the balance: `note` makes the text from it.
  pub checkpoint_decay :
      Key → (ℕ → String) → ℕ → String → Db F → Result LedgerError WarrantEvent × Db F
  checkpoint_decay k note when id db = elim (current_balance db k when) [
    | err e ↦ (err (LedgerError.negative_gap e), db)
    | ok realized ↦
        appended (draft id k EventKind.decay 0 Provenance.earned none (note realized) when) db
  ]

  -- `note` puts the seed's label before the reason.
  unfoldable pub write_synthetic_seed_event :
      Key
      → EventKind
      → ℤ
      → Option String
      → (String → String)
      → String
      → ℕ
      → String
      → Db F
      → Result LedgerError WarrantEvent × Db F
  write_synthetic_seed_event k kind amount_bp case_id note reason at id =
      append_checked (λ n. draft id k kind n Provenance.synthetic case_id (note reason) at)
        amount_bp
