-- ===== src/Warrant/Ledger/Freezing.antt =====
-- warrant/ledger.py: a CHALLENGE freezes minting for its case for good, and what MINT wants.
use unwind.Base.{
  ℕ, ◌≤◌, String, ◌≡◌, true, false, some, ok, err, arith, any, Inserted-any, text_eq_iff,
}
use unwind.Base.Int.{pos}
use unwind.Simulation.{Environ}
use unwind.Tower.Schema.{AgentRegistryEntry}
use unwind.Warrant.Event.{EventKind, Provenance, WarrantEvent}
use unwind.Warrant.Fold.{Key, challenges, is_for_case, is_case_challenged}
use unwind.Warrant.Store.{Firestore, Db, events_of}
use unwind.Warrant.Ledger.Preconditions.{concurs, countersigns, has_valid_mint_preconditions}
use unwind.Warrant.Ledger.{
  LedgerError, draft, key_of, get_or_default, append, checked_amount, append_checked, mint_amount,
  mint_validated, mint, challenge,
}
use unwind.Warrant.Ledger.Reading.{is_case_challenged-read_events}
use unwind.Warrant.Ledger.Appends.{IsFresh, append-Inserted}
use unwind.Warrant.Ledger.Outcomes.{Outcome, unchanged, adds}
use unwind.Warrant.Ledger.History.{Step-Outcome, History, begins, then_step}

module _ (F : Firestore) (c : String) where
  Outcome-keeps_challenge :
      (when : ℕ) (db db' : Db F)
      → Outcome F when db db'
      → is_case_challenged (events_of F db) c ≡ true
      → is_case_challenged (events_of F db') c ≡ true
  unfolding is_case_challenged
  Outcome-keeps_challenge when db db' (unchanged e) h = rw e h
  Outcome-keeps_challenge when db db' (adds x fresh at covered e) h =
      rw e (rw (Inserted-any (challenges c) (append-Inserted F x db fresh)) (ground (arith, h)))

  history_keeps_challenge :
      {start db : Db F} {t : ℕ}
      → History F start t db
      → is_case_challenged (events_of F start) c ≡ true
      → is_case_challenged (events_of F db) c ≡ true
  history_keeps_challenge (begins when) h = h
  history_keeps_challenge (then_step {db = d} when db' past le step) h =
      Outcome-keeps_challenge when d db' (Step-Outcome F when d db' step)
        (history_keeps_challenge past h)

  challenge-is_case_challenged :
      (k : Key) (reason id : String) (when : ℕ) (db : Db F)
      → IsFresh F id db
      → is_case_challenged (events_of F (challenge F c k reason when id db).1) c ≡ true
  unfolding is_case_challenged challenge
  challenge-is_case_challenged k reason id when db fresh =
      let e = draft id k EventKind.challenge 0 Provenance.earned (some c) reason when in
      rw (Inserted-any (challenges c) (append-Inserted F e db fresh))
        (unfold append challenges is_for_case in ground (arith, text_eq_iff c c))

  mint-challenged :
      (env : Environ) (agent : AgentRegistryEntry) (capability risk_class reason id : String)
      (when : ℕ) (db : Db F)
      → is_case_challenged (events_of F db) c ≡ true
      → mint F env agent capability risk_class c reason when id db
        ≡ (err (LedgerError.case_challenged c), db)
  unfolding mint
  mint-challenged env agent capability risk_class reason id when db h =
      ground (arith, is_case_challenged-read_events F db c)

  -- Once a case is challenged by an event with a fresh id, and whatever history of operations
  -- follows, a MINT for it raises and leaves the collections as they are: there is no way back.
  pub challenge-freezes :
      (k : Key) (why new_id : String) (at : ℕ) (db : Db F)
      → IsFresh F new_id db
      → {t : ℕ} {later : Db F} → History F (challenge F c k why at new_id db).1 t later
      → (env : Environ) (agent : AgentRegistryEntry) (capability risk_class reason id : String)
        (when : ℕ)
      → mint F env agent capability risk_class c reason when id later
        ≡ (err (LedgerError.case_challenged c), later)
  challenge-freezes k why new_id at db fresh {later = later} past env agent capability risk_class
        reason id when =
      mint-challenged env agent capability risk_class reason id when later
        (history_keeps_challenge past (challenge-is_case_challenged k why new_id at db fresh))

  -- A MINT that succeeds was for a case that is not challenged, has a human concurrence and a valid
  -- countersign in its chain, and an amount above zero in the schedule of its risk class; the event
  -- carries that amount, and is the one appended.
  pub mint-ok :
      (env : Environ) (agent : AgentRegistryEntry) (capability risk_class reason id : String)
      (when : ℕ) (db : Db F) (e : WarrantEvent)
      → (mint F env agent capability risk_class c reason when id db).0 ≡ ok e
      → (is_case_challenged (events_of F db) c ≡ false)
        × (any concurs (F.chain db.memory c) ≡ true)
        × (any (countersigns env) (F.chain db.memory c) ≡ true)
        × (get_or_default risk_class agent.warrant_mint_schedule (pos 0) ≡ pos e.amount_bp)
        × (1 ≤ e.amount_bp)
        × (mint F env agent capability risk_class c reason when id db ≡ (
            let (stamped, db') =
              append F
                (draft id
                  (key_of agent capability risk_class)
                  EventKind.mint
                  e.amount_bp
                  Provenance.earned
                  (some c)
                  reason
                  when)
                db in
            (ok stamped, db')))
  unfolding mint mint_validated mint_amount append_checked checked_amount
      has_valid_mint_preconditions append
  mint-ok env agent capability risk_class reason id when db e h =
      ground (arith, is_case_challenged-read_events F db c)
