-- ===== src/Warrant/Ledger/History.antt =====
-- warrant/ledger.py: any sequence of the operations, at clock readings that never go back. Each one
-- runs in a transaction of its own, so a history is a sequence of whole operations.
use unwind.Base.{ℕ, ◌≤◌, String, ◌≡◌, refl, Option, some}
use unwind.Base.Int.{ℤ}
use unwind.Simulation.{Environ}
use unwind.Tower.Schema.{AgentRegistryEntry}
use unwind.Warrant.Event.{EventKind, Provenance}
use unwind.Warrant.Fold.{Key}
use unwind.Warrant.Store.{Firestore, Db}
use unwind.Warrant.Ledger.{mint, burn, challenge, spend_or_refuse, checkpoint_decay}
use unwind.Warrant.Ledger.Appends.{IsFresh}
use unwind.Warrant.Ledger.Outcomes.{
  Outcome, adds_draft, mint-Outcome, burn-Outcome, checkpoint-Outcome, spend-Outcome,
}

module _ (F : Firestore) where
  -- One operation at the clock reading `when`, with a fresh id.
  pub data Step (when : ℕ) (db db' : Db F) : Type 0 where
    minting :
        (env : Environ) (agent : AgentRegistryEntry)
        (capability risk_class case_id reason id : String)
        → IsFresh F id db
        → db' ≡ (mint F env agent capability risk_class case_id reason when id db).1
        → Step when db db'
    burning :
        (agent : AgentRegistryEntry) (capability risk_class : String) (amount : ℤ)
        (case_id reason acting id : String)
        → IsFresh F id db
        → db' ≡ (burn F agent capability risk_class amount case_id reason acting when id db).1
        → Step when db db'
    challenging :
        (case_id : String) (k : Key) (reason id : String)
        → IsFresh F id db
        → db' ≡ (challenge F case_id k reason when id db).1
        → Step when db db'
    spending :
        (agent : AgentRegistryEntry) (capability risk_class task : String) (case_id : Option String)
        (acting id : String)
        → IsFresh F id db
        → db' ≡ (spend_or_refuse F agent capability risk_class task case_id acting when id db).1
        → Step when db db'
    checkpointing :
        (k : Key) (note : ℕ → String) (id : String)
        → IsFresh F id db
        → db' ≡ (checkpoint_decay F k note when id db).1
        → Step when db db'

  -- Every operation with a fresh id leaves the collections alone or appends one event, at its own clock reading,
  -- and a SPEND only when the balance covers it.
  pub Step-Outcome : (when : ℕ) (db db' : Db F) → Step when db db' → Outcome F when db db'
  Step-Outcome when db db' (minting env agent cap risk case_id reason id fresh e) =
      rw e (mint-Outcome F env agent cap risk case_id reason id when db fresh)
  Step-Outcome when db db' (burning agent cap risk amount case_id reason acting id fresh e) =
      rw e (burn-Outcome F agent cap risk amount case_id reason acting id when db fresh)
  Step-Outcome when db db' (challenging case_id k reason id fresh e) = rw e (
      unfold challenge in
      adds_draft F k EventKind.challenge Provenance.earned (some case_id) reason id when 0 db _
        (λ h. cc h) fresh refl)
  Step-Outcome when db db' (spending agent cap risk task case_id acting id fresh e) =
      rw e (spend-Outcome F agent cap risk task case_id acting id when db fresh)
  Step-Outcome when db db' (checkpointing k note id fresh e) =
      rw e (checkpoint-Outcome F k note id when db fresh)

  -- A run of operations at clock readings that never go back.
  pub data History (start : Db F) : ℕ → Db F → Type 0 where
    begins : (when : ℕ) → History start when start
    then_step :
        {t : ℕ} {db : Db F} (when : ℕ) (db' : Db F)
        → History start t db
        → t ≤ when
        → Step when db db'
        → History start when db'
