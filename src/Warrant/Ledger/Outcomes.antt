-- ===== src/Warrant/Ledger/Outcomes.antt =====
-- warrant/ledger.py: what each operation does to the collections: nothing, or one append.
use unwind.Base.{
  ℕ, ◌≤◌, String, ◌≡◌, ◌≢◌, refl, ap, true, Option, none, some, Result, ok, err, arith, Bool-cases,
  inl, inr, ◌==◌, text_eq, text_eq_iff,
}
use unwind.Base.Int.{ℤ, pos, negsuc}
use unwind.Principals.{assert_warrant_access}
use unwind.Simulation.{Environ}
use unwind.Tower.Schema.{AgentRegistryEntry}
use unwind.Warrant.Event.{EventKind, Provenance, WarrantEvent}
use unwind.Warrant.Fold.{Key, has_key, is_relevant, is_case_challenged}
use unwind.Warrant.Fold.Total.{balance_at}
use unwind.Warrant.Store.{Firestore, Db, events_of}
use unwind.Warrant.Ledger.Preconditions.{MintPreconditionError, has_valid_mint_preconditions}
use unwind.Warrant.Ledger.{
  draft, key_of, of_case, read_events, get_or_default, append, append_checked, checked_amount,
  mint_amount, mint_validated, mint, burn, spend_or_refuse, checkpoint_decay,
}
use unwind.Warrant.Ledger.Reading.{current_balance-eq-balance_at}
use native.Mathlib.Decide.{dec_le}
use unwind.Warrant.Ledger.Appends.{IsFresh}
use unwind.Warrant.Ledger.Spending.{
  cost_of, spend_draft, spend_or_refuse-other_principal, spend_or_refuse_covered,
  spend_or_refuse-refuses, spend_or_refuse-negative_cost,
}

own_key :
    (agent : AgentRegistryEntry) (capability risk_class task : String) (case_id : Option String)
    (when : ℕ) (id : String) (n : ℕ)
    → has_key
        (key_of agent capability risk_class)
        (spend_draft agent capability risk_class task case_id when id n)
      ≡ true
unfolding has_key
own_key agent capability risk_class task case_id when id n = ground (
  arith,
  text_eq_iff agent.principal agent.principal,
  text_eq_iff capability capability,
  text_eq_iff risk_class risk_class,
)

module _ (F : Firestore) where
  -- A SPEND is written only when the balance covers it.
  abbrev pub IsCovered : WarrantEvent → Db F → Type 0
  IsCovered e db =
      (k : Key)
      → is_relevant k e.at e ≡ true
      → e.kind ≡ EventKind.spend
      → e.amount_bp ≤ balance_at (events_of F db) k e.at

  -- An operation leaves the collections alone or appends one event.
  pub data Outcome (when : ℕ) (db db' : Db F) : Type 0 where
    unchanged : db' ≡ db → Outcome when db db'
    adds :
        (e : WarrantEvent)
        → IsFresh F e.event_id db
        → e.at ≡ when
        → IsCovered e db
        → db' ≡ (append F e db).1
        → Outcome when db db'

  -- The events of one operation differ only in their amount.
  pub adds_draft :
      (k : Key) (kind : EventKind) (p : Provenance) (c : Option String) (reason id : String)
      (when n : ℕ) (db db' : Db F)
      → kind ≢ EventKind.spend
      → IsFresh F id db
      → db' ≡ (append F (draft id k kind n p c reason when) db).1
      → Outcome when db db'
  adds_draft k kind p c reason id when n db db' ne fresh e =
      adds (draft id k kind n p c reason when) fresh refl (λ j r s. absurd (ne s)) e

  append_checked-Outcome :
      (k : Key) (kind : EventKind) (p : Provenance) (c : Option String) (reason id : String)
      (when : ℕ) (amount : ℤ) (db : Db F)
      → kind ≢ EventKind.spend
      → IsFresh F id db
      → Outcome when db (append_checked F (λ n. draft id k kind n p c reason when) amount db).1
  unfolding append_checked checked_amount
  append_checked-Outcome k kind p c reason id when (pos n) db ne fresh =
      adds_draft k kind p c reason id when n db _ ne fresh refl
  append_checked-Outcome k kind p c reason id when (negsuc n) db ne fresh = unchanged refl

  mint_amount-Outcome :
      (k : Key) (c : Option String) (reason id : String) (when : ℕ) (amount : ℤ) (db : Db F)
      → IsFresh F id db
      → Outcome when db
          (mint_amount F amount
            (λ n. draft id k EventKind.mint n Provenance.earned c reason when)
            db).1
  unfolding mint_amount append_checked checked_amount
  mint_amount-Outcome k c reason id when (pos n) db fresh = elim (Bool-cases (n == 0)) [
    | inl z ↦ unchanged (rw z)
    | inr nz ↦
        adds_draft k EventKind.mint Provenance.earned c reason id when n db _ (λ e. cc e) fresh
          (rw nz)
  ]
  mint_amount-Outcome k c reason id when (negsuc n) db fresh = unchanged refl

  mint_validated-Outcome :
      (r : Result MintPreconditionError (Unit {0})) (k : Key) (c : Option String)
      (reason id : String) (when : ℕ) (amount : ℤ) (db : Db F)
      → IsFresh F id db
      → Outcome when db
          (mint_validated F r amount
            (λ n. draft id k EventKind.mint n Provenance.earned c reason when)
            db).1
  unfolding mint_validated
  mint_validated-Outcome (err e) k c reason id when amount db fresh = unchanged refl
  mint_validated-Outcome (ok _) k c reason id when amount db fresh =
      mint_amount-Outcome k c reason id when amount db fresh

  pub mint-Outcome :
      (env : Environ) (agent : AgentRegistryEntry)
      (capability risk_class case_id reason id : String) (when : ℕ) (db : Db F)
      → IsFresh F id db
      → Outcome when db (mint F env agent capability risk_class case_id reason when id db).1
  unfolding mint
  mint-Outcome env agent capability risk_class case_id reason id when db fresh =
      elim (Bool-cases (is_case_challenged (read_events F db (of_case case_id)) case_id)) [
        | inl c ↦ unchanged (rw c)
        | inr c ↦ rw c (
            mint_validated-Outcome (has_valid_mint_preconditions env (F.chain db.memory case_id))
              (key_of agent capability risk_class) (some case_id) reason id when
              (get_or_default risk_class agent.warrant_mint_schedule (pos 0)) db fresh)
      ]

  pub burn-Outcome :
      (agent : AgentRegistryEntry) (capability risk_class : String) (amount : ℤ)
      (case_id reason acting id : String) (when : ℕ) (db : Db F)
      → IsFresh F id db
      → Outcome when db
          (burn F agent capability risk_class amount case_id reason acting when id db).1
  unfolding burn assert_warrant_access
  burn-Outcome agent capability risk_class amount case_id reason acting id when db fresh =
      elim (Bool-cases (text_eq agent.principal acting)) [
        | inl own ↦
            rw (own, burn)
              (append_checked-Outcome (key_of agent capability risk_class) EventKind.burn
                Provenance.earned (some case_id) reason id when amount db (λ e. cc e) fresh)
        | inr other ↦ unchanged (rw (other, burn))
      ]

  same_key :
      (j k : Key) (t : ℕ) (e : WarrantEvent) → has_key k e ≡ true → is_relevant j t e ≡ true → j ≡ k
  unfolding has_key is_relevant
  same_key j k t e h r =
      let p : j.principal ≡ k.principal =
        ground (arith, text_eq_iff e.principal j.principal, text_eq_iff e.principal k.principal) in
      let c : j.capability ≡ k.capability =
        ground
          (arith, text_eq_iff e.capability j.capability, text_eq_iff e.capability k.capability) in
      let r' : j.risk_class ≡ k.risk_class =
        ground
          (arith, text_eq_iff e.risk_class j.risk_class, text_eq_iff e.risk_class k.risk_class) in
      λ i. record { principal = p i; capability = c i; risk_class = r' i }

  pub checkpoint-Outcome :
      (k : Key) (note : ℕ → String) (id : String) (when : ℕ) (db : Db F)
      → IsFresh F id db
      → Outcome when db (checkpoint_decay F k note when id db).1
  unfolding checkpoint_decay
  checkpoint-Outcome k note id when db fresh =
      rw (current_balance-eq-balance_at F db k when, checkpoint_decay)
        (adds_draft k EventKind.decay Provenance.earned none _ id when 0 db _ (λ e. cc e) fresh
          refl)

  pub spend-Outcome :
      (agent : AgentRegistryEntry) (capability risk_class task : String) (case_id : Option String)
      (acting id : String) (when : ℕ) (db : Db F)
      → IsFresh F id db
      → Outcome when db
          (spend_or_refuse F agent capability risk_class task case_id acting when id db).1
  spend-Outcome agent capability risk_class task case_id acting id when db fresh =
      elim (Bool-cases (text_eq agent.principal acting)) [
        | inr other ↦ unchanged (
            ap (λ p. p.1)
              (spend_or_refuse-other_principal F agent capability risk_class task case_id acting
                when id db (ground (arith, text_eq_iff agent.principal acting))))
        | inl own ↦
            rw (← (text_eq_iff agent.principal acting).0 own)
              (own_spend (cost_of agent risk_class) refl)
      ]
    where
      k : Key
      k = key_of agent capability risk_class

      own_spend :
          (v : ℤ)
          → cost_of agent risk_class ≡ v
          → Outcome when db
              (spend_or_refuse F agent capability risk_class task case_id agent.principal when id
                db).1
      own_spend (negsuc m) c = unchanged (
          ap (λ p. p.1)
            (spend_or_refuse-negative_cost F agent capability risk_class task case_id when id db m
              c))
      own_spend (pos n) c = elim (dec_le n (balance_at (events_of F db) k when)) [
        | no short ↦ unchanged (
            ap (λ p. p.1)
              (spend_or_refuse-refuses F agent capability risk_class task case_id when id db n c
                (omega arith)))
        | yes cover ↦
            adds (spend_draft agent capability risk_class task case_id when id n) fresh refl
              (λ j r s.
                rw
                  (same_key j k when _ (own_key agent capability risk_class task case_id when id n)
                    r)
                  cover)
              (ap (λ p. p.1)
                (spend_or_refuse_covered F agent capability risk_class task case_id when id db n c
                  cover))
      ]
