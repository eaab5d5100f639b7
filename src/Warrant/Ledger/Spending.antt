-- ===== src/Warrant/Ledger/Spending.antt =====
-- warrant/ledger.py: `spend_or_refuse` on each of its branches.
use unwind.Base.{
  ℕ, ◌-◌, ◌≤◌, ◌<◌, String, ◌≡◌, ◌≢◌, refl, ap, ◌∙◌, true, false, Option, none, some, ok, err,
  arith, text_eq_iff,
}
use unwind.Base.Int.{ℤ, pos, negsuc}
use unwind.Principals.{assert_warrant_access}
use unwind.Tower.Schema.{AgentRegistryEntry}
use unwind.Warrant.Event.{EventKind, Provenance, WarrantEvent}
use unwind.Warrant.Fold.{Key, has_key, is_folded, is_relevant, apply_event}
use unwind.Warrant.Fold.Total.{balance_at}
use unwind.Warrant.Store.{Firestore, Db, events_of}
use unwind.Warrant.Ledger.{
  LedgerError, SpendResult, default_spend_cost_bp, get_or_default, checked_amount, key_of, draft,
  current_balance, append, spend_covered, spend_or_refuse,
}
use unwind.Warrant.Ledger.Reading.{current_balance-eq-balance_at}
use unwind.Warrant.Ledger.Appends.{IsSequenced, IsFresh, append_acts, append-IsSequenced}

-- What the delegation costs.
abbrev pub cost_of : AgentRegistryEntry → String → ℤ
cost_of agent risk_class =
    get_or_default risk_class agent.warrant_spend_schedule default_spend_cost_bp

-- The SPEND event of a call, before its number is stamped in.
abbrev pub spend_draft :
    AgentRegistryEntry → String → String → String → Option String → ℕ → String → ℕ → WarrantEvent
spend_draft agent capability risk_class task case_id when id n =
    draft id (key_of agent capability risk_class) EventKind.spend n Provenance.earned case_id task
      when

draft-is_relevant :
    (id : String) (k : Key) (kind : EventKind) (n : ℕ) (p : Provenance) (c : Option String)
    (r : String) (t : ℕ)
    → is_folded kind ≡ true
    → is_relevant k t (draft id k kind n p c r t) ≡ true
unfolding is_relevant has_key
draft-is_relevant id k kind n p c r t h = ground (
  arith,
  h,
  text_eq_iff k.principal k.principal,
  text_eq_iff k.capability k.capability,
  text_eq_iff k.risk_class k.risk_class,
)

module _ (F : Firestore) (agent : AgentRegistryEntry) (capability risk_class task : String) where
  -- For a principal other than the balance's own, a call raises and nothing is written.
  pub spend_or_refuse-other_principal :
      (case_id : Option String) (acting : String) (when : ℕ) (id : String) (db : Db F)
      → agent.principal ≢ acting
      → spend_or_refuse F agent capability risk_class task case_id acting when id db ≡ (
        err (
            LedgerError.non_transferable
              (record { balance_principal = agent.principal; acting_principal = acting })),
        db,
      )
  unfolding spend_or_refuse assert_warrant_access
  spend_or_refuse-other_principal case_id acting when id db h =
      ground (arith, text_eq_iff agent.principal acting)

  pub spend_or_refuse_covered :
      (case_id : Option String) (when : ℕ) (id : String) (db : Db F) (n : ℕ)
      → cost_of agent risk_class ≡ pos n
      → n ≤ balance_at (events_of F db) (key_of agent capability risk_class) when
      → let (stamped, db') =
          append F (spend_draft agent capability risk_class task case_id when id n) db in
        spend_or_refuse F agent capability risk_class task case_id agent.principal when id db ≡ (
          ok (record {
            allowed = true;
            balance_before = balance_at (events_of F db) (key_of agent capability risk_class) when;
            cost_bp = pos n;
            event = some stamped;
          }),
          db',
        )
  unfolding spend_or_refuse assert_warrant_access spend_covered append checked_amount
  spend_or_refuse_covered case_id when id db n c h = ground (
    arith,
    text_eq_iff agent.principal agent.principal,
    current_balance-eq-balance_at F db (key_of agent capability risk_class) when,
  )

  -- With a fresh id, a ledger numbered below its counters and a cost of zero or more, a call by the
  -- agent's own principal that the balance covers is allowed, reports the balance of before, and
  -- debits exactly the cost: a reading at the same instant is lower by it. The numbering of the log
  -- stays in order.
  pub spend_or_refuse-debits :
      (case_id : Option String) (when : ℕ) (id : String) (db : Db F) (n : ℕ)
      → IsFresh F id db
      → IsSequenced F db
      → cost_of agent risk_class ≡ pos n
      → n ≤ balance_at (events_of F db) (key_of agent capability risk_class) when
      → let k = key_of agent capability risk_class in
        let b = balance_at (events_of F db) k when in
        let (r, db') =
          spend_or_refuse F agent capability risk_class task case_id agent.principal when id db in
        (current_balance F db k when ≡ ok b)
        × (current_balance F db' k when ≡ ok (b - n))
        × ((s : SpendResult) × (r ≡ ok s) × (s.allowed ≡ true) × (s.balance_before ≡ b))
        × IsSequenced F db'
  spend_or_refuse-debits case_id when id db n fresh h c cover =
      let e = spend_draft agent capability risk_class task case_id when id n in
      let k = key_of agent capability risk_class in
      rw (spend_or_refuse_covered case_id when id db n c cover) (
        current_balance-eq-balance_at F db k when,
        current_balance-eq-balance_at F (append F e db).1 k when
            ∙ ap ok (
                append_acts F k e db fresh h refl (
                  draft-is_relevant id k EventKind.spend n Provenance.earned case_id task when
                    (unfold is_folded in refl))
                ∙ unfold apply_event in refl),
        (_, refl, refl, refl),
        append-IsSequenced F e db fresh h,
      )

  -- A call by the agent's own principal whose cost, zero or more, the balance does not cover is
  -- refused with the balance and the cost in its result, and nothing at all is written.
  pub spend_or_refuse-refuses :
      (case_id : Option String) (when : ℕ) (id : String) (db : Db F) (n : ℕ)
      → cost_of agent risk_class ≡ pos n
      → balance_at (events_of F db) (key_of agent capability risk_class) when < n
      → spend_or_refuse F agent capability risk_class task case_id agent.principal when id db ≡ (
        ok (record {
          allowed = false;
          balance_before = balance_at (events_of F db) (key_of agent capability risk_class) when;
          cost_bp = pos n;
          event = none;
        }),
        db,
      )
  unfolding spend_or_refuse assert_warrant_access
  spend_or_refuse-refuses case_id when id db n c h = ground (
    arith,
    text_eq_iff agent.principal agent.principal,
    current_balance-eq-balance_at F db (key_of agent capability risk_class) when,
  )

  -- A negative cost in the schedule raises and writes nothing.
  pub spend_or_refuse-negative_cost :
      (case_id : Option String) (when : ℕ) (id : String) (db : Db F) (m : ℕ)
      → cost_of agent risk_class ≡ negsuc m
      → spend_or_refuse F agent capability risk_class task case_id agent.principal when id db
        ≡ (err (LedgerError.negative_amount (negsuc m)), db)
  unfolding spend_or_refuse assert_warrant_access spend_covered checked_amount
  spend_or_refuse-negative_cost case_id when id db m c = ground (
    arith,
    text_eq_iff agent.principal agent.principal,
    current_balance-eq-balance_at F db (key_of agent capability risk_class) when,
  )
