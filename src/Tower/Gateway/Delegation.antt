-- ===== src/Tower/Gateway/Delegation.antt =====
-- tower/gateway.py: what an allowed delegation means, and what a refused one leaves behind.
use unwind.Base.{
  ℕ, String, ◌≡◌, refl, sym, ap, ◌∙◌, Bool, true, false, ◌&&◌, [], Option, none, some, Result, ok,
  err, arith,
}
use mathlib.Core.Bool.{false≢true}
use unwind.Base.Sorting.{sort_by}
use unwind.Base.Int.{pos, ◌≤ℤ◌}
use unwind.Principals.Separation.{pairwise, none_in}
use unwind.Tower.Schema.{AgentRegistryEntry, is_active}
use unwind.Warrant.Fold.Total.{balance_at, replay, left_after}
use unwind.Warrant.Fold.{relevant}
use unwind.Warrant.Store.{Firestore, Db, events_of}
use unwind.Warrant.Ledger.{LedgerError}
use unwind.Warrant.Ledger.Spending.{cost_of}
use unwind.Tower.Gateway.{
  GatewayDecision, GatewayReasonCode, TaskRequest, Checked, check_principal, check_scope,
  check_budget, check_warrant, allow, conclude, refuse_or, evaluate_gateway,
}
use unwind.Tower.Gateway.Checks.{
  passes, bench_of, is_granted, IsAffordable, check_principal-passes, check_scope-passes,
  check_budget-passes, check_principal-refuses, check_scope-refuses, check_budget-refuses,
}
use unwind.Tower.Gateway.Covering.{
  IsSpent, spent, IsUncovered, IsNegativeCost, Warranted, passed, refused, raised,
  check_warrant-Warranted,
}

module _ (F : Firestore) (agent : AgentRegistryEntry) (q : TaskRequest) where
  abbrev is_clean : Bool
  is_clean = is_active agent.status && pairwise none_in (bench_of agent q.bench)

  -- The first check that fails, in the fixed order, names the reason code.
  pub data FirstFailure (when : ℕ) (db : Db F) (code : GatewayReasonCode) : Type 0 where
    at_principal :
        is_clean ≡ false → code ≡ GatewayReasonCode.principal_violation → FirstFailure when db code
    at_scope :
        is_clean ≡ true
        → is_granted agent q.requested_scope ≡ false
        → code ≡ GatewayReasonCode.scope_exceeded
        → FirstFailure when db code
    at_budget :
        is_clean ≡ true
        → is_granted agent q.requested_scope ≡ true
        → ¬ IsAffordable agent q.requested_cost q.risk_class
        → code ≡ GatewayReasonCode.budget_exceeded
        → FirstFailure when db code
    at_warrant :
        is_clean ≡ true
        → is_granted agent q.requested_scope ≡ true
        → IsAffordable agent q.requested_cost q.risk_class
        → IsUncovered F agent q when db
        → code ≡ GatewayReasonCode.warrant_insufficient
        → FirstFailure when db code

  -- What the gateway promises of its answer and of the collections after it.
  pub data Verdict (when : ℕ) (id : String) (db : Db F)
      : Result LedgerError GatewayDecision × Db F → Type 0 where
    delegates :
        (d : GatewayDecision) (db' : Db F)
        → d.allowed ≡ true
        → d.reason_code ≡ GatewayReasonCode.allowed
        → is_clean ≡ true
        → is_granted agent q.requested_scope ≡ true
        → IsAffordable agent q.requested_cost q.risk_class
        → IsSpent F agent q when id db db'
        → Verdict when id db (ok d, db')
    refuses :
        (d : GatewayDecision)
        → d.allowed ≡ false
        → FirstFailure when db d.reason_code
        → Verdict when id db (ok d, db)
    raises : (e : LedgerError) → IsNegativeCost F agent q e → Verdict when id db (err e, db)

  conclude-Verdict :
      (when : ℕ) (id : String) (now : ℕ) (db : Db F) (w : Checked F)
      → Warranted F agent q when id now db w
      → is_clean ≡ true
      → is_granted agent q.requested_scope ≡ true
      → IsAffordable agent q.requested_cost q.risk_class
      → Verdict when id db (conclude F agent q.task now w)
  unfolding conclude
  conclude-Verdict when id now db w (passed db' sp) p s b =
      delegates (allow F agent q.task now) db' (unfold allow in refl) (unfold allow in refl) p s b
        sp
  conclude-Verdict when id now db w (refused d a c u) p s b = refuses d a (at_warrant p s b u c)
  conclude-Verdict when id now db w (raised e c) p s b = raises e c

  by_principal :
      (when : ℕ) (id : String) (now : ℕ) (db : Db F) (o : Option GatewayDecision)
      (rest : Result LedgerError GatewayDecision × Db F)
      → check_principal agent q.task q.bench now ≡ o
      → (is_clean ≡ true → Verdict when id db rest)
      → Verdict when id db (refuse_or F o db rest)
  unfolding refuse_or
  by_principal when id now db none rest e k =
      k (sym (check_principal-passes agent q.task q.bench now) ∙ ap passes e)
  by_principal when id now db (some d) rest e k =
      let f = check_principal-refuses agent q.task q.bench now d e in
      refuses d f.0
        (at_principal (sym (check_principal-passes agent q.task q.bench now) ∙ ap passes e) f.1)

  by_scope :
      (when : ℕ) (id : String) (now : ℕ) (db : Db F) (o : Option GatewayDecision)
      (rest : Result LedgerError GatewayDecision × Db F)
      → check_scope agent q.task q.requested_scope now ≡ o
      → is_clean ≡ true
      → (is_granted agent q.requested_scope ≡ true → Verdict when id db rest)
      → Verdict when id db (refuse_or F o db rest)
  unfolding refuse_or
  by_scope when id now db none rest e p k =
      k (sym (check_scope-passes agent q.task q.requested_scope now) ∙ ap passes e)
  by_scope when id now db (some d) rest e p k =
      let f = check_scope-refuses agent q.task q.requested_scope now d e in
      refuses d f.0
        (at_scope p (sym (check_scope-passes agent q.task q.requested_scope now) ∙ ap passes e) f.1)

  by_budget :
      (when : ℕ) (id : String) (now : ℕ) (db : Db F) (o : Option GatewayDecision)
      (rest : Result LedgerError GatewayDecision × Db F)
      → check_budget agent q.task q.requested_cost q.risk_class now ≡ o
      → is_clean ≡ true
      → is_granted agent q.requested_scope ≡ true
      → (IsAffordable agent q.requested_cost q.risk_class → Verdict when id db rest)
      → Verdict when id db (refuse_or F o db rest)
  unfolding refuse_or
  by_budget when id now db none rest e p s k =
      k ((check_budget-passes agent q.task q.requested_cost q.risk_class now).0 (ap passes e))
  by_budget when id now db (some d) rest e p s k =
      let f = check_budget-refuses agent q.task q.requested_cost q.risk_class now d e in
      refuses d f.0 (
        at_budget p s
          (λ a. false≢true (
            sym (ap passes e)
            ∙ (check_budget-passes agent q.task q.requested_cost q.risk_class now).1 a))
          f.1)

  -- On every request the gateway either delegates, and then all four checks held and exactly the
  -- cost was spent; or refuses at the first failing check, in the order principal, scope, budget,
  -- warrant, and leaves every collection as it was; or raises, for a negative cost in the registry
  -- alone, and leaves them as they were.
  pub evaluate_gateway-Verdict :
      (when : ℕ) (id : String) (now : ℕ) (db : Db F)
      → Verdict when id db (evaluate_gateway F agent q when id now db)
  unfolding evaluate_gateway
  evaluate_gateway-Verdict when id now db =
      by_principal when id now db (check_principal agent q.task q.bench now) _ refl λ p.
        by_scope when id now db (check_scope agent q.task q.requested_scope now) _ refl p λ s.
          by_budget when id now db (check_budget agent q.task q.requested_cost q.risk_class now) _
            refl p s
            λ b.
              conclude-Verdict when id now db
                (check_warrant F agent q.task q.risk_class q.capability q.case_id when id now db)
                (check_warrant-Warranted F agent q when id now db) p s b

  Verdict-leaves :
      (when : ℕ) (id : String) (db : Db F) {w : Result LedgerError GatewayDecision × Db F}
      → Verdict when id db w
      → (d : GatewayDecision) → w.0 ≡ ok d
      → d.allowed ≡ false
      → w.1 ≡ db
  Verdict-leaves when id db (delegates d' db' a c p s b sp) d e f =
      absurd (false≢true (sym f ∙ ground (arith, a)))
  Verdict-leaves when id db (refuses d' a c) d e f = refl
  Verdict-leaves when id db (raises x y) d e f = refl

  -- A refusal spends nothing and writes nothing, whichever check made it.
  pub refusal_leaves :
      (when : ℕ) (id : String) (now : ℕ) (db : Db F) (d : GatewayDecision)
      → (evaluate_gateway F agent q when id now db).0 ≡ ok d
      → d.allowed ≡ false
      → (evaluate_gateway F agent q when id now db).1 ≡ db
  refusal_leaves when id now db d e f =
      Verdict-leaves when id db (evaluate_gateway-Verdict when id now db) d e f

  IsSpent-cold :
      (when : ℕ) (id : String) (db db' : Db F)
      → events_of F db ≡ []
      → pos 1 ≤ℤ cost_of agent q.risk_class
      → IsSpent F agent q when id db db'
      → ⊥
  unfolding balance_at relevant sort_by replay left_after
  IsSpent-cold when id db db' e c (spent k n r cost cover d) =
      let c' : pos 1 ≤ℤ pos n = rw cost at c in let cover' = rw e at cover in omega arith

  Verdict-cold :
      (when : ℕ) (id : String) (db : Db F) {w : Result LedgerError GatewayDecision × Db F}
      → events_of F db ≡ []
      → pos 1 ≤ℤ cost_of agent q.risk_class
      → Verdict when id db w
      → (d : GatewayDecision) → w.0 ≡ ok d
      → d.allowed ≡ false
  Verdict-cold when id db h c (delegates d' db' a k p s b sp) d e =
      absurd (IsSpent-cold when id db db' h c sp)
  Verdict-cold when id db h c (refuses d' a k) d e = ground (arith, a)
  Verdict-cold when id db h c (raises x y) d e = cc

  -- With an empty ledger and a cost above zero no request is allowed, whatever the agent is granted.
  pub cold_start_refused :
      (when : ℕ) (id : String) (now : ℕ) (db : Db F) (d : GatewayDecision)
      → events_of F db ≡ []
      → pos 1 ≤ℤ cost_of agent q.risk_class
      → (evaluate_gateway F agent q when id now db).0 ≡ ok d
      → d.allowed ≡ false
  cold_start_refused when id now db d h c e =
      Verdict-cold when id db h c (evaluate_gateway-Verdict when id now db) d e
