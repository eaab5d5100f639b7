-- ===== src/Tower/Gateway/Covering.antt =====
-- tower/gateway.py: what `check_warrant` can do, as a relation that the whole gateway refers to.
use unwind.Base.{ℕ, ◌≤◌, ◌<◌, String, ◌≡◌, refl, false, Option, none, some, ok, err, arith}
use native.Mathlib.Decide.{dec_le}
use unwind.Base.Int.{ℤ, pos, negsuc}
use unwind.Tower.Schema.{AgentRegistryEntry}
use unwind.Warrant.Fold.Total.{balance_at}
use unwind.Warrant.Store.{Firestore, Db, events_of}
use unwind.Warrant.Ledger.{LedgerError, key_of, append, spend_or_refuse}
use unwind.Warrant.Ledger.Spending.{
  cost_of, spend_draft, spend_or_refuse_covered, spend_or_refuse-refuses,
  spend_or_refuse-negative_cost,
}
use unwind.Tower.Gateway.{
  GatewayDecision, GatewayReasonCode, TaskRequest, Checked, resolved_capability, judge_spend,
  judged, check_warrant,
}

module _ (F : Firestore) (agent : AgentRegistryEntry) (q : TaskRequest) where
  -- The warrant check passed: the balance of the resolved capability covered the cost, and the
  -- collections are those after the spend.
  pub data IsSpent (when : ℕ) (id : String) (db db' : Db F) : Type 0 where
    spent :
        (capability : String) (n : ℕ)
        → resolved_capability agent q.capability ≡ some capability
        → cost_of agent q.risk_class ≡ pos n
        → n ≤ balance_at (events_of F db) (key_of agent capability q.risk_class) when
        → db'
          ≡ (append F (spend_draft agent capability q.risk_class q.task q.case_id when id n) db).1
        → IsSpent when id db db'

  -- The warrant check fails: no capability is resolved, or its balance is below the cost.
  pub data IsUncovered (when : ℕ) (db : Db F) : Type 0 where
    unnamed : resolved_capability agent q.capability ≡ none → IsUncovered when db
    short :
        (capability : String) (n : ℕ)
        → resolved_capability agent q.capability ≡ some capability
        → cost_of agent q.risk_class ≡ pos n
        → balance_at (events_of F db) (key_of agent capability q.risk_class) when < n
        → IsUncovered when db

  -- The registry's cost is negative, and is the one that is raised.
  pub data IsNegativeCost (e : LedgerError) : Type 0 where
    negative_cost :
        (m : ℕ)
        → cost_of agent q.risk_class ≡ negsuc m
        → e ≡ LedgerError.negative_amount (negsuc m)
        → IsNegativeCost e

  -- What the warrant check can do.
  pub data Warranted (when : ℕ) (id : String) (now : ℕ) (db : Db F) : Checked F → Type 0 where
    passed : (db' : Db F) → IsSpent when id db db' → Warranted when id now db (ok none, db')
    refused :
        (d : GatewayDecision)
        → d.allowed ≡ false
        → d.reason_code ≡ GatewayReasonCode.warrant_insufficient
        → IsUncovered when db
        → Warranted when id now db (ok (some d), db)
    raised : (e : LedgerError) → IsNegativeCost e → Warranted when id now db (err e, db)

  pub check_warrant-Warranted :
      (when : ℕ) (id : String) (now : ℕ) (db : Db F)
      → Warranted when id now db
          (check_warrant F agent q.task q.risk_class q.capability q.case_id when id now db)
  unfolding check_warrant
  check_warrant-Warranted when id now db =
      by_capability (resolved_capability agent q.capability) refl
    where
      call : Checked F
      call = check_warrant F agent q.task q.risk_class q.capability q.case_id when id now db

      by_cost :
          (c : String) (v : ℤ)
          → resolved_capability agent q.capability ≡ some c
          → cost_of agent q.risk_class ≡ v
          → Warranted when id now db (
              judged F agent c q.risk_class q.task now (
                spend_or_refuse F agent c q.risk_class q.task q.case_id agent.principal when id db))
      by_cost c (negsuc m) r k =
          rw (spend_or_refuse-negative_cost F agent c q.risk_class q.task q.case_id when id db m k)
            (unfold judged in raised _ (negative_cost m k refl))
      by_cost c (pos n) r k =
          elim (dec_le n (balance_at (events_of F db) (key_of agent c q.risk_class) when)) [
            | yes cover ↦
                rw
                  (spend_or_refuse_covered F agent c q.risk_class q.task q.case_id when id db n k
                    cover)
                  (unfold judged judge_spend in passed _ (spent c n r k cover refl))
            | no lacks ↦
                rw
                  (spend_or_refuse-refuses F agent c q.risk_class q.task q.case_id when id db n k
                    (omega arith))
                  (unfold judged judge_spend in refused _ refl refl (short c n r k (omega arith)))
          ]

      by_capability :
          (o : Option String)
          → resolved_capability agent q.capability ≡ o
          → Warranted when id now db call
      by_capability none r =
          unfold check_warrant in rw (r, check_warrant) (refused _ refl refl (unnamed r))
      by_capability (some c) r =
          rw (r, check_warrant) (by_cost c (cost_of agent q.risk_class) r refl)
