-- ===== src/Tower/Gateway.antt =====
-- tower/gateway.py: the four checks of a delegated task, in their fixed order, and the supervisor of
-- a worker. A reason keeps the values that the source's message interpolates. Of the clock, `when`
-- is the reading inside the spend and `now` the one stamped on the decision.
pub mod Checks
pub mod Covering
pub mod Delegation
use unwind.Base.{
  ℕ, String, Bool, true, false, not, ◌&&◌, ◌||◌, List, [], ◌∷◌, ◌++◌, Option, none, some, Result,
  ok, err, keep, contains, lookup, length, ltb, if◌then◌else◌,
}
use unwind.Base.Int.{ℤ, pos, ltb_ℤ}
use unwind.Base.Sorting.{sort_by}
use unwind.Principals.{SeparationError, assert_agent_is_distinct, text_le, distinct}
use unwind.Tower.Schema.{AgentRegistryEntry, RegistryStatus, is_active}
use unwind.Warrant.Store.{Firestore, Db}
use unwind.Warrant.Ledger.{LedgerError, SpendResult, spend_or_refuse}

pub data GatewayReasonCode : Type 0 where
  principal_violation scope_exceeded budget_exceeded warrant_insufficient worker_fault allowed :
      GatewayReasonCode

pub data Reason : Type 0 where
  not_active : RegistryStatus → Reason
  not_separate : SeparationError → Reason
  outside_scope : List String → List String → Reason
  above_max_budget : ℤ → ℤ → Reason
  above_class_ceiling : ℤ → String → ℤ → Reason
  capability_not_named : List String → Reason
  below_cost : ℕ → String → String → ℤ → Reason
  all_checks_passed : Reason
  above_step_ceiling : ℕ → ℕ → Reason
  not_structured : String → Reason

pub record GatewayDecision : Type 0 where
  pub allowed : Bool
  pub reason_code : GatewayReasonCode
  pub reason : Reason
  pub agent_id : String
  pub task : String
  pub checked_at : ℕ

-- Who else is on the bench of a task.
pub record BenchArgs : Type 0 where
  pub arbiter : Option String
  pub owners : List String
  pub assessor : Option String
  pub rederiver : Option String

pub record TaskRequest : Type 0 where
  pub task : String
  pub requested_scope : List String
  pub requested_cost : ℤ
  pub risk_class : String
  pub bench : BenchArgs
  pub capability : Option String
  pub case_id : Option String

abbrev pub refusal : GatewayReasonCode → Reason → String → String → ℕ → GatewayDecision
refusal code reason agent_id task now = record {
  allowed = false;
  reason_code = code;
  reason = reason;
  agent_id = agent_id;
  task = task;
  checked_at = now;
}

unfoldable pub check_principal :
    AgentRegistryEntry → String → BenchArgs → ℕ → Option GatewayDecision
check_principal agent task b now =
    if not (is_active agent.status)
    then some (
        refusal GatewayReasonCode.principal_violation (Reason.not_active agent.status)
          agent.agent_id task now)
    else elim (assert_agent_is_distinct agent.principal b.arbiter b.owners b.assessor b.rederiver) [
      | ok _ ↦ none
      | err e ↦ some (
          refusal GatewayReasonCode.principal_violation (Reason.not_separate e) agent.agent_id task
            now)
    ]

unfoldable pub missing_scope : AgentRegistryEntry → List String → List String
missing_scope agent requested =
    keep (λ s. not (contains s agent.authority_scope || contains s agent.data_scope)) requested

unfoldable pub granted_scope : AgentRegistryEntry → List String
granted_scope agent = sort_by text_le (distinct (agent.authority_scope ++ agent.data_scope))

unfoldable pub check_scope : AgentRegistryEntry → String → List String → ℕ → Option GatewayDecision
check_scope agent task requested_scope now = elim (missing_scope agent requested_scope) [
  | [] ↦ none
  | s ∷ rest ↦ some (
      refusal GatewayReasonCode.scope_exceeded
        (Reason.outside_scope (s ∷ rest) (granted_scope agent)) agent.agent_id task now)
]

unfoldable pub check_budget : AgentRegistryEntry → String → ℤ → String → ℕ → Option GatewayDecision
check_budget agent task requested_cost risk_class now =
    if ltb_ℤ agent.max_budget requested_cost
    then some (
        refusal GatewayReasonCode.budget_exceeded
          (Reason.above_max_budget requested_cost agent.max_budget) agent.agent_id task now)
    else elim (lookup risk_class agent.risk_class_thresholds) [
      | none ↦ none
      | some ceiling ↦
          if ltb_ℤ ceiling requested_cost
          then some (
              refusal GatewayReasonCode.budget_exceeded
                (Reason.above_class_ceiling requested_cost risk_class ceiling) agent.agent_id task
                now)
          else none
    ]

-- The capability that the task exercises: the named one, or the only one that is registered.
abbrev sole : List String → Option String
sole (capability ∷ []) = some capability
sole _ = none

unfoldable pub resolved_capability : AgentRegistryEntry → Option String → Option String
resolved_capability agent (some capability) = some capability
resolved_capability agent none = sole agent.capabilities

pub check_worker_fault : String → String → ℕ → Option String → ℕ → ℕ → Option GatewayDecision
check_worker_fault agent_id task step_count not_a_dict step_ceiling now =
    if ltb step_ceiling step_count
    then some (
        refusal GatewayReasonCode.worker_fault (Reason.above_step_ceiling step_count step_ceiling)
          agent_id task now)
    else elim not_a_dict [
      | none ↦ none
      | some type_name ↦ some (
          refusal GatewayReasonCode.worker_fault (Reason.not_structured type_name) agent_id task
            now)
    ]

abbrev pub default_step_ceiling : ℕ
default_step_ceiling = 8

abbrev pub Checked : Firestore → Type 0
Checked F = Result LedgerError (Option GatewayDecision) × Db F

module _ (F : Firestore) where
  -- The decision on a spend that was made or refused.
  unfoldable pub judge_spend :
      AgentRegistryEntry → String → String → String → ℕ → SpendResult → Option GatewayDecision
  judge_spend agent capability risk_class task now r =
      if r.allowed
      then none
      else some (
          refusal GatewayReasonCode.warrant_insufficient
            (Reason.below_cost r.balance_before capability risk_class r.cost_bp) agent.agent_id task
            now)

  unfoldable pub judged :
      AgentRegistryEntry
      → String
      → String
      → String
      → ℕ
      → Result LedgerError SpendResult × Db F
      → Checked F
  judged agent capability risk_class task now (ok r, db) =
      (ok (judge_spend agent capability risk_class task now r), db)
  judged agent capability risk_class task now (err e, db) = (err e, db)

  unfoldable pub check_warrant :
      AgentRegistryEntry
      → String
      → String
      → Option String
      → Option String
      → ℕ
      → String
      → ℕ
      → Db F
      → Checked F
  check_warrant agent task risk_class capability case_id when id now db =
      elim (resolved_capability agent capability) [
        | none ↦ (
          ok (
              some (
                refusal GatewayReasonCode.warrant_insufficient
                  (Reason.capability_not_named agent.capabilities) agent.agent_id task now)),
          db,
        )
        | some c ↦
            judged agent c risk_class task now
              (spend_or_refuse F agent c risk_class task case_id agent.principal when id db)
      ]

  pub allow : AgentRegistryEntry → String → ℕ → GatewayDecision
  allow agent task now = record {
    allowed = true;
    reason_code = GatewayReasonCode.allowed;
    reason = Reason.all_checks_passed;
    agent_id = agent.agent_id;
    task = task;
    checked_at = now;
  }

  unfoldable pub conclude :
      AgentRegistryEntry → String → ℕ → Checked F → Result LedgerError GatewayDecision × Db F
  unfolding allow
  conclude agent task now (ok (some d), db) = (ok d, db)
  conclude agent task now (ok none, db) = (ok (allow agent task now), db)
  conclude agent task now (err e, db) = (err e, db)

  -- `if decision is not None: return decision`
  unfoldable pub refuse_or :
      Option GatewayDecision
      → Db F
      → Result LedgerError GatewayDecision × Db F
      → Result LedgerError GatewayDecision × Db F
  refuse_or (some d) db rest = (ok d, db)
  refuse_or none db rest = rest

  -- The first refusal ends the loop over the checks.
  unfoldable pub evaluate_gateway :
      AgentRegistryEntry
      → TaskRequest
      → ℕ
      → String
      → ℕ
      → Db F
      → Result LedgerError GatewayDecision × Db F
  evaluate_gateway agent q when id now db =
      refuse_or (check_principal agent q.task q.bench now) db (
        refuse_or (check_scope agent q.task q.requested_scope now) db (
          refuse_or (check_budget agent q.task q.requested_cost q.risk_class now) db (
            conclude agent q.task now
              (check_warrant agent q.task q.risk_class q.capability q.case_id when id now db))))
