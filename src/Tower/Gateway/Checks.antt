-- ===== src/Tower/Gateway/Checks.antt =====
-- tower/gateway.py: when each check passes, in terms of the request and the registry entry.
use unwind.Base.{
  ℕ, String, ◌≡◌, ◌↔◌, refl, Bool, true, false, ◌&&◌, ◌||◌, List, [], ◌∷◌, Option, none, some,
  arith, contains, lookup, ◌≤◌, Option-cases, inl, inr,
}
use unwind.Base.Int.{ℤ, ◌≤ℤ◌}
use unwind.Principals.Separation.{
  is_ok, pairwise, none_in, holders_of, is_ok-assert_agent_is_distinct,
}
use unwind.Tower.Schema.{AgentRegistryEntry, is_active}
use unwind.Tower.Gateway.{
  BenchArgs, GatewayDecision, GatewayReasonCode, check_worker_fault, check_principal, check_scope,
  check_budget, missing_scope,
}

abbrev pub passes : Option GatewayDecision → Bool
passes none = true
passes (some d) = false

-- The principals of the agent and of the bench, role by role.
abbrev pub bench_of : AgentRegistryEntry → BenchArgs → List (List String)
bench_of agent b =
    (agent.principal ∷ [])
    ∷ holders_of b.arbiter
    ∷ b.owners
    ∷ holders_of b.assessor
    ∷ holders_of b.rederiver
    ∷ []

-- Every requested item is in one of the two scopes that the agent holds.
abbrev pub is_granted : AgentRegistryEntry → List String → Bool
is_granted agent [] = true
is_granted agent (s ∷ rest) =
    (contains s agent.authority_scope || contains s agent.data_scope) && is_granted agent rest

-- The cost is within the flat ceiling, and within that of its risk class where there is one.
pub record IsAffordable (agent : AgentRegistryEntry) (cost : ℤ) (risk_class : String) : Type 0 where
  pub flat : cost ≤ℤ agent.max_budget
  pub by_class :
      (ceiling : ℤ) → lookup risk_class agent.risk_class_thresholds ≡ some ceiling → cost ≤ℤ ceiling

-- The first check passes exactly when the agent is active and no two roles of the task's bench, the
-- agent's own among them, share a principal.
pub check_principal-passes :
    (agent : AgentRegistryEntry) (task : String) (b : BenchArgs) (now : ℕ)
    → passes (check_principal agent task b now)
      ≡ (is_active agent.status && pairwise none_in (bench_of agent b))
unfolding check_principal is_ok
check_principal-passes agent task b now = ground (
  arith,
  is_ok-assert_agent_is_distinct agent.principal b.arbiter b.owners b.assessor b.rederiver,
)

-- The second check passes exactly when every requested item is granted.
pub check_scope-passes :
    (agent : AgentRegistryEntry) (task : String) (requested : List String) (now : ℕ)
    → passes (check_scope agent task requested now) ≡ is_granted agent requested
unfolding check_scope missing_scope
check_scope-passes agent task [] now = refl
check_scope-passes agent task (s ∷ rest) now =
    ground (arith, check_scope-passes agent task rest now)

-- The third check passes exactly when the cost is within both ceilings.
pub check_budget-passes :
    (agent : AgentRegistryEntry) (task : String) (cost : ℤ) (risk_class : String) (now : ℕ)
    → (passes (check_budget agent task cost risk_class now) ≡ true)
      ↔ IsAffordable agent cost risk_class
unfolding check_budget
check_budget-passes agent task cost risk_class now = (
  λ h. record { flat = ground arith; by_class = λ ceiling e. ground arith },
  λ a. elim (Option-cases (lookup risk_class agent.risk_class_thresholds)) [
    | inl e ↦ ground (arith, a.flat)
    | inr (ceiling, e) ↦ ground (arith, a.flat, a.by_class ceiling)
  ],
)

-- Every refusal of the three says so.
pub check_principal-refuses :
    (agent : AgentRegistryEntry) (task : String) (b : BenchArgs) (now : ℕ) (d : GatewayDecision)
    → check_principal agent task b now ≡ some d
    → (d.allowed ≡ false) × (d.reason_code ≡ GatewayReasonCode.principal_violation)
unfolding check_principal
check_principal-refuses agent task b now d h = ground arith

pub check_scope-refuses :
    (agent : AgentRegistryEntry) (task : String) (requested : List String) (now : ℕ)
    (d : GatewayDecision)
    → check_scope agent task requested now ≡ some d
    → (d.allowed ≡ false) × (d.reason_code ≡ GatewayReasonCode.scope_exceeded)
unfolding check_scope
check_scope-refuses agent task requested now d h = ground arith

pub check_budget-refuses :
    (agent : AgentRegistryEntry) (task : String) (cost : ℤ) (risk_class : String) (now : ℕ)
    (d : GatewayDecision)
    → check_budget agent task cost risk_class now ≡ some d
    → (d.allowed ≡ false) × (d.reason_code ≡ GatewayReasonCode.budget_exceeded)
unfolding check_budget
check_budget-refuses agent task cost risk_class now d h = ground arith

-- The supervisor passes a worker exactly when it stayed within its ceiling and returned a
-- structured result; otherwise it refuses with the one reason code for a faulty worker.
pub check_worker_fault-passes :
    (agent_id task : String) (step_count : ℕ) (not_a_dict : Option String) (step_ceiling now : ℕ)
    → ((check_worker_fault agent_id task step_count not_a_dict step_ceiling now ≡ none)
        ↔ ((step_count ≤ step_ceiling) × (not_a_dict ≡ none)))
      × ((d : GatewayDecision)
          → check_worker_fault agent_id task step_count not_a_dict step_ceiling now ≡ some d
          → (d.allowed ≡ false) × (d.reason_code ≡ GatewayReasonCode.worker_fault))
unfolding check_worker_fault
check_worker_fault-passes agent_id task step_count not_a_dict step_ceiling now =
    ((λ h. ground arith, λ h. ground arith), λ d h. ground arith)
