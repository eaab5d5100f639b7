-- ===== src/Tower/Tests.antt =====
-- The theorems on tower/gateway.py and tower/registry.py at concrete requests.
use unwind.Base.{String, ◌≡◌, refl, List, [], ◌∷◌, Option, none, some, ok, text_eq}
use unwind.Base.Int.{pos}
use unwind.Principals.Roles.{role_value}
use unwind.Principals.{
  assert_agent_is_distinct, optional_role, owners_role, assert_separate_principals, is_held,
  role_le, text_le, check_pairs, check_against, shared_by, assert_warrant_access,
}
use unwind.Base.Sorting.{sort_by, insert_by}
use unwind.Tower.Schema.{AgentRegistryEntry, RegistryStatus, is_active}
use unwind.Tower.Gateway.{
  GatewayReasonCode, GatewayDecision, BenchArgs, TaskRequest, check_principal, check_scope,
  check_budget, evaluate_gateway, refusal, Reason, refuse_or, missing_scope, check_warrant,
  resolved_capability, conclude, judged, judge_spend,
}
use unwind.Tower.Gateway.Delegation.{Verdict, evaluate_gateway-Verdict}
use unwind.Warrant.Ledger.{get_or_default, spend_or_refuse, current_balance, read_events}
use unwind.Warrant.Fold.{fold_balance, relevant, fold_events, decay_since}
use unwind.Warrant.Sample.{list_store, agent, day, empty_db, funded_db}

abbrev bench : BenchArgs
bench = record {
  arbiter = some "user:ann";
  owners = "user:bob" ∷ [];
  assessor = none;
  rederiver = none;
}

abbrev request : List String → TaskRequest
request scope = record {
  task = "refund order 7";
  requested_scope = scope;
  requested_cost = pos 40;
  risk_class = "low";
  bench = bench;
  capability = none;
  case_id = none;
}

abbrev no_fault : Option String
no_fault = none

evaluate_gateway-Verdict_example :
    Verdict list_store agent
      (request ("orders" ∷ []))
      day
      "w-1"
      funded_db
      (evaluate_gateway list_store agent (request ("orders" ∷ [])) day "w-1" day funded_db)
evaluate_gateway-Verdict_example =
    evaluate_gateway-Verdict list_store agent (request ("orders" ∷ [])) day "w-1" day funded_db

abbrev suspended : AgentRegistryEntry
suspended = record agent { status = RegistryStatus.suspended }

abbrev suspended_refusal : GatewayDecision
suspended_refusal =
    refusal GatewayReasonCode.principal_violation (Reason.not_active RegistryStatus.suspended)
      "refunds-agent" "refund order 7" day

suspended_call :
    (evaluate_gateway list_store suspended (request ("orders" ∷ [])) day "w-1" day funded_db).0
    ≡ ok suspended_refusal
unfolding evaluate_gateway check_principal is_active refuse_or
suspended_call = refl

abbrev cold_refusal : GatewayDecision
cold_refusal =
    refusal GatewayReasonCode.warrant_insufficient (Reason.below_cost 0 "refund" "low" (pos 50))
      "refunds-agent" "refund order 7" day

cold_call :
    (evaluate_gateway list_store agent (request ("orders" ∷ [])) day "w-1" day empty_db).0
    ≡ ok cold_refusal
unfolding evaluate_gateway check_principal is_active refuse_or assert_agent_is_distinct
    optional_role owners_role assert_separate_principals is_held sort_by insert_by role_le
    role_value text_le check_pairs check_against shared_by text_eq check_scope missing_scope
    check_budget check_warrant resolved_capability spend_or_refuse assert_warrant_access
    current_balance fold_balance relevant read_events fold_events decay_since get_or_default
    conclude judged judge_spend
cold_call = refl
