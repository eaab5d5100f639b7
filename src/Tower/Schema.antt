-- ===== src/Tower/Schema.antt =====
-- tower/schema.py: the registry entry and the link of a decision chain.
use unwind.Base.{ℕ, String, Bool, true, false, Option, List}
use unwind.Base.Int.{ℤ}
use unwind.Base.Text.{Text}

pub data RegistryStatus : Type 0 where
  active suspended : RegistryStatus

-- `warrant` is a display snapshot that no operation here reads.
pub record AgentRegistryEntry : Type 0 where
  pub agent_id : String
  pub version : String
  pub capabilities : List String
  pub authority_scope : List String
  pub data_scope : List String
  pub tools : List String
  pub max_budget : ℤ
  pub risk_class_thresholds : List (String × ℤ)
  pub status : RegistryStatus
  pub principal : String
  pub warrant_mint_schedule : List (String × ℤ)
  pub warrant_spend_schedule : List (String × ℤ)
  pub registered_at : ℕ

unfoldable pub is_active : RegistryStatus → Bool
is_active RegistryStatus.active = true
is_active RegistryStatus.suspended = false

unfoldable pub is_eligible : AgentRegistryEntry → Bool
is_eligible agent = is_active agent.status

pub data MemoryEntryKind : Type 0 where
  case premise decision agent_action human_decision outcome consequence countersign :
      MemoryEntryKind

-- The keys of a payload that the ledger reads, as it reads them: `concurs`, `agrees` and
-- `simulated` by their truth, a missing key as false, and `family` as a text.
pub record Payload : Type 0 where
  pub concurs : Bool
  pub agrees : Bool
  pub family : Text
  pub simulated : Bool

pub record MemoryEntry : Type 0 where
  pub entry_id : String
  pub case_id : String
  pub kind : MemoryEntryKind
  pub payload : Payload
  pub parent_id : Option String
  pub seq : ℕ
  pub created_at : ℕ
