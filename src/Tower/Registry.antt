-- ===== src/Tower/Registry.antt =====
-- tower/registry.py: registering an agent, and the eligible agents of a capability. The collection
-- is a list of documents; setting one replaces the document of its id.
use unwind.Base.{
  String, ◌≡◌, Bool, true, ◌&&◌, List, [], ◌∷◌, Option, none, some, Result, ok, err, keep, find,
  contains, text_eq, text_eq_iff, if◌then◌else◌, arith, All, All-keep,
}
use unwind.Base.Sorting.{sort_by, All-sort_by}
use unwind.Principals.{SeparationError, assert_agent_is_distinct, text_le}
use unwind.Principals.Separation.{is_ok, is_ok-assert_agent_is_distinct}
use unwind.Tower.Schema.{AgentRegistryEntry, is_eligible}

set_agent : AgentRegistryEntry → List AgentRegistryEntry → List AgentRegistryEntry
set_agent entry [] = entry ∷ []
set_agent entry (a ∷ rest) =
    let later = set_agent entry rest in
    if text_eq a.agent_id entry.agent_id then entry ∷ rest else a ∷ later

pub get_agent : String → List AgentRegistryEntry → Option AgentRegistryEntry
get_agent agent_id agents = find (λ a. text_eq a.agent_id agent_id) agents

pub put_agent :
    AgentRegistryEntry
    → List AgentRegistryEntry
    → Result SeparationError (Unit {0}) × List AgentRegistryEntry
put_agent entry agents = elim (assert_agent_is_distinct entry.principal none [] none none) [
  | ok _ ↦ (ok tt, set_agent entry agents)
  | err e ↦ (err e, agents)
]

unfoldable pub agent_le : AgentRegistryEntry → AgentRegistryEntry → Bool
agent_le a b = text_le a.agent_id b.agent_id

pub list_eligible_agents : List AgentRegistryEntry → String → List AgentRegistryEntry
list_eligible_agents agents capability =
    sort_by agent_le (keep (λ a. is_eligible a && contains capability a.capabilities) agents)

get-set :
    (entry : AgentRegistryEntry) (agents : List AgentRegistryEntry)
    → get_agent entry.agent_id (set_agent entry agents) ≡ some entry
unfolding get_agent set_agent
get-set entry [] = ground (arith, text_eq_iff entry.agent_id entry.agent_id)
get-set entry (a ∷ rest) =
    ground (arith, text_eq_iff entry.agent_id entry.agent_id, get-set entry rest)

-- Registering never raises, whatever principal the entry claims: its bench holds the agent alone.
-- The entry is then the one read back under its id.
pub put_agent-never_raises :
    (entry : AgentRegistryEntry) (agents : List AgentRegistryEntry)
    → (is_ok (put_agent entry agents).0 ≡ true)
      × (get_agent entry.agent_id (put_agent entry agents).1 ≡ some entry)
unfolding put_agent is_ok
put_agent-never_raises entry agents =
    ground (
      arith,
      is_ok-assert_agent_is_distinct entry.principal none [] none none,
      get-set entry agents,
    )

-- Only an active agent that registers the capability is eligible for it.
pub list_eligible_agents-eligible :
    (agents : List AgentRegistryEntry) (capability : String)
    → All
        (λ a. (is_eligible a ≡ true) × (contains capability a.capabilities ≡ true))
        (list_eligible_agents agents capability)
unfolding list_eligible_agents
list_eligible_agents-eligible agents capability =
    All-sort_by agent_le _ _ (All-keep _ _ agents (λ a h. ground (arith, h)))
