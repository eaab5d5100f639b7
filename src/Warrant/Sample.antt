-- ===== src/Warrant/Sample.antt =====
-- A Firestore of lists, an agent and a case: concrete data for the modules that test the ledger and
-- the gateway.
use unwind.Base.{
  ℕ, String, refl, true, false, List, [], ◌∷◌, none, some, keep, lookup, between, text_eq,
  text_eq_iff, arith,
}
use unwind.Base.Int.{pos}
use unwind.Base.Text.{codes}
use unwind.Simulation.{Environ}
use unwind.Tower.Schema.{AgentRegistryEntry, RegistryStatus, MemoryEntryKind, MemoryEntry}
use unwind.Warrant.Event.{EventKind, Provenance, WarrantEvent}
use unwind.Warrant.Fold.{Key}
use unwind.Warrant.Store.{Firestore, Db}
use unwind.Warrant.Ledger.{key_of, draft}

abbrev pub list_store : Firestore
list_store = record {
  Events = List WarrantEvent;
  stream = λ c. c;
  set_event = λ e c. e ∷ c;
  stream-set_event = λ e c h. between [] c refl refl;
  Counters = List (String × ℕ);
  get_counter = λ c p. lookup p c;
  set_counter = λ p n c. (p, n) ∷ c;
  get_counter-set_counter = λ p q n c. ground (arith, text_eq_iff p q, text_eq_iff q p);
  Memory = List MemoryEntry;
  chain = λ m case_id. keep (λ x. text_eq x.case_id case_id) m;
}

abbrev pub agent : AgentRegistryEntry
agent = record {
  agent_id = "refunds-agent";
  version = "1";
  capabilities = "refund" ∷ [];
  authority_scope = "refunds" ∷ [];
  data_scope = "orders" ∷ [];
  tools = [];
  max_budget = pos 500;
  risk_class_thresholds = ("low", pos 100) ∷ [];
  status = RegistryStatus.active;
  principal = "agent:refunds";
  warrant_mint_schedule = ("low", pos 300) ∷ [];
  warrant_spend_schedule = ("low", pos 50) ∷ [];
  registered_at = 0;
}

abbrev pub key : Key
key = key_of agent "refund" "low"

-- One day, in microseconds.
abbrev pub day : ℕ
day = 86400000000

abbrev pub minted_event : WarrantEvent
minted_event = draft "w-0" key EventKind.mint 300 Provenance.earned (some "case-1") "concurred" day

abbrev pub entry : MemoryEntryKind → MemoryEntry
entry kind = record {
  entry_id = "m";
  case_id = "case-2";
  kind = kind;
  payload = record {
    concurs = true;
    agrees = true;
    family = codes "mistral-7b";
    simulated = false;
  };
  parent_id = none;
  seq = 0;
  created_at = 0;
}

-- A case with a human concurrence and a countersign.
abbrev pub chain : List MemoryEntry
chain = entry MemoryEntryKind.human_decision ∷ entry MemoryEntryKind.countersign ∷ []

abbrev pub empty_db : Db list_store
empty_db = record { ledger = []; counters = []; memory = chain }

-- One mint has been made.
abbrev pub funded_db : Db list_store
funded_db = record {
  ledger = minted_event ∷ [];
  counters = ("agent:refunds", 1) ∷ [];
  memory = chain;
}

abbrev pub no_environ : Environ
no_environ = []
