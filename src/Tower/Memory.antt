-- ===== src/Tower/Memory.antt =====
-- tower/memory.py: the append-only chain of a case, and the two writers of warrant/ledger.py that append
-- to it. A collection is the list of its documents, the text of a new entry's id and the clock are
-- arguments, and one writer's turn is a whole step.
pub mod Chain
mod Tests
use unwind.Base.{
  ℕ, ◌+◌, String, Bool, true, false, List, [], ◌∷◌, ◌++◌, Option, none, some, if◌then◌else◌, keep,
  find, leb, lookup, text_eq,
}
use unwind.Base.Text.{Text}
use unwind.Base.Dict.{put}
use unwind.Base.Sorting.{sort_by}
use unwind.Tower.Schema.{MemoryEntry, MemoryEntryKind, Payload}

pub record Memory : Type 0 where
  pub counters : List (String × ℕ)
  pub entries : List MemoryEntry

-- `current or 0`
pub count_of : Option ℕ → ℕ
count_of none = 0
count_of (some n) = n

unfoldable pub counter_of : Memory → String → ℕ
counter_of m case_id = count_of (lookup case_id m.counters)

-- `_next_seq`: the number before the increment.
unfoldable pub next_seq : String → Memory → ℕ × Memory
next_seq case_id m =
    let current = counter_of m case_id in
    (current, record { counters = put case_id (current + 1) m.counters; entries = m.entries })

abbrev pub entry_of :
    String → String → MemoryEntryKind → Payload → Option String → ℕ → ℕ → MemoryEntry
entry_of entry_id case_id kind payload parent_id seq now = record {
  entry_id = entry_id;
  case_id = case_id;
  kind = kind;
  payload = payload;
  parent_id = parent_id;
  seq = seq;
  created_at = now;
}

-- `document(entry_id).set(...)`: a document of that id is replaced.
unfoldable pub set_entry : MemoryEntry → List MemoryEntry → List MemoryEntry
set_entry e [] = e ∷ []
set_entry e (d ∷ es) =
    let rest = set_entry e es in if text_eq d.entry_id e.entry_id then e ∷ es else d ∷ rest

-- `write_entry`, with the id that its case and number are formatted to.
pub write_entry :
    (String → ℕ → String)
    → String
    → MemoryEntryKind
    → Payload
    → Option String
    → ℕ
    → Memory
    → MemoryEntry × Memory
write_entry entry_id case_id kind payload parent_id now m =
    let numbered = next_seq case_id m in
    let entry =
      entry_of (entry_id case_id numbered.0) case_id kind payload parent_id numbered.0 now in
    (entry, record { counters = numbered.1.counters; entries = set_entry entry numbered.1.entries })

unfoldable pub get_entry : String → Memory → Option MemoryEntry
get_entry entry_id m = find (λ e. text_eq e.entry_id entry_id) m.entries

-- `order_by("seq")`
abbrev pub seq_le : MemoryEntry → MemoryEntry → Bool
seq_le a b = leb a.seq b.seq

pub get_case_chain : String → Memory → List MemoryEntry
get_case_chain case_id m = sort_by seq_le (keep (λ e. text_eq e.case_id case_id) m.entries)

abbrev pub concurring : Payload
concurring = record { concurs = true; agrees = false; family = []; simulated = false }

-- `record_human_concurrence` of warrant/ledger.py
pub record_human_concurrence : (String → ℕ → String) → String → Option String → ℕ → Memory → Memory
record_human_concurrence entry_id case_id parent_id now m =
    (write_entry entry_id case_id MemoryEntryKind.human_decision concurring parent_id now m).1

-- `record_countersign` of warrant/ledger.py
pub record_countersign :
    (String → ℕ → String) → String → Bool → Text → Bool → Option String → ℕ → Memory → Memory
record_countersign entry_id case_id agrees family simulated parent_id now m =
    (write_entry entry_id case_id MemoryEntryKind.countersign
      (record { concurs = false; agrees = agrees; family = family; simulated = simulated })
      parent_id now m).1
