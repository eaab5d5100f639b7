-- ===== src/Warrant/Store.antt =====
-- The Firestore collections that warrant/ledger.py reads and writes: the ledger, the sequence
-- counters, and decision memory. Firestore is not part of the repository: it is a parameter, with
-- what the ledger relies on as laws.
use unwind.Base.{
  ℕ, ◌+◌, String, ◌≡◌, Bool, false, List, Option, none, some, any, text_eq, Inserted, if◌then◌else◌,
}
use unwind.Tower.Schema.{MemoryEntry}
use unwind.Warrant.Event.{WarrantEvent}

unfoldable pub has_event_id : String → List WarrantEvent → Bool
has_event_id id es = any (λ e. text_eq e.event_id id) es

-- A collection is streamed in an order of the store's own. A document that is set under a new id is
-- streamed from then on, beside the documents of before, which do not change.
pub record Firestore : Type 1 where
  pub Events : Type 0
  pub stream : Events → List WarrantEvent
  pub set_event : WarrantEvent → Events → Events
  pub stream-set_event :
      (e : WarrantEvent) (c : Events)
      → has_event_id e.event_id (stream c) ≡ false
      → Inserted e (stream c) (stream (set_event e c))
  pub Counters : Type 0
  pub get_counter : Counters → String → Option ℕ
  pub set_counter : String → ℕ → Counters → Counters
  pub get_counter-set_counter :
      (p q : String) (n : ℕ) (c : Counters)
      → get_counter (set_counter p n c) q ≡ (if text_eq p q then some n else get_counter c q)
  pub Memory : Type 0
  pub chain : Memory → String → List MemoryEntry

module _ (F : Firestore) where
  -- The collections are independent of one another.
  pub record Db : Type 0 where
    pub ledger : F.Events
    pub counters : F.Counters
    pub memory : F.Memory

  abbrev pub events_of : Db → List WarrantEvent
  events_of db = F.stream db.ledger

  -- `(snap.get("next_seq") if snap.exists else 0) or 0`
  unfoldable pub counter_of : Db → String → ℕ
  counter_of db principal = elim (F.get_counter db.counters principal) [ none ↦ 0 | some n ↦ n ]

  unfoldable pub next_seq : String → Db → ℕ × Db
  next_seq principal db =
      let current = counter_of db principal in
      (current, record db { counters = F.set_counter principal (current + 1) db.counters })
