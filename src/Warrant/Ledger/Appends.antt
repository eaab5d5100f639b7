-- ===== src/Warrant/Ledger/Appends.antt =====
-- warrant/ledger.py: what appending does to the collections, and the invariant of the sequence
-- numbers that every append keeps.
use unwind.Base.{
  ℕ, ◌+◌, ◌<◌, String, ◌≡◌, refl, ap, true, false, List, [], ◌∷◌, arith, All, All-Inserted,
  Inserted, text_eq, text_eq_iff, if◌then◌else◌,
}
use unwind.Warrant.Event.{WarrantEvent, event_le}
use unwind.Warrant.Fold.{Key, has_key, is_relevant, apply_event}
use unwind.Warrant.Fold.Total.{balance_at}
use unwind.Warrant.Fold.Laws.{IsNewest, balance_at-newest}
use unwind.Warrant.Store.{Firestore, Db, events_of, has_event_id, counter_of, next_seq}
use unwind.Warrant.Ledger.{append}

-- An event with a higher number and no earlier time sorts last.
newer :
    (k : Key) (e : WarrantEvent) (n : ℕ) (x : WarrantEvent)
    → is_relevant k e.at x ≡ true
    → (is_relevant k e.at x ≡ true → x.seq < n)
    → (event_le x (record e { seq = n }) ≡ true) × (event_le (record e { seq = n }) x ≡ false)
unfolding event_le is_relevant
newer k e n x r below = ground (arith, below r)

module _ (F : Firestore) where
  -- Every event was numbered below the counter of its principal.
  abbrev pub IsSequenced : Db F → Type 0
  IsSequenced db = All (λ e. e.seq < counter_of F db e.principal) (events_of F db)

  -- The id is new in the ledger.
  abbrev pub IsFresh : String → Db F → Type 0
  IsFresh id db = has_event_id id (events_of F db) ≡ false

  pub append-Inserted :
      (e : WarrantEvent) (db : Db F)
      → IsFresh e.event_id db
      → Inserted (append F e db).0 (events_of F db) (events_of F (append F e db).1)
  unfolding append next_seq
  append-Inserted e db fresh =
      F.stream-set_event (record e { seq = counter_of F db e.principal }) db.ledger fresh

  pub seq-append :
      (e : WarrantEvent) (db : Db F) → (append F e db).0.seq ≡ counter_of F db e.principal
  unfolding append next_seq
  seq-append e db = refl

  pub counter_of-append :
      (e : WarrantEvent) (db : Db F) (p : String)
      → counter_of F (append F e db).1 p
        ≡ (if text_eq e.principal p then counter_of F db e.principal + 1 else counter_of F db p)
  unfolding append next_seq counter_of
  counter_of-append e db p =
      ground (
        arith,
        F.get_counter-set_counter e.principal p (counter_of F db e.principal + 1) db.counters,
      )

  -- Numbers below the counters stay below them when a counter grows.
  All-seq-append :
      (e : WarrantEvent) (db : Db F) (xs : List WarrantEvent)
      → All (λ x. x.seq < counter_of F db x.principal) xs
      → All (λ x. x.seq < counter_of F (append F e db).1 x.principal) xs
  All-seq-append e db [] h = tt
  All-seq-append e db (x ∷ xs) h = (
    ground (
      arith,
      h.0,
      counter_of-append e db x.principal,
      text_eq_iff e.principal x.principal,
      ap (counter_of F db) {x = e.principal} {y = x.principal},
    ),
    All-seq-append e db xs h.1,
  )

  -- All but the sequence number is as it was drafted.
  kept_by_append : (e : WarrantEvent) (db : Db F) → (append F e db).0.principal ≡ e.principal
  unfolding append next_seq
  kept_by_append e db = refl

  relevant_by_append :
      (k : Key) (e : WarrantEvent) (db : Db F)
      → is_relevant k e.at e ≡ true
      → is_relevant k (append F e db).0.at (append F e db).0 ≡ true
  unfolding append next_seq is_relevant has_key
  relevant_by_append k e db r = r

  -- Appending an event with a fresh id keeps every event of the ledger numbered below the counter of
  -- its principal.
  pub append-IsSequenced :
      (e : WarrantEvent) (db : Db F)
      → IsFresh e.event_id db
      → IsSequenced db
      → IsSequenced (append F e db).1
  append-IsSequenced e db fresh h =
      All-Inserted (λ x. x.seq < counter_of F (append F e db).1 x.principal)
        (append-Inserted e db fresh) numbered (All-seq-append e db (events_of F db) h)
    where
      numbered : (append F e db).0.seq < counter_of F (append F e db).1 (append F e db).0.principal
      numbered =
          rw (seq-append e db, kept_by_append e db, counter_of-append e db e.principal)
            (ground (arith, text_eq_iff e.principal e.principal))

  sequenced-IsNewest :
      (k : Key) (e : WarrantEvent) (db : Db F) (xs : List WarrantEvent)
      → e.principal ≡ k.principal
      → All (λ x. x.seq < counter_of F db x.principal) xs
      → IsNewest k e.at (append F e db).0 xs
  unfolding append next_seq event_le is_relevant has_key
  sequenced-IsNewest k e db [] p h = tt
  sequenced-IsNewest k e db (x ∷ xs) p h = (
    λ r. newer k e (counter_of F db e.principal) x r (λ r'. ground (
      arith,
      h.0,
      p,
      text_eq_iff x.principal k.principal,
      ap (counter_of F db) {x = x.principal} {y = e.principal},
    )),
    sequenced-IsNewest k e db xs p h.1,
  )

  -- In a ledger numbered below its counters, appending an event with a fresh id that is folded into a
  -- balance of its principal acts on that balance at once: a reading at the event's own time is the
  -- balance of just before it with the event applied.
  pub append_acts :
      (k : Key) (e : WarrantEvent) (db : Db F)
      → IsFresh e.event_id db
      → IsSequenced db
      → e.principal ≡ k.principal
      → is_relevant k e.at e ≡ true
      → balance_at (events_of F (append F e db).1) k e.at
        ≡ apply_event e.kind e.amount_bp (balance_at (events_of F db) k e.at)
  unfolding append
  append_acts k e db fresh h p r =
      balance_at-newest k (append F e db).0 (append-Inserted e db fresh)
        (relevant_by_append k e db r) (sequenced-IsNewest k e db (events_of F db) p h)
