-- ===== src/Warrant/Ledger/Solvency.antt =====
-- warrant/ledger.py: over any history of the ledger's operations, what was spent and what is left is
-- covered by what was minted.
use unwind.Base.{
  ℕ, ◌+◌, ◌-◌, ◌≤◌, ◌≡◌, refl, ◌∙◌, true, List, [], ◌∷◌, ◌++◌, Option, none, some, text_eq_iff,
  arith, All, All-Inserted, keep, Inserted, between, if◌then◌else◌, Bool-cases, inl, inr,
}
use unwind.Base.Sorting.{sort_by}
use unwind.Warrant.Event.{EventKind, WarrantEvent, event_le, date}
use unwind.Warrant.Decay.Rounding.{decayed_antitone}
use unwind.Warrant.Fold.{Key, is_relevant, has_key, relevant, apply_event}
use unwind.Warrant.Fold.Total.{balance_at, left_after, replay, date_mono}
use unwind.Warrant.Fold.Laws.{balance_at-other}
use unwind.Warrant.Store.{Firestore, Db, events_of}
use unwind.Warrant.Ledger.{append}
use unwind.Warrant.Ledger.Appends.{
  IsFresh, IsSequenced, append-Inserted, append-IsSequenced, append_acts,
}
use unwind.Warrant.Ledger.Outcomes.{Outcome, unchanged, adds, IsCovered}
use unwind.Warrant.Ledger.History.{Step-Outcome, History, begins, then_step}

abbrev pub credit : WarrantEvent → ℕ
credit e = elim e.kind [ EventKind.mint ↦ e.amount_bp | _ ↦ 0 ]

abbrev pub debit : WarrantEvent → ℕ
debit e = elim e.kind [ EventKind.spend ↦ e.amount_bp | _ ↦ 0 ]

-- The sum of an amount over the events of a balance up to `as_of`.
pub total : (WarrantEvent → ℕ) → List WarrantEvent → Key → ℕ → ℕ
total f [] k as_of = 0
total f (e ∷ es) k as_of = (if is_relevant k as_of e then f e else 0) + total f es k as_of

total-middle :
    (f : WarrantEvent → ℕ) (x : WarrantEvent) (pre post : List WarrantEvent) (k : Key) (t : ℕ)
    → total f (pre ++ x ∷ post) k t
      ≡ (if is_relevant k t x then f x else 0) + total f (pre ++ post) k t
unfolding total
total-middle f x [] post k t = refl
total-middle f x (y ∷ pre) post k t = omega (arith, total-middle f x pre post k t)

total-Inserted :
    (f : WarrantEvent → ℕ) (x : WarrantEvent) {es es' : List WarrantEvent} (k : Key) (t : ℕ)
    → Inserted x es es'
    → total f es' k t ≡ (if is_relevant k t x then f x else 0) + total f es k t
total-Inserted f x k t (between pre post e e') = rw (e, e') (total-middle f x pre post k t)

-- With no event after `t`, a later reading counts the same events.
is_relevant-later :
    (k : Key) (t u : ℕ) (e : WarrantEvent)
    → e.at ≤ t
    → t ≤ u
    → is_relevant k u e ≡ is_relevant k t e
unfolding is_relevant
is_relevant-later k t u e h le = ground arith

total-later :
    (f : WarrantEvent → ℕ) (es : List WarrantEvent) (k : Key) (t u : ℕ)
    → All (λ e. e.at ≤ t) es
    → t ≤ u
    → total f es k u ≡ total f es k t
unfolding total
total-later f [] k t u a le = refl
total-later f (e ∷ es) k t u a le =
    rw (is_relevant-later k t u e a.0 le, total-later f es k t u a.1 le) refl

keep-later :
    (es : List WarrantEvent) (k : Key) (t u : ℕ)
    → All (λ e. e.at ≤ t) es
    → t ≤ u
    → keep (is_relevant k u) es ≡ keep (is_relevant k t) es
keep-later [] k t u a le = refl
keep-later (e ∷ es) k t u a le =
    rw (is_relevant-later k t u e a.0 le, keep-later es k t u a.1 le) refl

left_after-later : (l : Option ℕ) (b t u : ℕ) → t ≤ u → left_after l u b ≤ left_after l t b
unfolding left_after
left_after-later none b t u le = omega arith
left_after-later (some l) b t u le =
    decayed_antitone b (date t - date l) (date u - date l) (omega (arith, date_mono t u le))

-- Idle time never raises a balance.
balance_at-later :
    (es : List WarrantEvent) (k : Key) (t u : ℕ)
    → All (λ e. e.at ≤ t) es
    → t ≤ u
    → balance_at es k u ≤ balance_at es k t
unfolding balance_at relevant
balance_at-later es k t u a le =
    rw (keep-later es k t u a le)
      (left_after-later (replay (sort_by event_le (keep (is_relevant k t) es)) 0 none).1 _ t u le)

module _ (F : Firestore) where
  pub record IsSolvent (t : ℕ) (db : Db F) : Type 0 where
    pub sequenced : IsSequenced F db
    pub past : All (λ e. e.at ≤ t) (events_of F db)
    pub covered :
        (k : Key)
        → balance_at (events_of F db) k t + total debit (events_of F db) k t
          ≤ total credit (events_of F db) k t

  All-later :
      (es : List WarrantEvent) (t u : ℕ) → t ≤ u → All (λ e. e.at ≤ t) es → All (λ e. e.at ≤ u) es
  All-later [] t u le a = tt
  All-later (e ∷ es) t u le a = (omega arith, All-later es t u le a.1)

  IsSolvent-later : (t u : ℕ) (db : Db F) → t ≤ u → IsSolvent t db → IsSolvent u db
  IsSolvent-later t u db le s = record {
    sequenced = s.sequenced;
    past = All-later (events_of F db) t u le s.past;
    covered = λ k.
        rw
          (
            total-later debit (events_of F db) k t u s.past le,
            total-later credit (events_of F db) k t u s.past le,
          )
          (omega (arith, s.covered k, balance_at-later (events_of F db) k t u s.past le));
  }

  covered-relevant :
      (kind : EventKind) (amount b d c : ℕ)
      → (kind ≡ EventKind.spend → amount ≤ b)
      → b + d ≤ c
      → apply_event kind amount b + (elim kind [ EventKind.spend ↦ amount | _ ↦ 0 ] + d)
        ≤ elim kind [ EventKind.mint ↦ amount | _ ↦ 0 ] + c
  unfolding apply_event
  covered-relevant EventKind.spend amount b d c h le = let h' = h refl in omega arith
  covered-relevant EventKind.mint amount b d c h le = omega arith
  covered-relevant EventKind.burn amount b d c h le = omega arith
  covered-relevant EventKind.decay amount b d c h le = omega arith
  covered-relevant EventKind.challenge amount b d c h le = omega arith

  relevant_principal :
      (k : Key) (t : ℕ) (e : WarrantEvent) → is_relevant k t e ≡ true → e.principal ≡ k.principal
  unfolding is_relevant has_key
  relevant_principal k t e r = ground (arith, text_eq_iff e.principal k.principal)

  stamped_relevant :
      (k : Key) (t : ℕ) (e : WarrantEvent) (db : Db F)
      → is_relevant k t (append F e db).0 ≡ is_relevant k t e
  unfolding append is_relevant has_key
  stamped_relevant k t e db = refl

  covered-append :
      (e : WarrantEvent) (db : Db F)
      → IsFresh F e.event_id db
      → IsCovered F e db
      → IsSolvent e.at db
      → (k : Key)
      → balance_at (events_of F (append F e db).1) k e.at
          + total debit (events_of F (append F e db).1) k e.at
        ≤ total credit (events_of F (append F e db).1) k e.at
  covered-append e db fresh covered s k =
      rw
        (
          total-Inserted debit (append F e db).0 k e.at (append-Inserted F e db fresh),
          total-Inserted credit (append F e db).0 k e.at (append-Inserted F e db fresh),
          stamped_relevant k e.at e db,
        )
        (elim (Bool-cases (is_relevant k e.at e)) [
          | inl r ↦
              rw (r, append_acts F k e db fresh s.sequenced (relevant_principal k e.at e r) r)
                (unfold append in
                  covered-relevant e.kind e.amount_bp (balance_at (events_of F db) k e.at)
                    (total debit (events_of F db) k e.at) (total credit (events_of F db) k e.at)
                    (covered k r) (s.covered k))
          | inr r ↦
              rw
                (
                  r,
                  balance_at-other k e.at (append F e db).0 (append-Inserted F e db fresh)
                      (stamped_relevant k e.at e db ∙ r),
                )
                (omega (arith, s.covered k))
        ])

  append-IsSolvent :
      (e : WarrantEvent) (db : Db F)
      → IsFresh F e.event_id db
      → IsCovered F e db
      → IsSolvent e.at db
      → IsSolvent e.at (append F e db).1
  append-IsSolvent e db fresh covered s = record {
    sequenced = append-IsSequenced F e db fresh s.sequenced;
    past =
        All-Inserted (λ x. x.at ≤ e.at) (append-Inserted F e db fresh)
          (unfold append in omega arith) s.past;
    covered = covered-append e db fresh covered s;
  }

  Outcome-IsSolvent :
      (when : ℕ) (db db' : Db F) → Outcome F when db db' → IsSolvent when db → IsSolvent when db'
  Outcome-IsSolvent when db db' (unchanged e) s = rw e s
  Outcome-IsSolvent when db db' (adds x fresh at covered e) s =
      rw (e, ← at) (append-IsSolvent x db fresh covered (rw (← at) at s))

  IsSolvent-empty : (t : ℕ) (db : Db F) → events_of F db ≡ [] → IsSolvent t db
  unfolding balance_at relevant replay left_after total sort_by
  IsSolvent-empty t db e = record {
    sequenced = rw e tt;
    past = rw e tt;
    covered = λ k. rw e (omega arith);
  }

  history-IsSolvent :
      {start db : Db F} {u : ℕ} → events_of F start ≡ [] → History F start u db → IsSolvent u db
  history-IsSolvent {start} e (begins when) = IsSolvent-empty when start e
  history-IsSolvent e (then_step {t} {db = d} when db' past le step) =
      Outcome-IsSolvent when d db' (Step-Outcome F when d db' step)
        (IsSolvent-later t when d le (history-IsSolvent e past))

  -- From an empty ledger, after any run of mints, burns, challenges, spends and checkpoints with
  -- fresh ids at clock readings that never go back: for every balance, what is left together with
  -- all that was spent is at most what was minted.
  pub history-solvent :
      {start db : Db F} {u : ℕ}
      → events_of F start ≡ []
      → History F start u db
      → (k : Key)
      → balance_at (events_of F db) k u + total debit (events_of F db) k u
        ≤ total credit (events_of F db) k u
  history-solvent e past k = (history-IsSolvent e past).covered k
