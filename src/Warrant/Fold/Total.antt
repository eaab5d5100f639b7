-- ===== src/Warrant/Fold/Total.antt =====
-- warrant/ledger.py: the fold replays the events in time order, so no gap is negative and it never
-- raises.
use unwind.Base.{
  ℕ, ◌-◌, ◌≤◌, ◌≡◌, refl, true, false, List, [], ◌∷◌, Option, none, some, ok, arith, All, All-keep,
  Bool-cases, inl, inr, keep,
}
use unwind.Base.Int.{sub_ℕ, pos}
use unwind.Base.Sorting.{insert_by, sort_by, All-sort_by}
use unwind.Warrant.Event.{WarrantEvent, date, event_le}
use unwind.Warrant.Decay.Exact.{decayed, apply_decay-eq-decayed}
use unwind.Warrant.Fold.{
  Key, is_relevant, relevant, apply_event, decay_since, fold_events, fold_balance,
}

-- The fold without its error case: what the ledger promises of a balance.
unfoldable pub left_after : Option ℕ → ℕ → ℕ → ℕ
left_after none at balance = balance
left_after (some last_ts) at balance = decayed balance (date at - date last_ts)

unfoldable pub replay : List WarrantEvent → ℕ → Option ℕ → ℕ × Option ℕ
replay [] balance last_ts = (balance, last_ts)
replay (e ∷ es) balance last_ts =
    replay es (apply_event e.kind e.amount_bp (left_after last_ts e.at balance)) (some e.at)

unfoldable pub balance_at : List WarrantEvent → Key → ℕ → ℕ
balance_at events k as_of =
    let (balance, last_ts) = replay (relevant events k as_of) 0 none in
    left_after last_ts as_of balance

-- `at` is not before the last event.
abbrev pub IsAfter : Option ℕ → ℕ → Type 0
IsAfter none at = Unit
IsAfter (some last_ts) at = last_ts ≤ at

-- The events come in time order, from the last one on.
abbrev Ascends : Option ℕ → List WarrantEvent → Type 0
Ascends last_ts [] = Unit
Ascends last_ts (e ∷ es) = IsAfter last_ts e.at × Ascends (some e.at) es

pub event_le-at : (e f : WarrantEvent) → event_le e f ≡ true → e.at ≤ f.at
unfolding event_le
event_le-at e f h = ground arith

not-event_le-at : (e f : WarrantEvent) → event_le e f ≡ false → f.at ≤ e.at
unfolding event_le
not-event_le-at e f h = ground arith

IsAfter-le : (l : Option ℕ) (a b : ℕ) → IsAfter l a → a ≤ b → IsAfter l b
IsAfter-le none a b h le = tt
IsAfter-le (some l) a b h le = omega arith

Ascends-insert_by :
    (l : Option ℕ) (x : WarrantEvent) (es : List WarrantEvent)
    → IsAfter l x.at
    → Ascends l es
    → Ascends l (insert_by event_le x es)
unfolding insert_by
Ascends-insert_by l x [] h a = (h, tt)
Ascends-insert_by l x (e ∷ es) h a = elim (Bool-cases (event_le x e)) [
  | inl le ↦ rw le (h, (event_le-at x e le, a.1))
  | inr gt ↦ rw gt (a.0, Ascends-insert_by (some e.at) x es (not-event_le-at x e gt) a.1)
]

Ascends-sort_by : (es : List WarrantEvent) → Ascends none (sort_by event_le es)
unfolding sort_by
Ascends-sort_by [] = tt
Ascends-sort_by (e ∷ es) = Ascends-insert_by none e (sort_by event_le es) tt (Ascends-sort_by es)

pub date_mono : (a b : ℕ) → a ≤ b → date a ≤ date b
unfolding date
date_mono a b h = omega arith

decay_since-left_after :
    (l : Option ℕ) (at balance : ℕ)
    → IsAfter l at
    → decay_since l at balance ≡ ok (left_after l at balance)
unfolding decay_since left_after
decay_since-left_after none at b h = refl
decay_since-left_after (some l) at b h =
    let e : sub_ℕ (date at) (date l) ≡ pos (date at - date l) = ground (arith, date_mono l at h) in
    rw e (apply_decay-eq-decayed b (date at - date l))

fold_events-replay :
    (es : List WarrantEvent) (b : ℕ) (l : Option ℕ)
    → Ascends l es
    → fold_events es b l ≡ ok (replay es b l)
unfolding fold_events replay
fold_events-replay [] b l a = refl
fold_events-replay (e ∷ es) b l a =
    rw (decay_since-left_after l e.at b a.0)
      (fold_events-replay es (apply_event e.kind e.amount_bp (left_after l e.at b)) (some e.at) a.1)

pub replay-IsAfter :
    (es : List WarrantEvent) (b as_of : ℕ) (l : Option ℕ)
    → IsAfter l as_of
    → All (λ e. e.at ≤ as_of) es
    → IsAfter (replay es b l).1 as_of
unfolding replay
replay-IsAfter [] b as_of l h a = h
replay-IsAfter (e ∷ es) b as_of l h a =
    replay-IsAfter es (apply_event e.kind e.amount_bp (left_after l e.at b)) as_of (some e.at) a.0
      a.1

pub relevant-le :
    (es : List WarrantEvent) (k : Key) (as_of : ℕ) → All (λ e. e.at ≤ as_of) (relevant es k as_of)
unfolding relevant is_relevant
relevant-le es k as_of =
    All-sort_by event_le (λ e. e.at ≤ as_of) (keep (is_relevant k as_of) es)
      (All-keep (λ e. e.at ≤ as_of) (is_relevant k as_of) es (λ e h. ground arith))

-- The fold never raises: on any events, in any order, it is the balance of the error-free replay.
pub fold_balance-eq-balance_at :
    (events : List WarrantEvent) (k : Key) (as_of : ℕ)
    → fold_balance events k as_of ≡ ok (balance_at events k as_of)
unfolding fold_balance balance_at relevant
fold_balance-eq-balance_at events k as_of =
    let es = sort_by event_le (keep (is_relevant k as_of) events) in
    rw (fold_events-replay es 0 none (Ascends-sort_by (keep (is_relevant k as_of) events))) (
      decay_since-left_after (replay es 0 none).1 as_of (replay es 0 none).0
        (replay-IsAfter es 0 as_of none tt (relevant-le events k as_of)))
