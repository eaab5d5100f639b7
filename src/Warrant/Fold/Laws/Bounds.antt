-- ===== src/Warrant/Fold/Laws/Bounds.antt =====
-- warrant/ledger.py: a balance never exceeds what was minted for it.
use unwind.Base.{ℕ, ◌+◌, ◌-◌, ◌≤◌, ◌≡◌, refl, List, [], ◌∷◌, Option, none, some, arith, keep}
use unwind.Base.Sorting.{insert_by, sort_by}
use unwind.Warrant.Event.{EventKind, WarrantEvent, event_le, date}
use unwind.Warrant.Decay.Rounding.{decayed-le}
use unwind.Warrant.Fold.{Key, is_relevant, relevant, apply_event}
use unwind.Warrant.Fold.Total.{left_after, replay, balance_at}

-- What an event credits.
abbrev credit_of : EventKind → ℕ → ℕ
credit_of EventKind.mint amount = amount
credit_of _ amount = 0

abbrev pub credits : List WarrantEvent → ℕ
credits [] = 0
credits (e ∷ es) = credit_of e.kind e.amount_bp + credits es

-- The sum of the MINT amounts of this balance up to `as_of`.
pub minted : List WarrantEvent → Key → ℕ → ℕ
minted es k as_of = credits (keep (is_relevant k as_of) es)

credits-insert_by :
    (e : WarrantEvent) (es : List WarrantEvent)
    → credits (insert_by event_le e es) ≡ credit_of e.kind e.amount_bp + credits es
unfolding insert_by
credits-insert_by e [] = refl
credits-insert_by e (x ∷ es) = ground (arith, credits-insert_by e es)

credits-sort_by : (es : List WarrantEvent) → credits (sort_by event_le es) ≡ credits es
unfolding sort_by
credits-sort_by [] = refl
credits-sort_by (e ∷ es) =
    omega (arith, credits-insert_by e (sort_by event_le es), credits-sort_by es)

left_after-le : (l : Option ℕ) (at b : ℕ) → left_after l at b ≤ b
unfolding left_after
left_after-le none at b = omega arith
left_after-le (some l) at b = decayed-le b (date at - date l)

apply_event-le :
    (kind : EventKind) (amount b : ℕ) → apply_event kind amount b ≤ b + credit_of kind amount
unfolding apply_event
apply_event-le EventKind.mint amount b = omega arith
apply_event-le _ amount b = omega arith

replay-le : (es : List WarrantEvent) (b : ℕ) (l : Option ℕ) → (replay es b l).0 ≤ b + credits es
unfolding replay
replay-le [] b l = omega arith
replay-le (e ∷ es) b l = omega (
  arith,
  replay-le es (apply_event e.kind e.amount_bp (left_after l e.at b)) (some e.at),
  apply_event-le e.kind e.amount_bp (left_after l e.at b),
  left_after-le l e.at b,
)

-- Authority is only ever minted: a balance is at most the sum of the MINT events of its own key up
-- to that time, whatever else is in the log and however it is ordered.
pub balance_at-le-minted :
    (es : List WarrantEvent) (k : Key) (as_of : ℕ) → balance_at es k as_of ≤ minted es k as_of
unfolding balance_at minted relevant
balance_at-le-minted es k as_of =
    let sorted = sort_by event_le (keep (is_relevant k as_of) es) in
    omega (
      arith,
      left_after-le (replay sorted 0 none).1 as_of (replay sorted 0 none).0,
      replay-le sorted 0 none,
      credits-sort_by (keep (is_relevant k as_of) es),
    )
