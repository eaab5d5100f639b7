-- ===== src/Warrant/Tests.antt =====
-- The theorems on the pure part of warrant/ledger.py at concrete events.
use unwind.Base.{◌+◌, ◌≤◌, ◌≡◌, refl, true, List, [], ◌∷◌, none, ok, between, text_eq}
use unwind.Base.Int.{pos}
use unwind.Warrant.Event.{EventKind, Provenance, WarrantEvent, event_le}
use unwind.Warrant.Decay.{apply_decay}
use unwind.Warrant.Decay.Exact.{decayed, apply_decay-eq-decayed}
use unwind.Warrant.Fold.{has_key, is_folded, is_relevant, fold_balance}
use unwind.Warrant.Fold.Total.{balance_at, fold_balance-eq-balance_at}
use unwind.Warrant.Fold.Laws.{IsNewest}
use unwind.Warrant.Fold.Laws.Checkpoint.{checkpoint_drift}
use unwind.Warrant.Ledger.{draft}
use unwind.Warrant.Sample.{key, day, minted_event}

apply_decay-eq-decayed_example : apply_decay 300 (pos 2) ≡ ok (decayed 300 2)
apply_decay-eq-decayed_example = apply_decay-eq-decayed 300 2

two_days : decayed 300 2 ≡ 297
unfolding decayed
two_days = refl

abbrev decay_event : WarrantEvent
decay_event = draft "w-1" key EventKind.decay 0 Provenance.earned none "checkpoint" (day + day)

abbrev two_events : List WarrantEvent
two_events = decay_event ∷ minted_event ∷ []

fold_balance-eq-balance_at_example :
    fold_balance two_events key (day + day) ≡ ok (balance_at two_events key (day + day))
fold_balance-eq-balance_at_example = fold_balance-eq-balance_at two_events key (day + day)

-- The checkpoint is folded into the balance, after the mint.
decay_event-is_relevant : is_relevant key (day + day) decay_event ≡ true
unfolding is_relevant has_key is_folded text_eq
decay_event-is_relevant = refl

decay_event-IsNewest : IsNewest key (day + day) decay_event (minted_event ∷ [])
unfolding event_le
decay_event-IsNewest = (λ r. (refl, refl), tt)

checkpoint_drift_example :
    (balance_at two_events key (day + day) ≤ balance_at (minted_event ∷ []) key (day + day))
    × (balance_at (minted_event ∷ []) key (day + day) ≤ balance_at two_events key (day + day) + 1)
checkpoint_drift_example =
    checkpoint_drift key (day + day) decay_event refl (between [] (minted_event ∷ []) refl refl)
      decay_event-is_relevant decay_event-IsNewest
