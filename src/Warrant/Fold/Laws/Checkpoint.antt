-- ===== src/Warrant/Fold/Laws/Checkpoint.antt =====
-- warrant/ledger.py: what a DECAY event (`checkpoint_decay`) does to a later balance.
use unwind.Base.{
  ℕ, ◌+◌, ◌-◌, ◌≤◌, ◌≡◌, refl, true, List, [], ◌∷◌, none, some, arith, All, All-keep_of, keep, ◌⊎◌,
  inl, inr, Inserted,
}
use unwind.Base.Sorting.{All-sort_by}
use unwind.Warrant.Event.{EventKind, WarrantEvent, date, event_le}
use unwind.Warrant.Decay.Exact.{decayed-zero_balance}
use unwind.Warrant.Decay.Rounding.{decayed_twice}
use unwind.Warrant.Fold.{Key, is_relevant, relevant, apply_event}
use unwind.Warrant.Fold.Total.{
  left_after, replay, balance_at, replay-IsAfter, event_le-at, date_mono,
}
use unwind.Warrant.Fold.Laws.{IsNewest, relevant-newest, replay-snoc}

-- After `es` either nothing has happened, or there is a last event.
replay_shape :
    (es : List WarrantEvent) (b : ℕ) (l : ℕ)
    → (b' : ℕ) × (l' : ℕ) × (replay es b (some l) ≡ (b', some l'))
unfolding replay
replay_shape [] b l = (b, l, refl)
replay_shape (e ∷ es) b l =
    replay_shape es (apply_event e.kind e.amount_bp (left_after (some l) e.at b)) e.at

replay_start :
    (es : List WarrantEvent)
    → (replay es 0 none ≡ (0, none)) ⊎ ((b : ℕ) × (l : ℕ) × (replay es 0 none ≡ (b, some l)))
unfolding replay
replay_start [] = inl refl
replay_start (e ∷ es) =
    inr (replay_shape es (apply_event e.kind e.amount_bp (left_after none e.at 0)) e.at)

-- Reading the balance at `t`, and again at `as_of`.
left_after_twice :
    (b l t as_of : ℕ)
    → l ≤ t
    → t ≤ as_of
    → let once = left_after (some l) as_of b in
      let twice = left_after (some t) as_of (left_after (some l) t b) in
      (twice ≤ once) × (once ≤ twice + 1)
unfolding left_after
left_after_twice b l t as_of h k =
    let e : date as_of - date l ≡ date t - date l + (date as_of - date t) =
      omega (arith, date_mono l t h, date_mono t as_of k) in
    rw e (decayed_twice b (date t - date l) (date as_of - date t))

newest-le :
    (k : Key) (as_of : ℕ) (e : WarrantEvent) (es : List WarrantEvent)
    → IsNewest k as_of e es
    → All (λ x. x.at ≤ e.at) (relevant es k as_of)
unfolding relevant
newest-le k as_of e es new =
    All-sort_by event_le (λ x. x.at ≤ e.at) (keep (is_relevant k as_of) es)
      (All-keep_of (λ x. x.at ≤ e.at) (is_relevant k as_of) es (before es new))
  where
    before :
        (xs : List WarrantEvent)
        → IsNewest k as_of e xs
        → All (λ x. is_relevant k as_of x ≡ true → x.at ≤ e.at) xs
    before [] h = tt
    before (x ∷ xs) h = (λ r. event_le-at x e (h.0 r).0, before xs h.1)

checkpoint_cases :
    (es : List WarrantEvent) (t as_of : ℕ)
    → t ≤ as_of
    → All (λ x. x.at ≤ t) es
    → let once = left_after (replay es 0 none).1 as_of (replay es 0 none).0 in
      let twice =
        left_after (some t) as_of (left_after (replay es 0 none).1 t (replay es 0 none).0) in
      (twice ≤ once) × (once ≤ twice + 1)
checkpoint_cases es t as_of h a = elim (replay_start es) [
  | inl e ↦
      rw e (unfold left_after in rw (decayed-zero_balance (date as_of - date t)) (omega arith))
  | inr (b, l, e) ↦
      let after = replay-IsAfter es 0 t none tt a in
      let le : l ≤ t = rw e at after in rw e (left_after_twice b l t as_of le h)
]

relevant_before :
    (k : Key) (as_of : ℕ) (e : WarrantEvent) → is_relevant k as_of e ≡ true → e.at ≤ as_of
unfolding is_relevant
relevant_before k as_of e r = ground arith

-- A DECAY event that is the newest of its balance never raises a later reading, and lowers it by
-- at most one basis point.
pub checkpoint_drift :
    (k : Key) (as_of : ℕ) (e : WarrantEvent) {es es' : List WarrantEvent}
    → e.kind ≡ EventKind.decay
    → Inserted e es es'
    → is_relevant k as_of e ≡ true
    → IsNewest k as_of e es
    → (balance_at es' k as_of ≤ balance_at es k as_of)
      × (balance_at es k as_of ≤ balance_at es' k as_of + 1)
unfolding balance_at
checkpoint_drift k as_of e {es} d i r new =
    rw (relevant-newest k as_of e i r new, replay-snoc (relevant es k as_of) e 0 none, d)
      (unfold apply_event in
        checkpoint_cases (relevant es k as_of) e.at as_of (relevant_before k as_of e r)
          (newest-le k as_of e es new))
