-- ===== src/Warrant/Fold/Laws.antt =====
-- warrant/ledger.py: what one more event does to a balance.
pub mod Bounds
pub mod Checkpoint
pub mod Relabel
use unwind.Base.{
  ℕ, ◌+◌, ◌-◌, ◌≤◌, ◌≡◌, refl, sym, ap, ◌∙◌, Bool, true, false, List, [], ◌∷◌, ◌++◌, Option, none,
  some, arith, All, All-left, All-right, All-keep_of, keep, keep-append, keep-drop, keep-middle,
  Inserted, between,
}
use unwind.Base.Sorting.{sort_by, sort_by-last}
use unwind.Warrant.Event.{EventKind, WarrantEvent, date, event_le}
use unwind.Warrant.Decay.Exact.{decayed, decayed-zero_days}
use unwind.Warrant.Decay.Rounding.{decayed_twice}
use unwind.Warrant.Fold.{Key, is_relevant, relevant, apply_event}
use unwind.Warrant.Fold.Total.{left_after, replay, balance_at}

-- `e` sorts after every event that counts for this balance.
abbrev pub IsNewest : Key → ℕ → WarrantEvent → List WarrantEvent → Type 0
IsNewest k as_of e =
    All (λ x. is_relevant k as_of x ≡ true → (event_le x e ≡ true) × (event_le e x ≡ false))

All-fst {ℓ} : {A : Type ℓ} (P Q : A → Type 0) (xs : List A) → All (λ x. P x × Q x) xs → All P xs
All-fst P Q [] h = tt
All-fst P Q (x ∷ xs) h = (h.0.0, All-fst P Q xs h.1)

All-snd {ℓ} : {A : Type ℓ} (P Q : A → Type 0) (xs : List A) → All (λ x. P x × Q x) xs → All Q xs
All-snd P Q [] h = tt
All-snd P Q (x ∷ xs) h = (h.0.1, All-snd P Q xs h.1)

-- The newest event is folded last.
pub relevant-newest :
    (k : Key) (as_of : ℕ) (e : WarrantEvent) {es es' : List WarrantEvent}
    → Inserted e es es'
    → is_relevant k as_of e ≡ true
    → IsNewest k as_of e es
    → relevant es' k as_of ≡ relevant es k as_of ++ e ∷ []
unfolding relevant
relevant-newest k as_of e (between pre post p q) r new =
    let n = rw p at new in
    let both = λ (x : WarrantEvent). (event_le x e ≡ true) × (event_le e x ≡ false) in
    let kept = All-keep_of both (is_relevant k as_of) in
    rw
      (
        p,
        q,
        keep-middle (is_relevant k as_of) pre post e r,
        keep-append (is_relevant k as_of) pre post,
      )
      (sort_by-last event_le e (keep (is_relevant k as_of) pre) (keep (is_relevant k as_of) post)
        (All-fst _ _ _ (kept pre (All-left _ pre post n)))
        (All-snd _ _ _ (kept post (All-right _ pre post n))))

-- An event that does not count changes nothing.
pub relevant-other :
    (k : Key) (as_of : ℕ) (e : WarrantEvent) {es es' : List WarrantEvent}
    → Inserted e es es'
    → is_relevant k as_of e ≡ false
    → relevant es' k as_of ≡ relevant es k as_of
unfolding relevant
relevant-other k as_of e (between pre post p q) r =
    rw (p, q, keep-drop (is_relevant k as_of) pre post e r) refl

replay-snoc :
    (es : List WarrantEvent) (e : WarrantEvent) (b : ℕ) (l : Option ℕ)
    → replay (es ++ e ∷ []) b l ≡ (
      apply_event e.kind e.amount_bp (left_after (replay es b l).1 e.at (replay es b l).0),
      some e.at,
    )
unfolding replay
replay-snoc [] e b l = refl
replay-snoc (x ∷ es) e b l =
    replay-snoc es e (apply_event x.kind x.amount_bp (left_after l x.at b)) (some x.at)

left_after_same : (at b : ℕ) → left_after (some at) at b ≡ b
unfolding left_after
left_after_same at b = let e : date at - date at ≡ 0 = omega arith in rw e (decayed-zero_days b)

-- At its own instant the newest event acts on the balance that stood just before it.
pub balance_at-newest :
    (k : Key) (e : WarrantEvent) {es es' : List WarrantEvent}
    → Inserted e es es'
    → is_relevant k e.at e ≡ true
    → IsNewest k e.at e es
    → balance_at es' k e.at ≡ apply_event e.kind e.amount_bp (balance_at es k e.at)
unfolding balance_at
balance_at-newest k e {es} i r new =
    rw (relevant-newest k e.at e i r new, replay-snoc (relevant es k e.at) e 0 none)
      (left_after_same e.at _)

pub balance_at-other :
    (k : Key) (as_of : ℕ) (e : WarrantEvent) {es es' : List WarrantEvent}
    → Inserted e es es'
    → is_relevant k as_of e ≡ false
    → balance_at es' k as_of ≡ balance_at es k as_of
unfolding balance_at
balance_at-other k as_of e i r = rw (relevant-other k as_of e i r) refl
