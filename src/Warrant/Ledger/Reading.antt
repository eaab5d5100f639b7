-- ===== src/Warrant/Ledger/Reading.antt =====
-- warrant/ledger.py: the balance that is read through `read_events` is that of the whole log.
use unwind.Base.{
  ℕ, String, ◌≡◌, refl, ap, ◌∙◌, Bool, true, List, [], ◌∷◌, ok, arith, keep, any, ◌||◌,
}
use unwind.Base.Sorting.{insert_by, sort_by}
use unwind.Base.Sorting.Stable.{IsOrder, sort_by-IsSorted, sort_by_sorted, keep-sort_by}
use unwind.Warrant.Event.{WarrantEvent, event_le}
use unwind.Warrant.Fold.{
  Key, has_key, is_relevant, relevant, is_case_challenged, challenges, is_for_case,
}
use unwind.Warrant.Fold.Total.{balance_at, fold_balance-eq-balance_at}
use unwind.Warrant.Store.{Firestore, Db, events_of}
use unwind.Warrant.Ledger.{of_key, of_case, selects, read_events, current_balance}

event_le-IsOrder : IsOrder event_le
unfolding event_le
event_le-IsOrder = record { total = λ x y h. ground arith; transitive = λ x y z h k. ground arith }

keep-keep {ℓ} :
    {A : Type ℓ} (p q : A → Bool) (l : List A)
    → ((x : A) → p x ≡ true → q x ≡ true)
    → keep p (keep q l) ≡ keep p l
keep-keep p q [] h = refl
keep-keep p q (x ∷ l) h = ground (arith, h x, keep-keep p q l h)

is_relevant-selects :
    (k : Key) (t : ℕ) (e : WarrantEvent) → is_relevant k t e ≡ true → selects (of_key k) e ≡ true
unfolding is_relevant has_key selects
is_relevant-selects k t e h = ground arith

relevant-read_events :
    (F : Firestore) (db : Db F) (k : Key) (t : ℕ)
    → relevant (read_events F db (of_key k)) k t ≡ relevant (events_of F db) k t
unfolding relevant read_events
relevant-read_events F db k t =
    let es = events_of F db in
    let p = is_relevant k t in
    let q = selects (of_key k) in
    ap (sort_by event_le) (keep-sort_by event_le event_le-IsOrder p (keep q es))
    ∙ sort_by_sorted event_le event_le-IsOrder (sort_by event_le (keep p (keep q es)))
        (sort_by-IsSorted event_le event_le-IsOrder (keep p (keep q es)))
    ∙ ap (sort_by event_le) (keep-keep p q es (is_relevant-selects k t))

-- Reading a balance never raises, and is the error-free replay of the whole log.
pub current_balance-eq-balance_at :
    (F : Firestore) (db : Db F) (k : Key) (when : ℕ)
    → current_balance F db k when ≡ ok (balance_at (events_of F db) k when)
unfolding current_balance balance_at
current_balance-eq-balance_at F db k when =
    fold_balance-eq-balance_at (read_events F db (of_key k)) k when
    ∙ ap ok (unfold balance_at in rw (relevant-read_events F db k when) refl)

any-insert_by :
    (p : WarrantEvent → Bool) (x : WarrantEvent) (l : List WarrantEvent)
    → any p (insert_by event_le x l) ≡ (p x || any p l)
unfolding insert_by
any-insert_by p x [] = refl
any-insert_by p x (y ∷ l) = ground (arith, any-insert_by p x l)

any-sort_by :
    (p : WarrantEvent → Bool) (l : List WarrantEvent) → any p (sort_by event_le l) ≡ any p l
unfolding sort_by
any-sort_by p [] = refl
any-sort_by p (x ∷ l) = ground (arith, any-insert_by p x (sort_by event_le l), any-sort_by p l)

any-keep :
    (p q : WarrantEvent → Bool) (l : List WarrantEvent)
    → ((x : WarrantEvent) → p x ≡ true → q x ≡ true)
    → any p (keep q l) ≡ any p l
any-keep p q [] h = refl
any-keep p q (x ∷ l) h = ground (arith, h x, any-keep p q l h)

challenges-selects :
    (c : String) (e : WarrantEvent) → challenges c e ≡ true → selects (of_case c) e ≡ true
unfolding challenges is_for_case selects
challenges-selects c e h = ground arith

-- The query of a case finds its challenge exactly when the log holds one.
pub is_case_challenged-read_events :
    (F : Firestore) (db : Db F) (c : String)
    → is_case_challenged (read_events F db (of_case c)) c ≡ is_case_challenged (events_of F db) c
unfolding is_case_challenged read_events
is_case_challenged-read_events F db c =
    any-sort_by (challenges c) (keep (selects (of_case c)) (events_of F db))
    ∙ any-keep (challenges c) (selects (of_case c)) (events_of F db) (challenges-selects c)
