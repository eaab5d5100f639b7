-- ===== src/Warrant/Fold/Laws/Relabel.antt =====
-- warrant/ledger.py: the fold reads no provenance, and a synthetic event marks every fold it is in.
use unwind.Base.{
  ℕ, ◌≡◌, not, ◌&&◌, ◌>>=◌, refl, ap, Bool, true, false, ◌||◌, List, [], ◌∷◌, Option, none, some,
  arith, keep, any, map,
}
use mathlib.Core.Path.{fun_ext}
use unwind.Base.Sorting.{insert_by, sort_by}
use unwind.Warrant.Event.{Provenance, WarrantEvent, event_le}
use unwind.Warrant.Fold.{
  Key, has_key, is_relevant, relevant, apply_event, fold_events, fold_balance, decay_since,
  is_synthetic, provenance_for_fold,
}

module _ (label : WarrantEvent → Provenance) where
  abbrev pub relabel : WarrantEvent → WarrantEvent
  relabel e = record e { provenance = label e }

  insert_by-relabel :
      (e : WarrantEvent) (es : List WarrantEvent)
      → insert_by event_le (relabel e) (map relabel es) ≡ map relabel (insert_by event_le e es)
  unfolding insert_by event_le
  insert_by-relabel e [] = refl
  insert_by-relabel e (x ∷ es) = ground (arith, insert_by-relabel e es)

  sort_by-relabel :
      (es : List WarrantEvent)
      → sort_by event_le (map relabel es) ≡ map relabel (sort_by event_le es)
  unfolding sort_by
  sort_by-relabel [] = refl
  sort_by-relabel (e ∷ es) = rw (sort_by-relabel es) (insert_by-relabel e (sort_by event_le es))

  keep-relabel :
      (k : Key) (as_of : ℕ) (es : List WarrantEvent)
      → keep (is_relevant k as_of) (map relabel es) ≡ map relabel (keep (is_relevant k as_of) es)
  unfolding is_relevant has_key
  keep-relabel k as_of [] = refl
  keep-relabel k as_of (e ∷ es) = ground (arith, keep-relabel k as_of es)

  fold_events-relabel :
      (es : List WarrantEvent) (b : ℕ) (l : Option ℕ)
      → fold_events (map relabel es) b l ≡ fold_events es b l
  unfolding fold_events
  fold_events-relabel [] b l = refl
  fold_events-relabel (e ∷ es) b l =
      ap (λ f. ◌>>=◌ (decay_since l e.at b) f)
        (fun_ext λ left. fold_events-relabel es (apply_event e.kind e.amount_bp left) (some e.at))

  -- Whatever provenance the events are labelled with, the fold is the same.
  pub fold_balance-relabel :
      (es : List WarrantEvent) (k : Key) (as_of : ℕ)
      → fold_balance (map relabel es) k as_of ≡ fold_balance es k as_of
  unfolding fold_balance relevant
  fold_balance-relabel es k as_of =
      rw
        (
          keep-relabel k as_of es,
          sort_by-relabel (keep (is_relevant k as_of) es),
          fold_events-relabel (sort_by event_le (keep (is_relevant k as_of) es)) 0 none,
        )
        refl

pub all_earned : List WarrantEvent → Bool
all_earned [] = true
all_earned (e ∷ es) = not (is_synthetic e.provenance) && all_earned es

any-is_synthetic :
    (es : List WarrantEvent) → any (λ x. is_synthetic x.provenance) es ≡ not (all_earned es)
unfolding all_earned
any-is_synthetic [] = refl
any-is_synthetic (e ∷ es) = ground (arith, any-is_synthetic es)

pub is_nil : List WarrantEvent → Bool
is_nil [] = true
is_nil (_ ∷ _) = false

-- A fold is labelled synthetic exactly when it has no event at all or one synthetic event, however
-- many earned ones stand beside it.
pub is_synthetic-provenance_for_fold :
    (es : List WarrantEvent)
    → is_synthetic (provenance_for_fold es) ≡ (is_nil es || not (all_earned es))
unfolding provenance_for_fold is_synthetic is_nil
is_synthetic-provenance_for_fold [] = refl
is_synthetic-provenance_for_fold (e ∷ es) = ground (arith, any-is_synthetic (e ∷ es))
