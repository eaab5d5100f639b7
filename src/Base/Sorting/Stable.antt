-- ===== src/Base/Sorting/Stable.antt =====
-- The stable sort by a total and transitive order: it gives a sorted list, leaves a sorted list as
-- it is, and commutes with a filter.
use unwind.Base.{
  ◌≡◌, refl, Bool, true, false, List, [], ◌∷◌, arith, All, keep, Bool-cases, inl, inr,
  if◌then◌else◌,
}
use unwind.Base.Sorting.{insert_by, sort_by, All-insert_by}

pub record IsOrder {ℓ} {A : Type ℓ} (le : A → A → Bool) : Type ℓ where
  pub total : (x y : A) → le x y ≡ false → le y x ≡ true
  pub transitive : (x y z : A) → le x y ≡ true → le y z ≡ true → le x z ≡ true

module _ {ℓ} {A : Type ℓ} (le : A → A → Bool) (order : IsOrder le) where
  abbrev pub IsSorted : List A → Type 0
  IsSorted [] = Unit
  IsSorted (x ∷ xs) = All (λ y. le x y ≡ true) xs × IsSorted xs

  All-below :
      (x y : A) (l : List A)
      → le x y ≡ true
      → All (λ z. le y z ≡ true) l
      → All (λ z. le x z ≡ true) l
  All-below x y [] h a = tt
  All-below x y (z ∷ l) h a = (order.transitive x y z h a.0, All-below x y l h a.1)

  insert_by-IsSorted : (x : A) (l : List A) → IsSorted l → IsSorted (insert_by le x l)
  unfolding insert_by
  insert_by-IsSorted x [] s = (tt, tt)
  insert_by-IsSorted x (y ∷ l) s = elim (Bool-cases (le x y)) [
    | inl h ↦ rw h ((h, All-below x y l h s.0), s)
    | inr h ↦ rw h (
      All-insert_by le (λ z. le y z ≡ true) x l (order.total x y h) s.0,
      insert_by-IsSorted x l s.1,
    )
  ]

  pub sort_by-IsSorted : (l : List A) → IsSorted (sort_by le l)
  unfolding sort_by
  sort_by-IsSorted [] = tt
  sort_by-IsSorted (x ∷ l) = insert_by-IsSorted x (sort_by le l) (sort_by-IsSorted l)

  insert_by-first : (x : A) (l : List A) → All (λ y. le x y ≡ true) l → insert_by le x l ≡ x ∷ l
  unfolding insert_by
  insert_by-first x [] a = refl
  insert_by-first x (y ∷ l) a = rw a.0 refl

  pub sort_by_sorted : (l : List A) → IsSorted l → sort_by le l ≡ l
  unfolding sort_by
  sort_by_sorted [] s = refl
  sort_by_sorted (x ∷ l) s = rw (sort_by_sorted l s.1) (insert_by-first x l s.0)

  All-keep-All : (P : A → Type 0) (p : A → Bool) (l : List A) → All P l → All P (keep p l)
  All-keep-All P p [] a = tt
  All-keep-All P p (x ∷ l) a = elim (Bool-cases (p x)) [
    | inl h ↦ rw h (a.0, All-keep-All P p l a.1)
    | inr h ↦ rw h (All-keep-All P p l a.1)
  ]

  keep-insert_by :
      (p : A → Bool) (x : A) (l : List A)
      → IsSorted l
      → keep p (insert_by le x l) ≡ (if p x then insert_by le x (keep p l) else keep p l)
  unfolding insert_by
  keep-insert_by p x [] s = refl
  keep-insert_by p x (y ∷ l) s = elim (Bool-cases (le x y)) [
    | inl h ↦ rw h (
        ground (
          arith,
          insert_by-first x (keep p (y ∷ l))
              (All-keep-All (λ z. le x z ≡ true) p (y ∷ l) (h, All-below x y l h s.0)),
        ))
    | inr h ↦ rw h (ground (arith, keep-insert_by p x l s.1, h))
  ]

  -- Filtering a sorted list is sorting the filtered one.
  pub keep-sort_by : (p : A → Bool) (l : List A) → keep p (sort_by le l) ≡ sort_by le (keep p l)
  unfolding sort_by
  keep-sort_by p [] = refl
  keep-sort_by p (x ∷ l) =
      ground (arith, keep-insert_by p x (sort_by le l) (sort_by-IsSorted l), keep-sort_by p l)
