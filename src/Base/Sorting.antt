-- ===== src/Base/Sorting.antt =====
-- Python's `sorted`: a stable sort by a Boolean order, and what an insertion does to it.
pub mod Stable
use unwind.Base.{
  ◌≡◌, refl, Bool, true, false, List, [], ◌∷◌, ◌++◌, ap, All, Bool-cases, if◌then◌else◌, inl, inr,
}

module _ {ℓ} {A : Type ℓ} (le : A → A → Bool) where
  -- `x` stood before the elements of the list: it stays before those of its own key.
  unfoldable pub insert_by : A → List A → List A
  insert_by x [] = x ∷ []
  insert_by x (y ∷ ys) = let rest = insert_by x ys in if le x y then x ∷ y ∷ ys else y ∷ rest

  unfoldable pub sort_by : List A → List A
  sort_by [] = []
  sort_by (x ∷ xs) = insert_by x (sort_by xs)

  All-insert_by {κ} :
      (P : A → Type κ) (x : A) (ys : List A) → P x → All P ys → All P (insert_by x ys)
  unfolding insert_by
  All-insert_by P x [] px h = (px, tt)
  All-insert_by P x (y ∷ ys) px h = elim (Bool-cases (le x y)) [
    | inl e ↦ rw e (px, h)
    | inr e ↦ rw e (h.0, All-insert_by P x ys px h.1)
  ]

  -- Sorting keeps what holds of every element.
  pub All-sort_by {κ} : (P : A → Type κ) (xs : List A) → All P xs → All P (sort_by xs)
  unfolding sort_by
  All-sort_by P [] h = tt
  All-sort_by P (x ∷ xs) h = All-insert_by P x (sort_by xs) h.0 (All-sort_by P xs h.1)

  insert_by-last :
      (d : A) (ys : List A) → All (λ y. le d y ≡ false) ys → insert_by d ys ≡ ys ++ d ∷ []
  unfolding insert_by
  insert_by-last d [] h = refl
  insert_by-last d (y ∷ ys) h = rw h.0 (ap (λ l. y ∷ l) (insert_by-last d ys h.1))

  insert_by-append :
      (x d : A) (ys : List A)
      → le x d ≡ true
      → insert_by x (ys ++ d ∷ []) ≡ insert_by x ys ++ d ∷ []
  unfolding insert_by
  insert_by-append x d [] h = rw h
  insert_by-append x d (y ∷ ys) h = elim (Bool-cases (le x y)) [
    | inl e ↦ rw e refl
    | inr e ↦ rw e (ap (λ l. y ∷ l) (insert_by-append x d ys h))
  ]

  -- An element whose key is above all others is sorted to the end, wherever it stood.
  pub sort_by-last :
      (d : A) (pre post : List A)
      → All (λ y. le y d ≡ true) pre
      → All (λ y. le d y ≡ false) post
      → sort_by (pre ++ d ∷ post) ≡ sort_by (pre ++ post) ++ d ∷ []
  unfolding sort_by
  sort_by-last d [] post hp hq =
      insert_by-last d (sort_by post) (All-sort_by (λ y. le d y ≡ false) post hq)
  sort_by-last d (x ∷ pre) post hp hq =
      rw (sort_by-last d pre post hp.1 hq) (insert_by-append x d (sort_by (pre ++ post)) hp.0)
