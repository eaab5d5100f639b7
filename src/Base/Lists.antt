-- ===== src/Base/Lists.antt =====
-- Lists measured by native numbers, Boolean filters and quantifiers, and insertion of one element.
use Prim.Native.Nat.{ℕ, zero, suc, ◌+◌, ◌≤◌, min}
use Prim.Native.String.{String}
use mathlib.Core.Path.{◌≡◌, refl, ap}
use mathlib.Core.Bool.{Bool, true, false, ◌||◌}
use mathlib.Core.List.{List, [], ◌∷◌, ◌++◌, map}
use mathlib.Core.Option.{Option, none, some}
use native.Mathlib.Omega.{arith}
use unwind.Base.Tests.{if◌then◌else◌, text_eq}

module _ {ℓ} {A : Type ℓ} where
  abbrev pub length : List A → ℕ
  length [] = 0
  length (x ∷ xs) = suc (length xs)

  abbrev pub get_elem? : List A → ℕ → Option A
  get_elem? [] i = none
  get_elem? (x ∷ xs) zero = some x
  get_elem? (x ∷ xs) (suc i) = get_elem? xs i

  abbrev pub drop : ℕ → List A → List A
  drop zero xs = xs
  drop (suc n) [] = []
  drop (suc n) (x ∷ xs) = drop n xs

  -- The slice `xs[:n]`.
  abbrev pub take : ℕ → List A → List A
  take zero xs = []
  take (suc n) [] = []
  take (suc n) (x ∷ xs) = x ∷ take n xs

  -- The list comprehension `[x for x in xs if p(x)]`.
  abbrev pub keep : (A → Bool) → List A → List A
  keep p [] = []
  keep p (x ∷ xs) = let rest = keep p xs in if p x then x ∷ rest else rest

  -- `any(p(x) for x in xs)`
  abbrev pub any : (A → Bool) → List A → Bool
  any p [] = false
  any p (x ∷ xs) = p x || any p xs

  -- `next((x for x in xs if p(x)), None)`
  abbrev pub find : (A → Bool) → List A → Option A
  find p [] = none
  find p (x ∷ xs) = let rest = find p xs in if p x then some x else rest

  -- A predicate of every element.
  abbrev pub All {κ} : (A → Type κ) → List A → Type κ
  All P [] = Unit
  All P (x ∷ xs) = P x × All P xs

  pub keep-append : (p : A → Bool) (xs ys : List A) → keep p (xs ++ ys) ≡ keep p xs ++ keep p ys
  keep-append p [] ys = refl
  keep-append p (x ∷ xs) ys = ground (arith, keep-append p xs ys)

  pub any-append : (p : A → Bool) (xs ys : List A) → any p (xs ++ ys) ≡ (any p xs || any p ys)
  any-append p [] ys = refl
  any-append p (x ∷ xs) ys = ground (arith, any-append p xs ys)

  pub All-append {κ} : (P : A → Type κ) (xs ys : List A) → All P xs → All P ys → All P (xs ++ ys)
  All-append P [] ys hx hy = hy
  All-append P (x ∷ xs) ys hx hy = (hx.0, All-append P xs ys hx.1 hy)

  pub All-left {κ} : (P : A → Type κ) (xs ys : List A) → All P (xs ++ ys) → All P xs
  All-left P [] ys h = tt
  All-left P (x ∷ xs) ys h = (h.0, All-left P xs ys h.1)

  pub All-right {κ} : (P : A → Type κ) (xs ys : List A) → All P (xs ++ ys) → All P ys
  All-right P [] ys h = h
  All-right P (x ∷ xs) ys h = All-right P xs ys h.1

  All-if {κ} :
      (P : A → Type κ) (b : Bool) (x : A) (xs : List A)
      → (b ≡ true → P x)
      → All P xs
      → All P (if b then x ∷ xs else xs)
  All-if P true x xs h t = (h refl, t)
  All-if P false x xs h t = t

  -- What is known of the elements that pass a test holds of all that are kept.
  pub All-keep_of {κ} :
      (P : A → Type κ) (p : A → Bool) (xs : List A)
      → All (λ x. p x ≡ true → P x) xs
      → All P (keep p xs)
  All-keep_of P p [] h = tt
  All-keep_of P p (x ∷ xs) h = All-if P (p x) x (keep p xs) h.0 (All-keep_of P p xs h.1)

  pub All-always {κ} : (P : A → Type κ) (xs : List A) → ((x : A) → P x) → All P xs
  All-always P [] h = tt
  All-always P (x ∷ xs) h = (h x, All-always P xs h)

  pub All-keep {κ} :
      (P : A → Type κ) (p : A → Bool) (xs : List A)
      → ((x : A) → p x ≡ true → P x)
      → All P (keep p xs)
  All-keep P p xs h = All-keep_of P p xs (All-always (λ x. p x ≡ true → P x) xs h)

  pub keep-drop :
      (p : A → Bool) (pre post : List A) (x : A)
      → p x ≡ false
      → keep p (pre ++ x ∷ post) ≡ keep p (pre ++ post)
  keep-drop p [] post x h = ground arith
  keep-drop p (y ∷ pre) post x h = ground (arith, keep-drop p pre post x h)

  pub keep-middle :
      (p : A → Bool) (pre post : List A) (x : A)
      → p x ≡ true
      → keep p (pre ++ x ∷ post) ≡ keep p pre ++ x ∷ keep p post
  keep-middle p [] post x h = ground arith
  keep-middle p (y ∷ pre) post x h = ground (arith, keep-middle p pre post x h)

-- `ys` is `xs` with `x` put in at some place: a new document of a collection.
pub data Inserted {ℓ} {A : Type ℓ} (x : A) (xs ys : List A) : Type ℓ where
  between : (pre post : List A) → xs ≡ pre ++ post → ys ≡ pre ++ x ∷ post → Inserted x xs ys

pub Inserted-any {ℓ} :
    {A : Type ℓ} (p : A → Bool) {x : A} {xs ys : List A}
    → Inserted x xs ys
    → any p ys ≡ (p x || any p xs)
Inserted-any p {x} (between pre post e f) =
    rw (e, f, any-append p pre (x ∷ post), any-append p pre post) (ground arith)

All-middle {ℓ κ} :
    {A : Type ℓ} (P : A → Type κ) (x : A) (pre post : List A)
    → P x
    → All P (pre ++ post)
    → All P (pre ++ x ∷ post)
All-middle P x [] post px h = (px, h)
All-middle P x (y ∷ pre) post px h = (h.0, All-middle P x pre post px h.1)

pub All-Inserted {ℓ κ} :
    {A : Type ℓ} (P : A → Type κ) {x : A} {xs ys : List A}
    → Inserted x xs ys
    → P x
    → All P xs
    → All P ys
All-Inserted P {x} (between pre post e f) px h = rw f (All-middle P x pre post px (rw e at h))

-- `x in xs` for texts.
abbrev pub contains : String → List String → Bool
contains s [] = false
contains s (t ∷ ts) = text_eq s t || contains s ts

-- `d.get(k)` for a dictionary as an association list.
abbrev pub lookup {ℓ} : {V : Type ℓ} → String → List (String × V) → Option V
lookup k [] = none
lookup k ((j, v) ∷ d) = let rest = lookup k d in if text_eq k j then some v else rest

pub length-append {ℓ} : {A : Type ℓ} (xs ys : List A) → length (xs ++ ys) ≡ length xs + length ys
length-append [] ys = ground arith
length-append (x ∷ xs) ys = ground (arith, length-append xs ys)

pub length-take {ℓ} : {A : Type ℓ} (n : ℕ) (xs : List A) → length (take n xs) ≡ min n (length xs)
length-take zero xs = ground arith
length-take (suc n) [] = ground arith
length-take (suc n) (x ∷ xs) = ground (arith, length-take n xs)

pub take-All {ℓ κ} :
    {A : Type ℓ} (P : A → Type κ) (n : ℕ) (xs : List A) → All P xs → All P (take n xs)
take-All P zero xs h = tt
take-All P (suc n) [] h = tt
take-All P (suc n) (x ∷ xs) h = (h.0, take-All P n xs h.1)

pub length-keep {ℓ} : {A : Type ℓ} (p : A → Bool) (xs : List A) → length (keep p xs) ≤ length xs
length-keep p [] = ground arith
length-keep p (x ∷ xs) = ground (arith, length-keep p xs)

pub map-append {ℓ κ} :
    {A : Type ℓ} {B : Type κ} (f : A → B) (xs ys : List A) → map f (xs ++ ys) ≡ map f xs ++ map f ys
map-append f [] ys = refl
map-append f (x ∷ xs) ys = ap (λ l. f x ∷ l) (map-append f xs ys)

pub take-map {ℓ κ} :
    {A : Type ℓ} {B : Type κ} (f : A → B) (n : ℕ) (xs : List A)
    → map f (take n xs) ≡ take n (map f xs)
take-map f zero xs = refl
take-map f (suc n) [] = refl
take-map f (suc n) (x ∷ xs) = ap (λ l. f x ∷ l) (take-map f n xs)

pub length-map {ℓ κ} :
    {A : Type ℓ} {B : Type κ} (f : A → B) (xs : List A) → length (map f xs) ≡ length xs
length-map f [] = refl
length-map f (x ∷ xs) = ap suc (length-map f xs)
