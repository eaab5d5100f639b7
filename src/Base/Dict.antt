-- ===== src/Base/Dict.antt =====
-- A dictionary as an association list in insertion order: membership, assignment and `pop`.
use unwind.Base.{
  contains, ◌≡◌, refl, String, Bool, false, not, ◌&&◌, ◌||◌, List, [], ◌∷◌, if◌then◌else◌, text_eq,
  text_eq_iff, arith, lookup, Option, none, some, true,
}

module _ {ℓ} {V : Type ℓ} where
  -- `k in d`
  abbrev pub has_key : String → List (String × V) → Bool
  has_key k [] = false
  has_key k ((j, v) ∷ d) = text_eq k j || has_key k d

  -- `d[k] = v`: a key that is there keeps its place.
  unfoldable pub put : String → V → List (String × V) → List (String × V)
  put k v [] = (k, v) ∷ []
  put k v ((j, w) ∷ d) = let rest = put k v d in if text_eq k j then (j, v) ∷ d else (j, w) ∷ rest

  -- `d.pop(k, None)`
  pub pop : String → List (String × V) → List (String × V)
  pop k [] = []
  pop k ((j, w) ∷ d) = let rest = pop k d in if text_eq k j then rest else (j, w) ∷ rest

  -- `d.values()`
  abbrev pub values : List (String × V) → List V
  values [] = []
  values ((k, v) ∷ d) = v ∷ values d

  pub has_key-put :
      (i k : String) (v : V) (d : List (String × V))
      → has_key i (put k v d) ≡ (text_eq i k || has_key i d)
  unfolding put
  has_key-put i k v [] = refl
  has_key-put i k v ((j, w) ∷ d) = ground (arith, has_key-put i k v d, text_eq_iff k j)

  pub lookup-put :
      (i k : String) (v : V) (d : List (String × V))
      → lookup i (put k v d) ≡ (if text_eq i k then some v else lookup i d)
  unfolding put
  lookup-put i k v [] = refl
  lookup-put i k v ((j, w) ∷ d) =
      ground (arith, lookup-put i k v d, text_eq_iff k j, text_eq_iff i k, text_eq_iff i j)

  pub has_key-lookup :
      (k : String) (d : List (String × V))
      → has_key k d ≡ (elim (lookup k d) [ none ↦ false | some v ↦ true ])
  has_key-lookup k [] = refl
  has_key-lookup k ((j, w) ∷ d) = ground (arith, has_key-lookup k d)

  pub has_key-pop :
      (i k : String) (d : List (String × V))
      → has_key i (pop k d) ≡ (not (text_eq i k) && has_key i d)
  unfolding pop
  has_key-pop i k [] = ground arith
  has_key-pop i k ((j, w) ∷ d) =
      ground (arith, has_key-pop i k d, text_eq_iff k j, text_eq_iff i k, text_eq_iff i j)

-- `d.setdefault(k, v)`, for its effect.
unfoldable pub set_default {ℓ} : {V : Type ℓ} → String → V → List (String × V) → List (String × V)
set_default k v d = if has_key k d then d else put k v d

-- The first of two that there is.
abbrev pub or_else {ℓ} : {V : Type ℓ} → Option V → Option V → Option V
or_else none o = o
or_else (some v) o = some v

pub lookup-set_default {ℓ} :
    {V : Type ℓ} (i k : String) (v : V) (d : List (String × V))
    → lookup i (set_default k v d) ≡ or_else (lookup i d) (if text_eq i k then some v else none)
unfolding set_default
lookup-set_default i k v d = ground (arith, lookup-put i k v d, has_key-lookup k d, text_eq_iff i k)

-- The elements whose key is not known, and no earlier element has, in their order.
unfoldable pub firsts {ℓ} : {A : Type ℓ} → (A → String) → List String → List A → List A
firsts key known [] = []
firsts key known (x ∷ xs) =
    let without = firsts key known xs in
    let with = firsts key (key x ∷ known) xs in if contains (key x) known then without else x ∷ with
