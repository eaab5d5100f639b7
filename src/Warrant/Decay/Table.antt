-- ===== src/Warrant/Decay/Table.antt =====
-- warrant/ledger.py: `_extend_decay_table` keeps entry i at (199/200)^i in lowest form reached, and
-- makes every entry up to `days` present.
use unwind.Base.{
  ℕ, zero, suc, ◌+◌, ◌-◌, ◌<◌, ◌≤◌, ◌≡◌, refl, ap, ◌∙◌, [], ◌∷◌, ◌++◌, length, get_elem?, max, some,
  arith,
}
use unwind.Warrant.Decay.{
  decay_fraction, next_fraction, DecayTable, initial_table, last_entry, extend_rounds,
  extend_decay_table,
}

-- The first `n` entries, as the fold computes them.
abbrev fractions_from : ℕ → ℕ → DecayTable
fractions_from i zero = []
fractions_from i (suc n) = decay_fraction i ∷ fractions_from (suc i) n

pub fractions : ℕ → DecayTable
fractions n = fractions_from 0 n

fractions_from-snoc :
    (i n : ℕ) → fractions_from i n ++ decay_fraction (i + n) ∷ [] ≡ fractions_from i (suc n)
fractions_from-snoc i zero = let e : i + 0 ≡ i = omega arith in rw e refl
fractions_from-snoc i (suc n) =
    let e : i + suc n ≡ suc i + n = omega arith in
    rw e (ap (λ t. decay_fraction i ∷ t) (fractions_from-snoc (suc i) n))

last_entry-fractions_from :
    (i n : ℕ) → last_entry (fractions_from i (suc n)) ≡ decay_fraction (i + n)
unfolding last_entry
last_entry-fractions_from i zero = let e : i + 0 ≡ i = omega arith in rw e refl
last_entry-fractions_from i (suc n) =
    let e : i + suc n ≡ suc i + n = omega arith in rw e (last_entry-fractions_from (suc i) n)

length-fractions_from : (i n : ℕ) → length (fractions_from i n) ≡ n
length-fractions_from i zero = refl
length-fractions_from i (suc n) = ap suc (length-fractions_from (suc i) n)

next-fractions :
    (n : ℕ)
    → fractions (suc n) ++ next_fraction (last_entry (fractions (suc n))) ∷ []
      ≡ fractions (suc (suc n))
unfolding fractions decay_fraction
next-fractions n =
    let e : 0 + suc n ≡ suc (0 + n) = omega arith in
    rw (last_entry-fractions_from 0 n) (rw e at (fractions_from-snoc 0 (suc n)))

length-fractions : (n : ℕ) → length (fractions n) ≡ n
unfolding fractions
length-fractions n = length-fractions_from 0 n

get_elem?-fractions_from :
    (i n k : ℕ) → k < n → get_elem? (fractions_from i n) k ≡ some (decay_fraction (i + k))
get_elem?-fractions_from i zero k h = elim h [ ]
get_elem?-fractions_from i (suc n) zero h = let e : i + 0 ≡ i = omega arith in rw e refl
get_elem?-fractions_from i (suc n) (suc k) h =
    let e : i + suc k ≡ suc i + k = omega arith in
    rw e (get_elem?-fractions_from (suc i) n k (omega arith))

get_elem?-fractions : (m k : ℕ) → k ≤ m → get_elem? (fractions (suc m)) k ≡ some (decay_fraction k)
unfolding fractions
get_elem?-fractions m k h =
    let e : 0 + k ≡ k = omega arith in
    get_elem?-fractions_from 0 (suc m) k (omega arith) ∙ ap (λ t. some (decay_fraction t)) e

extend_rounds-fractions : (k n : ℕ) → extend_rounds k (fractions (suc n)) ≡ fractions (suc (k + n))
unfolding extend_rounds
extend_rounds-fractions zero n = let e : 0 + n ≡ n = omega arith in rw e refl
extend_rounds-fractions (suc k) n =
    let e : suc k + n ≡ k + suc n = omega arith in
    rw (next-fractions n, e) (extend_rounds-fractions k (suc n))

-- From any table that the loop has reached, the loop leaves every entry up to `days` in place,
-- drops none, and entry `i` is the `i`-th fraction of the fold.
pub extend_decay_table-fractions :
    (days n : ℕ) → extend_decay_table days (fractions (suc n)) ≡ fractions (suc (max days n))
unfolding extend_decay_table
extend_decay_table-fractions days n =
    let e : days - n + n ≡ max days n = omega arith in
    let l : suc days - length (fractions (suc n)) ≡ days - n =
      omega (arith, length-fractions (suc n)) in
    rw (l, extend_rounds-fractions (days - n) n, e) refl

-- The module-level lists start as the table of one entry.
pub initial_table-fractions : initial_table ≡ fractions 1
unfolding fractions decay_fraction
initial_table-fractions = refl

-- `_decay_num[days]` and `_decay_den[days]` after the loop: in range, and the fraction of the fold.
pub get_elem?-extend_decay_table :
    (days n : ℕ)
    → get_elem? (extend_decay_table days (fractions (suc n))) days ≡ some (decay_fraction days)
get_elem?-extend_decay_table days n =
    rw (extend_decay_table-fractions days n) (get_elem?-fractions (max days n) days (omega arith))
