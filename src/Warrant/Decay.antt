-- ===== src/Warrant/Decay.antt =====
-- warrant/ledger.py: `apply_decay` and its table of exact fractions (199/200)^i.
pub mod Exact
pub mod Rounding
pub mod Table
use unwind.Base.{
  ℕ, zero, suc, ◌+◌, ◌-◌, ◌*◌, ◌/◌, ◌%◌, ◌<◌, ◌≡◌, refl, Bool, List, [], ◌∷◌, ◌++◌, Result, ok, err,
  ltb, ◌==◌, ◌||◌, if◌then◌else◌, length,
}
use unwind.Base.Int.{ℤ, pos, negsuc}

abbrev pub retain_num : ℕ
retain_num = 199

abbrev pub retain_den : ℕ
retain_den = 200

-- `math.gcd`, by Euclid's algorithm; `fuel` above the second argument is enough.
pub gcd_fuel : ℕ → ℕ → ℕ → ℕ
gcd_fuel zero a b = a
gcd_fuel (suc fuel) a b = let rest = gcd_fuel fuel b (a % b) in if b == 0 then a else rest

pub gcd : ℕ → ℕ → ℕ
gcd a b = gcd_fuel (suc b) a b

-- The step of the `while` loop: the next entry from the last one.
pub next_fraction : ℕ × ℕ → ℕ × ℕ
next_fraction (num, den) =
    let n = num * retain_num in let d = den * retain_den in let g = gcd n d in (n / g, d / g)

-- Entry `i` of the two lists `_decay_num` and `_decay_den`.
pub decay_fraction : ℕ → ℕ × ℕ
decay_fraction zero = (1, 1)
decay_fraction (suc i) = next_fraction (decay_fraction i)

-- The two module-level lists, entry by entry; they start as [1] and [1].
abbrev pub DecayTable : Type 0
DecayTable = List (ℕ × ℕ)

abbrev pub initial_table : DecayTable
initial_table = (1, 1) ∷ []

pub last_entry : DecayTable → ℕ × ℕ
last_entry [] = (1, 1)
last_entry (x ∷ []) = x
last_entry (x ∷ y ∷ t) = last_entry (y ∷ t)

-- `while len(_decay_num) <= days`: one round for each entry that is missing.
pub extend_rounds : ℕ → DecayTable → DecayTable
extend_rounds zero t = t
extend_rounds (suc n) t = extend_rounds n (t ++ next_fraction (last_entry t) ∷ [])

pub extend_decay_table : ℕ → DecayTable → DecayTable
extend_decay_table days t = extend_rounds (suc days - length t) t

-- `days must be >= 0`
pub data DecayError : Type 0 where
  negative_days : DecayError

pub apply_decay : ℕ → ℤ → Result DecayError ℕ
apply_decay balance_bp (negsuc n) = err negative_days
apply_decay balance_bp (pos days) =
    if days == 0 || balance_bp == 0
    then ok balance_bp
    else ok (balance_bp * (decay_fraction days).0 / (decay_fraction days).1)
