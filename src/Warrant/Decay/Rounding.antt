-- ===== src/Warrant/Decay/Rounding.antt =====
-- warrant/ledger.py: decay never raises a balance, is monotone, and loses at most one more basis
-- point for each time that it is rounded.
use native.Mathlib.Nat.{
  pow-suc, pow-zero, div-mul-le_self, div-le_of_le-mul, le-div_iff_mul-le, div-lt_iff_lt-mul,
  lt-div-mul-add, pow-le-pow_left, mul-le-mul_left, mul-le-mul_right,
}
use unwind.Base.{ℕ, zero, suc, ◌+◌, ◌-◌, ◌*◌, ◌/◌, ◌^◌, ◌<◌, ◌≤◌, ◌≡◌, ap, arith}
use unwind.Warrant.Decay.{retain_num, retain_den}
use unwind.Warrant.Decay.Exact.{decayed}

pow-add : (b m n : ℕ) → b ^ (m + n) ≡ b ^ m * b ^ n
pow-add b zero n = let e : 0 + n ≡ n = omega arith in rw (e, pow-zero b) (omega arith)
pow-add b (suc m) n =
    let e : suc m + n ≡ suc (m + n) = omega arith in
    rw (e, pow-suc b (m + n), pow-suc b m) (omega (arith, ap (λ (t : ℕ). t * b) (pow-add b m n)))

den_pos : (n : ℕ) → 0 < retain_den ^ n
den_pos zero = rw (pow-zero retain_den) (omega arith)
den_pos (suc n) = rw (pow-suc retain_den n) (omega (arith, den_pos n))

num_le_den : (n : ℕ) → retain_num ^ n ≤ retain_den ^ n
num_le_den n = pow-le-pow_left (omega arith) n

-- x * p / q, with p ≤ q.
scaled_le : (x p q : ℕ) → p ≤ q → x * p / q ≤ x
scaled_le x p q h = div-le_of_le-mul q (grind arith)

product_pos : (a b : ℕ) → 0 < a → 0 < b → 0 < a * b
product_pos a b ha hb = grind arith

scaled_mono : (x y p q : ℕ) → 0 < q → x ≤ y → x * p / q ≤ y * p / q
scaled_mono x y p q pos h =
    (le-div_iff_mul-le pos).1 (omega (arith, div-mul-le_self (x * p) q, step))
  where
    step : x * p ≤ y * p
    step = grind arith

twice_products : (x p q r s y z : ℕ) → y * q ≤ x * p → z * s ≤ y * r → z * (q * s) ≤ x * (p * r)
twice_products x p q r s y z h k = omega (arith, mul-le-mul_right q k, mul-le-mul_right r h)

once_products :
    (x p q r s y z : ℕ)
    → 0 < q
    → r ≤ s
    → x * p < y * q + q
    → y * r < z * s + s
    → x * (p * r) < (z + 2) * (q * s)
once_products x p q r s y z pos rs h k =
    let bound : y * r + r + 1 ≤ (z + 2) * s = omega arith in
    let xp : x * p ≤ y * q + q = omega arith in
    omega (arith, mul-le-mul_right r xp, mul-le-mul_left q bound)

-- Rounding twice gives at most what rounding once gives, and at most one less.
scaled_twice_le : (x p q r s : ℕ) → 0 < q → 0 < s → x * p / q * r / s ≤ x * (p * r) / (q * s)
scaled_twice_le x p q r s hq hs = (le-div_iff_mul-le (product_pos q s hq hs)).1 (
    twice_products x p q r s (x * p / q) (x * p / q * r / s) (div-mul-le_self (x * p) q)
      (div-mul-le_self (x * p / q * r) s))

scaled_once_le :
    (x p q r s : ℕ) → 0 < q → 0 < s → r ≤ s → x * (p * r) / (q * s) ≤ x * p / q * r / s + 1
scaled_once_le x p q r s hq hs h =
    let below = (div-lt_iff_lt-mul (product_pos q s hq hs)).1 (
      once_products x p q r s (x * p / q) (x * p / q * r / s) hq h (lt-div-mul-add {a = x * p} hq)
        (lt-div-mul-add {a = x * p / q * r} hs)) in
    omega (arith, below)

-- Decay never raises a balance.
pub decayed-le : (b d : ℕ) → decayed b d ≤ b
unfolding decayed
decayed-le b d = scaled_le b (retain_num ^ d) (retain_den ^ d) (num_le_den d)

-- A larger balance stays at least as large.
pub decayed_mono : (a b d : ℕ) → a ≤ b → decayed a d ≤ decayed b d
unfolding decayed
decayed_mono a b d h = scaled_mono a b (retain_num ^ d) (retain_den ^ d) (den_pos d) h

-- A balance that is read on the way, after `m` of `m + n` days, ends with at most what it would
-- have had, and with at most one basis point less.
pub decayed_twice :
    (b m n : ℕ)
    → (decayed (decayed b m) n ≤ decayed b (m + n))
      × (decayed b (m + n) ≤ decayed (decayed b m) n + 1)
unfolding decayed
decayed_twice b m n =
    rw (pow-add retain_num m n, pow-add retain_den m n)
      (
        scaled_twice_le b (retain_num ^ m) (retain_den ^ m) (retain_num ^ n) (retain_den ^ n)
            (den_pos m) (den_pos n),
        scaled_once_le b (retain_num ^ m) (retain_den ^ m) (retain_num ^ n) (retain_den ^ n)
            (den_pos m) (den_pos n) (num_le_den n),
      )

longer_products :
    (x p q r s y : ℕ) → 0 < s → r ≤ s → x * p < y * q + q → x * (p * r) < (y + 1) * (q * s)
longer_products x p q r s y pos rs h =
    let step : x * p + 1 ≤ y * q + q = omega arith in
    omega (arith, mul-le-mul_right s step, mul-le-mul_left (x * p) rs)

scaled_longer : (x p q r s : ℕ) → 0 < q → 0 < s → r ≤ s → x * (p * r) / (q * s) ≤ x * p / q
scaled_longer x p q r s hq hs h =
    let below =
      (div-lt_iff_lt-mul (product_pos q s hq hs)).1
        (longer_products x p q r s (x * p / q) hs h (lt-div-mul-add {a = x * p} hq)) in
    omega (arith, below)

-- More idle days never leave more.
pub decayed_antitone : (b m n : ℕ) → m ≤ n → decayed b n ≤ decayed b m
unfolding decayed
decayed_antitone b m n h =
    let k : ℕ = n - m in
    let e : n ≡ m + k = omega arith in
    rw (e, pow-add retain_num m k, pow-add retain_den m k)
      (scaled_longer b (retain_num ^ m) (retain_den ^ m) (retain_num ^ k) (retain_den ^ k)
        (den_pos m) (den_pos k) (num_le_den k))
