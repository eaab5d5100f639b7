-- ===== src/Warrant/Decay/Exact.antt =====
-- warrant/ledger.py: `apply_decay` through the table of reduced fractions is the plain formula.
use native.Mathlib.Nat.{
  pow-suc, pow-zero, div-add-mod', mod-lt, mul-div-mul_right, div-one, zero-div, mul-div_left,
  mul_assoc,
}
use unwind.Base.{
  ℕ, zero, suc, ◌+◌, ◌*◌, ◌/◌, ◌%◌, ◌^◌, ◌<◌, ◌≡◌, refl, sym, ap, ◌∙◌, Bool-cases, inl, inr, ok,
  ◌==◌, arith,
}
use unwind.Base.Int.{pos}
use unwind.Warrant.Decay.{
  retain_num, retain_den, gcd_fuel, gcd, next_fraction, decay_fraction, apply_decay,
}

-- `g` divides `a`, with the quotient.
record Divides (g a : ℕ) : Type 0 where
  quotient : ℕ
  times : quotient * g ≡ a

Divides-combine : {g a b : ℕ} → Divides g b → Divides g (a % b) → Divides g a
Divides-combine {g} {a} {b} hb hr = record {
  quotient = a / b * hb.quotient + hr.quotient;
  times = omega (arith, ap (λ (t : ℕ). a / b * t) hb.times, hr.times, div-add-mod' a b);
}

gcd_fuel-Divides :
    (fuel a b : ℕ) → b < fuel → Divides (gcd_fuel fuel a b) a × Divides (gcd_fuel fuel a b) b
unfolding gcd_fuel
gcd_fuel-Divides zero a b h = elim h [ ]
gcd_fuel-Divides (suc fuel) a b h = elim (Bool-cases (b == 0)) [
  | inl e ↦
      rw e (
        record { quotient = 1; times = omega arith },
        record { quotient = 0; times = ground arith },
      )
  | inr e ↦ rw e (
      let d = gcd_fuel-Divides fuel b (a % b) (ground (arith, mod-lt a {m = b})) in
      (Divides-combine d.0 d.1, d.0))
]

gcd-Divides : (a b : ℕ) → Divides (gcd a b) a × Divides (gcd a b) b
unfolding gcd
gcd-Divides a b = gcd_fuel-Divides (suc b) a b (omega arith)

Divides-pos : {g a : ℕ} → Divides g a → 0 < a → 0 < g
Divides-pos {g} {a} d h = elim (Bool-cases (g == 0)) [
  | inl e ↦
      let z : g ≡ 0 = ground arith in
      absurd (omega (arith, d.times, ap (λ (t : ℕ). d.quotient * t) z))
  | inr e ↦ ground arith
]

Divides-div : {g a : ℕ} → Divides g a → 0 < g → a / g * g ≡ a
Divides-div {g} {a} d h =
    let e : a / g ≡ d.quotient = rw (← d.times) (mul-div_left d.quotient h) in rw e d.times

-- `num / den` is (199/200)^i in lower terms: both are divided by the same `scale`.
pub record IsScaled (i : ℕ) (f : ℕ × ℕ) : Type 0 where
  pub scale : ℕ
  pub scale_pos : 0 < scale
  pub num_eq : f.0 * scale ≡ retain_num ^ i
  pub den_eq : f.1 * scale ≡ retain_den ^ i

product_pos : (a b : ℕ) → 0 < a * b → 0 < a
product_pos zero b h = absurd (omega arith)
product_pos (suc a) b h = omega arith

retain_num_pos : (i : ℕ) → 0 < retain_num ^ i
retain_num_pos zero = rw (pow-zero retain_num) (omega arith)
retain_num_pos (suc i) = rw (pow-suc retain_num i) (omega (arith, retain_num_pos i))

next_fraction-IsScaled : (i : ℕ) (f : ℕ × ℕ) → IsScaled i f → IsScaled (suc i) (next_fraction f)
unfolding next_fraction
next_fraction-IsScaled i (num, den) s =
    let g : ℕ = gcd (num * retain_num) (den * retain_den) in
    let d = gcd-Divides (num * retain_num) (den * retain_den) in
    let num_pos : 0 < num = product_pos num s.scale (rw s.num_eq (retain_num_pos i)) in
    let g_pos : 0 < g = Divides-pos d.0 (omega arith) in
    record {
      scale = g * s.scale;
      scale_pos = grind (arith, s.scale_pos);
      num_eq =
          rw (pow-suc retain_num i)
            (omega (arith, s.num_eq, ap (λ (t : ℕ). t * s.scale) (Divides-div d.0 g_pos)));
      den_eq =
          rw (pow-suc retain_den i)
            (omega (arith, s.den_eq, ap (λ (t : ℕ). t * s.scale) (Divides-div d.1 g_pos)));
    }

pub decay_fraction-IsScaled : (i : ℕ) → IsScaled i (decay_fraction i)
unfolding decay_fraction
decay_fraction-IsScaled zero = record {
  scale = 1;
  scale_pos = omega arith;
  num_eq = sym (pow-zero retain_num);
  den_eq = sym (pow-zero retain_den);
}
decay_fraction-IsScaled (suc i) =
    next_fraction-IsScaled i (decay_fraction i) (decay_fraction-IsScaled i)

-- The reference: a balance after `days` whole days at 199/200 a day, rounded down once.
unfoldable pub decayed : ℕ → ℕ → ℕ
decayed balance days = balance * retain_num ^ days / retain_den ^ days

pub decayed-zero_days : (b : ℕ) → decayed b 0 ≡ b
unfolding decayed
decayed-zero_days b = rw (pow-zero retain_num, pow-zero retain_den) (div-one (b * 1) ∙ omega arith)

pub decayed-zero_balance : (d : ℕ) → decayed 0 d ≡ 0
unfolding decayed
decayed-zero_balance d = ap (λ t. t / retain_den ^ d) (omega arith) ∙ zero-div (retain_den ^ d)

fraction_lem : (b days : ℕ) → b * (decay_fraction days).0 / (decay_fraction days).1 ≡ decayed b days
unfolding decayed
fraction_lem b days =
    let s = decay_fraction-IsScaled days in
    sym (
      rw (← s.num_eq, ← s.den_eq, ← mul_assoc)
        (mul-div-mul_right (b * (decay_fraction days).0) (decay_fraction days).1 s.scale_pos))

-- For a gap of zero or more days the decay is the plain formula: the table's reduced fractions
-- and the two shortcuts change nothing.
pub apply_decay-eq-decayed : (b days : ℕ) → apply_decay b (pos days) ≡ ok (decayed b days)
unfolding apply_decay
apply_decay-eq-decayed b zero = rw (decayed-zero_days b) refl
apply_decay-eq-decayed b (suc days) =
    ground (arith, fraction_lem b (suc days), decayed-zero_balance (suc days))
