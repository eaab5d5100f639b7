-- ===== src/Settle/Exposure.antt =====
-- settle/obligation.py: residual_exposure, the range of what cannot be taken back, and what is
-- assumed at its ends. An assumption is named, and keeps the number its text interpolates.
use unwind.Base.{
  ℕ, String, suc, ◌+◌, ◌≡◌, Bool, true, false, ◌&&◌, List, [], ◌∷◌, ◌++◌, Option, none, some, ◌==◌,
  if◌then◌else◌, arith, keep, length, All,
}
use unwind.Base.Int.{ℤ, pos, negsuc, ◌+ℤ◌, ◌≤ℤ◌}
use unwind.Spine.Schema.{Reversibility}
use unwind.Spine.Escapement.{amount_or_zero}
use unwind.Settle.Irreversibility.{Triage, is_irreversible, is_compensable}

pub data Assumption : Type 0 where
  every_reverse_path_completes no_compensation_lands nothing_compensable only_recorded : Assumption
  unpriced_floor : ℕ → Assumption

pub record ResidualExposure : Type 0 where
  pub low : ℤ
  pub high : ℤ
  pub currency : String
  pub assumptions : List Assumption
  pub unpriced_effects : ℕ

-- The three totals of the loop.
pub record Totals : Type 0 where
  pub irreversible_total : ℤ
  pub compensable_total : ℤ
  pub unpriced : ℕ

count_irreversible : Totals → Option ℤ → Totals
count_irreversible t none = record {
  irreversible_total = t.irreversible_total;
  compensable_total = t.compensable_total;
  unpriced = suc t.unpriced;
}
count_irreversible t (some amount) = record {
  irreversible_total = t.irreversible_total +ℤ amount;
  compensable_total = t.compensable_total;
  unpriced = t.unpriced;
}

count_compensable : Totals → Option ℤ → Totals
count_compensable t none = t
count_compensable t (some amount) = record {
  irreversible_total = t.irreversible_total;
  compensable_total = t.compensable_total +ℤ amount;
  unpriced = t.unpriced;
}

-- One round of the loop.
count_item : Totals → Triage → Totals
count_item t item =
    if is_irreversible item.reversibility
    then count_irreversible t item.effect.amount_minor
    else if is_compensable item.reversibility
    then count_compensable t item.effect.amount_minor
    else t

count_all : Totals → List Triage → Totals
count_all t [] = t
count_all t (item ∷ items) = count_all (count_item t item) items

abbrev pub no_totals : Totals
no_totals = record { irreversible_total = pos 0; compensable_total = pos 0; unpriced = 0 }

unfoldable pub is_zero : ℤ → Bool
is_zero (pos n) = n == 0
is_zero (negsuc n) = false

unfoldable pub state_assumptions : Totals → List Assumption
state_assumptions t =
    (if is_zero t.compensable_total
      then Assumption.nothing_compensable ∷ []
      else Assumption.every_reverse_path_completes ∷ Assumption.no_compensation_lands ∷ [])
    ++ Assumption.only_recorded ∷ []
    ++ (if t.unpriced == 0 then [] else Assumption.unpriced_floor t.unpriced ∷ [])

expose : Totals → ResidualExposure
expose t = record {
  low = t.irreversible_total;
  high = t.irreversible_total +ℤ t.compensable_total;
  currency = "USD";
  assumptions = state_assumptions t;
  unpriced_effects = t.unpriced;
}

pub residual_exposure : List Triage → ResidualExposure
residual_exposure triaged = expose (count_all no_totals triaged)

-- What an item that passes a test has recorded, and nothing for the others.
pub recorded : (Reversibility → Bool) → Triage → ℤ
recorded p item = if p item.reversibility then amount_or_zero item.effect.amount_minor else pos 0

-- The recorded amounts of the items that pass a test, summed from the right.
pub recorded_sum : (Reversibility → Bool) → List Triage → ℤ
recorded_sum p [] = pos 0
recorded_sum p (item ∷ items) = recorded p item +ℤ recorded_sum p items

abbrev pub is_none : Option ℤ → Bool
is_none none = true
is_none (some amount) = false

-- An irreversible item without a recorded amount.
is_unpriced : Triage → Bool
is_unpriced item = is_irreversible item.reversibility && is_none item.effect.amount_minor

pub count_unpriced : List Triage → ℕ
count_unpriced items = length (keep is_unpriced items)

-- Every amount that is recorded is at least 0.
unfoldable pub IsNonnegative : Option ℤ → Type 0
IsNonnegative none = Unit
IsNonnegative (some amount) = pos 0 ≤ℤ amount

pub add_assoc_ℤ : (a b c : ℤ) → (a +ℤ b) +ℤ c ≡ a +ℤ (b +ℤ c)
add_assoc_ℤ a b c = ground arith

Nonneg-sum : (a b : ℤ) → pos 0 ≤ℤ a → pos 0 ≤ℤ b → pos 0 ≤ℤ a +ℤ b
Nonneg-sum a b h k = ground arith

add-Nonneg : (a b : ℤ) → pos 0 ≤ℤ b → a ≤ℤ a +ℤ b
add-Nonneg a b h = ground arith

right_zero_ℤ : (a : ℤ) → a +ℤ pos 0 ≡ a
right_zero_ℤ a = ground arith

count_item-totals :
    (t : Totals) (item : Triage)
    → ((count_item t item).irreversible_total
        ≡ t.irreversible_total +ℤ recorded is_irreversible item)
      × ((count_item t item).compensable_total
          ≡ t.compensable_total +ℤ recorded is_compensable item)
      × ((count_item t item).unpriced ≡ (if is_unpriced item then suc t.unpriced else t.unpriced))
unfolding count_item count_irreversible count_compensable recorded is_unpriced amount_or_zero
count_item-totals t item =
    ground (arith, right_zero_ℤ t.irreversible_total, right_zero_ℤ t.compensable_total)

-- After the loop, each total is what it was before, and the sum of its items.
count_all-totals :
    (t : Totals) (items : List Triage)
    → ((count_all t items).irreversible_total
        ≡ t.irreversible_total +ℤ recorded_sum is_irreversible items)
      × ((count_all t items).compensable_total
          ≡ t.compensable_total +ℤ recorded_sum is_compensable items)
      × ((count_all t items).unpriced ≡ t.unpriced + count_unpriced items)
unfolding count_all recorded_sum count_unpriced
count_all-totals t [] =
    ground (arith, right_zero_ℤ t.irreversible_total, right_zero_ℤ t.compensable_total)
count_all-totals t (item ∷ items) =
    let now = count_item-totals t item in
    let later = count_all-totals (count_item t item) items in
    (
      cc (
        now.0,
        later.0,
        add_assoc_ℤ t.irreversible_total (recorded is_irreversible item)
            (recorded_sum is_irreversible items),
      ),
      cc (
        now.1,
        later.1,
        add_assoc_ℤ t.compensable_total (recorded is_compensable item)
            (recorded_sum is_compensable items),
      ),
      ground (arith, now.2, later.2),
    )

left_zero_ℤ : (a : ℤ) → pos 0 +ℤ a ≡ a
left_zero_ℤ a = ground arith

recorded-Nonneg :
    (p : Reversibility → Bool) (item : Triage)
    → IsNonnegative item.effect.amount_minor
    → pos 0 ≤ℤ recorded p item
unfolding recorded amount_or_zero IsNonnegative
recorded-Nonneg p item h = ground arith

recorded_sum-Nonneg :
    (p : Reversibility → Bool) (items : List Triage)
    → All (λ item. IsNonnegative item.effect.amount_minor) items
    → pos 0 ≤ℤ recorded_sum p items
unfolding recorded_sum
recorded_sum-Nonneg p [] h = ground arith
recorded_sum-Nonneg p (item ∷ items) h =
    Nonneg-sum (recorded p item) (recorded_sum p items) (recorded-Nonneg p item h.0)
      (recorded_sum-Nonneg p items h.1)

-- Where every recorded amount is at least 0, the low end is the sum of what the irreversible effects
-- recorded, the high end adds what the compensable ones recorded and is not below the low end, and
-- the irreversible effects without an amount are counted.
pub residual_exposure-sums :
    (triaged : List Triage)
    → All (λ item. IsNonnegative item.effect.amount_minor) triaged
    → let range = residual_exposure triaged in
      (range.low ≡ recorded_sum is_irreversible triaged)
      × (range.high ≡ recorded_sum is_irreversible triaged +ℤ recorded_sum is_compensable triaged)
      × (range.low ≤ℤ range.high)
      × (range.unpriced_effects ≡ count_unpriced triaged)
unfolding residual_exposure expose
residual_exposure-sums triaged h =
    let sums = count_all-totals no_totals triaged in
    let low : (count_all no_totals triaged).irreversible_total
        ≡ recorded_sum is_irreversible triaged =
      cc (sums.0, left_zero_ℤ (recorded_sum is_irreversible triaged)) in
    let reverse : (count_all no_totals triaged).compensable_total
        ≡ recorded_sum is_compensable triaged =
      cc (sums.1, left_zero_ℤ (recorded_sum is_compensable triaged)) in
    (
      low,
      cc (low, reverse),
      add-Nonneg (count_all no_totals triaged).irreversible_total
          (count_all no_totals triaged).compensable_total
          (rw reverse (recorded_sum-Nonneg is_compensable triaged h)),
      ground (arith, sums.2),
    )
