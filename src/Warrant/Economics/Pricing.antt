-- ===== src/Warrant/Economics/Pricing.antt =====
-- warrant/economics.py: what a price adds up to.
use unwind.Base.{
  ℕ, ◌+◌, ◌*◌, ◌≤◌, ◌<◌, ◌≡◌, refl, Bool, true, false, not, List, [], ◌∷◌, ◌++◌, arith, ltb, ◌==◌,
  if◌then◌else◌, inl, inr, ◌⊎◌,
}
use unwind.Base.Text.{codes, upper}
use unwind.Warrant.Economics.Bands.{
  consequence_rank, drift_rank, consequence_pct_mono, drift_pct_mono,
}
use unwind.Warrant.Economics.{
  ActionKind, base_cost_bp, pct_of, tax_consequence_band_pct, tax_drift_band_pct, band_or, Floats,
  UncertaintySignals, Contribution, charge, cap_tax, assess_uncertainty, ceil_pct, price_action,
  max_tax_pct,
}

abbrev when_pct : Bool → ℕ → ℕ
when_pct true n = n
when_pct false n = 0

module _ (N : Floats) where
  -- The sum of the signals' percentages, before the cap.
  abbrev pub raw_tax : UncertaintySignals N → ℕ
  raw_tax s =
      pct_of (upper (band_or s.consequence_band (codes "NONE"))) tax_consequence_band_pct
      + pct_of (upper (band_or s.drift_band (codes "NORMAL"))) tax_drift_band_pct
      + when_pct (N.lt N.stale_after_seconds s.evidence_age_seconds) 40
      + when_pct (N.lt s.evidence_completeness N.min_completeness) 35
      + when_pct s.model_disagreement 60
      + when_pct s.external_state_changed 30
      + when_pct s.risk_divergence 25

  -- What one contribution says that it adds.
  abbrev pub pct_named : Contribution N → ℕ
  pct_named (Contribution.of_consequence band pct) = pct
  pct_named (Contribution.of_drift band pct) = pct
  pct_named (Contribution.stale_evidence age) = 40
  pct_named (Contribution.incomplete_evidence coverage) = 35
  pct_named Contribution.challenger_disagreed = 60
  pct_named Contribution.external_changed = 30
  pct_named Contribution.signals_diverged = 25
  pct_named (Contribution.capped_at raw) = 0

  abbrev pub sum_named : List (Contribution N) → ℕ
  sum_named [] = 0
  sum_named (c ∷ cs) = pct_named c + sum_named cs

  sum_named-append :
      (cs ds : List (Contribution N)) → sum_named (cs ++ ds) ≡ sum_named cs + sum_named ds
  sum_named-append [] ds = omega arith
  sum_named-append (c ∷ cs) ds = omega (arith, sum_named-append cs ds)

  -- The running total and the running list agree.
  abbrev IsTallied : ℕ → ℕ × List (Contribution N) → Type 0
  IsTallied n t = (t.0 ≡ n) × (sum_named t.1 ≡ n)

  charge-IsTallied :
      (b : Bool) (pct : ℕ) (c : Contribution N) (n : ℕ) (t : ℕ × List (Contribution N))
      → pct_named c ≡ pct
      → IsTallied n t
      → IsTallied (n + when_pct b pct) (charge N b pct c t)
  unfolding charge
  charge-IsTallied true pct c n (total, cs) e h =
      (omega (arith, h.0), omega (arith, h.1, e, sum_named-append cs (c ∷ [])))
  charge-IsTallied false pct c n (total, cs) e h = (omega (arith, h.0), omega (arith, h.1))

  -- A band whose percentage is zero is not charged, which adds as much.
  charge_band-IsTallied :
      (pct : ℕ) (c : Contribution N) (n : ℕ) (t : ℕ × List (Contribution N))
      → pct_named c ≡ pct
      → IsTallied n t
      → IsTallied (n + pct) (charge N (not (pct == 0)) pct c t)
  unfolding charge
  charge_band-IsTallied pct c n (total, cs) e h =
      ground (arith, h.0, h.1, e, sum_named-append cs (c ∷ []))

  charge_first-IsTallied :
      (pct : ℕ) (c : Contribution N)
      → pct_named c ≡ pct
      → IsTallied pct (charge N (not (pct == 0)) pct c (0, []))
  charge_first-IsTallied pct c e =
      let h = charge_band-IsTallied pct c 0 (0, []) e (refl, refl) in
      (omega (arith, h.0), omega (arith, h.1))

  cap_tax-IsTallied :
      (n : ℕ) (t : ℕ × List (Contribution N))
      → IsTallied n t
      → ((cap_tax N t).tax_pct ≡ (if ltb max_tax_pct n then max_tax_pct else n))
        × ((cap_tax N t).capped ≡ ltb max_tax_pct n)
        × (sum_named (cap_tax N t).contributions ≡ n)
  unfolding cap_tax
  cap_tax-IsTallied n (total, cs) h =
      ground (arith, h.0, h.1, sum_named-append cs (Contribution.capped_at total ∷ []))

  -- The tax is the sum of what the signals call for, capped at 300, and says when it was capped; the
  -- contributions that it names add up to the sum before the cap, so nothing is charged unnamed.
  pub assess_uncertainty-tax :
      (s : UncertaintySignals N)
      → let a = assess_uncertainty N s in
        (a.tax_pct ≡ (if ltb max_tax_pct (raw_tax s) then max_tax_pct else raw_tax s))
        × (a.capped ≡ ltb max_tax_pct (raw_tax s))
        × (sum_named a.contributions ≡ raw_tax s)
  unfolding assess_uncertainty
  assess_uncertainty-tax s =
      let consequence = upper (band_or s.consequence_band (codes "NONE")) in
      let c = pct_of consequence tax_consequence_band_pct in
      let band = upper (band_or s.drift_band (codes "NORMAL")) in
      let d = pct_of band tax_drift_band_pct in
      cap_tax-IsTallied (raw_tax s) _ (
        charge-IsTallied s.risk_divergence 25 _ _ _ refl (
          charge-IsTallied s.external_state_changed 30 _ _ _ refl (
            charge-IsTallied s.model_disagreement 60 _ _ _ refl (
              charge-IsTallied (N.lt s.evidence_completeness N.min_completeness) 35 _ _ _ refl (
                charge-IsTallied (N.lt N.stale_after_seconds s.evidence_age_seconds) 40 _ _ _ refl
                  (charge_band-IsTallied d _ _ _ refl (charge_first-IsTallied c _ refl)))))))

  cost_bounds :
      (kind : ActionKind) (t : ℕ)
      → t ≤ 300
      → let b = base_cost_bp kind in
        (b * (100 + t) ≤ 100 * ceil_pct N b t)
        × (100 * ceil_pct N b t < b * (100 + t) + 100)
        × (b ≤ ceil_pct N b t)
        × (ceil_pct N b t ≤ 4 * b)
  unfolding ceil_pct base_cost_bp
  cost_bounds ActionKind.read_public t le = (omega arith, omega arith, omega arith, omega arith)
  cost_bounds ActionKind.read_internal t le = (omega arith, omega arith, omega arith, omega arith)
  cost_bounds ActionKind.analyze t le = (omega arith, omega arith, omega arith, omega arith)
  cost_bounds ActionKind.write_sandbox t le = (omega arith, omega arith, omega arith, omega arith)
  cost_bounds ActionKind.create_ticket t le = (omega arith, omega arith, omega arith, omega arith)
  cost_bounds ActionKind.create_pr t le = (omega arith, omega arith, omega arith, omega arith)
  cost_bounds ActionKind.production_mutation t le =
      (omega arith, omega arith, omega arith, omega arith)
  cost_bounds ActionKind.secret_access t le = (omega arith, omega arith, omega arith, omega arith)

  -- The price is the base cost and its tax in percent, rounded up by less than one basis point; it
  -- is at least the base cost, and at most four times it.
  pub price_action-cost :
      (kind : ActionKind) (s : UncertaintySignals N)
      → let p = price_action N kind s in
        let exact = base_cost_bp kind * (100 + (assess_uncertainty N s).tax_pct) in
        (exact ≤ 100 * p.cost_bp)
        × (100 * p.cost_bp < exact + 100)
        × (base_cost_bp kind ≤ p.cost_bp)
        × (p.cost_bp ≤ 4 * base_cost_bp kind)
  unfolding price_action ceil_pct
  price_action-cost kind s =
      cost_bounds kind (assess_uncertainty N s).tax_pct
        (ground (arith, (assess_uncertainty-tax s).0))

  -- One proposal is at least as uncertain as another, signal by signal.
  pub record IsWorse (s s' : UncertaintySignals N) : Type 0 where
    pub consequence :
        consequence_rank (upper s.consequence_band) ≤ consequence_rank (upper s'.consequence_band)
    pub drift : drift_rank (upper s.drift_band) ≤ drift_rank (upper s'.drift_band)
    pub age :
        (s'.evidence_age_seconds ≡ s.evidence_age_seconds)
        ⊎ (N.lt s.evidence_age_seconds s'.evidence_age_seconds ≡ true)
    pub completeness :
        (s'.evidence_completeness ≡ s.evidence_completeness)
        ⊎ (N.lt s'.evidence_completeness s.evidence_completeness ≡ true)
    pub disagreement : s.model_disagreement ≡ true → s'.model_disagreement ≡ true
    pub external : s.external_state_changed ≡ true → s'.external_state_changed ≡ true
    pub divergence : s.risk_divergence ≡ true → s'.risk_divergence ≡ true

  when_pct_mono : (b b' : Bool) (n : ℕ) → (b ≡ true → b' ≡ true) → when_pct b n ≤ when_pct b' n
  when_pct_mono b b' n h = ground (arith, h)

  staler :
      (x y : N.Float)
      → (y ≡ x) ⊎ (N.lt x y ≡ true)
      → N.lt N.stale_after_seconds x ≡ true
      → N.lt N.stale_after_seconds y ≡ true
  staler x y (inl e) h = rw e h
  staler x y (inr l) h = N.lt_trans N.stale_after_seconds x y h l

  sparser :
      (x y : N.Float)
      → (y ≡ x) ⊎ (N.lt y x ≡ true)
      → N.lt x N.min_completeness ≡ true
      → N.lt y N.min_completeness ≡ true
  sparser x y (inl e) h = rw e h
  sparser x y (inr l) h = N.lt_trans y x N.min_completeness l h

  raw_tax_mono : (s s' : UncertaintySignals N) → IsWorse s s' → raw_tax s ≤ raw_tax s'
  raw_tax_mono s s' w = omega (
    arith,
    consequence_pct_mono s.consequence_band s'.consequence_band w.consequence,
    drift_pct_mono s.drift_band s'.drift_band w.drift,
    when_pct_mono (N.lt N.stale_after_seconds s.evidence_age_seconds)
        (N.lt N.stale_after_seconds s'.evidence_age_seconds) 40 (staler _ _ w.age),
    when_pct_mono (N.lt s.evidence_completeness N.min_completeness)
        (N.lt s'.evidence_completeness N.min_completeness) 35 (sparser _ _ w.completeness),
    when_pct_mono s.model_disagreement s'.model_disagreement 60 w.disagreement,
    when_pct_mono s.external_state_changed s'.external_state_changed 30 w.external,
    when_pct_mono s.risk_divergence s'.risk_divergence 25 w.divergence,
  )

  ceil_pct_mono :
      (kind : ActionKind) (t u : ℕ)
      → t ≤ u
      → ceil_pct N (base_cost_bp kind) t ≤ ceil_pct N (base_cost_bp kind) u
  unfolding ceil_pct base_cost_bp
  ceil_pct_mono ActionKind.read_public t u le = omega arith
  ceil_pct_mono ActionKind.read_internal t u le = omega arith
  ceil_pct_mono ActionKind.analyze t u le = omega arith
  ceil_pct_mono ActionKind.write_sandbox t u le = omega arith
  ceil_pct_mono ActionKind.create_ticket t u le = omega arith
  ceil_pct_mono ActionKind.create_pr t u le = omega arith
  ceil_pct_mono ActionKind.production_mutation t u le = omega arith
  ceil_pct_mono ActionKind.secret_access t u le = omega arith

  -- More uncertainty never makes an action cheaper: with bands of consequences and of drift that are no
  -- milder, evidence that is no fresher and no more complete, and every signal of the one raised in
  -- the other, the price is no lower.
  pub price_action_mono :
      (kind : ActionKind) (s s' : UncertaintySignals N)
      → IsWorse s s'
      → (price_action N kind s).cost_bp ≤ (price_action N kind s').cost_bp
  unfolding price_action
  price_action_mono kind s s' w =
      ceil_pct_mono kind (assess_uncertainty N s).tax_pct (assess_uncertainty N s').tax_pct (
        ground
          (arith, (assess_uncertainty-tax s).0, (assess_uncertainty-tax s').0, raw_tax_mono s s' w))
