-- ===== src/Spine/Regimes.antt =====
-- spine/regimes.py: the router over materiality and escapement. The action and the wording of a
-- routing follow from its regime and its code, and are left out.
use unwind.Base.{Bool, true, false, ◌&&◌, ◌≡◌, refl, ℕ, Option, none, some, arith}
use mathlib.Core.Bool.{false≢true}
use unwind.Base.{not}
use unwind.Base.Int.{ℤ}
use unwind.Spine.Schema.{Claim, Conclusion, is_machine_checkable}
use unwind.Spine.Materiality.{
  MaterialityOutcome, Arithmetic, score_materiality, is_material, is_arithmetic,
  score_materiality-decided,
}
use unwind.Spine.Escapement.{lookup_escapement}

pub data Regime : Type 0 where
  immaterial_contained immaterial_escaped material_contained material_escaped unresolved
        closed_out :
      Regime

pub data RoutingCode : Type 0 where
  pending_judgment unresolved already_closed_out material_and_escaped material_but_contained
        immaterial_though_escaped immaterial_and_contained :
      RoutingCode

pub record RegimeRouting : Type 0 where
  pub regime : Regime
  pub reason_code : RoutingCode

abbrev routing : Regime → RoutingCode → RegimeRouting
routing regime code = record { regime = regime; reason_code = code }

-- `regime in ALERT_REGIMES`
pub is_alert : Regime → Bool
is_alert Regime.material_escaped = true
is_alert _ = false

pub route_regime : MaterialityOutcome → Bool → RegimeRouting
route_regime MaterialityOutcome.pending_judgment escaped =
    routing Regime.unresolved RoutingCode.pending_judgment
route_regime MaterialityOutcome.unresolved escaped =
    routing Regime.unresolved RoutingCode.unresolved
route_regime MaterialityOutcome.closed_out escaped =
    routing Regime.closed_out RoutingCode.already_closed_out
route_regime MaterialityOutcome.material true =
    routing Regime.material_escaped RoutingCode.material_and_escaped
route_regime MaterialityOutcome.material false =
    routing Regime.material_contained RoutingCode.material_but_contained
route_regime MaterialityOutcome.immaterial true =
    routing Regime.immaterial_escaped RoutingCode.immaterial_though_escaped
route_regime MaterialityOutcome.immaterial false =
    routing Regime.immaterial_contained RoutingCode.immaterial_and_contained

pub is_harmed : MaterialityOutcome → Bool
is_harmed MaterialityOutcome.material = true
is_harmed _ = false

is_alert-route_regime :
    (m : MaterialityOutcome) (escaped : Bool)
    → is_alert (route_regime m escaped).regime ≡ (is_harmed m && escaped)
unfolding is_alert route_regime is_harmed
is_alert-route_regime MaterialityOutcome.pending_judgment escaped = refl
is_alert-route_regime MaterialityOutcome.unresolved escaped = refl
is_alert-route_regime MaterialityOutcome.closed_out escaped = refl
is_alert-route_regime MaterialityOutcome.material true = refl
is_alert-route_regime MaterialityOutcome.material false = refl
is_alert-route_regime MaterialityOutcome.immaterial true = refl
is_alert-route_regime MaterialityOutcome.immaterial false = refl

pub is_unresolved : Regime → Bool
is_unresolved Regime.unresolved = true
is_unresolved _ = false

unfoldable pub is_decided : Option Bool → Bool
is_decided none = false
is_decided (some _) = true

is_unresolved-route_regime :
    (m : MaterialityOutcome) (escaped : Bool)
    → is_unresolved (route_regime m escaped).regime ≡ not (is_decided (is_material m))
unfolding is_unresolved route_regime is_decided is_material
is_unresolved-route_regime MaterialityOutcome.pending_judgment escaped = refl
is_unresolved-route_regime MaterialityOutcome.unresolved escaped = refl
is_unresolved-route_regime MaterialityOutcome.closed_out escaped = refl
is_unresolved-route_regime MaterialityOutcome.material true = refl
is_unresolved-route_regime MaterialityOutcome.material false = refl
is_unresolved-route_regime MaterialityOutcome.immaterial true = refl
is_unresolved-route_regime MaterialityOutcome.immaterial false = refl

-- Of all cells exactly one alerts, harmed and escaped; and a cell is unresolved exactly when the
-- materiality was not decided, whether or not anything escaped.
pub route_regime-cells :
    (m : MaterialityOutcome) (escaped : Bool)
    → (is_alert (route_regime m escaped).regime ≡ (is_harmed m && escaped))
      × (is_unresolved (route_regime m escaped).regime ≡ not (is_decided (is_material m)))
route_regime-cells m escaped =
    (is_alert-route_regime m escaped, is_unresolved-route_regime m escaped)

decided_some : (o : Option Bool) → is_decided o ≡ true → (b : Bool) × (o ≡ some b)
unfolding is_decided
decided_some none h = absurd (false≢true h)
decided_some (some b) h = (b, refl)

-- A node that is scored and then routed to anything but UNRESOLVED had a readable conclusion with a
-- committed lead time, and a claim that can be computed: what cannot be read is never called safe.
pub route_regime-readable :
    (A : Arithmetic) (conclusion : Option Conclusion) (root : Claim) (before after : A.Float)
    (as_of : Option ℕ)
    → is_unresolved
        (route_regime
          (score_materiality A conclusion root before after as_of).outcome
          (lookup_escapement conclusion as_of).escaped).regime
      ≡ false
    → (c : Conclusion) × (days : ℤ) × (conclusion ≡ some c)
      × (c.committed_lead_days ≡ some days)
      × (is_arithmetic root.type ≡ true)
      × (is_machine_checkable root.falsified_when ≡ true)
route_regime-readable A conclusion root before after as_of h =
    let m = (score_materiality A conclusion root before after as_of).outcome in
    let d = decided_some (is_material m) (
      ground
        (arith, h, is_unresolved-route_regime m (lookup_escapement conclusion as_of).escaped)) in
    score_materiality-decided A conclusion root before after as_of d.0 d.1
