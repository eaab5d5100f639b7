-- ===== src/Simulation.antt =====
-- lib/simulation.py: whether a run is simulated, and whether a simulated result may count. The
-- environment is a dictionary of texts.
pub mod Clamp
mod Tests
use unwind.Base.{
  ℕ, String, Bool, true, false, ◌≡◌, ◌||◌, List, [], ◌∷◌, Option, none, some, lookup, arith, refl,
  any, if◌then◌else◌,
}
use unwind.Base.Text.{Text, codes, same_text, strip, lower}

abbrev pub Environ : Type 0
Environ = List (String × Text)

pub record SimulationPolicy : Type 0 where
  pub simulated_countersign : Bool
  pub simulated_mint_permitted : Bool
  pub production : Bool

unfoldable pub is_production : Environ → Bool
is_production env = elim (lookup "UNWIND_ENV" env) [
  | none ↦ false
  | some raw ↦ same_text (lower (strip raw)) (codes "production")
]

pub flag : Environ → String → Bool → Bool
flag env name default = elim (lookup name env) [
  | none ↦ default
  | some raw ↦
      let word = lower (strip raw) in
      any (same_text word) (codes "1" ∷ codes "true" ∷ codes "yes" ∷ codes "on" ∷ [])
]

-- An argument that is given wins over the environment.
pub given_or : Option Bool → Bool → Bool
given_or none default = default
given_or (some b) default = b

unfoldable pub resolve_policy : Environ → Option Bool → Option Bool → SimulationPolicy
resolve_policy env simulated allow_simulated_mint =
    let production = is_production env in
    let sim = given_or simulated (flag env "UNWIND_COUNTERSIGN_SIMULATED" false) in
    let allow = given_or allow_simulated_mint (flag env "UNWIND_ALLOW_SIMULATED_MINT" sim) in
    record {
      simulated_countersign = sim;
      simulated_mint_permitted = if production then false else allow;
      production = production;
    }

pub offline_policy : Environ → SimulationPolicy
offline_policy env = resolve_policy env (some true) (some true)

unfoldable pub label : SimulationPolicy → String
label p =
    if p.simulated_countersign
    then (if p.simulated_mint_permitted then "SIMULATED" else "SIMULATED (NON-MINTING)")
    else "LIVE"
