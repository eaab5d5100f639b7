-- ===== src/Simulation/Tests.antt =====
-- Environments that lib/simulation.py may run in.
use unwind.Base.{
  true, false, ◌≡◌, refl, [], ◌∷◌, none, some, text_eq, All, lookup, ◌++◌, inr, arith,
  if◌then◌else◌,
}
use unwind.Base.Text.{IsBlank, codes}
use unwind.Simulation.{
  Environ, is_production, flag, given_or, resolve_policy, offline_policy, label,
}
use unwind.Simulation.Clamp.{capitalise, production_clamp}

-- Production by a value with blanks and capitals, and every other variable set.
abbrev hostile : Environ
hostile =
    ("UNWIND_ENV", codes " Production ")
    ∷ ("UNWIND_COUNTERSIGN_SIMULATED", codes "1")
    ∷ ("UNWIND_ALLOW_SIMULATED_MINT", codes "yes")
    ∷ []

space-All : All IsBlank (codes " ")
space-All = (inr (ground arith, ground arith), tt)

hostile_lem :
    lookup "UNWIND_ENV" hostile
    ≡ some (codes " " ++ (capitalise (true ∷ []) (codes "production") ++ codes " "))
unfolding text_eq capitalise
hostile_lem = refl

production_clamp_example :
    let p = resolve_policy hostile none (some true) in
    (p.production ≡ true)
    × (p.simulated_mint_permitted ≡ false)
    × (label p ≡ (if p.simulated_countersign then "SIMULATED (NON-MINTING)" else "LIVE"))
production_clamp_example =
    production_clamp (codes " ") (codes " ") (true ∷ []) hostile none (some true) space-All
      space-All hostile_lem

-- Outside production the offline policy mints.
offline_mints : label (offline_policy []) ≡ "SIMULATED"
unfolding offline_policy resolve_policy label given_or is_production flag
offline_mints = refl
