-- ===== src/Simulation/Clamp.antt =====
-- lib/simulation.py: what production forbids, however its name is written.
use unwind.Base.{
  ℕ, ◌-◌, ◌+◌, ◌≡◌, refl, Bool, true, false, ◌&&◌, List, [], ◌∷◌, ◌++◌, Option, some, arith, lookup,
  leb, if◌then◌else◌, All, ap, ◌∙◌,
}
use unwind.Base.Text.{Text, codes, same_text_iff, lower, is_blank, IsBlank, IsInk, strip-blanks}
use unwind.Simulation.{Environ, is_production, resolve_policy, label}

-- A word of small letters in which some are capitals.
unfoldable pub capitalise : List Bool → Text → Text
capitalise [] word = word
capitalise (big ∷ caps) [] = []
capitalise (big ∷ caps) (c ∷ word) = (if big then c - 32 else c) ∷ capitalise caps word

IsSmall : ℕ → Type 0
IsSmall c = (leb b'a' c && leb c b'z') ≡ true

lower_letter :
    (big : Bool) (c : ℕ)
    → IsSmall c
    → let d = if big then c - 32 else c in (if leb b'A' d && leb d b'Z' then d + 32 else d) ≡ c
unfolding IsSmall
lower_letter true c h = ground (arith, h)
lower_letter false c h = ground (arith, h)

lower-capitalise :
    (caps : List Bool) (word : Text) → All IsSmall word → lower (capitalise caps word) ≡ word
unfolding lower capitalise
lower-capitalise [] [] h = refl
lower-capitalise [] (c ∷ word) h =
    rw (lower_letter false c h.0) (ap (λ l. c ∷ l) (lower-capitalise [] word h.1))
lower-capitalise (big ∷ caps) [] h = refl
lower-capitalise (big ∷ caps) (c ∷ word) h =
    rw (lower_letter big c h.0) (ap (λ l. c ∷ l) (lower-capitalise caps word h.1))

letter-IsInk : (big : Bool) (c : ℕ) → IsSmall c → IsInk (if big then c - 32 else c)
unfolding IsSmall is_blank
letter-IsInk true c h = ground (arith, h)
letter-IsInk false c h = ground (arith, h)

capitalise-IsInk :
    (caps : List Bool) (word : Text) → All IsSmall word → All IsInk (capitalise caps word)
unfolding capitalise
capitalise-IsInk [] [] h = tt
capitalise-IsInk [] (c ∷ word) h = (letter-IsInk false c h.0, capitalise-IsInk [] word h.1)
capitalise-IsInk (big ∷ caps) [] h = tt
capitalise-IsInk (big ∷ caps) (c ∷ word) h =
    (letter-IsInk big c h.0, capitalise-IsInk caps word h.1)

is_production-spelled :
    (pre post : Text) (caps : List Bool) (env : Environ)
    → All IsBlank pre
    → All IsBlank post
    → lookup "UNWIND_ENV" env ≡ some (pre ++ (capitalise caps (codes "production") ++ post))
    → is_production env ≡ true
unfolding is_production IsSmall
is_production-spelled pre post caps env h k set =
    let word = codes "production" in
    let small : All IsSmall word =
      (refl, (refl, (refl, (refl, (refl, (refl, (refl, (refl, (refl, (refl, tt)))))))))) in
    let stripped =
      strip-blanks pre (capitalise caps word) post h (capitalise-IsInk caps word small) k in
    rw (is_production, set)
      ((same_text_iff _ word).1 (ap lower stripped ∙ lower-capitalise caps word small))

-- Where the variable UNWIND_ENV is the word `production`, in small letters or capitals and with blanks
-- about it, no argument and no other variable permits a simulated mint, and the label of a run is
-- that it is simulated and does not mint, or, where it is not simulated, that it is live.
pub production_clamp :
    (pre post : Text) (caps : List Bool) (env : Environ)
    (simulated allow_simulated_mint : Option Bool)
    → All IsBlank pre
    → All IsBlank post
    → lookup "UNWIND_ENV" env ≡ some (pre ++ (capitalise caps (codes "production") ++ post))
    → let p = resolve_policy env simulated allow_simulated_mint in
      (p.production ≡ true)
      × (p.simulated_mint_permitted ≡ false)
      × (label p ≡ (if p.simulated_countersign then "SIMULATED (NON-MINTING)" else "LIVE"))
unfolding resolve_policy label
production_clamp pre post caps env simulated allow h k set =
    let production = is_production-spelled pre post caps env h k set in
    (production, ground (arith, production), ground (arith, production))
