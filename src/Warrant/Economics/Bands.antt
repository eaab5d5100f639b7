-- ===== src/Warrant/Economics/Bands.antt =====
-- warrant/economics.py: the bands of consequences and of drift, in the order of their names, and that
-- the percentages follow it.
use unwind.Base.{ℕ, ◌≤◌, ◌≡◌, refl, [], ◌∷◌, ◌==◌, if◌then◌else◌, arith}
use unwind.Base.Text.{Text, codes, upper, same_text}
use unwind.Warrant.Economics.{pct_of, band_or, tax_consequence_band_pct, tax_drift_band_pct}

-- How severe a band of consequences is; a text that names none, the empty one too, is the mildest.
unfoldable pub consequence_rank : Text → ℕ
consequence_rank band =
    if same_text band (codes "NONE")
    then 0
    else if same_text band (codes "LOW")
    then 0
    else if same_text band (codes "MODERATE")
    then 1
    else if same_text band (codes "HIGH")
    then 2
    else if same_text band (codes "SEVERE")
    then 3
    else 0

-- How far a band of drift is from the normal one, likewise.
unfoldable pub drift_rank : Text → ℕ
drift_rank band =
    if same_text band (codes "NORMAL")
    then 0
    else if same_text band (codes "ELEVATED")
    then 1
    else if same_text band (codes "DRIFT")
    then 2
    else if same_text band (codes "CRITICAL")
    then 3
    else 0

by_rank : ℕ → ℕ → ℕ → ℕ → ℕ
by_rank a b c n = if n == 0 then 0 else if n == 1 then a else if n == 2 then b else c

consequence_pct-ranked :
    (band : Text) → pct_of band tax_consequence_band_pct ≡ by_rank 15 35 90 (consequence_rank band)
unfolding pct_of consequence_rank by_rank
consequence_pct-ranked band = ground arith

drift_pct-ranked :
    (band : Text) → pct_of band tax_drift_band_pct ≡ by_rank 20 55 120 (drift_rank band)
unfolding pct_of drift_rank by_rank
drift_pct-ranked band = ground arith

-- Without a band, the mildest one is charged.
consequence_default :
    (band : Text)
    → consequence_rank (upper (band_or band (codes "NONE"))) ≡ consequence_rank (upper band)
unfolding consequence_rank band_or upper same_text
consequence_default [] = refl
consequence_default (c ∷ s) = refl

drift_default :
    (band : Text) → drift_rank (upper (band_or band (codes "NORMAL"))) ≡ drift_rank (upper band)
unfolding drift_rank band_or upper same_text
drift_default [] = refl
drift_default (c ∷ s) = refl

by_rank_mono : (a b c n m : ℕ) → a ≤ b → b ≤ c → n ≤ m → by_rank a b c n ≤ by_rank a b c m
unfolding by_rank
by_rank_mono a b c n m h k l = ground (arith, h, k, l)

pub consequence_pct_mono :
    (band worse : Text)
    → consequence_rank (upper band) ≤ consequence_rank (upper worse)
    → pct_of (upper (band_or band (codes "NONE"))) tax_consequence_band_pct
      ≤ pct_of (upper (band_or worse (codes "NONE"))) tax_consequence_band_pct
consequence_pct_mono band worse h =
    rw
      (
        consequence_pct-ranked (upper (band_or band (codes "NONE"))),
        consequence_pct-ranked (upper (band_or worse (codes "NONE"))),
        consequence_default band,
        consequence_default worse,
      )
      (by_rank_mono 15 35 90 _ _ (omega arith) (omega arith) h)

pub drift_pct_mono :
    (band worse : Text)
    → drift_rank (upper band) ≤ drift_rank (upper worse)
    → pct_of (upper (band_or band (codes "NORMAL"))) tax_drift_band_pct
      ≤ pct_of (upper (band_or worse (codes "NORMAL"))) tax_drift_band_pct
drift_pct_mono band worse h =
    rw
      (
        drift_pct-ranked (upper (band_or band (codes "NORMAL"))),
        drift_pct-ranked (upper (band_or worse (codes "NORMAL"))),
        drift_default band,
        drift_default worse,
      )
      (by_rank_mono 20 55 120 _ _ (omega arith) (omega arith) h)
