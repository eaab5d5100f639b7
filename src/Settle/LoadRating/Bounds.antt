-- ===== src/Settle/LoadRating/Bounds.antt =====
-- settle/loadrating.py: a rating never leaves the range from the floor to one.
use unwind.Base.{
  ℕ, ◌≤◌, String, List, [], ◌∷◌, Option, none, some, Result, ok, err, ◌>>=◌, ◌==◌, arith, All,
  All-append, Bool-cases, inl, inr,
}
use unwind.Settle.LoadRating.{
  RatingVersion, LoadRatingLedger, RatingError, RatingReason, last_version, current, rating,
  append_version, lowered, raised, falsified, corroborated, find_version, flagged, flag_first,
  contest, or_raise, revert_to,
}
use unwind.Settle.LoadRating.Reverting.{Adjustment, left_by, adjust, adjust_all}

abbrev pub IsRating : ℕ → Type 0
IsRating r = (500 ≤ r) × (r ≤ 10000)

unfoldable pub IsRated : LoadRatingLedger → Type 0
IsRated l = All (λ v. IsRating v.rating) l.versions

-- What a result is, if there is one.
abbrev IfOk {ℓ κ} : {A : Type ℓ} → (A → Type κ) → Result RatingError A → Type κ
IfOk p (ok a) = p a
IfOk p (err e) = Unit

lowered-IsRating : (r : ℕ) → IsRating r → IsRating (lowered r)
unfolding lowered
lowered-IsRating r h = (ground arith, ground (arith, h.1))

raised-IsRating : (r : ℕ) → IsRating r → IsRating (raised r)
unfolding raised
raised-IsRating r h = (ground (arith, h.0), ground arith)

last-IsRating :
    (vs : List RatingVersion)
    → All (λ v. IsRating v.rating) vs
    → IfOk (λ v. IsRating v.rating) (last_version vs)
unfolding last_version
last-IsRating [] h = tt
last-IsRating (v ∷ []) h = h.0
last-IsRating (v ∷ w ∷ vs) h = last-IsRating (w ∷ vs) h.1

rating-IfOk : (l : LoadRatingLedger) → IsRated l → IfOk IsRating (rating l)
unfolding rating current IsRated
rating-IfOk l h = go (last_version l.versions) (last-IsRating l.versions h)
  where
    go :
        (q : Result RatingError RatingVersion)
        → IfOk (λ v. IsRating v.rating) q
        → IfOk IsRating (q >>= λ v. ok v.rating)
    go (ok v) k = k
    go (err e) k = tt

found-IsRating :
    (version : ℕ) (e : RatingError) (vs : List RatingVersion)
    → All (λ v. IsRating v.rating) vs
    → IfOk (λ v. IsRating v.rating) (or_raise (find_version version vs) e)
unfolding find_version or_raise
found-IsRating version e [] h = tt
found-IsRating version e (v ∷ vs) h = elim (Bool-cases (v.version == version)) [
  | inl same ↦ rw same h.0
  | inr other ↦ rw other (found-IsRating version e vs h.1)
]

flag_first-IsRating :
    (version : ℕ) (note : String) (vs : List RatingVersion)
    → All (λ v. IsRating v.rating) vs
    → All (λ v. IsRating v.rating) (flag_first version note vs)
unfolding flag_first flagged
flag_first-IsRating version note [] h = tt
flag_first-IsRating version note (v ∷ vs) h = elim (Bool-cases (v.version == version)) [
  | inl same ↦ rw same h
  | inr other ↦ rw other (h.0, flag_first-IsRating version note vs h.1)
]

module _ (l : LoadRatingLedger) (h : IsRated l) where
  append_version-IsRated {ℓ} :
      {A : Type ℓ} (q : Result RatingError A) (f : A → ℕ) (at : ℕ) (reason : RatingReason)
      (claim : A → Option String) (from : Option ℕ)
      → IfOk (λ a. IsRating (f a)) q
      → IsRated (left_by l (q >>= λ a. ok (append_version (f a) at reason (claim a) from l)))
  unfolding left_by append_version IsRated
  append_version-IsRated (ok a) f at reason claim from k =
      All-append (λ v. IsRating v.rating) l.versions _ h (k, tt)
  append_version-IsRated (err e) f at reason claim from k = h

  moved-IfOk :
      (f : ℕ → ℕ) → ((r : ℕ) → IsRating r → IsRating (f r)) → IfOk (λ r. IsRating (f r)) (rating l)
  moved-IfOk f keeps = go (rating l) (rating-IfOk l h)
    where
      go : (q : Result RatingError ℕ) → IfOk IsRating q → IfOk (λ r. IsRating (f r)) q
      go (ok r) k = keeps r k
      go (err e) k = tt

  disputed-IsRated :
      (version : ℕ) (note : String) (q : Result RatingError RatingVersion)
      → IsRated (
          left_by l (
            q >>= λ v. ok (
              flagged note v,
              record { source_id = l.source_id; versions = flag_first version note l.versions },
            )))
  unfolding left_by IsRated
  disputed-IsRated version note (ok v) = flag_first-IsRating version note l.versions h
  disputed-IsRated version note (err e) = h

  adjust-IsRated : (a : Adjustment) → IsRated (adjust l a)
  unfolding adjust falsified corroborated contest revert_to IsRated
  adjust-IsRated (Adjustment.falsify at claim_id reason) =
      append_version-IsRated (rating l) lowered at (RatingReason.told reason) (λ n. some claim_id)
        none (moved-IfOk lowered lowered-IsRating)
  adjust-IsRated (Adjustment.corroborate at reason) =
      append_version-IsRated (rating l) raised at (RatingReason.told reason) (λ n. none) none
        (moved-IfOk raised raised-IsRating)
  adjust-IsRated (Adjustment.dispute version note) = disputed-IsRated version note _
  adjust-IsRated (Adjustment.restore version at reason) =
      append_version-IsRated _ (λ v. v.rating) at (RatingReason.reverted version reason)
        (λ v. v.claim_id) (some version)
        (found-IsRating version (RatingError.no_version_to_revert_to version) l.versions h)

-- A ledger whose ratings are between five hundredths and one keeps them so through any
-- falsifications, corroborations, disputes and reverts, in any order.
pub adjust_all-IsRated :
    (l : LoadRatingLedger) (more : List Adjustment) → IsRated l → IsRated (adjust_all l more)
unfolding adjust_all
adjust_all-IsRated l [] h = h
adjust_all-IsRated l (a ∷ more) h = adjust_all-IsRated (adjust l a) more (adjust-IsRated l h a)
