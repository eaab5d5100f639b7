-- ===== src/Settle/LoadRating/Reverting.antt =====
-- settle/loadrating.py: whatever happens to a ledger, a rating it once had can be restored.
use unwind.Base.{
  if◌then◌else◌, ℕ, ◌≡◌, refl, String, List, [], ◌∷◌, ◌++◌, Option, none, some, Result, ok, err,
  ◌>>=◌, ◌==◌, arith, ap, ◌∙◌, Bool-cases, inl, inr,
}
use unwind.Settle.LoadRating.{
  RatingVersion, LoadRatingLedger, RatingError, RatingReason, last_version, current, rating,
  append_version, lowered, raised, falsified, corroborated, find_version, flagged, flag_first,
  contest, or_raise, revert_to,
}

-- A call on a ledger.
pub data Adjustment : Type 0 where
  falsify : ℕ → String → String → Adjustment
  corroborate : ℕ → String → Adjustment
  dispute : ℕ → String → Adjustment
  restore : ℕ → ℕ → String → Adjustment

-- A call that raises leaves the ledger as it was.
unfoldable pub left_by :
    LoadRatingLedger → Result RatingError (RatingVersion × LoadRatingLedger) → LoadRatingLedger
left_by l (ok p) = p.1
left_by l (err e) = l

unfoldable pub adjust : LoadRatingLedger → Adjustment → LoadRatingLedger
adjust l (Adjustment.falsify at claim_id reason) = left_by l (falsified at claim_id reason l)
adjust l (Adjustment.corroborate at reason) = left_by l (corroborated at reason l)
adjust l (Adjustment.dispute version note) = left_by l (contest version note l)
adjust l (Adjustment.restore version at reason) = left_by l (revert_to version at reason l)

unfoldable pub adjust_all : LoadRatingLedger → List Adjustment → LoadRatingLedger
adjust_all l [] = l
adjust_all l (a ∷ more) = adjust_all (adjust l a) more

-- The rating that a version of that number has, if there is one.
unfoldable pub rating_at : ℕ → List RatingVersion → Option ℕ
rating_at version [] = none
rating_at version (v ∷ vs) = if v.version == version then some v.rating else rating_at version vs

rating_at-append :
    (version r : ℕ) (vs ws : List RatingVersion)
    → rating_at version vs ≡ some r
    → rating_at version (vs ++ ws) ≡ some r
unfolding rating_at
rating_at-append version r [] ws h = ground (arith, h)
rating_at-append version r (v ∷ vs) ws h = ground (arith, h, rating_at-append version r vs ws)

rating_at-flag_first :
    (version r other : ℕ) (note : String) (vs : List RatingVersion)
    → rating_at version vs ≡ some r
    → rating_at version (flag_first other note vs) ≡ some r
unfolding rating_at flag_first flagged
rating_at-flag_first version r other note [] h = h
rating_at-flag_first version r other note (v ∷ vs) h =
    ground (arith, h, rating_at-flag_first version r other note vs)

rating_at-find :
    (version r : ℕ) (vs : List RatingVersion)
    → rating_at version vs ≡ some r
    → (v : RatingVersion) × ((find_version version vs ≡ some v) × (v.rating ≡ r))
unfolding rating_at find_version
rating_at-find version r [] h = ground (arith, h)
rating_at-find version r (v ∷ vs) h = elim (Bool-cases (v.version == version)) [
  | inl same ↦ (v, (rw same refl, ground (arith, same, h)))
  | inr other ↦
      let rest : rating_at version vs ≡ some r = ground (arith, other, h) in
      let found = rating_at-find version r vs rest in (found.0, (rw other found.1.0, found.1.1))
]

last-append : (v : RatingVersion) (vs : List RatingVersion) → last_version (vs ++ v ∷ []) ≡ ok v
unfolding last_version
last-append v [] = refl
last-append v (w ∷ []) = refl
last-append v (w ∷ x ∷ vs) = last-append v (x ∷ vs)

module _ (version r : ℕ) (l : LoadRatingLedger) (h : rating_at version l.versions ≡ some r) where
  rating_at-append_next {ℓ} :
      {A : Type ℓ} (q : Result RatingError A) (f : A → ℕ) (at : ℕ) (reason : RatingReason)
      (claim : A → Option String) (from : Option ℕ)
      → rating_at version
          (left_by l (q >>= λ a. ok (append_version (f a) at reason (claim a) from l))).versions
        ≡ some r
  unfolding left_by append_version
  rating_at-append_next (ok a) f at reason claim from = rating_at-append version r l.versions _ h
  rating_at-append_next (err e) f at reason claim from = h

  rating_at-disputed :
      (other : ℕ) (note : String) (q : Result RatingError RatingVersion)
      → rating_at version
          (left_by l (
            q >>= λ v. ok (
              flagged note v,
              record { source_id = l.source_id; versions = flag_first other note l.versions },
            ))).versions
        ≡ some r
  unfolding left_by
  rating_at-disputed other note (ok v) = rating_at-flag_first version r other note l.versions h
  rating_at-disputed other note (err e) = h

  rating_at-adjust : (a : Adjustment) → rating_at version (adjust l a).versions ≡ some r
  unfolding adjust falsified corroborated contest revert_to left_by
  rating_at-adjust (Adjustment.falsify at claim_id reason) =
      rating_at-append_next (rating l) lowered at (RatingReason.told reason) (λ n. some claim_id)
        none
  rating_at-adjust (Adjustment.corroborate at reason) =
      rating_at-append_next (rating l) raised at (RatingReason.told reason) (λ n. none) none
  rating_at-adjust (Adjustment.dispute other note) =
      rating_at-disputed other note
        (or_raise (find_version other l.versions) (RatingError.no_version_to_contest other))
  rating_at-adjust (Adjustment.restore other at reason) =
      rating_at-append_next
        (or_raise (find_version other l.versions) (RatingError.no_version_to_revert_to other))
        (λ v. v.rating) at (RatingReason.reverted other reason) (λ v. v.claim_id) (some other)

rating_at-adjust_all :
    (version r : ℕ) (l : LoadRatingLedger) (more : List Adjustment)
    → rating_at version l.versions ≡ some r
    → rating_at version (adjust_all l more).versions ≡ some r
unfolding adjust_all
rating_at-adjust_all version r l [] h = h
rating_at-adjust_all version r l (a ∷ more) h =
    rating_at-adjust_all version r (adjust l a) more (rating_at-adjust version r l h a)

-- If a ledger has a version of a number, then after any falsifications, corroborations, disputes and
-- reverts, raising or not, a revert to that number succeeds, and the ledger's rating is again the
-- one that the version had.
pub revert_to-restores :
    (version r at : ℕ) (reason : String) (l : LoadRatingLedger) (more : List Adjustment)
    → rating_at version l.versions ≡ some r
    → (revert_to version at reason (adjust_all l more) >>= λ p. rating p.1) ≡ ok r
unfolding revert_to or_raise append_version rating current
revert_to-restores version r at reason l more h =
    let found =
      rating_at-find version r (adjust_all l more).versions
        (rating_at-adjust_all version r l more h) in
    rw found.1.0 (
      ap (λ q. q >>= λ v. ok v.rating) (last-append _ (adjust_all l more).versions)
      ∙ ap ok found.1.1)
