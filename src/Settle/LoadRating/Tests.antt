-- ===== src/Settle/LoadRating/Tests.antt =====
-- The theorems on load ratings at a ledger that is opened at one half, twice falsified and disputed.
use unwind.Base.{◌≡◌, refl, List, [], ◌∷◌, none, some, ok, err, arith, ◌>>=◌, false, text_eq}
use unwind.Settle.LoadRating.{
  LoadRatingLedger, RatingError, Subject, ledger_for, assert_not_agent_trust, append_version,
  revert_to, rating, lowered, RatingReason, weight_cap,
}
use unwind.Settle.LoadRating.Reverting.{Adjustment, adjust_all, rating_at, revert_to-restores}
use unwind.Settle.LoadRating.Bounds.{IsRated, adjust_all-IsRated}

abbrev supplier : Subject
supplier = record {
  fields = "source_id" ∷ "name" ∷ "load_rating" ∷ [];
  source_id = "supplier-1";
  load_rating = 5000;
}

abbrev opened : LoadRatingLedger
opened = record {
  source_id = "supplier-1";
  versions =
      (record {
        version = 1;
        rating = 5000;
        at = 0;
        reason = RatingReason.opening;
        claim_id = none;
        contested = false;
        contest_note = none;
        reverted_from = none;
      })
      ∷ [];
}

opened_lem : ledger_for supplier 0 ≡ ok opened
unfolding ledger_for assert_not_agent_trust append_version text_eq
opened_lem = refl

refused_lem :
    ledger_for (record { fields = "agent_id" ∷ []; source_id = "a"; load_rating = 5000 }) 0
    ≡ err (RatingError.not_a_source ("agent_id" ∷ []))
unfolding ledger_for assert_not_agent_trust text_eq
refused_lem = refl

capped_lem : weight_cap 12000 ≡ 10000
unfolding weight_cap
capped_lem = refl

-- A source that was opened below the floor is lifted to it by a falsification.
lifted_lem : lowered 100 ≡ 500
unfolding lowered
lifted_lem = refl

abbrev bad_month : List Adjustment
bad_month =
    Adjustment.falsify 1 "claim-1" "late"
    ∷ Adjustment.dispute 1 "not ours"
    ∷ Adjustment.falsify 2 "claim-2" "late again"
    ∷ []

opened_at : rating_at 1 opened.versions ≡ some 5000
unfolding rating_at
opened_at = refl

revert_to-restores_example :
    (revert_to 1 3 "appeal upheld" (adjust_all opened bad_month) >>= λ p. rating p.1) ≡ ok 5000
revert_to-restores_example = revert_to-restores 1 5000 3 "appeal upheld" opened bad_month opened_at

opened-IsRated : IsRated opened
unfolding IsRated
opened-IsRated = ((ground arith, ground arith), tt)

adjust_all-IsRated_example : IsRated (adjust_all opened bad_month)
adjust_all-IsRated_example = adjust_all-IsRated opened bad_month opened-IsRated
