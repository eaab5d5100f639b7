-- ===== src/Settle/LoadRating.antt =====
-- settle/loadrating.py: the versions of a source's standing. A rating is counted in ten-thousandths:
-- every rating that the ledger computes is rounded to four decimals, and the opening balance is one
-- of at most four. Six tenths of such a number is never half way between two, so rounding is exact.
pub mod Reverting
mod Bounds
mod Tests
use unwind.Base.{
  ℕ, ◌+◌, ◌*◌, ◌/◌, String, Bool, true, false, List, [], ◌∷◌, ◌++◌, Option, none, some,
  if◌then◌else◌, contains, find, keep, length, max, min, Result, ok, err, ◌>>=◌, ◌==◌,
}

abbrev pub min_rating : ℕ
min_rating = 500

abbrev pub clean_recovery : ℕ
clean_recovery = 500

pub data RatingReason : Type 0 where
  opening : RatingReason
  told : String → RatingReason
  reverted : ℕ → String → RatingReason

pub record RatingVersion : Type 0 where
  pub version : ℕ
  pub rating : ℕ
  pub at : ℕ
  pub reason : RatingReason
  pub claim_id : Option String
  pub contested : Bool
  pub contest_note : Option String
  pub reverted_from : Option ℕ

pub record LoadRatingLedger : Type 0 where
  pub source_id : String
  pub versions : List RatingVersion

pub data RatingError : Type 0 where
  no_history : RatingError
  no_version_to_contest : ℕ → RatingError
  no_version_to_revert_to : ℕ → RatingError
  not_a_source : List String → RatingError

-- `self.versions[-1]`
unfoldable pub last_version : List RatingVersion → Result RatingError RatingVersion
last_version [] = err RatingError.no_history
last_version (v ∷ []) = ok v
last_version (v ∷ w ∷ vs) = last_version (w ∷ vs)

unfoldable pub current : LoadRatingLedger → Result RatingError RatingVersion
current l = last_version l.versions

unfoldable pub rating : LoadRatingLedger → Result RatingError ℕ
rating l = current l >>= λ v. ok v.rating

unfoldable pub append_version :
    ℕ
    → ℕ
    → RatingReason
    → Option String
    → Option ℕ
    → LoadRatingLedger
    → RatingVersion × LoadRatingLedger
append_version rating at reason claim_id reverted_from l =
    let v : RatingVersion = record {
      version = length l.versions + 1;
      rating = rating;
      at = at;
      reason = reason;
      claim_id = claim_id;
      contested = false;
      contest_note = none;
      reverted_from = reverted_from;
    } in
    (v, record { source_id = l.source_id; versions = l.versions ++ v ∷ [] })

-- `max(MIN_RATING, round(self.rating * FALSIFICATION_DECAY, 4))`
unfoldable pub lowered : ℕ → ℕ
lowered r = max min_rating ((r * 6 + 5) / 10)

-- `min(1.0, round(self.rating + CLEAN_RECOVERY, 4))`
unfoldable pub raised : ℕ → ℕ
raised r = min 10000 (r + clean_recovery)

unfoldable pub falsified :
    ℕ → String → String → LoadRatingLedger → Result RatingError (RatingVersion × LoadRatingLedger)
falsified at claim_id reason l = rating l >>= λ r.
    ok (append_version (lowered r) at (RatingReason.told reason) (some claim_id) none l)

unfoldable pub corroborated :
    ℕ → String → LoadRatingLedger → Result RatingError (RatingVersion × LoadRatingLedger)
corroborated at reason l =
    rating l >>= λ r. ok (append_version (raised r) at (RatingReason.told reason) none none l)

unfoldable pub find_version : ℕ → List RatingVersion → Option RatingVersion
find_version version vs = find (λ v. v.version == version) vs

unfoldable pub flagged : String → RatingVersion → RatingVersion
flagged note v = record {
  version = v.version;
  rating = v.rating;
  at = v.at;
  reason = v.reason;
  claim_id = v.claim_id;
  contested = true;
  contest_note = some note;
  reverted_from = v.reverted_from;
}

-- The loop of `contest`: the first version of that number is replaced.
unfoldable pub flag_first : ℕ → String → List RatingVersion → List RatingVersion
flag_first version note [] = []
flag_first version note (v ∷ vs) =
    if v.version == version then flagged note v ∷ vs else v ∷ flag_first version note vs

unfoldable pub or_raise {ℓ} : {A : Type ℓ} → Option A → RatingError → Result RatingError A
or_raise none e = err e
or_raise (some a) e = ok a

unfoldable pub contest :
    ℕ → String → LoadRatingLedger → Result RatingError (RatingVersion × LoadRatingLedger)
contest version note l =
    or_raise (find_version version l.versions) (RatingError.no_version_to_contest version) >>= λ v.
    ok (
      flagged note v,
      record { source_id = l.source_id; versions = flag_first version note l.versions },
    )

unfoldable pub revert_to :
    ℕ → ℕ → String → LoadRatingLedger → Result RatingError (RatingVersion × LoadRatingLedger)
revert_to version at reason l =
    or_raise (find_version version l.versions) (RatingError.no_version_to_revert_to version)
    >>= λ target. ok (
        append_version target.rating at (RatingReason.reverted version reason) target.claim_id
          (some version) l)

abbrev pub markers : List String
markers = "reputation" ∷ "autonomy_tier" ∷ "reliability" ∷ "agent_id" ∷ []

-- What a source record has: the names of its fields, its id and its standing.
pub record Subject : Type 0 where
  pub fields : List String
  pub source_id : String
  pub load_rating : ℕ

unfoldable pub assert_not_agent_trust : Subject → Result RatingError (Unit {0})
assert_not_agent_trust s = elim (keep (λ m. contains m s.fields) markers) [
  | [] ↦ ok tt
  | m ∷ ms ↦ err (RatingError.not_a_source (m ∷ ms))
]

unfoldable pub ledger_for : Subject → ℕ → Result RatingError LoadRatingLedger
ledger_for s at = assert_not_agent_trust s >>= λ u.
    ok
      (append_version s.load_rating at RatingReason.opening none none
        (record { source_id = s.source_id; versions = [] })).1

-- `max(0.0, min(1.0, rating))`
unfoldable pub weight_cap : ℕ → ℕ
weight_cap r = max 0 (min 10000 r)
