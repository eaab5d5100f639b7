-- ===== src/Spine/Temporal.antt =====
-- spine/temporal.py: a retraction closes one interval of validity and opens the next. A confidence is
-- carried along and left out, and the name that a successor gets by default, which formats an
-- instant, is a parameter.
use unwind.Base.{
  ℕ, ◌≤◌, ◌≡◌, refl, String, Bool, true, ◌&&◌, List, [], ◌∷◌, Option, none, some, if◌then◌else◌,
  arith, leb, ltb, keep, map, text_eq,
}
use unwind.Base.Text.{Text}
use unwind.Spine.Schema.{Claim, ClaimStatus, InvalidationReason}

pub record ClaimVersion : Type 0 where
  pub claim_id : String
  pub canonical : Text
  pub value : String
  pub unit : Option String
  pub valid_from : ℕ
  pub invalidated_at : Option ℕ
  pub source_id : String

pub record Retraction : Type 0 where
  pub prior : ClaimVersion
  pub retracted : Claim
  pub successor : Claim
  pub retracted_at : ℕ
  pub reason : Option InvalidationReason

unfoldable pub snapshot : Claim → ClaimVersion
snapshot c = record {
  claim_id = c.claim_id;
  canonical = c.canonical;
  value = c.value;
  unit = c.unit;
  valid_from = c.valid_from;
  invalidated_at = c.invalidated_at;
  source_id = c.source_id;
}

-- `reason or f"The world changed: …"`
unfoldable pub reason_for : Claim → String → String → InvalidationReason
reason_for c new_value reason =
    if text_eq reason ""
    then InvalidationReason.world_changed c.canonical c.value new_value
    else InvalidationReason.given reason

-- `given or default`, for a text that may be absent.
unfoldable pub text_or : Option String → String → String
text_or none default = default
text_or (some s) default = if text_eq s "" then default else s

-- The claim with its three fields of Temporal Truth set.
pub close : Claim → InvalidationReason → ℕ → Claim
close c reason at = record {
  claim_id = c.claim_id;
  type = c.type;
  canonical = c.canonical;
  value = c.value;
  unit = c.unit;
  source_id = c.source_id;
  falsified_when = c.falsified_when;
  extracted_at = c.extracted_at;
  valid_from = c.valid_from;
  invalidated_at = some at;
  invalidation_reason = some reason;
  authority_scope = c.authority_scope;
  status = ClaimStatus.retracted;
}

succeed : Claim → String → String → String → ℕ → Claim
succeed c claim_id source_id new_value at = record {
  claim_id = claim_id;
  type = c.type;
  canonical = c.canonical;
  value = new_value;
  unit = c.unit;
  source_id = source_id;
  falsified_when = c.falsified_when;
  extracted_at = at;
  valid_from = at;
  invalidated_at = none;
  invalidation_reason = none;
  authority_scope = c.authority_scope;
  status = ClaimStatus.live;
}

module _ (version_name : String → ℕ → String) where
  pub retract : Claim → String → String → ℕ → Option String → Option String → Retraction
  retract c new_value reason at successor_claim_id successor_source_id =
      let retracted = close c (reason_for c new_value reason) at in
      record {
        prior = snapshot c;
        retracted = retracted;
        successor =
            succeed c (text_or successor_claim_id (version_name c.claim_id at))
              (text_or successor_source_id c.source_id) new_value at;
        retracted_at = at;
        reason = retracted.invalidation_reason;
      }

  -- One change of a fact, as it is reported.
  pub record Change : Type 0 where
    pub new_value : String
    pub reason : String
    pub at : ℕ
    pub source_id : Option String

  -- Every version of a claim whose successors are retracted one after another.
  pub versions : Claim → List Change → List Claim
  versions c [] = c ∷ []
  versions c (change ∷ changes) =
      let r = retract c change.new_value change.reason change.at none change.source_id in
      r.retracted ∷ versions r.successor changes

  -- The changes come in the order of time, none before the given instant.
  abbrev pub IsOrdered : ℕ → List Change → Type 0
  IsOrdered from [] = Unit
  IsOrdered from (change ∷ changes) = (from ≤ change.at) × IsOrdered change.at changes

  -- The instant lies in the interval of validity, which is open at its end.
  pub is_valid : ℕ → Claim → Bool
  is_valid t c = leb c.valid_from t && elim c.invalidated_at [ none ↦ true | some end ↦ ltb t end ]

  -- The value that the last change up to an instant reported.
  pub value_at : ℕ → String → List Change → String
  value_at t value [] = value
  value_at t value (change ∷ changes) =
      let later = value_at t change.new_value changes in if leb change.at t then later else value

  -- Where the first version is not closed and the changes come in the order of time, however many they
  -- are: at every instant from the start of the first version on exactly one version is valid, and
  -- its value is what the last change up to that instant reported; before it there is none.
  pub versions-value_at :
      (c : Claim) (changes : List Change) (t : ℕ)
      → c.invalidated_at ≡ none
      → IsOrdered c.valid_from changes
      → map (λ v. v.value) (keep (is_valid t) (versions c changes))
        ≡ (if leb c.valid_from t then value_at t c.value changes ∷ [] else [])
  unfolding versions is_valid value_at retract close succeed
  versions-value_at c [] t unclosed ordered = ground arith
  versions-value_at c (change ∷ changes) t unclosed ordered =
      let r = retract c change.new_value change.reason change.at none change.source_id in
      ground (arith, versions-value_at r.successor changes t refl ordered.1, ordered.0)
