-- ===== src/Spine/Authority.antt =====
-- spine/authority.py: whether a source may retract a claim. A reason keeps the values that the
-- source's message interpolates; `checked_at` is the clock's reading.
use unwind.Base.{
  ℕ, String, ◌≡◌, ◌↔◌, refl, Bool, true, false, ◌||◌, List, [], Option, none, some, any, find,
  contains, arith, if◌then◌else◌,
}
use mathlib.Core.Bool.{false≢true}
use unwind.Base.Text.{Text, starts_with}
use unwind.Spine.Schema.{ClaimStatus, Claim, Source}

pub data AuthorityReason : Type 0 where
  source_has_standing source_in_claim_scope no_such_source no_such_claim source_outside_claim_scope
        claim_not_live :
      AuthorityReason

pub record AuthorityDecision : Type 0 where
  pub allowed : Bool
  pub reason_code : AuthorityReason
  pub matched : Option Text
  pub source_id : String
  pub claim_id : String
  pub checked_at : ℕ
  pub source_authority : List Text
  pub claim_authority_scope : List String

pub is_live : ClaimStatus → Bool
is_live ClaimStatus.live = true
is_live _ = false

-- `any(claim.canonical.startswith(prefix) for prefix in source.authority)`
unfoldable pub holds_prefix : Source → Claim → Bool
holds_prefix source claim = any (starts_with claim.canonical) source.authority

abbrev decision :
    Bool
    → AuthorityReason
    → Option Text
    → String
    → String
    → ℕ
    → List Text
    → List String
    → AuthorityDecision
decision allowed code matched source_id claim_id now authority scope = record {
  allowed = allowed;
  reason_code = code;
  matched = matched;
  source_id = source_id;
  claim_id = claim_id;
  checked_at = now;
  source_authority = authority;
  claim_authority_scope = scope;
}

pub check_authority : Option Source → Option Claim → String → String → ℕ → AuthorityDecision
check_authority none claim source_id claim_id now =
    decision false AuthorityReason.no_such_source none source_id claim_id now [] []
check_authority (some source) none source_id claim_id now =
    decision false AuthorityReason.no_such_claim none source_id claim_id now source.authority []
check_authority (some source) (some claim) source_id claim_id now =
    let decide = λ (allowed : Bool) (code : AuthorityReason) (matched : Option Text).
      decision allowed code matched source_id claim_id now source.authority claim.authority_scope in
    if is_live claim.status
    then (if contains source_id claim.authority_scope
        then decide true AuthorityReason.source_in_claim_scope none
        else if holds_prefix source claim
        then decide true AuthorityReason.source_has_standing
            (find (starts_with claim.canonical) source.authority)
        else decide false AuthorityReason.source_outside_claim_scope none)
    else decide false AuthorityReason.claim_not_live none

-- The standing of a known source over a known, live claim.
pub data HasStanding (source : Option Source) (claim : Option Claim) (source_id : String)
    : Type 0 where
  stands :
      (s : Source) (c : Claim)
      → source ≡ some s
      → claim ≡ some c
      → c.status ≡ ClaimStatus.live
      → (contains source_id c.authority_scope || holds_prefix s c) ≡ true
      → HasStanding source claim source_id

pub live-is_live : is_live ClaimStatus.live ≡ true
unfolding is_live
live-is_live = refl

pub live_lem : (s : ClaimStatus) → is_live s ≡ true → s ≡ ClaimStatus.live
unfolding is_live
live_lem ClaimStatus.live h = refl
live_lem ClaimStatus.retracted h = cc h
live_lem ClaimStatus.tombstoned h = cc h

standing_allows :
    (source : Option Source) (claim : Option Claim) (source_id claim_id : String) (now : ℕ)
    → HasStanding source claim source_id
    → (check_authority source claim source_id claim_id now).allowed ≡ true
unfolding check_authority is_live
standing_allows source claim source_id claim_id now (stands s c e f l p) =
    let live : is_live c.status ≡ true = rw l refl in rw (e, f) (ground (arith, p, live))

allowed_stands :
    (source : Option Source) (claim : Option Claim) (source_id claim_id : String) (now : ℕ)
    → (check_authority source claim source_id claim_id now).allowed ≡ true
    → HasStanding source claim source_id
unfolding check_authority
allowed_stands none claim source_id claim_id now h = absurd (false≢true h)
allowed_stands (some s) none source_id claim_id now h = absurd (false≢true h)
allowed_stands (some s) (some c) source_id claim_id now h =
    stands s c refl refl (live_lem c.status (ground (arith, h))) (ground (arith, h))

-- A retraction is allowed exactly when the source and the claim are known, the claim is live, and
-- the claim names the source or one of the source's prefixes covers the claim's canonical name: no
-- missing information ever allows.
pub check_authority-HasStanding :
    (source : Option Source) (claim : Option Claim) (source_id claim_id : String) (now : ℕ)
    → ((check_authority source claim source_id claim_id now).allowed ≡ true)
      ↔ HasStanding source claim source_id
check_authority-HasStanding source claim source_id claim_id now = (
  allowed_stands source claim source_id claim_id now,
  standing_allows source claim source_id claim_id now,
)
