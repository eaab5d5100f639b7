-- ===== src/Spine/Schema.antt =====
-- lib/schema.py: the types that the gates of the spine read. Fields that none of these gates reads
-- (confidence, the agent that extracted a claim) are left out. A name that is matched by
-- its prefix is the list of its code points.
use unwind.Base.{ℕ, String, Bool, false, not, List, Option, none, some}
use unwind.Base.Int.{ℤ}
use unwind.Base.Text.{Text, codes, same_text}

pub data ClaimType : Type 0 where
  numeric temporal contractual regulatory relational : ClaimType

pub data ClaimStatus : Type 0 where
  live retracted tombstoned : ClaimStatus

pub record FalsificationPredicate : Type 0 where
  pub op : Text
  pub unresolvable_reason : Option String

-- `machine_checkable`
unfoldable pub is_machine_checkable : FalsificationPredicate → Bool
is_machine_checkable p = elim p.unresolvable_reason [
  | none ↦ not (same_text p.op (codes "unparseable"))
  | some _ ↦ false
]

-- What was said when a claim was closed: a given text, or that the world moved from one value to
-- another.
pub data InvalidationReason : Type 0 where
  given : String → InvalidationReason
  world_changed : Text → String → String → InvalidationReason

pub record Claim : Type 0 where
  pub claim_id : String
  pub type : ClaimType
  pub canonical : Text
  -- `str(value)`
  pub value : String
  pub unit : Option String
  pub source_id : String
  pub falsified_when : FalsificationPredicate
  pub extracted_at : ℕ
  pub valid_from : ℕ
  pub invalidated_at : Option ℕ
  pub invalidation_reason : Option InvalidationReason
  pub authority_scope : List String
  pub status : ClaimStatus

pub record Source : Type 0 where
  pub source_id : String
  pub name : String
  pub authority : List Text

pub data Reversibility : Type 0 where
  idempotent compensable irreversible unknown : Reversibility

pub record ExternalEffect : Type 0 where
  pub connector : String
  pub op : String
  pub ref : String
  pub reversibility : Reversibility
  pub occurred_at : ℕ
  pub amount_minor : Option ℤ
  pub currency : Option String

pub data ConclusionKind : Type 0 where
  quote order plan promise approval price standing_price framework_promise long_lead_order :
      ConclusionKind

unfoldable pub kind_value : ConclusionKind → Text
kind_value ConclusionKind.quote = codes "quote"
kind_value ConclusionKind.order = codes "order"
kind_value ConclusionKind.plan = codes "plan"
kind_value ConclusionKind.promise = codes "promise"
kind_value ConclusionKind.approval = codes "approval"
kind_value ConclusionKind.price = codes "price"
kind_value ConclusionKind.standing_price = codes "standing_price"
kind_value ConclusionKind.framework_promise = codes "framework_promise"
kind_value ConclusionKind.long_lead_order = codes "long_lead_order"

pub record Conclusion : Type 0 where
  pub conclusion_id : String
  pub kind : ConclusionKind
  pub decided_at : ℕ
  pub owner_principal : String
  pub premise_ids : List String
  pub external_effects : List ExternalEffect
  pub effects_recorded : Bool
  pub committed_lead_days : Option ℤ
  pub closes_at : Option ℕ
  pub emits_claim_id : Option String
