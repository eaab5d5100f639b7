-- ===== src/Court/Schema.antt =====
-- lib/schema.py: pleas, challenges and rulings. Floats are of a type of their own, with the operations
-- that the court uses; a plea's `discounted` and `weight` fields, which nothing sets, are left out.
use unwind.Base.{ℕ, String, Bool, List, Option}
use unwind.Base.Int.{ℤ}
use unwind.Base.Text.{Text}
use unwind.Spine.Schema.{ConclusionKind}

-- Python's floats, as far as the court computes with them.
pub record Floats : Type 1 where
  pub Float : Type 0
  pub zero : Float
  pub one : Float
  -- The literal 0.4.
  pub unevidenced : Float
  pub times : Float → Float → Float
  pub divide : ℤ → ℤ → Float
  pub min : Float → Float → Float
  pub max : Float → Float → Float
  pub equal : Float → Float → Bool
  pub above : Float → Float → Bool

pub data PleaStance : Type 0 where
  survive_unchanged survive_amended concede dispute_retraction : PleaStance

-- What one commitment is served with. (court/protocol.py)
pub record Brief : Type 0 where
  pub conclusion_id : String
  pub owner_id : String
  pub shock_days : Option ℤ
  pub slack_days : Option ℤ
  pub rederived_lead_days : Option ℤ
  pub contested_resource : Option String

-- A reply of the model, and what it is asked for. (judgment/model.py)
pub record Reply : Type 0 where
  pub available : Bool
  pub text : Text
  pub reason_unavailable : Option String

-- What a party or the arbiter writes: the model's prose, or the arithmetic alone.
pub data Argument : Type 0 where
  drafted : Text → Argument
  no_model : Option String → Argument

-- A fact on the record that an owner may cite.
pub data Evidence : Type 0 where
  committed_lead : ℤ → Evidence
  closing : ℕ → Evidence
  sent : String → String → String → Evidence

pub record Plea (Float : Type 0) : Type 0 where
  pub member_owner_id : String
  pub conclusion_id : String
  pub argument : Argument
  pub claimed_materiality : Option Float
  pub stance : PleaStance
  pub evidence : List Evidence

pub record Challenge : Type 0 where
  pub challenger_owner_id : String
  pub target_owner_id : String
  pub contested_resource : Option String

pub data Decision : Type 0 where
  non_convergent : ℕ → Decision
  decided : ℕ → ℕ → ℕ → Decision

pub record Ruling : Type 0 where
  pub arbiter_id : String
  pub decision : Decision
  pub rationale : Argument
  pub decided_at : ℕ
  pub advisory : Bool
  pub converged : Bool
  pub conceded_conclusion_ids : List String

-- What the model is asked for.
pub data Prompt (Float : Type 0) : Type 0 where
  plea_prompt : String → Option ℤ → Brief → PleaStance → List Evidence → Prompt Float
  ruling_prompt :
      Decision
      → Bool
      → List (String × PleaStance × Float)
      → List (String × Option String)
      → Prompt Float
  draft_prompt : String → ConclusionKind → Option ℤ → Option ℤ → Prompt Float

abbrev pub T2Model : Type 0 → Type 0
T2Model Float = Prompt Float → Reply
