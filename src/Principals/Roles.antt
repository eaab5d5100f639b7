-- ===== src/Principals/Roles.antt =====
-- The roles of lib/principals.py, their values, and why each pair must stay apart.
use unwind.Base.{String}

pub data Role : Type 0 where
  rederiver assessor arbiter owner agent : Role

unfoldable pub role_value : Role → String
role_value Role.rederiver = "rederiver"
role_value Role.assessor = "assessor"
role_value Role.arbiter = "arbiter"
role_value Role.owner = "owner"
role_value Role.agent = "agent"

abbrev arbiter_owner : String
arbiter_owner = "an owner ruling on its own commitment is the defendant judging the case"

abbrev arbiter_assessor : String
arbiter_assessor = "the arbiter would be ratifying the materiality call it is meant to weigh"

abbrev arbiter_rederiver : String
arbiter_rederiver = "the arbiter would be ruling on an alternative it authored itself"

abbrev assessor_rederiver : String
assessor_rederiver =
    "grading your own re-derivation makes 'nothing changed' the cheapest self-consistent answer, and that answer is invisible when wrong"

abbrev assessor_owner : String
assessor_owner =
    "an owner grading its own commitment's materiality has an interest in finding it immaterial"

abbrev rederiver_owner : String
rederiver_owner =
    "an owner re-deriving its own commitment will re-derive the answer it already holds"

abbrev agent_arbiter : String
agent_arbiter =
    "a delegated worker that is also the arbiter grades its own dispatch, which is ruling 1.10's failure one layer up the stack"

abbrev agent_owner : String
agent_owner =
    "a delegated worker acting as the commitment owner it was dispatched to serve has an interest in its own task succeeding"

abbrev agent_assessor : String
agent_assessor =
    "a delegated worker grading its own output is the same self-consistency failure as an assessor re-deriving its own commitment"

abbrev agent_rederiver : String
agent_rederiver =
    "a delegated worker that is also the re-deriver it was meant to check collapses two roles the blindness boundary requires apart"

-- `_WHY.get(frozenset({left, right}), …)`: the table is keyed by unordered pairs.
pub why_separate : Role → Role → String
why_separate Role.arbiter Role.owner = arbiter_owner
why_separate Role.owner Role.arbiter = arbiter_owner
why_separate Role.arbiter Role.assessor = arbiter_assessor
why_separate Role.assessor Role.arbiter = arbiter_assessor
why_separate Role.arbiter Role.rederiver = arbiter_rederiver
why_separate Role.rederiver Role.arbiter = arbiter_rederiver
why_separate Role.assessor Role.rederiver = assessor_rederiver
why_separate Role.rederiver Role.assessor = assessor_rederiver
why_separate Role.assessor Role.owner = assessor_owner
why_separate Role.owner Role.assessor = assessor_owner
why_separate Role.rederiver Role.owner = rederiver_owner
why_separate Role.owner Role.rederiver = rederiver_owner
why_separate Role.agent Role.arbiter = agent_arbiter
why_separate Role.arbiter Role.agent = agent_arbiter
why_separate Role.agent Role.owner = agent_owner
why_separate Role.owner Role.agent = agent_owner
why_separate Role.agent Role.assessor = agent_assessor
why_separate Role.assessor Role.agent = agent_assessor
why_separate Role.agent Role.rederiver = agent_rederiver
why_separate Role.rederiver Role.agent = agent_rederiver
why_separate left right = "these roles must stay distinct"
