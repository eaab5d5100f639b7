-- ===== src/Settle/Pipeline/Drafting.antt =====
-- settle/pipeline.py: what a draft says of a commitment, its evidence, its old and new summary, and the
-- id of the obligation. A summary is the data that it interpolates.
use unwind.Base.{ℕ, String, List, [], ◌∷◌, ◌++◌, Option, none, some, map}
use unwind.Base.Int.{ℤ, pos, ◌+ℤ◌}
use unwind.Base.Text.{join}
use unwind.Spine.Schema.{Conclusion}
use unwind.Court.Schema.{Evidence}
use unwind.Court.Team.{Verdict}
use unwind.Settle.Cartography.{Wording}

-- `_evidence_for`
unfoldable pub lead_evidence : Option ℤ → List Evidence
lead_evidence none = []
lead_evidence (some days) = Evidence.committed_lead days ∷ []

unfoldable pub closing_evidence : Option ℕ → List Evidence
closing_evidence none = []
closing_evidence (some at) = Evidence.closing at ∷ []

unfoldable pub evidence_for : Conclusion → List Evidence
evidence_for c =
    lead_evidence c.committed_lead_days
    ++ closing_evidence c.closes_at
    ++ map (λ e. Evidence.sent e.connector e.op e.ref) c.external_effects

-- `_old_summary`
unfoldable pub old_summary : Conclusion → Wording
old_summary c = Wording.on_record c.kind c.conclusion_id c.committed_lead_days c.decided_at

-- `conclusion.committed_lead_days or 0`
unfoldable pub days_or_zero : Option ℤ → ℤ
days_or_zero none = pos 0
days_or_zero (some days) = days

-- `_new_summary`, for the shock of the verdict, if there is one.
unfoldable pub new_summary : Conclusion → Option ℤ → Wording
new_summary c none = Wording.under_review c.conclusion_id
new_summary c (some shock) = Wording.moved shock (days_or_zero c.committed_lead_days +ℤ shock)

unfoldable pub shock_of : {Float : Type 0} → Option (Verdict Float) → Option ℤ
shock_of none = none
shock_of (some v) = v.shock_days

unfoldable pub slack_of : {Float : Type 0} → Option (Verdict Float) → Option ℤ
slack_of none = none
slack_of (some v) = v.slack_days

-- The obligation's id, `f"obl_{repair_id}_{conclusion_id}"`.
unfoldable pub obligation_id_of : String → String → String
obligation_id_of repair_id conclusion_id = join "obl_" (join repair_id (join "_" conclusion_id))
