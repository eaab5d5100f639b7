-- ===== src/Settle/Cartography.antt =====
-- settle/cartography.py: who was told what, and when. The counterparty's name is the list of its
-- code points, and the telemetry span is left out.
use unwind.Base.{
  ℕ, ◌≡◌, refl, String, true, List, [], ◌∷◌, ◌++◌, if◌then◌else◌, arith, map, any, length, keep,
}
use unwind.Base.Text.{Text, codes, same_text}
use unwind.Spine.Schema.{ExternalEffect, Conclusion, ConclusionKind}
use unwind.Base.{Option}
use unwind.Base.Int.{ℤ}

-- What a counterparty was or is to be told: the data that the text interpolates.
pub data Wording : Type 0 where
  on_record : ConclusionKind → String → Option ℤ → ℕ → Wording
  under_review : String → Wording
  moved : ℤ → ℤ → Wording
  drafted : Text → Wording
  undrafted : ConclusionKind → String → Option ℤ → Option ℤ → Wording

pub record Telling : Type 0 where
  pub counterparty : Text
  pub told : Wording
  pub told_at : ℕ
  pub must_now_be_told : Wording
  pub effect_ref : String
  pub connector : String

pub record CounterpartyMap : Type 0 where
  pub conclusion_id : String
  pub tellings : List Telling

-- `seen.setdefault(name, None)`: an insertion-ordered dictionary keeps a key's first place.
unfoldable pub set_default : Text → List Text → List Text
set_default name seen = if any (same_text name) seen then seen else seen ++ name ∷ []

collect : List Text → List Telling → List Text
collect seen [] = seen
collect seen (t ∷ ts) = collect (set_default t.counterparty seen) ts

-- The property `counterparties`.
pub counterparties : CounterpartyMap → List Text
counterparties m = collect [] m.tellings

pub for_counterparty : CounterpartyMap → Text → List Telling
for_counterparty m name = keep (λ t. same_text t.counterparty name) m.tellings

unfoldable pub counterparty_of : Conclusion → Text
counterparty_of conclusion = codes "counterparty::" ++ codes conclusion.conclusion_id

tell : Text → Wording → Wording → ExternalEffect → Telling
tell who old_summary new_summary effect = record {
  counterparty = who;
  told = old_summary;
  told_at = effect.occurred_at;
  must_now_be_told = new_summary;
  effect_ref = effect.ref;
  connector = effect.connector;
}

pub map_counterparties : Conclusion → Wording → Wording → CounterpartyMap
map_counterparties conclusion old_summary new_summary = record {
  conclusion_id = conclusion.conclusion_id;
  tellings =
      map (tell (counterparty_of conclusion) old_summary new_summary) conclusion.external_effects;
}

pub same_text_refl : (s : Text) → same_text s s ≡ true
unfolding same_text
same_text_refl [] = refl
same_text_refl (c ∷ s) = ground (arith, same_text_refl s)

collect-known :
    (who : Text) (old new : Wording) (es : List ExternalEffect)
    → collect (who ∷ []) (map (tell who old new) es) ≡ who ∷ []
unfolding collect set_default tell
collect-known who old new [] = refl
collect-known who old new (e ∷ es) =
    ground (arith, same_text_refl who, collect-known who old new es)

keep_all :
    (who : Text) (old new : Wording) (es : List ExternalEffect)
    → length (keep (λ t. same_text t.counterparty who) (map (tell who old new) es)) ≡ length es
unfolding tell
keep_all who old new [] = refl
keep_all who old new (e ∷ es) = ground (arith, same_text_refl who, keep_all who old new es)

-- The counterparties of a map: none where nothing left the building, and else one.
abbrev pub sole_counterparty : Conclusion → List ExternalEffect → List Text
sole_counterparty conclusion [] = []
sole_counterparty conclusion (e ∷ es) = counterparty_of conclusion ∷ []

tellings_lem :
    (conclusion : Conclusion) (old new : Wording) (es : List ExternalEffect)
    → collect [] (map (tell (counterparty_of conclusion) old new) es)
      ≡ sole_counterparty conclusion es
unfolding collect set_default tell
tellings_lem conclusion old new [] = refl
tellings_lem conclusion old new (e ∷ es) = collect-known (counterparty_of conclusion) old new es

-- A commitment with external effects has one counterparty, who is given one telling for each
-- effect, and a commitment without any has none.
pub map_counterparties-sole :
    (conclusion : Conclusion) (old new : Wording)
    → let m = map_counterparties conclusion old new in
      (counterparties m ≡ sole_counterparty conclusion conclusion.external_effects)
      × (length (for_counterparty m (counterparty_of conclusion))
          ≡ length conclusion.external_effects)
unfolding map_counterparties counterparties for_counterparty
map_counterparties-sole conclusion old new = (
  tellings_lem conclusion old new conclusion.external_effects,
  keep_all (counterparty_of conclusion) old new conclusion.external_effects,
)
