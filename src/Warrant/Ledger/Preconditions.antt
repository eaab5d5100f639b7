-- ===== src/Warrant/Ledger/Preconditions.antt =====
-- warrant/ledger.py: the two records in decision memory that MINT wants.
use unwind.Base.{Bool, true, false, not, ◌&&◌, List, [], ◌∷◌, Result, ok, err, any, if◌then◌else◌}
use unwind.Base.Text.{Text, codes, same_text, strip, lower, leading_letters}
use unwind.Simulation.{Environ, resolve_policy}
use unwind.Tower.Schema.{MemoryEntryKind, MemoryEntry}
use mathlib.Core.Option.{none}

-- Why MINT is refused before its schedule is read, or because of it.
pub data MintPreconditionError : Type 0 where
  no_human_concurrence no_countersign no_schedule : MintPreconditionError

-- The leading letters of the stripped, lowered name, or all of it when it begins with none.
unfoldable pub family_root : Text → Text
unfolding strip lower leading_letters
family_root model_name =
    let lowered = lower (strip model_name) in
    elim (leading_letters lowered) [ [] ↦ lowered | c ∷ s ↦ c ∷ s ]

unfoldable pub is_gemini_family : Text → Bool
unfolding family_root same_text
is_gemini_family family = same_text (family_root family) (codes "gemini")

is_human_decision : MemoryEntryKind → Bool
is_human_decision MemoryEntryKind.human_decision = true
is_human_decision _ = false

is_countersign : MemoryEntryKind → Bool
is_countersign MemoryEntryKind.countersign = true
is_countersign _ = false

unfoldable pub simulated_mint_permitted : Environ → Bool
unfolding resolve_policy
simulated_mint_permitted env = (resolve_policy env none none).simulated_mint_permitted

unfoldable pub concurs : MemoryEntry → Bool
unfolding is_human_decision
concurs entry = is_human_decision entry.kind && entry.payload.concurs

-- The body of the loop over the chain: whether this entry is a valid countersign.
unfoldable pub countersigns : Environ → MemoryEntry → Bool
unfolding is_countersign
countersigns env entry =
    if not (is_countersign entry.kind)
    then false
    else if not entry.payload.agrees
    then false
    else if is_gemini_family entry.payload.family
    then false
    else not (entry.payload.simulated && not (simulated_mint_permitted env))

unfoldable pub has_valid_mint_preconditions :
    Environ → List MemoryEntry → Result MintPreconditionError (Unit {0})
has_valid_mint_preconditions env chain =
    if not (any concurs chain)
    then err MintPreconditionError.no_human_concurrence
    else if any (countersigns env) chain
    then ok tt
    else err MintPreconditionError.no_countersign
