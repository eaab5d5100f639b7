-- ===== src/Tower/Memory/Tests.antt =====
-- The theorems on decision memory at the first two entries of a case.
use Prim.Native.Char.{code}
use mathlib.Core.Bool.{false≢true}
use unwind.Base.{
  zero, suc, ap, sym, Bool, ◌==◌, if◌then◌else◌, ℕ, ◌≡◌, refl, String, true, false, [], ◌∷◌, ◌++◌,
  none, ok, text_eq,
}
use unwind.Base.Text.{join, codes, same_text, strip, lower, leading_letters}
use unwind.Tower.Schema.{MemoryEntryKind}
use unwind.Tower.Memory.{
  Memory, write_entry, get_case_chain, concurring, record_human_concurrence, record_countersign,
}
use unwind.Tower.Memory.Chain.{IsInjective, IsNumbered, write_entry-chain, record_countersign-meets}
use unwind.Warrant.Ledger.Preconditions.{
  has_valid_mint_preconditions, is_gemini_family, family_root,
}

-- The case, after a mark for each number below the entry's.
id_of : String → ℕ → String
id_of case_id zero = join "#" case_id
id_of case_id (suc n) = join "x" (id_of case_id n)

after_mark : String → String
after_mark String.[] = ""
after_mark (String.◌∷◌ c s) = s

is_last_mark : String → Bool
is_last_mark String.[] = false
is_last_mark (String.◌∷◌ c s) = code c == b'#'

id_of-IsInjective : IsInjective id_of
unfolding id_of after_mark is_last_mark join
id_of-IsInjective c d zero zero e = (ap after_mark e, refl)
id_of-IsInjective c d zero (suc k) e = absurd (false≢true (sym (ap is_last_mark e)))
id_of-IsInjective c d (suc n) zero e = absurd (false≢true (ap is_last_mark e))
id_of-IsInjective c d (suc n) (suc k) e =
    let rest = id_of-IsInjective c d n k (ap after_mark e) in (rest.0, ap suc rest.1)

abbrev empty : Memory
empty = record { counters = []; entries = [] }

empty-IsNumbered : IsNumbered id_of empty
unfolding IsNumbered
empty-IsNumbered = tt

write_entry-chain_example :
    let w = write_entry id_of "case-1" MemoryEntryKind.human_decision concurring none 5 empty in
    ((i : String)
      → get_case_chain i w.1
        ≡ get_case_chain i empty ++ (if text_eq "case-1" i then w.0 ∷ [] else []))
    × IsNumbered id_of w.1
write_entry-chain_example =
    write_entry-chain id_of "case-1" MemoryEntryKind.human_decision concurring none 5 empty
      id_of-IsInjective empty-IsNumbered

gemma_lem : is_gemini_family (codes "gemma-3") ≡ false
unfolding is_gemini_family family_root same_text strip lower leading_letters
gemma_lem = refl

record_countersign-meets_example :
    has_valid_mint_preconditions [] (
      get_case_chain "case-1" (
        record_countersign id_of "case-1" true
          (codes "gemma-3")
          false
          none
          6
          (record_human_concurrence id_of "case-1" none 5 empty)))
    ≡ ok tt
record_countersign-meets_example =
    record_countersign-meets id_of "case-1" (codes "gemma-3") false none none 5 6 [] empty
      id_of-IsInjective empty-IsNumbered gemma_lem refl
