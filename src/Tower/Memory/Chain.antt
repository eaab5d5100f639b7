-- ===== src/Tower/Memory/Chain.antt =====
-- tower/memory.py: a chain only grows, at its end, and what a mint wants of it, once there, stays.
use unwind.Base.{
  ℕ, ◌+◌, ◌<◌, ◌≡◌, refl, String, Bool, true, false, not, ◌&&◌, List, [], ◌∷◌, ◌++◌, Option,
  if◌then◌else◌, keep, any, any-append, All, All-append, All-keep_of, keep-append, text_eq,
  text_eq_iff, arith, ok, ap, ◌∙◌, sym, Bool-cases, inl, inr,
}
use unwind.Base.Text.{Text}
use unwind.Base.Dict.{lookup-put}
use unwind.Base.Sorting.{sort_by, sort_by-last}
use unwind.Simulation.{Environ}
use unwind.Tower.Schema.{MemoryEntry, MemoryEntryKind, Payload}
use unwind.Tower.Memory.{
  Memory, count_of, counter_of, next_seq, entry_of, set_entry, write_entry, seq_le, get_case_chain,
  concurring, record_human_concurrence, record_countersign,
}
use mathlib.Core.List.{append-nil}
use mathlib.Core.Path.{subst}
use native.Mathlib.Nat.{lt_irrefl}
use unwind.Warrant.Ledger.Preconditions.{
  has_valid_mint_preconditions, concurs, countersigns, is_gemini_family, simulated_mint_permitted,
}

-- Different cases and numbers have different ids.
abbrev pub IsInjective : (String → ℕ → String) → Type 0
IsInjective entry_id = (c d : String) (n k : ℕ) → entry_id c n ≡ entry_id d k → (c ≡ d) × (n ≡ k)

-- Every entry's number is below the counter of its case, and its id is the one of both.
abbrev pub IsCounted : (String → ℕ → String) → Memory → MemoryEntry → Type 0
IsCounted entry_id m e = (e.seq < counter_of m e.case_id) × (e.entry_id ≡ entry_id e.case_id e.seq)

unfoldable pub IsNumbered : (String → ℕ → String) → Memory → Type 0
IsNumbered entry_id m = All (IsCounted entry_id m) m.entries

-- An id that no entry has is that of a new document, which is streamed after the others.
set_entry-new :
    (e : MemoryEntry) (es : List MemoryEntry)
    → All (λ d. text_eq d.entry_id e.entry_id ≡ false) es
    → set_entry e es ≡ es ++ e ∷ []
unfolding set_entry
set_entry-new e [] h = refl
set_entry-new e (d ∷ es) h = rw h.0 (ap (λ l. d ∷ l) (set_entry-new e es h.1))

-- A number is above those of its case.
counter-next :
    (case_id i : String) (m : Memory)
    → counter_of (next_seq case_id m).1 i
      ≡ (if text_eq i case_id then counter_of m case_id + 1 else counter_of m i)
unfolding counter_of next_seq count_of
counter-next case_id i m =
    ground (arith, lookup-put i case_id (counter_of m case_id + 1) m.counters)

All-imp {κ μ} :
    {P : MemoryEntry → Type κ} {Q : MemoryEntry → Type μ} (es : List MemoryEntry)
    → ((e : MemoryEntry) → P e → Q e)
    → All P es
    → All Q es
All-imp [] f h = tt
All-imp (e ∷ es) f h = (f e h.0, All-imp es f h.1)

module _ (case_id : String) (entry : MemoryEntry) (own : entry.case_id ≡ case_id) where
  is_own : MemoryEntry → Bool
  is_own e = text_eq e.case_id case_id

  -- An entry numbered above those of its case is sorted to the end.
  sorted_last :
      (es : List MemoryEntry)
      → All (λ e. is_own e ≡ true → e.seq < entry.seq) es
      → sort_by seq_le (keep (λ e. text_eq e.case_id case_id) (es ++ entry ∷ []))
        ≡ sort_by seq_le (keep (λ e. text_eq e.case_id case_id) es) ++ entry ∷ []
  unfolding is_own
  sorted_last es h =
      let p = λ (e : MemoryEntry). text_eq e.case_id case_id in
      let mine : p entry ≡ true = (text_eq_iff entry.case_id case_id).1 own in
      let kept : keep p (es ++ entry ∷ []) ≡ keep p es ++ entry ∷ [] =
        keep-append p es (entry ∷ [])
        ∙ ap (λ b. keep p es ++ (if b then entry ∷ [] else [])) mine in
      ap (sort_by seq_le) kept
      ∙ sort_by-last seq_le entry (keep p es) []
          (All-keep_of (λ y. seq_le y entry ≡ true) p es
            (All-imp es (λ e k i. ground (arith, k i)) h))
          tt
      ∙ ap (λ l. sort_by seq_le l ++ entry ∷ []) (append-nil (keep p es))

module _ (entry_id : String → ℕ → String) (case_id : String) (kind : MemoryEntryKind)
    (payload : Payload) (parent_id : Option String) (now : ℕ) (m : Memory) where
  counter-write :
      (i : String)
      → counter_of (write_entry entry_id case_id kind payload parent_id now m).1 i
        ≡ (if text_eq i case_id then counter_of m case_id + 1 else counter_of m i)
  unfolding counter_of write_entry
  counter-write i = counter-next case_id i m

  written_case : (write_entry entry_id case_id kind payload parent_id now m).0.case_id ≡ case_id
  unfolding write_entry
  written_case = refl

  earlier :
      (e : MemoryEntry)
      → IsCounted entry_id m e
      → text_eq e.case_id case_id ≡ true
      → e.seq < (write_entry entry_id case_id kind payload parent_id now m).0.seq
  unfolding write_entry next_seq
  earlier e k i = rw ((text_eq_iff e.case_id case_id).0 i) at k.0

  still-IsCounted :
      (e : MemoryEntry)
      → IsCounted entry_id m e
      → IsCounted entry_id (write_entry entry_id case_id kind payload parent_id now m).1 e
  still-IsCounted e k =
      (ground (arith, k.0, counter-write e.case_id, text_eq_iff e.case_id case_id), k.1)

  written-IsCounted :
      let w = write_entry entry_id case_id kind payload parent_id now m in
      IsCounted entry_id w.1 w.0
  unfolding write_entry next_seq
  written-IsCounted = (ground (arith, counter-write case_id, text_eq_iff case_id case_id), refl)

  module _ (injective : IsInjective entry_id) where
    is_new :
        (e : MemoryEntry)
        → IsCounted entry_id m e
        → text_eq e.entry_id (entry_id case_id (counter_of m case_id)) ≡ false
    is_new e h = elim (Bool-cases (text_eq e.entry_id (entry_id case_id (counter_of m case_id)))) [
      | inl same ↦
          let both =
            injective e.case_id case_id e.seq (counter_of m case_id)
              (sym h.1 ∙ (text_eq_iff e.entry_id _).0 same) in
          absurd (lt_irrefl _ (rw (both.0, both.1) at h.0))
      | inr other ↦ other
    ]

    appended :
        IsNumbered entry_id m
        → let w = write_entry entry_id case_id kind payload parent_id now m in
          w.1.entries ≡ m.entries ++ w.0 ∷ []
    unfolding IsNumbered write_entry next_seq
    appended numbered =
        set_entry-new (write_entry entry_id case_id kind payload parent_id now m).0 m.entries
          (All-imp m.entries is_new numbered)

    -- The chain of the case that is written to, those of the others, and the numbers.
    chain_cases :
        IsNumbered entry_id m
        → let w = write_entry entry_id case_id kind payload parent_id now m in
          (get_case_chain case_id w.1 ≡ get_case_chain case_id m ++ w.0 ∷ [])
          × ((i : String) → text_eq case_id i ≡ false → get_case_chain i w.1 ≡ get_case_chain i m)
          × IsNumbered entry_id w.1
    unfolding IsNumbered get_case_chain is_own
    chain_cases numbered =
        let w = write_entry entry_id case_id kind payload parent_id now m in
        let grown = appended numbered in
        let chain = λ (i : String) (es : List MemoryEntry).
          sort_by seq_le (keep (λ e. text_eq e.case_id i) es) in
        (
          ap (chain case_id) grown
              ∙ sorted_last case_id w.0 (written_case) m.entries
                  (All-imp m.entries (λ e k i. earlier e k i) numbered),
          λ i other.
              let p = λ (e : MemoryEntry). text_eq e.case_id i in
              ap (chain i) grown
              ∙ ap (sort_by seq_le) (
                  keep-append p m.entries (w.0 ∷ [])
                  ∙ ap (λ b. keep p m.entries ++ (if b then w.0 ∷ [] else []))
                      (ap (λ c. text_eq c i) written_case ∙ other)
                  ∙ append-nil (keep p m.entries)),
          subst (λ es. All (IsCounted entry_id w.1) es) (sym grown)
              (All-append (IsCounted entry_id w.1) m.entries (w.0 ∷ [])
                (All-imp m.entries still-IsCounted numbered) (written-IsCounted, tt)),
        )

    -- From a memory in which the number of each entry is below the counter of its case and its id is that
    -- of the case and the number, and where different cases and numbers have different ids: an entry that
    -- is written stands at the end of its case's chain, after all that was there, unchanged and in
    -- order; no other case's chain changes; and the memory is of that kind again.
    pub write_entry-chain :
        IsNumbered entry_id m
        → let w = write_entry entry_id case_id kind payload parent_id now m in
          ((i : String)
            → get_case_chain i w.1
              ≡ get_case_chain i m ++ (if text_eq case_id i then w.0 ∷ [] else []))
          × IsNumbered entry_id w.1
    write_entry-chain numbered =
        let cases = chain_cases numbered in
        (
          λ i. elim (Bool-cases (text_eq case_id i)) [
            | inl same ↦ rw (same, sym ((text_eq_iff case_id i).0 same)) cases.0
            | inr other ↦ rw other (cases.1 i other ∙ sym (append-nil (get_case_chain i m)))
          ],
          cases.2,
        )

abbrev agreeing : Text → Bool → Payload
agreeing family simulated = record {
  concurs = false;
  agrees = true;
  family = family;
  simulated = simulated;
}

is_ok-preconditions :
    (env : Environ) (chain : List MemoryEntry)
    → any concurs chain ≡ true
    → any (countersigns env) chain ≡ true
    → has_valid_mint_preconditions env chain ≡ ok tt
unfolding has_valid_mint_preconditions
is_ok-preconditions env chain h k = rw (h, k) refl

any_pair :
    (p q : MemoryEntry → Bool) (chain : List MemoryEntry) (x y : MemoryEntry)
    → p x ≡ true
    → q y ≡ true
    → (any p ((chain ++ x ∷ []) ++ y ∷ []) ≡ true) × (any q ((chain ++ x ∷ []) ++ y ∷ []) ≡ true)
any_pair p q chain x y h k = (
  ground (arith, h, any-append p (chain ++ x ∷ []) (y ∷ []), any-append p chain (x ∷ [])),
  ground (arith, k, any-append q (chain ++ x ∷ []) (y ∷ [])),
)

concurring_lem :
    (id case_id : String) (parent : Option String) (seq now : ℕ)
    → concurs (entry_of id case_id MemoryEntryKind.human_decision concurring parent seq now) ≡ true
unfolding concurs
concurring_lem id case_id parent seq now = refl

countersigning_lem :
    (id case_id : String) (family : Text) (simulated : Bool) (parent : Option String) (seq now : ℕ)
    → (env : Environ) → is_gemini_family family ≡ false
    → (simulated && not (simulated_mint_permitted env)) ≡ false
    → countersigns env
        (entry_of id case_id MemoryEntryKind.countersign (agreeing family simulated) parent seq now)
      ≡ true
unfolding countersigns
countersigning_lem id case_id family simulated parent seq now env gemini real =
    rw (gemini, real) refl

-- From any memory in which the number of each entry is below the counter of its case and its id is that
-- of the case and the number, and where different cases and numbers have different ids: a human
-- concurrence and then an agreeing countersign of a family that is not Gemini's, real or where a
-- simulated one may mint, meet what a mint wants of the case, whatever else its chain holds.
pub record_countersign-meets :
    (entry_id : String → ℕ → String) (case_id : String) (family : Text) (simulated : Bool)
    (human_parent parent : Option String) (earlier now : ℕ) (env : Environ) (m : Memory)
    → IsInjective entry_id
    → IsNumbered entry_id m
    → is_gemini_family family ≡ false
    → (simulated && not (simulated_mint_permitted env)) ≡ false
    → has_valid_mint_preconditions env (
        get_case_chain case_id (
          record_countersign entry_id case_id true family simulated parent now
            (record_human_concurrence entry_id case_id human_parent earlier m)))
      ≡ ok tt
unfolding record_countersign record_human_concurrence write_entry next_seq
record_countersign-meets entry_id case_id family simulated human_parent parent earlier now env m
      injective numbered gemini real =
    let first =
      chain_cases entry_id case_id MemoryEntryKind.human_decision concurring human_parent earlier m
        injective numbered in
    let after = record_human_concurrence entry_id case_id human_parent earlier m in
    let payload = agreeing family simulated in
    let second =
      chain_cases entry_id case_id MemoryEntryKind.countersign payload parent now after injective
        first.2 in
    let last = write_entry entry_id case_id MemoryEntryKind.countersign payload parent now after in
    let both =
      any_pair concurs (countersigns env) (get_case_chain case_id m)
        (write_entry entry_id case_id MemoryEntryKind.human_decision concurring human_parent earlier
          m).0
        last.0
        (concurring_lem (entry_id case_id (counter_of m case_id)) case_id human_parent
          (counter_of m case_id) earlier)
        (countersigning_lem (entry_id case_id (counter_of after case_id)) case_id family simulated
          parent (counter_of after case_id) now env gemini real) in
    ap (has_valid_mint_preconditions env) (second.0 ∙ ap (λ l. l ++ last.0 ∷ []) first.0)
    ∙ is_ok-preconditions env _ both.0 both.1
