-- ===== src/Warrant/Ledger/Tests.antt =====
-- The theorems on the operations of warrant/ledger.py at concrete ledgers.
use unwind.Base.{
  ℕ, ◌+◌, ◌-◌, ◌≤◌, ◌<◌, ◌≡◌, ◌≢◌, refl, true, false, none, some, Result, ok, err, arith, text_eq,
  text_eq_iff, any,
}
use unwind.Base.Text.{same_text, strip, lower, leading_letters}
use unwind.Base.Sorting.{insert_by, sort_by}
use unwind.Base.Int.{pos}
use unwind.Warrant.Event.{EventKind, Provenance, WarrantEvent, date}
use unwind.Warrant.Decay.Exact.{decayed}
use unwind.Warrant.Fold.{has_key, is_folded, is_relevant, relevant, apply_event, is_case_challenged}
use unwind.Warrant.Fold.Total.{left_after, replay, balance_at}
use unwind.Warrant.Store.{Db, events_of, has_event_id, counter_of, next_seq}
use unwind.Warrant.Ledger.{
  LedgerError, SpendResult, draft, key_of, read_events, current_balance, append, set_document, mint,
  burn, challenge, get_or_default, spend_or_refuse, checked_amount, append_checked, mint_amount,
  mint_validated,
}
use unwind.Warrant.Ledger.Preconditions.{
  concurs, countersigns, has_valid_mint_preconditions, is_gemini_family, family_root,
}
use unwind.Warrant.Ledger.Appends.{IsFresh, IsSequenced}
use unwind.Warrant.Ledger.Spending.{cost_of, spend_or_refuse-debits}
use unwind.Warrant.Ledger.Outcomes.{Outcome}
use unwind.Warrant.Ledger.History.{
  minting, burning, spending, Step-Outcome, History, begins, then_step,
}
use unwind.Warrant.Ledger.Freezing.{challenge-freezes, mint-ok}
use unwind.Warrant.Ledger.Solvency.{total, credit, debit, history-solvent}
use unwind.Warrant.Sample.{list_store, agent, key, day, chain, empty_db, funded_db, no_environ}

-- The funded ledger: its next id is new, its one event is numbered, and its balance is 300.
w_1-IsFresh : IsFresh list_store "w-1" funded_db
unfolding has_event_id text_eq
w_1-IsFresh = refl

funded-IsSequenced : IsSequenced list_store funded_db
unfolding counter_of text_eq
funded-IsSequenced = (omega arith, tt)

funded_balance : balance_at (events_of list_store funded_db) key day ≡ 300
unfolding balance_at relevant is_relevant has_key is_folded text_eq sort_by insert_by replay
    left_after apply_event decayed date
funded_balance = refl

cost_low : cost_of agent "low" ≡ pos 50
unfolding get_or_default text_eq
cost_low = refl

covers : 50 ≤ balance_at (events_of list_store funded_db) key day
covers = omega (arith, funded_balance)

spend_or_refuse-debits_example :
    let b = balance_at (events_of list_store funded_db) key day in
    let (r, db') =
      spend_or_refuse list_store agent "refund" "low" "refund order 7" none agent.principal day
        "w-1" funded_db in
    (current_balance list_store funded_db key day ≡ ok b)
    × (current_balance list_store db' key day ≡ ok (b - 50))
    × ((s : SpendResult) × (r ≡ ok s) × (s.allowed ≡ true) × (s.balance_before ≡ b))
    × IsSequenced list_store db'
spend_or_refuse-debits_example =
    spend_or_refuse-debits list_store agent "refund" "low" "refund order 7" none day "w-1" funded_db
      50 w_1-IsFresh funded-IsSequenced cost_low covers

-- Without a mint there is nothing to spend.
empty_balance : balance_at (events_of list_store empty_db) key day < 50
unfolding balance_at relevant sort_by replay left_after
empty_balance = omega arith

different : text_eq agent.principal "agent:mallory" ≡ false
unfolding text_eq
different = refl

mallory : agent.principal ≢ "agent:mallory"
mallory h = ground (arith, h, text_eq_iff agent.principal "agent:mallory", different)

-- A case is challenged, and then a burn is recorded.
abbrev challenged_db : Db list_store
challenged_db = (challenge list_store "case-2" key "dispute" day "w-1" funded_db).1

w_2-IsFresh : IsFresh list_store "w-2" challenged_db
unfolding challenge append set_document next_seq has_event_id text_eq
w_2-IsFresh = refl

le_refl : (n : ℕ) → n ≤ n
le_refl n = omega arith

le_add : (n : ℕ) → n ≤ n + n
le_add n = omega arith

abbrev burned_db : Db list_store
burned_db =
    (burn list_store agent "refund" "low" (pos 10) "case-1" "reversed" agent.principal day "w-2"
      challenged_db).1

abbrev one_burn : History list_store challenged_db day burned_db
one_burn = then_step day burned_db (begins day) (le_refl day) (
    burning agent "refund" "low" (pos 10) "case-1" "reversed" agent.principal "w-2" w_2-IsFresh
      refl)

Step-Outcome_example : Outcome list_store day challenged_db burned_db
Step-Outcome_example = Step-Outcome list_store day challenged_db burned_db (
    burning agent "refund" "low" (pos 10) "case-1" "reversed" agent.principal "w-2" w_2-IsFresh
      refl)

challenge-freezes_example :
    mint list_store no_environ agent "refund" "low" "case-2" "concurred" day "w-3" burned_db
    ≡ (err (LedgerError.case_challenged "case-2"), burned_db)
challenge-freezes_example =
    challenge-freezes list_store "case-2" key "dispute" "w-1" day funded_db w_1-IsFresh one_burn
      no_environ agent "refund" "low" "concurred" "w-3" day

-- A history from the empty ledger: a mint, then a spend.
abbrev stamped : WarrantEvent
stamped = draft "w-0" key EventKind.mint 300 Provenance.earned (some "case-2") "concurred" day

abbrev mint_call : Result LedgerError WarrantEvent × Db list_store
mint_call = mint list_store no_environ agent "refund" "low" "case-2" "concurred" day "w-0" empty_db

mint_call-ok : mint_call.0 ≡ ok stamped
unfolding mint is_case_challenged read_events sort_by mint_validated mint_amount append_checked
    checked_amount append set_document next_seq counter_of get_or_default
    has_valid_mint_preconditions concurs countersigns is_gemini_family family_root same_text strip
    lower leading_letters text_eq
mint_call-ok = refl

mint-ok_example :
    (is_case_challenged (events_of list_store empty_db) "case-2" ≡ false)
    × (any concurs (list_store.chain chain "case-2") ≡ true)
    × (any (countersigns no_environ) (list_store.chain chain "case-2") ≡ true)
    × (get_or_default "low" agent.warrant_mint_schedule (pos 0) ≡ pos 300)
    × (1 ≤ 300)
    × (mint_call ≡ (
        let (e, db') =
          append list_store
            (draft "w-0"
              (key_of agent "refund" "low")
              EventKind.mint
              300
              Provenance.earned
              (some "case-2")
              "concurred"
              day)
            empty_db in
        (ok e, db')))
mint-ok_example =
    mint-ok list_store "case-2" no_environ agent "refund" "low" "concurred" "w-0" day empty_db
      stamped mint_call-ok

w_0-IsFresh : IsFresh list_store "w-0" empty_db
unfolding has_event_id
w_0-IsFresh = refl

abbrev minted_db : Db list_store
minted_db = mint_call.1

w_1-IsFresh_later : IsFresh list_store "w-1" minted_db
unfolding mint is_case_challenged read_events sort_by mint_validated mint_amount append_checked
    checked_amount append set_document next_seq counter_of get_or_default
    has_valid_mint_preconditions concurs countersigns is_gemini_family family_root same_text strip
    lower leading_letters text_eq has_event_id
w_1-IsFresh_later = refl

abbrev spent_db : Db list_store
spent_db =
    (spend_or_refuse list_store agent "refund" "low" "refund order 7" none agent.principal
      (day + day) "w-1" minted_db).1

abbrev mint_then_spend : History list_store empty_db (day + day) spent_db
mint_then_spend =
    then_step (day + day) spent_db
      (then_step day minted_db (begins day) (le_refl day)
        (minting no_environ agent "refund" "low" "case-2" "concurred" "w-0" w_0-IsFresh refl))
      (le_add day)
      (spending agent "refund" "low" "refund order 7" none agent.principal "w-1" w_1-IsFresh_later
        refl)

history-solvent_example :
    balance_at (events_of list_store spent_db) key (day + day)
      + total debit (events_of list_store spent_db) key (day + day)
    ≤ total credit (events_of list_store spent_db) key (day + day)
history-solvent_example = history-solvent list_store refl mint_then_spend key
