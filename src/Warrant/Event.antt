-- ===== src/Warrant/Event.antt =====
-- warrant/ledger.py: the vocabulary and the event. A `datetime` in UTC is the number of microseconds
-- since an epoch at midnight; `.date()` is the number of whole days.
use unwind.Base.{ℕ, ◌/◌, String, Bool, true, false, Option, ltb, leb, if◌then◌else◌}

pub data EventKind : Type 0 where
  mint burn spend decay challenge : EventKind

pub data Provenance : Type 0 where
  earned synthetic : Provenance

-- `amount_bp` is a natural: `__post_init__` refuses a negative one (see `checked_amount`).
pub record WarrantEvent : Type 0 where
  pub event_id : String
  pub principal : String
  pub capability : String
  pub risk_class : String
  pub kind : EventKind
  pub amount_bp : ℕ
  pub provenance : Provenance
  pub case_id : Option String
  pub reason : String
  pub at : ℕ
  pub seq : ℕ

unfoldable pub date : ℕ → ℕ
date at = at / 86400000000

-- The sort key `(e.at, e.seq)`.
unfoldable pub event_le : WarrantEvent → WarrantEvent → Bool
event_le e f = if ltb e.at f.at then true else if ltb f.at e.at then false else leb e.seq f.seq
