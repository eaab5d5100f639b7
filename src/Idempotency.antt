-- ===== src/Idempotency.antt =====
-- lib/idempotency.py: a consumer that drops redelivered messages. The handler changes a state of any
-- type; a set of keys that were seen is the list of them.
mod Tests
use unwind.Base.{
  ℕ, zero, suc, ◌+◌, ◌≡◌, refl, String, Bool, true, false, List, [], ◌∷◌, if◌then◌else◌, arith,
  contains, length, Bool-cases, inl, inr, ap, ◌∙◌,
}
use unwind.Base.Text.{join}
use unwind.Base.Dict.{firsts}

pub record Message : Type 0 where
  pub topic : String
  pub dedup_key : String

-- `InMemorySeenSet.claim`: whether the key was claimed, and the keys that are seen after it.
pub claim : List String → String → Bool × List String
claim seen key = if contains key seen then (false, seen) else (true, key ∷ seen)

unfoldable pub key_of : String → Message → String
key_of name m = join name (join ":" m.dedup_key)

pub record Consumer {ℓ} (S : Type ℓ) : Type ℓ where
  pub state : S
  pub seen : List String
  pub delivered : ℕ
  pub suppressed : ℕ

module _ {ℓ} {S : Type ℓ} (handler : S → Message → S) (name : String) where
  -- `__call__`
  consume : Consumer S → Message → Consumer S
  consume c m =
      let claimed = claim c.seen (key_of name m) in
      if claimed.0
      then record {
        state = handler c.state m;
        seen = claimed.1;
        delivered = suc c.delivered;
        suppressed = c.suppressed;
      }
      else record {
        state = c.state;
        seen = claimed.1;
        delivered = c.delivered;
        suppressed = suc c.suppressed;
      }

  pub consume_all : Consumer S → List Message → Consumer S
  consume_all c [] = c
  consume_all c (m ∷ ms) = consume_all (consume c m) ms

  -- The handler, on one message after another.
  pub handle_all : S → List Message → S
  handle_all s [] = s
  handle_all s (m ∷ ms) = handle_all (handler s m) ms

  abbrev after_seen : Consumer S → Message → Consumer S
  after_seen c m = record {
    state = c.state;
    seen = c.seen;
    delivered = c.delivered;
    suppressed = suc c.suppressed;
  }

  consume-seen :
      (c : Consumer S) (m : Message)
      → contains (key_of name m) c.seen ≡ true
      → consume c m ≡ after_seen c m
  unfolding consume claim
  consume-seen c m h = rw h refl

  abbrev after_new : Consumer S → Message → Consumer S
  after_new c m = record {
    state = handler c.state m;
    seen = key_of name m ∷ c.seen;
    delivered = suc c.delivered;
    suppressed = c.suppressed;
  }

  consume-new :
      (c : Consumer S) (m : Message)
      → contains (key_of name m) c.seen ≡ false
      → consume c m ≡ after_new c m
  unfolding consume claim
  consume-new c m h = rw h refl

  -- Over any sequence of deliveries, in any order and with any repetitions, the handler runs exactly on
  -- the first message of each key that was not seen before, in their order: its state is what these
  -- messages alone make of it, as many are counted as delivered, and the rest as suppressed.
  pub consume_all-firsts :
      (c : Consumer S) (ms : List Message)
      → let new = firsts (key_of name) c.seen ms in
        ((consume_all c ms).state ≡ handle_all c.state new)
        × ((consume_all c ms).delivered ≡ c.delivered + length new)
        × ((consume_all c ms).delivered + (consume_all c ms).suppressed
            ≡ c.delivered + c.suppressed + length ms)
  unfolding consume_all handle_all firsts
  consume_all-firsts c [] = (refl, ground arith, ground arith)
  consume_all-firsts c (m ∷ ms) = elim (Bool-cases (contains (key_of name m) c.seen)) [
    | inl h ↦
        let one = consume-seen c m h in
        let rest = consume_all-firsts (after_seen c m) ms in
        rw h (
          ap (λ d. (consume_all d ms).state) one ∙ rest.0,
          ground (arith, ap (λ d. (consume_all d ms).delivered) one, rest.1),
          ground (
            arith,
            ap (λ d. (consume_all d ms).delivered + (consume_all d ms).suppressed) one,
            rest.2,
          ),
        )
    | inr h ↦
        let one = consume-new c m h in
        let rest = consume_all-firsts (after_new c m) ms in
        rw h (
          ap (λ d. (consume_all d ms).state) one ∙ rest.0,
          ground (arith, ap (λ d. (consume_all d ms).delivered) one, rest.1),
          ground (
            arith,
            ap (λ d. (consume_all d ms).delivered + (consume_all d ms).suppressed) one,
            rest.2,
          ),
        )
  ]
