-- ===== src/Idempotency/Tests.antt =====
-- The theorem on a consumer at a redelivered message.
use unwind.Base.{◌+◌, ◌≡◌, List, [], ◌∷◌, length}
use unwind.Base.Dict.{firsts}
use unwind.Idempotency.{Message, Consumer, consume_all, handle_all, key_of, consume_all-firsts}

abbrev message : Message
message = record { topic = "obligation.raised"; dedup_key = "o-1" }

abbrev other : Message
other = record { topic = "obligation.raised"; dedup_key = "o-2" }

abbrev fresh : Consumer (List Message)
fresh = record { state = []; seen = []; delivered = 0; suppressed = 0 }

abbrev note : List Message → Message → List Message
note ms m = m ∷ ms

abbrev deliveries : List Message
deliveries = message ∷ other ∷ message ∷ []

consume_all-firsts_example :
    let new = firsts (key_of "raiser") [] deliveries in
    ((consume_all note "raiser" fresh deliveries).state ≡ handle_all note "raiser" [] new)
    × ((consume_all note "raiser" fresh deliveries).delivered ≡ 0 + length new)
    × ((consume_all note "raiser" fresh deliveries).delivered
          + (consume_all note "raiser" fresh deliveries).suppressed
        ≡ 0 + 0 + length deliveries)
consume_all-firsts_example = consume_all-firsts note "raiser" fresh deliveries
