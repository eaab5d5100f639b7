-- ===== src/Settle/Broker/Signing.antt =====
-- settle/broker.py: what waits after any sequence of calls, and the path of an obligation to its
-- signature.
use unwind.Base.{
  ℕ, ◌≡◌, refl, String, Bool, true, false, not, ◌&&◌, ◌||◌, List, [], ◌∷◌, Option, arith, Result,
  ok, err, text_eq, text_eq_iff,
}
use unwind.Base.Text.{Text, codes, starts_with, lower, remove_prefix, has_infix}
use unwind.Base.{sym, ◌++◌}
use unwind.Base.Dict.{has_key, put, pop, has_key-put, has_key-pop}
use unwind.Settle.Cartography.{Wording}
use unwind.Settle.Obligation.{
  Obligation, ObligationStatus, DraftedObligation, is_empty, approver_for, build_obligation, draft,
}
use unwind.Spine.Schema.{Conclusion, ConclusionKind, kind_value}
use unwind.Settle.Broker.{
  Why, SignatureRequest, Outstanding, BrokerError, with_status, approver_of, request_for,
  request_signature, has_agent_marker, record_human_signature,
}

-- The calls that a caller can make of one broker.
pub data Call : Type 0 where
  call_approve : Obligation → Call
  call_request : Obligation → ℕ → ℕ → Why → Call
  call_sign : Obligation → Text → Call

-- What waits after a call: a call that raises changes nothing.
after_request :
    Outstanding → Result BrokerError (SignatureRequest × Obligation × Outstanding) → Outstanding
after_request outstanding (ok (request, o, later)) = later
after_request outstanding (err e) = outstanding

after_signature : Outstanding → Result BrokerError (Obligation × Outstanding) → Outstanding
after_signature outstanding (ok (o, later)) = later
after_signature outstanding (err e) = outstanding

pub after : Outstanding → Call → Outstanding
after outstanding (call_approve o) = outstanding
after outstanding (call_request o unrecoverable_count now why) =
    after_request outstanding (request_signature outstanding o unrecoverable_count now why)
after outstanding (call_sign o human) =
    after_signature outstanding (record_human_signature outstanding o human)

pub after_all : Outstanding → List Call → Outstanding
after_all outstanding [] = outstanding
after_all outstanding (c ∷ calls) = after_all (after outstanding c) calls

-- Whom the broker takes for a human.
is_signatory : Text → Bool
is_signatory human = starts_with human (codes "human::") && not (has_agent_marker human)

-- What a call makes of "the obligation waits".
waits_after : String → Bool → Call → Bool
waits_after id waits (call_approve o) = waits
waits_after id waits (call_request o unrecoverable_count now why) =
    waits || (text_eq id o.obligation_id && not (is_empty (approver_of o)))
waits_after id waits (call_sign o human) =
    waits && not (text_eq id o.obligation_id && is_signatory human)

pub waits_after_all : String → Bool → List Call → Bool
waits_after_all id waits [] = waits
waits_after_all id waits (c ∷ calls) = waits_after_all id (waits_after id waits c) calls

after-waits :
    (id : String) (outstanding : Outstanding) (c : Call)
    → has_key id (after outstanding c) ≡ waits_after id (has_key id outstanding) c
unfolding after waits_after request_signature record_human_signature after_request after_signature
    is_signatory
after-waits id outstanding (call_approve o) = refl
after-waits id outstanding (call_request o unrecoverable_count now why) =
    ground (
      arith,
      has_key-put id o.obligation_id (request_for o unrecoverable_count now why) outstanding,
    )
after-waits id outstanding (call_sign o human) =
    ground (arith, has_key-pop id o.obligation_id outstanding)

-- Whatever calls are made of the broker, in whatever order, an obligation waits exactly when the last
-- call that decides of it is a request: requests with an approver open it, signatures under its id
-- by a signatory the broker takes for a human close it, and nothing else does either.
pub after_all-waits_after_all :
    (id : String) (outstanding : Outstanding) (calls : List Call)
    → has_key id (after_all outstanding calls) ≡ waits_after_all id (has_key id outstanding) calls
unfolding after_all waits_after_all
after_all-waits_after_all id outstanding [] = refl
after_all-waits_after_all id outstanding (c ∷ calls) =
    rw (sym (after-waits id outstanding c))
      (after_all-waits_after_all id (after outstanding c) calls)

-- The address of every kind of commitment passes the broker's tests.
is_signatory-address :
    (kind : ConclusionKind)
    → is_signatory (codes "human::commercial-lead::" ++ kind_value kind) ≡ true
unfolding is_signatory kind_value starts_with has_agent_marker has_infix remove_prefix lower
is_signatory-address ConclusionKind.quote = refl
is_signatory-address ConclusionKind.order = refl
is_signatory-address ConclusionKind.plan = refl
is_signatory-address ConclusionKind.promise = refl
is_signatory-address ConclusionKind.approval = refl
is_signatory-address ConclusionKind.price = refl
is_signatory-address ConclusionKind.standing_price = refl
is_signatory-address ConclusionKind.framework_promise = refl
is_signatory-address ConclusionKind.long_lead_order = refl

is_signatory-approver_for : (c : Conclusion) → is_signatory (approver_for c) ≡ true
unfolding approver_for
is_signatory-approver_for c = is_signatory-address c.kind

-- A signature by a signatory that the broker takes for a human is recorded.
record_human_signature-signs :
    (outstanding : Outstanding) (o : Obligation) (human : Text)
    → is_signatory human ≡ true
    → record_human_signature outstanding o human
      ≡ ok (with_status ObligationStatus.signed o, pop o.obligation_id outstanding)
unfolding record_human_signature is_signatory
record_human_signature-signs outstanding o human h = ground arith

pop-gone : (id : String) (outstanding : Outstanding) → has_key id (pop id outstanding) ≡ false
pop-gone id outstanding = ground (arith, has_key-pop id id outstanding, text_eq_iff id id)

put-there :
    (id : String) (r : SignatureRequest) (outstanding : Outstanding)
    → has_key id (put id r outstanding) ≡ true
put-there id r outstanding = ground (arith, has_key-put id id r outstanding, text_eq_iff id id)

-- The path of an obligation, for every commitment and whatever else waits: it is drafted, the request
-- for its signature is accepted and makes it wait under its id, and the signature of the very
-- approver it names is accepted, gives it the status SIGNED, and leaves nothing waiting under the id.
pub build_obligation-signed :
    (c : Conclusion) (id : String) (old_summary new_summary text : Wording)
    → (ruling_id : Option String)
    → (outstanding : Outstanding) (unrecoverable_count now : ℕ) (why : Why)
    → (d : DraftedObligation) × (r : SignatureRequest) × (o : Obligation) × (waiting : Outstanding)
      × (done : Obligation) × (left : Outstanding) × (build_obligation c id old_summary new_summary
            text ruling_id
          ≡ ok d)
      × (request_signature outstanding d.obligation unrecoverable_count now why
          ≡ ok (r, o, waiting))
      × (o.status ≡ ObligationStatus.awaiting_signature)
      × (has_key id waiting ≡ true)
      × (record_human_signature waiting o (approver_for c) ≡ ok (done, left))
      × (done.status ≡ ObligationStatus.signed)
      × (has_key id left ≡ false)
unfolding build_obligation request_signature approver_for is_empty with_status approver_of draft
build_obligation-signed c id old new text ruling outstanding unrecoverable now why =
    let d = draft c id old new text ruling in
    let r = request_for d.obligation unrecoverable now why in
    let o = with_status ObligationStatus.awaiting_signature d.obligation in
    let waiting = put id r outstanding in
    (
      d,
      r,
      o,
      waiting,
      with_status ObligationStatus.signed o,
      pop id waiting,
      refl,
      refl,
      refl,
      put-there id r outstanding,
      record_human_signature-signs waiting o (approver_for c) (is_signatory-approver_for c),
      refl,
      pop-gone id waiting,
    )
