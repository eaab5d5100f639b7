-- ===== src/Lib.antt =====
-- Verification library of unwind: the ledger of authority, the gateway that spends it, the spine
-- that follows a retraction, and the court and settlement that answer for it.
--
-- The program. An agent holds warrant, an integer number of basis points for each principal,
-- capability and risk class. Warrant is minted when a human and an independent countersign agree,
-- decays with idle days, is burned when a judgement is overturned, and is spent by every delegated
-- task. The gateway is the one place where a task is delegated: it checks the principal, the
-- scope, the budget and, last, the warrant, whose check is itself the spend. The spine follows the
-- retraction of a claim: who may retract it, which commitments it harms, what already left the
-- building, which of these alert, and how much investigation that earns. The commitments that
-- alert argue before a court, whose arbiter is a third party, in four turns on a budget; what the
-- court does not preserve becomes an obligation that waits until a human signs it.
--
-- Files and the code that they model:
--   Principals, Principals/Roles: lib/principals.py. Principals/Separation: what it decides.
--   Simulation: lib/simulation.py, with the environment as an argument. Simulation/Clamp: what
--     production forbids.
--   Tower/Schema: tower/schema.py, the types that the other parts read.
--   Tower/Registry: put_agent, get_agent, list_eligible_agents of tower/registry.py.
--   Tower/Gateway: check_principal, check_scope, check_budget, check_warrant, evaluate_gateway and
--     check_worker_fault of tower/gateway.py. Tower/Gateway/Checks: when each passes.
--     Tower/Gateway/Covering: the warrant check. Tower/Gateway/Delegation: what the gateway as a
--     whole promises.
--   Tower/Memory: tower/memory.py, with record_human_concurrence and record_countersign of
--     warrant/ledger.py. Tower/Memory/Chain: how a chain grows, and what a mint wants of it.
--   Warrant/Event, Warrant/Decay, Warrant/Fold: the pure part of warrant/ledger.py (apply_decay,
--     fold_balance, is_case_challenged, provenance_for_fold).
--   Warrant/Store: the collections that the ledger reads and writes.
--   Warrant/Ledger: read_events, current_balance, _append, mint, burn, challenge, spend_or_refuse,
--     checkpoint_decay, write_synthetic_seed_event. Warrant/Ledger/Preconditions: what MINT wants.
--     Warrant/Ledger/Outcomes: what each operation does. Warrant/Ledger/History: runs of them.
--   Warrant/Economics: warrant/economics.py. Warrant/Economics/Bands, Warrant/Economics/Pricing: the
--     order of the bands, and what a price adds up to.
--   Spine/Schema: the types of lib/schema.py that these gates read. Spine/Authority: check_authority
--     of spine/authority.py. Spine/Materiality: spine/materiality.py. Spine/Escapement:
--     spine/escapement.py. Spine/Regimes: spine/regimes.py. Spine/Budget: spine/budget.py.
--   Spine/Traversal: spine/traversal.py. Spine/Traversal/Steps: one edge of the walk; Fuel: that it
--     ends; Invariant and Reach: what it reaches.
--   Spine/Temporal: spine/temporal.py. Spine/Defence: ConfidenceFloor of spine/defence.py.
--     Spine/Decision: spine/decision.py. Spine/Decision/Contest: when a retraction is put off.
--   Court/Schema: pleas, challenges and rulings of lib/schema.py. Court/Team: court/team.py.
--     Court/Owners: court/owners.py. Court/Arbiter: court/arbiter.py. Court/Allocation: where the
--     arbiter leaves each plea. Court/Allocation/Contention: who contends for
--     what. Court/Protocol: court/protocol.py. Court/Hearing: whole hearings.
--   Settle/Irreversibility: settle/irreversibility.py. Settle/Exposure, Settle/Obligation:
--     settle/obligation.py. Settle/Cartography: settle/cartography.py. Settle/Broker:
--     settle/broker.py. Settle/Broker/Signing: calls of the broker in sequence. Settle/Merging,
--     Settle/Pipeline, Settle/Pipeline/Drafting: settle/pipeline.py. Settle/Settling: what a
--     settlement raises. Settle/LoadRating: settle/loadrating.py; Reverting and Bounds: what any
--     sequence of its calls keeps.
--   Idempotency: the consumer and the in-memory set of lib/idempotency.py.
--   Base and its children: lists, texts, integers, dictionaries and sorting that the parts
--     share.
--
-- How the code is read. Stateful functions take the collections and return them with the result; an
-- exception is the error of a Result, and the collections that come with it are those of before.
-- A spend runs in one transaction, so a history is a sequence of whole operations. Firestore is a
-- parameter: a document set under a new id is streamed from then on beside those of before, in an
-- order of the store's own, and a counter reads back what was set. Ids of warrant events are drawn fresh; the id of a memory entry is a function of its case and number, with
-- the drawn part that belongs to them, and a document that is set replaces one of its id. A datetime
-- in UTC is a number of microseconds since an epoch at midnight. Balances are naturals, since
-- `max(0, …)` is the subtraction that stops at 0, and costs and schedules are signed. A message
-- keeps the values that it interpolates. Text methods are those of ASCII. Floats are a parameter,
-- but for the irreversibilities of spine/escapement.py, which are counted in tenths, the cost
-- caps of spine/budget.py, in cents, and the ratings of settle/loadrating.py, in
-- ten-thousandths. The model that writes prose is a function of its prompt, and a prompt, a
-- plea's argument or a notice's text is the data that goes into it. A list, dictionary
-- or object that the code mutates in a loop is passed from round to round. A dictionary is an
-- association list in insertion order.
--
-- Bounds. The recursions are structural, but for the greatest common divisor, on fuel: the second
-- argument plus one, which is enough since every round makes that argument smaller; and the walk of
-- spine/traversal.py, on one round for the root and one for each conclusion of the store, which is
-- enough since only a conclusion that is new puts a claim in the queue.
--
-- Not modelled: the workflow graph and the telemetry around the gateway, the walk over the parents
-- in decision memory, the clock, and the parts of the repository that are not named above. Two
-- operations on one balance that overlap in time are left to the transactions of the store.
pub mod Base
pub mod Court
pub mod Idempotency
pub mod Principals
pub mod Settle
pub mod Simulation
pub mod Spine
pub mod Tower
pub mod Warrant
