-- ===== src/Lib.antt =====
-- A model of the core of vendorfake (src/vendorfake/core), the part that every vendor fake stands
-- on: the pipeline that answers a request, with its faults and idempotent replay, a store with a
-- journal, a clock, state machines, capabilities, fault rules, the route table, seed overlays, and
-- the dispatcher of webhooks with its delivery worker; and of one vendor's orders on top of it
-- (src/vendorfake/square), how they are changed and how they are paid.
--
-- How the parts interact. A unit answers a request (Unit): the control token is checked, the request
-- is routed (Router), its capability is checked (Registry), a fault is selected for it (Chaos:
-- in-band ones first, which Magic reads out of the request, then the standing rules that the engine
-- counts), a stored answer is replayed or the route's handler runs, and a fault may corrupt the
-- answer, which the request log keeps. A handler changes entities through collections (Store), whose
-- journal every listener hears and whose moves between states a machine allows (Machine). One
-- listener is the dispatcher (Webhooks): it queues an attempt for each subscriber, as jobs of one
-- worker (Worker), and its retries are timers of the store's clock (Clock), whose `advance` settles
-- the worker before it looks for due timers; a closure given to the worker or to the clock is a
-- number in a table of the dispatcher. A unit starts from a seed document with an overlay (Overlay).
-- The handler of PayOrder (Square) reads an order and its payments from their collections, writes the
-- order through an update, and captures the payments one by one behind it.
--
-- Which file models what (paths from the repository's root):
--   Machine   src/vendorfake/core/state/machine.py: StateDef, MachineDef, StateMachine
--   Clock     src/vendorfake/core/time/clock.py: Clock.now, after, cancel, _fire_real, advance
--             (fire_first is its body, advance_loop its loop), pending, clear_all; Timers, Sorted, Advance
--             and Terminates what is proved
--   Store     src/vendorfake/core/state/store.py: State the attributes of Store; Journal
--             append_journal, journal, muted; Diff diff_keys; Collection the methods of Collection;
--             Idempotency, Snapshot, Page (cursors), Digest (entity_digest); Laws what is proved
--   Registry  src/vendorfake/core/capability/registry.py: Defs CapabilityRegistry, Views
--             CapabilityView and view, Parts apply_capability_delta; Closure, Usable and Delta what
--             is proved
--   Chaos     src/vendorfake/core/chaos: Rules, Faults and Glob rules.py; Engine and Evaluate
--             engine.py (criteria_match is _matches, should_fire is _should_fire, visit the loop of
--             evaluate); Selector selector.py; the generator of core/rand/rng.py is a stream
--   Overlay   src/vendorfake/core/config/overlay.py
--   Router    src/vendorfake/core/kernel/router.py (find_route is Router.match, scan its outer and
--             read_segments its inner loop), Route and Route.key of core/kernel/types.py; Segments,
--             Shape and Outcome what is proved
--   Worker    src/vendorfake/core/webhooks/worker.py: DeliveryWorker, each critical section a
--             function; a Run is any interleaving of them
--   Webhooks  src/vendorfake/core/webhooks: Models models.py; Retry retry.py; State, Log, Attempts,
--             Enqueue, Listen and Work dispatcher.py: its state, the delivery log, the attempts and
--             their retries, queueing with the faults of a delivery, the journal's listener, and the
--             worker's turns; Laws what is proved
--   Unit      src/vendorfake/core/kernel/unit.py: Requests RequestLog; State what a request, an
--             answer and a route are; Pipeline steps 7 and 8 of _run_pipeline, Stages all of its
--             steps in order; Handle handle and _finish. Access core/control/access.py;
--             RequestFaults, ResponseFaults and Pointer core/chaos/faults.py; Laws what is proved
--   Magic, Paths, Numbers: extract_magic of core/kernel/magic.py, dot_get of core/util/paths.py,
--             as_float and as_int of core/util/numbers.py; Integers sums of whole numbers
--   Square    src/vendorfake/square/surface/orders.py: Lines the sparse merge of an order's lines,
--             Turns its loop over the patches, Merging what it gives; Resolving, Tenders and
--             Payments PayOrder (pay_order, pay_found, pay_with, settle_order and write_order are
--             OrdersSurface.pay_order cut where it reads, settles and writes); Machines
--             square/machine.py; Readers and Entities square/entities.py; Totals
--             square/model/order.py; Accepting, Tendering, Amounts, Completing, Reads, Passed, Found,
--             Paid, Capturing, Captures, Capturable, Returning and Refusing what is proved
--   Action    code that changes a state and may raise, and what chains of it keep
--   Errors, Json: UnitErrorKind and UnitError of core/kernel/types.py, documents and
--             canonical_json of core/util/json.py; Dict, Ring, Text and Prelude are Python's dict,
--             deque(maxlen), str order and the shared helpers
--
-- State is passed explicitly: a method returns its result and the next state, also when it raises,
-- so that what it wrote before raising is there. A raise is an `err`.
--
-- Bounds and fuel. The journal, the idempotency records, the fault history, the queue and the
-- failures of the worker, the delivery log and the request log hold 10000 entries each, as in the
-- code. Fuel is taken by the loop of `advance`, whose callbacks may schedule timers, by the client
-- that follows cursors and by the worker's turns until its queue is empty: what fuel is enough is
-- part of what is proved of them. The digits of a number and the subscripts of a path take the size
-- of the number and of the text as fuel, and use up one unit for each digit or subscript. All other
-- recursion is structural.
--
-- Not modelled: message texts; locks and threads (each critical section is one step, but `_record`
-- of the dispatcher, whose two sections under the log lock are composed as one thread runs them:
-- what another thread may record between them is not modelled); a listener of the journal or of
-- the delivery log that raises; handlers that change the request log, as the control plane's do;
-- the wall clock and durations; floats (times are whole milliseconds, probabilities 53-bit
-- numerators); the text of JSON and of fractions, hashes, base64, signatures and `unquote`, which
-- are parameters, as are handlers, authentication, the sink and the vendor's error shapes; upper
-- and lower case and digits outside ASCII; that a value which `body_mutation` puts into an answer
-- is the rule's own; waiting for the dispatcher's first attempts, subscribers from the
-- configuration and the check of a notification URL; near misses, the shaping of replies and the
-- hydration of a unit; the control plane's handlers, configuration files, the web bindings, the
-- reading of PayOrder's body and its projection of the order, and the rest of the vendors'
-- surfaces. A path lies in the control plane's namespace by the text of its prefix, as in
-- router.py, so that //__unit/info does not. The quantity of an order's line, a float in the code,
-- is a parameter of which a product with zero is zero, with the products that overflow, where the
-- total of an order raises; so is what a time scale makes of a retry delay, with the delays that
-- overflow. Parameters are also the ids that PayOrder mints and the text of a stored value that
-- should be text.
mod Prelude
mod Text
mod Dict
mod Ring
mod Json
mod Errors
mod Action
pub mod Machine
pub mod Clock
pub mod Store
pub mod Registry
pub mod Chaos
pub mod Overlay
pub mod Router
pub mod Numbers
mod Integers
pub mod Webhooks
pub mod Unit
pub mod Paths
pub mod Magic
pub mod Worker
pub mod Square
