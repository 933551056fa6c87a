-- ===== src/Unit/Laws/Uncommitted.antt =====
-- `commit: after` of a response-phase fault, core/kernel/unit.py: what the request leaves behind.
use vendorfake.Prelude.{
  ◌≤◌, ◌≡◌, refl, ap, sym, subst, ◌∙◌, Bool, true, false, Option, none, some, length, Option-cases,
  inl, inr,
}
use vendorfake.Dict
use vendorfake.Dict.{Dict}
use vendorfake.Dict.Laws.{NodupKeys}
use vendorfake.Errors.{Result-cases}
use vendorfake.Action.{Order, Keeps}
use vendorfake.Store.State.{Store, journal_capacity, idempotency_capacity}
use vendorfake.Store.Snapshot.{snapshot, restore}
use vendorfake.Store.Laws.Restore.{KeyedByRecord, restore-snapshot}
use vendorfake.Webhooks.State.{Dispatcher}
use vendorfake.Unit.State.{UnitResponse, ArmedFault, HandlerArgs, Handled, Endpoint, Run, Vendor}
use vendorfake.Unit.Pipeline.{
  is_after, refund_unconsumed, refund_refused, call_handler, Lookup, after_handler, store_answer,
  settle_handler_fault, conclude_handler, run_handler,
}

-- The store as it is between requests: within its bounds, each idempotency record under its key.
pub record IsKept (s : Store) : Type 0 where
  pub journal_fits : length s.journal ≤ journal_capacity
  pub records_fit : Dict.size s.idempotency ≤ idempotency_capacity
  pub keyed : KeyedByRecord s.idempotency
  pub unique : NodupKeys s.idempotency

-- All that a request may leave in the store is as it was.
pub record SameState (s t : Store) : Type 0 where
  pub collections : t.collections ≡ s.collections
  pub journal : t.journal ≡ s.journal
  pub idempotency : t.idempotency ≡ s.idempotency
  pub seq : t.seq ≡ s.seq

abbrev pub Uncommitted : Run → Type 0
Uncommitted r = (is_after r.trace.fault_commit ≡ true) × IsKept r.hooks.store

pub SameState-refl : (s : Store) → SameState s s
SameState-refl s = record { collections = refl; journal = refl; idempotency = refl; seq = refl }

pub SameState-trans : (s t u : Store) → SameState s t → SameState t u → SameState s u
SameState-trans s t u a b = record {
  collections = b.collections ∙ a.collections;
  journal = b.journal ∙ a.journal;
  idempotency = b.idempotency ∙ a.idempotency;
  seq = b.seq ∙ a.seq;
}

pub IsKept-same : (s t : Store) → SameState s t → IsKept s → IsKept t
IsKept-same s t a h = record {
  journal_fits = subst (λ j. length j ≤ journal_capacity) (sym a.journal) h.journal_fits;
  records_fit = subst (λ d. Dict.size d ≤ idempotency_capacity) (sym a.idempotency) h.records_fit;
  keyed = subst KeyedByRecord (sym a.idempotency) h.keyed;
  unique = subst NodupKeys (sym a.idempotency) h.unique;
}

-- A run that stays uncommitted, and leaves the store's state.
abbrev pub leaves : Order Run
leaves = record {
  holds = λ r t. Uncommitted r → Uncommitted t × SameState r.hooks.store t.hooks.store;
  stays = λ r h. (h, SameState-refl r.hooks.store);
  joins = λ r t u f g h.
      let (ht, a) = f h in
      let (hu, b) = g ht in (hu, SameState-trans r.hooks.store t.hooks.store u.hooks.store a b);
}

restored-SameState : (s t : Store) → IsKept s → SameState s (restore (snapshot s) t)
restored-SameState s t h =
    let e = restore-snapshot s t h.journal_fits h.records_fit h.keyed h.unique in
    record {
      collections = ap (λ (u : Store). u.collections) e;
      journal = ap (λ (u : Store). u.journal) e;
      idempotency = ap (λ (u : Store). u.idempotency) e;
      seq = ap (λ (u : Store). u.seq) e;
    }

-- Whatever the handler did, what is left behind the `finally` is the state from before.
after_handler-SameState :
    (x : Vendor) (e : Endpoint) (args : HandlerArgs) (r : Run)
    → Uncommitted r
    → SameState r.hooks.store (after_handler x e args r).1.hooks.store
unfolding after_handler
after_handler-SameState x e args r (uncommitted, kept) =
    rw (uncommitted, after_handler)
      (restored-SameState r.hooks.store
        (refund_refused args.fault (call_handler e args true r.hooks).0
          (call_handler e args true r.hooks).1).store
        kept)

after_handler-leaves :
    (x : Vendor) (e : Endpoint) (args : HandlerArgs) (r : Run)
    → Uncommitted r
    → Uncommitted (after_handler x e args r).1
      × SameState r.hooks.store (after_handler x e args r).1.hooks.store
unfolding after_handler
after_handler-leaves x e args r (uncommitted, kept) =
    let same = after_handler-SameState x e args r (uncommitted, kept) in
    (
      (uncommitted, IsKept-same r.hooks.store (after_handler x e args r).1.hooks.store same kept),
      same,
    )

settle_handler_fault-leaves :
    (x : Vendor) (armed : Option ArmedFault) (consumed : Bool) (res : UnitResponse)
    → Keeps leaves (settle_handler_fault x armed consumed res)
unfolding settle_handler_fault refund_unconsumed
settle_handler_fault-leaves x none consumed res r h = (h, SameState-refl r.hooks.store)
settle_handler_fault-leaves x (some armed) false res r h = (h, SameState-refl r.hooks.store)
settle_handler_fault-leaves x (some armed) true res r h = (h, SameState-refl r.hooks.store)

store_answer_uncommitted :
    (x : Vendor) (e : Endpoint) (found : Lookup) (res : UnitResponse) (d : Dispatcher)
    → store_answer x true e.idempotency found res d ≡ d
unfolding store_answer
store_answer_uncommitted x e found res d = elim (Option-cases e.idempotency) [
  | inl absent ↦ rw (absent, store_answer) refl
  | inr (idem, present) ↦ elim (Option-cases found.idem_key) [
    | inl absent ↦ rw (present, absent, store_answer) refl
    | inr (k, named) ↦ rw (present, named, store_answer) refl
  ]
]

conclude_handler-leaves :
    (x : Vendor) (e : Endpoint) (args : HandlerArgs) (found : Lookup) (h : Handled)
    → Keeps leaves (conclude_handler x e args found true h)
unfolding conclude_handler
conclude_handler-leaves x e args found h r left = elim (Result-cases h.result) [
  | inl (raised, e1) ↦ rw (e1, conclude_handler) (left, SameState-refl r.hooks.store)
  | inr (res, e1) ↦
      rw (e1, store_answer_uncommitted x e found res r.hooks, conclude_handler)
        (settle_handler_fault-leaves x args.fault h.consumed res r left)
]

pub run_handler-leaves :
    (x : Vendor) (e : Endpoint) (args : HandlerArgs) (found : Lookup)
    → Keeps leaves (run_handler x e args found)
unfolding run_handler
run_handler-leaves x e args found r h =
    let p = after_handler x e args r in
    let (left, same) = after_handler-leaves x e args r h in
    let (still, also) = conclude_handler-leaves x e args found p.0 p.1 left in
    let end = (conclude_handler x e args found true p.0 p.1).1 in
    rw (h.0, run_handler)
      (still, SameState-trans r.hooks.store p.1.hooks.store end.hooks.store same also)
