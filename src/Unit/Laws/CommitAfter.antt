-- ===== src/Unit/Laws/CommitAfter.antt =====
-- A whole run of the pipeline of core/kernel/unit.py under `commit: after`.
use vendorfake.Prelude.{
  String, ◌≡◌, refl, ap, sym, subst, ◌∙◌, Bool, true, false, not, ◌&&◌, Option, some, arith,
  Bool-cases, Option-cases, inl, inr, if◌then◌else◌,
}
use vendorfake.Text.{text_eq}
use vendorfake.Dict
use vendorfake.Errors.{Result, ok, err, Result-cases}
use vendorfake.Action.{Action, and_then, and_then-ok, and_then-err}
use vendorfake.Clock.Defs.{iso_ms}
use vendorfake.Chaos.Faults.{at_response}
use vendorfake.Chaos.Engine.{ChaosDecision}
use vendorfake.Chaos.Selector.{select_request}
use vendorfake.Store.State.{Store}
use vendorfake.Webhooks.State.{Dispatcher, clock_of}
use vendorfake.Unit.Requests.{after}
use vendorfake.Unit.RequestFaults.{has_phase, is_commit_fault, commit_mode}
use vendorfake.Unit.State.{UnitRequest, UnitResponse, HandlerArgs, Endpoint, Run, Vendor}
use vendorfake.Unit.Pipeline.{armed_fault, is_after}
use vendorfake.Unit.Stages.{
  gate, subject_of, in_band_values, select_fault, note_decision, proceed, faulted, run_vendor,
  run_internal, run_pipeline,
}
use vendorfake.Unit.Laws.Uncommitted.{IsKept, SameState, SameState-refl}
use vendorfake.Unit.Laws.Staged.{proceed-leaves}

-- The selection of a fault leaves the store.
pub select_fault-store :
    (x : Vendor) (e : Endpoint) (req : UnitRequest) (r : Run)
    → (select_fault x e req r).1.hooks.store ≡ r.hooks.store
unfolding select_fault
select_fault-store x e req r =
    elim (Result-cases (
      select_request r.hooks.registry (subject_of e req) (some (in_band_values x req))
        (record (r.hooks.engine) { now_iso = iso_ms (clock_of r.hooks) }))) [
          | inl (raised, bad) ↦ rw (bad, select_fault) refl
          | inr (s, good) ↦ rw (good, select_fault) refl
        ]

-- `commit: after` is accepted only of a fault that discards or corrupts the answer.
commit_mode-after : (c : ChaosDecision) → commit_mode c ≡ ok after → is_commit_fault c.fault ≡ true
unfolding commit_mode
commit_mode-after c h = elim (Bool-cases (is_commit_fault c.fault)) [
  | inl good ↦ good
  | inr bad ↦ elim (Option-cases (Dict.get c.params "commit")) [
    | inl absent ↦ absurd (ground (arith, absent, h))
    | inr (v, present) ↦ absurd (ground (arith, present, bad, h))
  ]
]

is_commit_fault-phase :
    (fault : String) → is_commit_fault fault ≡ true → has_phase at_response fault ≡ true
unfolding is_commit_fault
is_commit_fault-phase fault h =
    and_left (has_phase at_response fault) (not (text_eq fault "slow_body")) h
  where
    and_left : (a b : Bool) → (a && b) ≡ true → a ≡ true
    and_left true b h = refl
    and_left false b h = h

note_decision-after :
    (x : Vendor) (c : ChaosDecision) (r : Run)
    → commit_mode c ≡ ok after
    → (r' : Run) × (note_decision x (some c) r ≡ (ok tt, r'))
      × (r'.hooks ≡ r.hooks)
      × (is_after r'.trace.fault_commit ≡ true)
unfolding note_decision
note_decision-after x c r h =
    let worth = commit_mode-after c h in
    (
      (note_decision x (some c) r).1,
      rw (h, worth, note_decision) refl,
      rw (h, note_decision) refl,
      rw (h, worth, note_decision) refl,
    )

-- An action's result with its state.
pub pair_eq :
    {A : Type 0} (m : Action Run A) (r : Run) (a : Result A) → (m r).0 ≡ a → m r ≡ (a, (m r).1)
pair_eq m r a e = ap (λ v. (v, (m r).1)) e

faulted-SameState :
    (x : Vendor) (e : Endpoint) (args : HandlerArgs) (c : ChaosDecision) (r : Run)
    → commit_mode c ≡ ok after
    → IsKept r.hooks.store
    → SameState r.hooks.store (faulted x e args (some c) r).1.hooks.store
unfolding faulted
faulted-SameState x e args c r mode kept =
    let (r', noted, same, uncommitted) = note_decision-after x c r mode in
    let go_on = proceed x e (record args { fault = armed_fault (some c) }) (some c) in
    let ready = subst (λ (d : Dispatcher). IsKept d.store) (sym same) kept in
    let phase = is_commit_fault-phase c.fault (commit_mode-after c mode) in
    let left =
      proceed-leaves x e (record args { fault = armed_fault (some c) }) c phase r'
        (uncommitted, ready) in
    subst (λ (p : Result UnitResponse × Run). SameState r.hooks.store p.1.hooks.store)
      (sym (and_then-ok (note_decision x (some c)) (λ n. go_on) r r' tt noted))
      (subst (λ (d : Dispatcher). SameState d.store (go_on r').1.hooks.store) same left.1)

run_vendor-SameState :
    (x : Vendor) (e : Endpoint) (args : HandlerArgs) (r r1 : Run) (c : ChaosDecision)
    → IsKept r.hooks.store
    → select_fault x e args.req r ≡ (ok (some c), r1)
    → commit_mode c ≡ ok after
    → SameState r.hooks.store (run_vendor x e args r).1.hooks.store
unfolding run_vendor gate
run_vendor-SameState x e args r r1 c kept selected mode =
    let behind : Unit {0} → Action Run UnitResponse =
      λ opened. and_then (select_fault x e args.req) (λ decision. faulted x e args decision) in
    let same_store : r1.hooks.store ≡ r.hooks.store =
      ap (λ (p : Result (Option ChaosDecision) × Run). p.1.hooks.store) (sym selected)
      ∙ select_fault-store x e args.req r in
    elim (Result-cases (gate e r).0) [
      | inl (raised, closed) ↦
          subst (λ (p : Result UnitResponse × Run). SameState r.hooks.store p.1.hooks.store)
            (sym (and_then-err (gate e) behind r r raised (pair_eq (gate e) r (err raised) closed)))
            (SameState-refl r.hooks.store)
      | inr (opened, passed) ↦
          subst (λ (p : Result UnitResponse × Run). SameState r.hooks.store p.1.hooks.store)
            (sym (
              and_then-ok (gate e) behind r r opened (pair_eq (gate e) r (ok opened) passed)
              ∙ and_then-ok (select_fault x e args.req) (λ decision. faulted x e args decision) r r1
                  (some c) selected))
            (subst (λ (s : Store). SameState s (faulted x e args (some c) r1).1.hooks.store)
              same_store
              (faulted-SameState x e args c r1 mode (subst IsKept (sym same_store) kept)))
    ]

-- A request to a vendor's route that draws a fault with `commit: after` leaves the collections, the
-- journal with its counter and the idempotency records of the store as they were, whatever its
-- handler does and however it ends, if the store was within its bounds with each record under its
-- key.
pub commit_after_leaves_nothing :
    (x : Vendor) (e : Endpoint) (args : HandlerArgs) (r r1 : Run) (c : ChaosDecision)
    → e.route.internal ≡ false
    → IsKept r.hooks.store
    → select_fault x e args.req r ≡ (ok (some c), r1)
    → commit_mode c ≡ ok after
    → SameState r.hooks.store (run_pipeline x e args r).1.hooks.store
unfolding run_pipeline
commit_after_leaves_nothing x e args r r1 c vendors kept selected mode =
    subst
      (λ (b : Bool).
        SameState r.hooks.store
          (if b then run_internal x e args r else run_vendor x e args r).1.hooks.store)
      (sym vendors) (run_vendor-SameState x e args r r1 c kept selected mode)
