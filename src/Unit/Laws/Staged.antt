-- ===== src/Unit/Laws/Staged.antt =====
-- The stages of `_run_pipeline`, core/kernel/unit.py, under `commit: after`.
use vendorfake.Prelude.{
  ◌≡◌, refl, sym, subst, true, Option, some, Bool-cases, Option-cases, inl, inr,
}
use vendorfake.Errors.{Result-cases}
use vendorfake.Action.{Action, Keeps, Keeps-and_then, and_then}
use vendorfake.Chaos.Faults.{at_response}
use vendorfake.Chaos.Engine.{ChaosDecision}
use vendorfake.Store.Idempotency.{get_idempotent}
use vendorfake.Paths.{dot_get}
use vendorfake.Unit.RequestFaults.{has_phase, RequestMoment, pre, post_auth, apply_request_fault}
use vendorfake.Unit.State.{
  UnitRequest, UnitResponse, AuthResult, HandlerArgs, Endpoint, Run, Vendor,
}
use vendorfake.Unit.Pipeline.{within, Lookup, key_text, replay_stored, look_up}
use vendorfake.Unit.Stages.{request_fault, authorize, answer, response_fault, respond, proceed}
use vendorfake.Unit.Laws.Uncommitted.{
  SameState, SameState-refl, Uncommitted, leaves, run_handler-leaves,
}

-- The lookup of a key changes nothing.
pub look_up-same :
    (x : Vendor) (e : Endpoint) (req : UnitRequest) (r : Run) → (look_up x e req r).1 ≡ r
unfolding look_up
look_up-same x e req r = elim (Option-cases e.idempotency) [
  | inl absent ↦ rw (absent, look_up) refl
  | inr (idem, present) ↦ elim (Result-cases (x.read_body req)) [
    | inl (raised, bad) ↦ rw (present, bad, look_up) refl
    | inr (body, good) ↦ elim (Option-cases (key_text (dot_get body idem.key_path))) [
      | inl absent ↦ elim (Bool-cases idem.required) [
        | inl needed ↦ rw (present, good, absent, needed, look_up) refl
        | inr free ↦ rw (present, good, absent, free, look_up) refl
      ]
      | inr (k, named) ↦ elim (Option-cases (get_idempotent idem.scope k r.hooks.store)) [
        | inl new ↦ rw (present, good, named, new, look_up) refl
        | inr (stored, known) ↦
            elim (Result-cases (replay_stored x.b64url_decode idem k (x.digest_of body) stored)) [
              | inl (raised, clash) ↦ rw (present, good, named, known, clash, look_up) refl
              | inr (res, fine) ↦ rw (present, good, named, known, fine, look_up) refl
            ]
      ]
    ]
  ]
]

pub authorize-same :
    (x : Vendor) (e : Endpoint) (args : HandlerArgs) (r : Run) → (authorize x e args r).1 ≡ r
unfolding authorize
authorize-same x e args r = elim (Option-cases e.auth) [
  | inl absent ↦ rw (absent, authorize) refl
  | inr (scheme, present) ↦ elim (Result-cases (x.resolve args scheme r.hooks)) [
    | inl (raised, bad) ↦ rw (present, bad, authorize) refl
    | inr (auth, good) ↦ rw (present, good, authorize) refl
  ]
]

-- An action that changes nothing leaves the store's state.
pub same-leaves : {A : Type 0} (m : Action Run A) → ((r : Run) → (m r).1 ≡ r) → Keeps leaves m
same-leaves m same r h =
    subst (λ t. Uncommitted t × SameState r.hooks.store t.hooks.store) (sym (same r))
      (h, SameState-refl r.hooks.store)

request_fault-same :
    (x : Vendor) (moment : RequestMoment) (c : ChaosDecision) (r : Run)
    → has_phase at_response c.fault ≡ true
    → (request_fault x moment (some c) r).1 ≡ r
unfolding request_fault within apply_request_fault
request_fault-same x moment c r phase = rw (phase, request_fault, within, apply_request_fault) refl

answer-leaves :
    (x : Vendor) (e : Endpoint) (args : HandlerArgs) (found : Lookup)
    → Keeps leaves (answer x e args found)
unfolding answer
answer-leaves x e args found r h = elim (Option-cases found.replayed) [
  | inl fresh ↦ rw (fresh, answer) (run_handler-leaves x e args found r h)
  | inr (res, known) ↦ rw (known, answer) (h, SameState-refl r.hooks.store)
]

response_fault-leaves :
    (x : Vendor) (c : ChaosDecision) (res : UnitResponse)
    → Keeps leaves (response_fault x (some c) res)
unfolding response_fault
response_fault-leaves x c res r h = elim (Bool-cases (has_phase at_response c.fault)) [
  | inl applies ↦ rw (applies, response_fault) (h, SameState-refl r.hooks.store)
  | inr other ↦ rw (other, response_fault) (h, SameState-refl r.hooks.store)
]

respond-leaves :
    (x : Vendor) (e : Endpoint) (args : HandlerArgs) (c : ChaosDecision)
    → Keeps leaves (respond x e args (some c))
unfolding respond
respond-leaves x e args c =
    Keeps-and_then leaves (look_up x e args.req)
      (λ found. and_then (answer x e args found) (λ res. response_fault x (some c) res))
      (same-leaves (look_up x e args.req) (λ r. look_up-same x e args.req r))
      (λ found.
        Keeps-and_then leaves (answer x e args found) (λ res. response_fault x (some c) res)
          (answer-leaves x e args found) (λ res. response_fault-leaves x c res))

pub proceed-leaves :
    (x : Vendor) (e : Endpoint) (args : HandlerArgs) (c : ChaosDecision)
    → has_phase at_response c.fault ≡ true
    → Keeps leaves (proceed x e args (some c))
unfolding proceed
proceed-leaves x e args c phase =
    let behind : Option AuthResult → Action Run UnitResponse = λ auth.
      and_then (request_fault x post_auth (some c))
        (λ b. respond x e (record args { auth = auth }) (some c)) in
    let fault_same = λ (moment : RequestMoment).
      same-leaves (request_fault x moment (some c)) (λ r. request_fault-same x moment c r phase) in
    Keeps-and_then leaves (request_fault x pre (some c)) (λ b. and_then (authorize x e args) behind)
      (fault_same pre)
      (λ b.
        Keeps-and_then leaves (authorize x e args) behind
          (same-leaves (authorize x e args) (λ r. authorize-same x e args r))
          (λ auth.
            Keeps-and_then leaves (request_fault x post_auth (some c))
              (λ b. respond x e (record args { auth = auth }) (some c)) (fault_same post_auth)
              (λ b. respond-leaves x e (record args { auth = auth }) c)))
