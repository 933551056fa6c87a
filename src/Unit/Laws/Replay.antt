-- ===== src/Unit/Laws/Replay.antt =====
-- Idempotent replay in the pipeline of core/kernel/unit.py: a retry gets the stored answer.
use vendorfake.Prelude.{
  ◌≤◌, String, ◌≡◌, refl, ap, sym, subst, ◌∙◌, Bool, true, false, Option, none, some, inl, inr,
}
use vendorfake.Text.{text_eq_refl}
use vendorfake.Dict
use vendorfake.Dict.{Dict}
use vendorfake.Dict.Laws.{NodupKeys}
use vendorfake.Json.{Value}
use vendorfake.Errors.{Result, ok, Result-cases}
use vendorfake.Action.{Action, and_then, and_then-ok}
use vendorfake.Store.State.{Store, IdempotencyRecord, idempotency_capacity}
use vendorfake.Store.Idempotency.{get_idempotent, put_idempotent}
use vendorfake.Store.Laws.Records.{put_idempotent_lem}
use vendorfake.Paths.{dot_get}
use vendorfake.Webhooks.State.{Dispatcher}
use vendorfake.Unit.State.{
  UnitRequest, UnitResponse, IdempotencySpec, ArmedFault, HandlerArgs, Handled, Endpoint, Run,
  Vendor,
}
use vendorfake.Unit.Pipeline.{
  is_after, key_text, replay_stored, Lookup, look_up, is_success, idempotency_record, store_answer,
  settle_handler_fault, refund_unconsumed, after_handler, conclude_handler, run_handler,
}
use vendorfake.Unit.Stages.{answer, response_fault, respond}

-- A lookup that finds no stored answer.
abbrev pub new_key : String → String → Lookup
new_key k digest = record { idem_key = some k; request_digest = digest; replayed = none }

-- The replay of an answer.
abbrev pub replay_of : UnitResponse → UnitResponse
replay_of res = record {
  status = res.status;
  headers = Dict.put res.headers "x-unit-idempotent-replay" "true";
  body = res.body;
  delay_ms = 0;
  transport = none;
}

module _ (x : Vendor) (e : Endpoint) (idem : IdempotencySpec) (body : Value) (k : String)
    (declared : e.idempotency ≡ some idem)
    (keyed : key_text (dot_get body idem.key_path) ≡ some k) where
  look_up_new :
      (req : UnitRequest) (r : Run)
      → x.read_body req ≡ ok body
      → get_idempotent idem.scope k r.hooks.store ≡ none
      → look_up x e req r ≡ (ok (new_key k (x.digest_of body)), r)
  unfolding look_up
  look_up_new req r reads new = rw (declared, reads, keyed, new, look_up) refl

  look_up_stored :
      (req : UnitRequest) (r : Run) (stored : IdempotencyRecord) (res : UnitResponse)
      → x.read_body req ≡ ok body
      → get_idempotent idem.scope k r.hooks.store ≡ some stored
      → replay_stored x.b64url_decode idem k (x.digest_of body) stored ≡ ok res
      → look_up x e req r ≡ (
        ok (record { idem_key = some k; request_digest = x.digest_of body; replayed = some res }),
        r,
      )
  unfolding look_up
  look_up_stored req r stored res reads known fine =
      rw (declared, reads, keyed, known, fine, look_up) refl

-- Without a fault an answer goes out as it is.
and_then-no_fault :
    (x : Vendor) (m : Action Run UnitResponse) (r : Run)
    → and_then m (λ res. response_fault x none res) r ≡ m r
unfolding and_then response_fault
and_then-no_fault x m r = elim (Result-cases (m r).0) [
  | inl (raised, bad) ↦ rw (bad, and_then) refl
  | inr (res, good) ↦ rw (good, and_then) refl
]

settle_handler_fault-store :
    (x : Vendor) (armed : Option ArmedFault) (consumed : Bool) (res : UnitResponse) (r : Run)
    → (settle_handler_fault x armed consumed res r).1.hooks.store ≡ r.hooks.store
unfolding settle_handler_fault refund_unconsumed
settle_handler_fault-store x none consumed res r = refl
settle_handler_fault-store x (some armed) false res r = refl
settle_handler_fault-store x (some armed) true res r = refl

store_answer_lem :
    (x : Vendor) (e : Endpoint) (idem : IdempotencySpec) (k digest : String) (res : UnitResponse)
    (d : Dispatcher)
    → e.idempotency ≡ some idem
    → is_success res.status ≡ true
    → (store_answer x false e.idempotency (new_key k digest) res d).store
      ≡ put_idempotent (idempotency_record x idem k digest res d) d.store
unfolding store_answer
store_answer_lem x e idem k digest res d declared success =
    rw (declared, success, store_answer) refl

conclude_handler-store :
    (x : Vendor) (e : Endpoint) (args : HandlerArgs) (idem : IdempotencySpec) (k digest : String)
    (res : UnitResponse) (h : Handled) (r : Run)
    → e.idempotency ≡ some idem
    → h.result ≡ ok res
    → is_success res.status ≡ true
    → (conclude_handler x e args (new_key k digest) false h r).1.hooks.store
      ≡ put_idempotent (idempotency_record x idem k digest res r.hooks) r.hooks.store
unfolding conclude_handler
conclude_handler-store x e args idem k digest res h r declared returned success =
    let stored : Run = record r {
      hooks = store_answer x false e.idempotency (new_key k digest) res r.hooks;
    } in
    rw (returned, conclude_handler)
      (settle_handler_fault-store x args.fault h.consumed res stored
        ∙ store_answer_lem x e idem k digest res r.hooks declared success)

-- The record that is stored replays the answer to the same body.
replay_stored-record :
    (x : Vendor) (idem : IdempotencySpec) (k digest : String) (res : UnitResponse) (d : Dispatcher)
    → x.b64url_decode (x.b64url_encode res.body) ≡ res.body
    → replay_stored x.b64url_decode idem k digest (idempotency_record x idem k digest res d)
      ≡ ok (replay_of res)
unfolding replay_stored idempotency_record
replay_stored-record x idem k digest res d decodes =
    rw (text_eq_refl digest, decodes, replay_stored) refl

-- The first request of a key answers as its handler does, and leaves the record of it.
run_handler_stores :
    (x : Vendor) (e : Endpoint) (args : HandlerArgs) (idem : IdempotencySpec) (k digest : String)
    (res : UnitResponse) (r : Run)
    → e.idempotency ≡ some idem
    → is_after r.trace.fault_commit ≡ false
    → (after_handler x e args r).0.result ≡ ok res
    → is_success res.status ≡ true
    → (run_handler x e args (new_key k digest) r).1.hooks.store
      ≡ put_idempotent
          (idempotency_record x idem k digest res (after_handler x e args r).1.hooks)
          (after_handler x e args r).1.hooks.store
unfolding run_handler
run_handler_stores x e args idem k digest res r declared commits returned success =
    let p = after_handler x e args r in
    subst
      (λ (b : Bool).
        (conclude_handler x e args (new_key k digest) b p.0 p.1).1.hooks.store
        ≡ put_idempotent (idempotency_record x idem k digest res p.1.hooks) p.1.hooks.store)
      (sym commits)
      (conclude_handler-store x e args idem k digest res p.0 p.1 declared returned success)

respond_new :
    (x : Vendor) (e : Endpoint) (args : HandlerArgs) (k digest : String) (r : Run)
    → look_up x e args.req r ≡ (ok (new_key k digest), r)
    → respond x e args none r ≡ run_handler x e args (new_key k digest) r
unfolding respond answer
respond_new x e args k digest r looked =
    and_then-ok (look_up x e args.req)
      (λ found. and_then (answer x e args found) (λ res. response_fault x none res)) r r
      (new_key k digest) looked
    ∙ and_then-no_fault x (answer x e args (new_key k digest)) r

respond_stored :
    (x : Vendor) (e : Endpoint) (args : HandlerArgs) (found : Lookup) (res : UnitResponse) (r : Run)
    → look_up x e args.req r ≡ (ok found, r)
    → found.replayed ≡ some res
    → respond x e args none r ≡ (ok res, r)
unfolding respond answer
respond_stored x e args found res r looked known =
    and_then-ok (look_up x e args.req)
      (λ found. and_then (answer x e args found) (λ res. response_fault x none res)) r r found
      looked
    ∙ and_then-no_fault x (answer x e args found) r
    ∙ rw (known, answer) refl

-- A route deduplicates by a key, which the body of a request has, and which is new. If no fault is
-- drawn and the handler answers with a 2xx, then every later request with the same body, before
-- the store changes again, gets this answer, with its status, body and headers and the mark
-- of a replay, and changes nothing: no handler runs. The store that the handler leaves is within
-- its bounds, with each idempotency key once, and base64 decodes what it encodes.
pub retry_gets_the_stored_answer :
    (x : Vendor) (e : Endpoint) (args again : HandlerArgs) (idem : IdempotencySpec) (body : Value)
    (k : String) (res : UnitResponse) (r : Run)
    → e.idempotency ≡ some idem
    → key_text (dot_get body idem.key_path) ≡ some k
    → x.read_body args.req ≡ ok body
    → x.read_body again.req ≡ ok body
    → get_idempotent idem.scope k r.hooks.store ≡ none
    → is_after r.trace.fault_commit ≡ false
    → (after_handler x e args r).0.result ≡ ok res
    → is_success res.status ≡ true
    → NodupKeys (after_handler x e args r).1.hooks.store.idempotency
    → Dict.size (after_handler x e args r).1.hooks.store.idempotency ≤ idempotency_capacity
    → x.b64url_decode (x.b64url_encode res.body) ≡ res.body
    → respond x e again none (respond x e args none r).1
      ≡ (ok (replay_of res), (respond x e args none r).1)
unfolding idempotency_record
retry_gets_the_stored_answer x e args again idem body k res r declared keyed reads rereads new
      commits returned success unique fits decodes =
    let digest = x.digest_of body in
    let looked = look_up_new x e idem body k declared keyed args.req r reads new in
    let first = respond_new x e args k digest r looked in
    let p = after_handler x e args r in
    let r' = (respond x e args none r).1 in
    let stored = idempotency_record x idem k digest res p.1.hooks in
    let left : r'.hooks.store ≡ put_idempotent stored p.1.hooks.store =
      ap (λ (q : Result UnitResponse × Run). q.1.hooks.store) first
      ∙ run_handler_stores x e args idem k digest res r declared commits returned success in
    let law = (put_idempotent_lem stored p.1.hooks.store "" unique fits).1 in
    let found = subst (λ (s : Store). get_idempotent idem.scope k s ≡ some stored) (sym left) law in
    let relooked =
      look_up_stored x e idem body k declared keyed again.req r' stored (replay_of res) rereads
        found (replay_stored-record x idem k digest res p.1.hooks decodes) in
    respond_stored x e again
      (record { idem_key = some k; request_digest = digest; replayed = some (replay_of res) })
      (replay_of res) r' relooked refl
