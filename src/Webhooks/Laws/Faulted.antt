-- ===== src/Webhooks/Laws/Faulted.antt =====
-- The jobs that a delivery with its fault becomes, `_apply_chaos_and_schedule` of
-- core/webhooks/dispatcher.py.
use vendorfake.Prelude.{
  ℕ, zero, suc, String, ◌≡◌, refl, sym, subst, Bool, true, false, Option, none, some, List, [], ◌∷◌,
  ◌++◌, append-nil, arith, length, length-append,
}
use vendorfake.Errors.{Result, ok}
use vendorfake.Webhooks.State.{
  Queued, Attempt, Signer, Context, Closure, runs, skips, drops, Dispatcher,
}
use vendorfake.Webhooks.Attempts.{signed, build_attempt, submit_attempt, submit_terminal, job_label}
use vendorfake.Webhooks.Enqueue.{
  Plan, sends, holds, discards, copy_tags, send_copy, send_copies, send_released, carry_out,
}
use vendorfake.Webhooks.Laws.Sending.{
  HasRoom, Submitted, submit-Submitted, Submitted-and_then, HasRoom-later,
}

-- The jobs of the copies of a delivery, the first told apart.
abbrev pub copies_of : Context → Signer → Queued → List String → Bool → ℕ → List Closure
copies_of x s q applied is_first zero = []
copies_of x s q applied is_first (suc n) =
    runs (signed x (record q { chaos_applied = copy_tags is_first applied }) s)
    ∷ copies_of x s q applied false n

-- The job of the event that waited.
abbrev pub released_of : Context → Signer → Option Queued → List Closure
released_of x s none = []
released_of x s (some q) =
    runs (signed x (record q { chaos_applied = "released-after-reorder" ∷ [] }) s) ∷ []

-- All jobs of a plan, with the event in the slot.
abbrev pub planned : Context → Signer → Plan → Option Queued → List Closure
planned x s (sends q applied copies delay) held =
    copies_of x s q applied true copies ++ released_of x s held
planned x s (holds q) held = skips q "held for out-of-order delivery" ∷ []
planned x s (discards q) held = drops q "dropped by chaos rule (webhook.drop)" ∷ []

-- The slot afterwards.
abbrev pub slot_after : Plan → Option Queued → Option Queued
slot_after (sends q applied copies delay) held = none
slot_after (holds q) held = some q
slot_after (discards q) held = held

-- No delay is asked for.
abbrev pub IsImmediate : Plan → Type 0
IsImmediate (sends q applied copies delay) = delay ≡ 0
IsImmediate (holds q) = Unit
IsImmediate (discards q) = Unit

module _ (x : Context) (s : Signer) (wired : x.signer ≡ some s) where
  build_attempt_lem : (q : Queued) → build_attempt x q ≡ some (signed x q s)
  unfolding build_attempt
  build_attempt_lem q = rw (wired, build_attempt) refl

  submit_attempt-Submitted :
      (a : Attempt) (d : Dispatcher)
      → HasRoom 1 d
      → Submitted (runs a ∷ []) d (submit_attempt x a d)
  unfolding submit_attempt
  submit_attempt-Submitted a d room =
      submit-Submitted x (runs a) (job_label a.queued) a.queued d room

  send_copy-Submitted :
      (q : Queued) (d : Dispatcher)
      → HasRoom 1 d
      → Submitted (runs (signed x q s) ∷ []) d (send_copy x q 0 d)
  unfolding send_copy
  send_copy-Submitted q d room =
      rw (build_attempt_lem q, send_copy) (submit_attempt-Submitted (signed x q s) d room)

  stays-Submitted : (d : Dispatcher) → Submitted [] d (ok tt, d)
  stays-Submitted d = record {
    returned = refl;
    closures = sym (append-nil d.closures);
    queue = sym (append-nil d.worker.queue);
    open_still = refl;
    sent = refl;
    log = refl;
    clock = refl;
  }

  send_copies-Submitted :
      (q : Queued) (applied : List String) (is_first : Bool) (n : ℕ) (d : Dispatcher)
      → HasRoom (length (copies_of x s q applied is_first n)) d
      → Submitted (copies_of x s q applied is_first n) d (send_copies x q applied 0 is_first n d)
  unfolding send_copies
  send_copies-Submitted q applied is_first zero d room = stays-Submitted d
  send_copies-Submitted q applied is_first (suc n) d room =
      let copy = record q { chaos_applied = copy_tags is_first applied } in
      let one = send_copy-Submitted copy d (room.0, omega (arith, room.1)) in
      Submitted-and_then (runs (signed x copy s) ∷ []) (copies_of x s q applied false n)
        (send_copy x copy 0) (λ sent. send_copies x q applied 0 false n) d one
        (send_copies-Submitted q applied false n (send_copy x copy 0 d).1 (
          HasRoom-later (runs (signed x copy s) ∷ []) d (send_copy x copy 0 d)
            (length (copies_of x s q applied false n)) one (room.0, omega (arith, room.1))))

  send_released-Submitted :
      (held : Option Queued) (d : Dispatcher)
      → HasRoom (length (released_of x s held)) d
      → Submitted (released_of x s held) d (send_released x held d)
  unfolding send_released
  send_released-Submitted none d room = stays-Submitted d
  send_released-Submitted (some q) d room =
      let released = record q { chaos_applied = "released-after-reorder" ∷ [] } in
      rw (build_attempt_lem released, send_released)
        (submit_attempt-Submitted (signed x released s) d room)

  submit_terminal-Submitted :
      (c : Closure) (q : Queued) (d : Dispatcher)
      → HasRoom 1 d
      → Submitted (c ∷ []) d (submit_terminal x c q d)
  unfolding submit_terminal
  submit_terminal-Submitted c q d room = submit-Submitted x c (job_label q) q d room

with_slot :
    (cs : List Closure) (held : Option Queued) (d : Dispatcher) (p : Result (Unit {0}) × Dispatcher)
    → Submitted cs (record d { held_for_reorder = held }) p
    → Submitted cs d p
with_slot cs held d p s = record {
  returned = s.returned;
  closures = s.closures;
  queue = s.queue;
  open_still = s.open_still;
  sent = s.sent;
  log = s.log;
  clock = s.clock;
}

-- With a signer, a worker that takes the jobs, and no delay, a delivery becomes these jobs, in this
-- order, behind those that wait: one per copy, and behind them the event that was held for
-- reordering; or, for a fault that holds or drops the event, one job that only records. The call
-- returns, and itself sends and records nothing.
pub carry_out_order :
    (x : Context) (s : Signer) (plan : Plan) (d : Dispatcher)
    → x.signer ≡ some s
    → IsImmediate plan
    → HasRoom (length (planned x s plan d.held_for_reorder)) d
    → Submitted (planned x s plan d.held_for_reorder) d (carry_out x plan d)
unfolding carry_out
carry_out_order x s (sends q applied copies delay) d wired now room =
    let first = copies_of x s q applied true copies in
    let then_released = released_of x s d.held_for_reorder in
    let emptied : Dispatcher = record d { held_for_reorder = none } in
    let all_of_them = length-append first then_released in
    let sent =
      send_copies-Submitted x s wired q applied true copies emptied
        (room.0, omega (arith, room.1, all_of_them)) in
    let later =
      HasRoom-later first emptied (send_copies x q applied 0 true copies emptied)
        (length then_released) sent (room.0, omega (arith, room.1, all_of_them)) in
    let both =
      Submitted-and_then first then_released (send_copies x q applied 0 true copies)
        (λ sent. send_released x d.held_for_reorder) emptied sent
        (send_released-Submitted x s wired d.held_for_reorder
          (send_copies x q applied 0 true copies emptied).1 later) in
    subst (λ k. Submitted (first ++ then_released) d (carry_out x (sends q applied copies k) d))
      (sym now)
      (with_slot (first ++ then_released) none d (carry_out x (sends q applied copies 0) d) both)
carry_out_order x s (holds q) d wired now room =
    let skip = skips q "held for out-of-order delivery" in
    with_slot (skip ∷ []) (some q) d (carry_out x (holds q) d)
      (submit_terminal-Submitted x s wired skip q (record d { held_for_reorder = some q }) room)
carry_out_order x s (discards q) d wired now room =
    submit_terminal-Submitted x s wired (drops q "dropped by chaos rule (webhook.drop)") q d room
