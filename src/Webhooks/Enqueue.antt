-- ===== src/Webhooks/Enqueue.antt =====
-- `enqueue`, `enqueue_to`, `_apply_chaos_and_schedule`, the journal listener of `attach` and the
-- settings of core/webhooks/dispatcher.py.
use Prim.Native.String.{◌++◌ as text_append}
use vendorfake.Prelude.{
  ℕ, zero, suc, String, Bool, true, false, not, ◌&&◌, ◌||◌, Option, none, some, List, [], ◌∷◌, ◌++◌,
  keep, ltb, if◌then◌else◌,
}
use vendorfake.Text.{text_eq}
use vendorfake.Dict
use vendorfake.Dict.{Dict}
use vendorfake.Json.{pos}
use vendorfake.Numbers.{as_int, as_float, at_least_zero, one_more}
use vendorfake.Ring.{push}
use vendorfake.Errors.{Result, ok, err, ◌>>=◌}
use vendorfake.Action.{Action, and_then, change, return}
use vendorfake.Clock.Defs.{iso_ms}
use vendorfake.Chaos.Rules.{webhook}
use vendorfake.Chaos.Engine.{ChaosSubject, ChaosDecision}
use vendorfake.Chaos.Selector.{select_webhook}
use vendorfake.Store.State.{Entity}
use vendorfake.Store.Collection.{all_entities}
use vendorfake.Webhooks.Models.{
  Subscription, PreparedEvent, matches_event_type, from_entity, subscription_collection,
}
use vendorfake.Webhooks.State.{
  Queued, Context, skips, drops, Dispatcher, prepared_capacity, clock_of,
}
use vendorfake.Webhooks.Attempts.{build_attempt, schedule, submit_attempt, submit_terminal}

-- The property `enabled`
unfoldable pub is_on : Dispatcher → Bool
is_on d = d.enabled_flag && not d.disabled

-- `ChaosSubject(scope="webhook", event_type=..., path=...)`
abbrev pub subject_of : Queued → ChaosSubject
subject_of q = record {
  scope = webhook;
  route_key = none;
  method = none;
  path = some q.subscription.notification_url;
  capability = none;
  event_type = some q.event.kind;
  headers = [];
  body_text = none;
}

-- `self._selector.select_webhook(...)`; the engine reads the dispatcher's clock.
unfoldable pub select : Queued → Action Dispatcher (Option ChaosDecision)
select q d =
    elim (select_webhook d.registry (subject_of q)
      (record (d.engine) { now_iso = iso_ms (clock_of d) })) [
        | err e ↦ (err e, d)
        | ok (decision, engine) ↦ (ok decision, record d { engine = engine })
      ]

-- `f"{decision.rule_id}:{decision.fault}"`
abbrev pub applied_tag : ChaosDecision → String
applied_tag c = text_append c.rule_id (text_append ":" c.fault)

-- What a decision makes of a delivery: attempts to send, or an outcome without one.
pub data Plan : Type 0 where
  sends : Queued → List String → ℕ → ℕ → Plan
  holds discards : Queued → Plan

-- The branches of `_apply_chaos_and_schedule` on the decision. `sends q applied copies delay`.
unfoldable pub plan_of : Context → Queued → Option ChaosDecision → Plan
plan_of x q none = sends q [] 1 0
plan_of x q (some c) =
    let applied = applied_tag c ∷ [] in
    if text_eq c.fault "webhook.duplicate"
    then sends q applied (one_more (as_int x.parse_float (Dict.get c.params "copies") (pos 1))) 0
    else if text_eq c.fault "webhook.delay"
    then sends q applied 1
        (at_least_zero (as_float x.parse_float (Dict.get c.params "delay_ms") (pos 50)))
    else if text_eq c.fault "webhook.drop_ack"
    then sends (record q { drop_ack = true }) applied 1 0
    else if text_eq c.fault "webhook.out_of_order"
    then holds (record q { chaos_applied = applied })
    else if text_eq c.fault "webhook.drop"
    then discards (record q { chaos_applied = applied })
    else sends q applied 1 0

-- The label of a delayed delivery's timer.
abbrev pub delay_label : Queued → String
delay_label q = text_append "webhook:" q.event.event_id

abbrev pub copy_tags : Bool → List String → List String
copy_tags true applied = applied
copy_tags false applied = applied ++ "duplicate-copy" ∷ []

abbrev pub wants : PreparedEvent → Subscription → Bool
wants event s = s.enabled && matches_event_type s.event_types event.kind

-- `self._prepared.append(event)`
unfoldable pub prepare : PreparedEvent → Dispatcher → Dispatcher
prepare event d = record d { prepared = push prepared_capacity d.prepared event }

-- `next((s for s in subscriptions if s.id == subscription_id), None)`
unfoldable pub named : String → List Subscription → Option Subscription
named id [] = none
named id (s ∷ ss) = if text_eq s.id id then some s else named id ss

module _ (x : Context) where
  -- One copy: built, then scheduled or submitted.
  unfoldable pub send_copy : Queued → ℕ → Action Dispatcher (Unit {0})
  send_copy q delay_ms d = elim (build_attempt x q) [
    | none ↦ (ok tt, d)
    | some a ↦
        if ltb 0 delay_ms
        then (ok tt, schedule a delay_ms (delay_label q) d)
        else submit_attempt x a d
  ]

  -- `for index in range(copies)`; the first copy is told apart.
  unfoldable pub send_copies : Queued → List String → ℕ → Bool → ℕ → Action Dispatcher (Unit {0})
  unfolding send_copy and_then
  send_copies q applied delay_ms is_first zero = return tt
  send_copies q applied delay_ms is_first (suc n) =
      and_then (send_copy (record q { chaos_applied = copy_tags is_first applied }) delay_ms)
        (λ sent. send_copies q applied delay_ms false n)

  -- The event that waited in the slot is sent behind the copies.
  unfoldable pub send_released : Option Queued → Action Dispatcher (Unit {0})
  send_released none d = (ok tt, d)
  send_released (some q) d =
      elim (build_attempt x (record q { chaos_applied = "released-after-reorder" ∷ [] })) [
        | none ↦ (ok tt, d)
        | some a ↦ submit_attempt x a d
      ]

  -- `_apply_chaos_and_schedule`, from the decision on.
  unfoldable pub carry_out : Plan → Action Dispatcher (Unit {0})
  unfolding send_copies send_released and_then
  carry_out (holds q) d =
      submit_terminal x (skips q "held for out-of-order delivery") q
        (record d { held_for_reorder = some q })
  carry_out (discards q) d = submit_terminal x (drops q "dropped by chaos rule (webhook.drop)") q d
  carry_out (sends q applied copies delay_ms) d =
      and_then (send_copies q applied delay_ms true copies)
        (λ sent. send_released d.held_for_reorder) (record d { held_for_reorder = none })

  -- `_apply_chaos_and_schedule`
  unfoldable pub apply_chaos : Queued → Action Dispatcher (Unit {0})
  unfolding select plan_of carry_out and_then
  apply_chaos q = and_then (select q) (λ decision. carry_out (plan_of x q decision))

  -- `_queue`
  unfoldable pub queue : PreparedEvent → Subscription → Action Dispatcher (Unit {0})
  unfolding apply_chaos
  queue event subscription d =
      apply_chaos
        (record {
          event = event;
          subscription = subscription;
          retry_number = 0;
          initial_delivery_at = iso_ms (clock_of d);
          drop_ack = false;
          retry_reason = none;
          chaos_applied = [];
        })
        d

  unfoldable pub all_from : List Entity → Result (List Subscription)
  all_from [] = ok []
  all_from (e ∷ es) = from_entity x.repr e >>= λ s. all_from es >>= λ ss. ok (s ∷ ss)

  -- `subscriptions`
  unfoldable pub subscriptions : Action Dispatcher (List Subscription)
  unfolding all_from all_entities
  subscriptions d =
      let (es, store) = all_entities subscription_collection d.store in
      (all_from es, record d { store = store })

  unfoldable pub queue_all : PreparedEvent → List Subscription → Action Dispatcher (Unit {0})
  unfolding queue and_then
  queue_all event [] = return tt
  queue_all event (s ∷ ss) = and_then (queue event s) (λ queued. queue_all event ss)

  -- `enqueue`
  unfoldable pub enqueue : PreparedEvent → Action Dispatcher (Unit {0})
  unfolding is_on subscriptions prepare queue_all and_then
  enqueue event d =
      if not (is_on d) || d.muted
      then (ok tt, d)
      else and_then subscriptions
          (λ all_of_them.
            and_then (change (prepare event))
              (λ done. queue_all event (keep (wants event) all_of_them)))
          d

  -- `enqueue_to`, once the subscriber is looked up.
  unfoldable pub deliver_to : PreparedEvent → Option Subscription → Action Dispatcher Bool
  unfolding prepare queue and_then
  deliver_to event none d = (ok false, d)
  deliver_to event (some s) d =
      if not s.enabled
      then (ok false, d)
      else and_then (change (prepare event))
          (λ done. and_then (queue event s) (λ queued. return true)) d

  -- `enqueue_to`
  unfoldable pub enqueue_to : PreparedEvent → String → Action Dispatcher Bool
  unfolding is_on subscriptions named deliver_to and_then
  enqueue_to event subscription_id d =
      if not (is_on d) || d.muted
      then (ok false, d)
      else and_then subscriptions
          (λ all_of_them. deliver_to event (named subscription_id all_of_them)) d
