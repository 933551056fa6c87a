-- ===== src/Webhooks/Log.antt =====
-- The delivery log of core/webhooks/dispatcher.py: `_record` and `_parse_body`.
use Prim.Native.String.{◌++◌ as text_append, ◌∷◌ as push_front}
use vendorfake.Prelude.{
  ℕ, zero, suc, ◌+◌, String, Bool, true, false, Option, none, some, List, [], ◌∷◌, ◌++◌,
  if◌then◌else◌,
}
use vendorfake.Text.{text_eq}
use vendorfake.Dict.{Dict}
use vendorfake.Json.{ℤ, Value, null}
use vendorfake.Numbers.{padded}
use vendorfake.Ring.{push}
use vendorfake.Clock.Defs.{iso_ms}
use vendorfake.Webhooks.Models.{DeliveryRecord, DeliveryStatus}
use vendorfake.Webhooks.State.{Queued, Context, Dispatcher, delivery_log_capacity, clock_of}

-- `_BODY_PREVIEW_LIMIT`
abbrev pub body_preview_limit : ℕ
body_preview_limit = 400

-- `text[:n]`
unfoldable pub first_chars : ℕ → String → String
first_chars zero s = ""
first_chars (suc n) String.[] = ""
first_chars (suc n) (String.◌∷◌ c s) = push_front c (first_chars n s)

-- `f"dlv_{n:05d}"`
unfoldable pub delivery_id : ℕ → String
delivery_id n = text_append "dlv_" (padded 5 n)

-- What `_record` is told of an attempt besides its status.
pub record Evidence : Type 0 where
  pub response_status : ℕ
  pub error : Option String
  pub headers : Dict String
  pub body_text : String
  pub next_attempt_in_ms : Option ℤ

abbrev pub notice : Bool → DeliveryRecord → List DeliveryRecord → List DeliveryRecord
notice true r noticed = noticed ++ r ∷ []
notice false r noticed = noticed

-- The first section under the log lock.
abbrev pub count_delivery : Dispatcher → Dispatcher
count_delivery d = record d { delivery_seq = d.delivery_seq + 1 }

-- The second section under the log lock, and the call of `on_log` behind it.
abbrev pub append_record : DeliveryRecord → Dispatcher → Dispatcher
append_record r d = record d {
  log = push delivery_log_capacity d.log r;
  noticed = notice d.on_log r d.noticed;
}

-- The dispatcher with one more record.
unfoldable pub log_record : DeliveryRecord → Dispatcher → Dispatcher
log_record r d = append_record r (count_delivery d)

abbrev pub no_evidence : String → Evidence
no_evidence error = record {
  response_status = 0;
  error = some error;
  headers = [];
  body_text = "";
  next_attempt_in_ms = none;
}

module _ (x : Context) where
  -- `_parse_body`
  unfoldable pub parse_body : String → Value × Bool
  parse_body body_text =
      if text_eq body_text ""
      then (null, false)
      else elim (x.load_json body_text) [ none ↦ (null, false) | some v ↦ (v, true) ]

  -- The record that `_record` builds, after `self._delivery_seq += 1`.
  unfoldable pub next_record : Queued → DeliveryStatus → Evidence → Dispatcher → DeliveryRecord
  unfolding parse_body delivery_id first_chars
  next_record q status v d = record {
    id = delivery_id (d.delivery_seq + 1);
    event_id = q.event.event_id;
    event_type = q.event.kind;
    entity_id = q.event.entity_id;
    subscription_id = q.subscription.id;
    url = q.subscription.notification_url;
    attempt = q.retry_number + 1;
    retry_number = q.retry_number;
    at = iso_ms (clock_of d);
    status = status;
    response_status = v.response_status;
    body_hash = if text_eq v.body_text "" then "" else x.sha256_hex v.body_text;
    body_preview = first_chars body_preview_limit v.body_text;
    headers = v.headers;
    body = (parse_body v.body_text).0;
    body_is_json = (parse_body v.body_text).1;
    chaos = q.chaos_applied;
    error = v.error;
    next_attempt_in_ms = v.next_attempt_in_ms;
  }

  -- `_record`, as its thread runs it: its two sections under the log lock, one behind the other.
  unfoldable pub record_delivery : Queued → DeliveryStatus → Evidence → Dispatcher → Dispatcher
  unfolding next_record log_record
  record_delivery q status v d = log_record (next_record q status v d) d
