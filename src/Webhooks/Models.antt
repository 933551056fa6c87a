-- ===== src/Webhooks/Models.antt =====
-- core/webhooks/models.py and the event types of core/kernel/types.py. Bytes are their text.
use vendorfake.Prelude.{
  ℕ, String, Bool, true, false, ◌&&◌, ◌||◌, Option, none, some, List, [], ◌∷◌, ◌++◌, map, ltb, ◌==◌,
  if◌then◌else◌,
}
use vendorfake.Text.{text_eq}
use vendorfake.Dict
use vendorfake.Dict.{Dict}
use vendorfake.Json.{ℤ, pos, Value, Items, null, bool, int, str, arr, nil, cons, strs, document}
use vendorfake.Errors.{Result, ok, err, key_error}
use vendorfake.Chaos.Glob.{has_star, full_match}
use vendorfake.Store.State.{Entity}

-- `SUBSCRIPTION_COLLECTION`
abbrev pub subscription_collection : String
subscription_collection = "subscriptions"

pub data DeliveryOutcome : Type 0 where
  timeout transport_error http_error : DeliveryOutcome

-- `DeliveryOutcome.of`
unfoldable pub outcome_of : ℕ → Bool → DeliveryOutcome
outcome_of status timed_out =
    if timed_out then timeout else (if status == 0 then transport_error else http_error)

pub record Subscription : Type 0 where
  pub id : String
  pub notification_url : String
  pub event_types : List String
  pub signature_key : String
  pub enabled : Bool
  pub name : Option String
  pub api_version : Option String

-- `str(v)`; what `repr` makes of a value that is not a text is an argument.
abbrev pub to_text : (Value → String) → Value → String
to_text repr (str t) = t
to_text repr v = repr v

abbrev pub text_or_empty : (Value → String) → Option Value → String
text_or_empty repr none = ""
text_or_empty repr (some v) = to_text repr v

-- `None if v is None else str(v)`, of `entity.get(...)`.
abbrev pub optional_text : (Value → String) → Option Value → Option String
optional_text repr none = none
optional_text repr (some null) = none
optional_text repr (some v) = some (to_text repr v)

unfoldable pub texts : (Value → String) → Items → List String
texts repr nil = []
texts repr (cons v vs) = to_text repr v ∷ texts repr vs

abbrev pub event_types_of : (Value → String) → Option Value → List String
event_types_of repr (some (arr vs)) = texts repr vs
event_types_of repr _ = []

-- `entity.get("enabled", True) is not False`
abbrev pub is_not_false : Option Value → Bool
is_not_false (some (bool false)) = false
is_not_false _ = true

-- `Subscription.from_entity`
unfoldable pub from_entity : (Value → String) → Entity → Result Subscription
unfolding texts
from_entity repr entity = elim (Dict.get entity "id") [
  | none ↦ err key_error
  | some id ↦ ok (record {
    id = to_text repr id;
    notification_url = text_or_empty repr (Dict.get entity "notification_url");
    event_types = event_types_of repr (Dict.get entity "event_types");
    signature_key = text_or_empty repr (Dict.get entity "signature_key");
    enabled = is_not_false (Dict.get entity "enabled");
    name = optional_text repr (Dict.get entity "name");
    api_version = optional_text repr (Dict.get entity "api_version");
  })
]

-- `EventMeta`
pub record EventMeta : Type 0 where
  pub event_id : String
  pub created_at : String

-- `MappedEvent`
pub record MappedEvent : Type 0 where
  pub kind : String
  pub entity_id : String
  pub build : EventMeta → Value
  pub event_id : Option String

-- `PreparedEvent`; `kind` is the field `type`.
pub record PreparedEvent : Type 0 where
  pub kind : String
  pub event_id : String
  pub entity_id : String
  pub created_at : String
  pub body : Value

-- `SignInput`
pub record SignInput : Type 0 where
  pub notification_url : String
  pub raw_body : String
  pub secret : String
  pub attempt : ℕ
  pub event : PreparedEvent

pub record DeliveryMetadata : Type 0 where
  pub event : PreparedEvent
  pub subscription_id : String
  pub notification_url : String
  pub attempt : ℕ
  pub retry_number : ℕ
  pub retry_reason : Option DeliveryOutcome
  pub initial_delivery_at : String

-- `DeliveryMetadata.is_retry`
unfoldable pub is_retry : DeliveryMetadata → Bool
is_retry m = ltb 0 m.retry_number

-- `DELIVERY_STATUSES`
pub data DeliveryStatus : Type 0 where
  delivered failed exhausted skipped dropped : DeliveryStatus

abbrev pub status_text : DeliveryStatus → String
status_text delivered = "delivered"
status_text failed = "failed"
status_text exhausted = "exhausted"
status_text skipped = "skipped"
status_text dropped = "dropped"

pub record DeliveryRecord : Type 0 where
  pub id : String
  pub event_id : String
  pub event_type : String
  pub entity_id : String
  pub subscription_id : String
  pub url : String
  pub attempt : ℕ
  pub retry_number : ℕ
  pub at : String
  pub status : DeliveryStatus
  pub response_status : ℕ
  pub body_hash : String
  pub body_preview : String
  pub headers : Dict String
  pub body : Value
  pub body_is_json : Bool
  pub chaos : List String
  pub error : Option String
  pub next_attempt_in_ms : Option ℤ

abbrev pub text_values : Dict String → Dict Value
text_values d = map (λ (k, v). (k, str v)) d

abbrev pub body_field : Bool → Value → Dict Value
body_field true body = ("body", body) ∷ []
body_field false body = []

abbrev pub chaos_field : List String → Dict Value
chaos_field [] = []
chaos_field (c ∷ cs) = ("chaos", strs (c ∷ cs)) ∷ []

abbrev pub error_field : Option String → Dict Value
error_field none = []
error_field (some e) = ("error", str e) ∷ []

abbrev pub next_field : Option ℤ → Dict Value
next_field none = []
next_field (some n) = ("next_attempt_in_ms", int n) ∷ []

-- `DeliveryRecord.as_json`
unfoldable pub record_json : DeliveryRecord → Value
record_json r = document (
    ("id", str r.id)
    ∷ ("event_id", str r.event_id)
    ∷ ("event_type", str r.event_type)
    ∷ ("entity_id", str r.entity_id)
    ∷ ("subscription_id", str r.subscription_id)
    ∷ ("url", str r.url)
    ∷ ("attempt", int (pos r.attempt))
    ∷ ("retry_number", int (pos r.retry_number))
    ∷ ("at", str r.at)
    ∷ ("status", str (status_text r.status))
    ∷ ("response_status", int (pos r.response_status))
    ∷ ("body_hash", str r.body_hash)
    ∷ ("body_preview", str r.body_preview)
    ∷ ("headers", document (text_values r.headers))
    ∷ (body_field r.body_is_json r.body
        ++ (chaos_field r.chaos ++ (error_field r.error ++ next_field r.next_attempt_in_ms))))

-- `matches_event_type`
unfoldable pub matches_event_type : List String → String → Bool
matches_event_type [] event_type = false
matches_event_type (pattern ∷ patterns) event_type =
    text_eq pattern event_type
    || text_eq pattern "*"
    || (has_star pattern && full_match pattern event_type)
    || matches_event_type patterns event_type
