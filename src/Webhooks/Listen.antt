-- ===== src/Webhooks/Listen.antt =====
-- The journal listener of `attach`, `_prepare` and `_mint_event_id`, and the settings of
-- core/webhooks/dispatcher.py.
use Prim.Native.String.{◌++◌ as text_append}
use vendorfake.Prelude.{
  ℕ, zero, suc, ◌+◌, String, Bool, true, false, not, ◌||◌, Option, none, some, List, [], ◌∷◌,
  if◌then◌else◌,
}
use vendorfake.Text.{text_eq}
use vendorfake.Dict
use vendorfake.Dict.{Dict}
use vendorfake.Json.{ℤ, Value, bool}
use vendorfake.Numbers.{padded}
use vendorfake.Errors.{ok, err}
use vendorfake.Action.{Action, and_then, return}
use vendorfake.Clock.Defs.{iso_ms}
use vendorfake.Registry.Defs.{is_enabled}
use vendorfake.Store.State.{JournalEntry}
use vendorfake.Worker.Defs.{stop as stop_worker}
use vendorfake.Webhooks.Models.{MappedEvent, PreparedEvent, subscription_collection}
use vendorfake.Webhooks.Retry.{patched}
use vendorfake.Webhooks.State.{Context, Signer, Dispatcher, clock_of}
use vendorfake.Webhooks.Log.{first_chars}
use vendorfake.Webhooks.Enqueue.{is_on, enqueue}

-- `text[n:]`
unfoldable pub chars_from : ℕ → String → String
chars_from zero s = s
chars_from (suc n) String.[] = ""
chars_from (suc n) (String.◌∷◌ c s) = chars_from n s

-- `"-".join(...)` of the parts of a digest, shaped like a UUID.
unfoldable pub uuid_shape : String → String
unfolding first_chars chars_from
uuid_shape digest = text_append (first_chars 8 digest) (
    text_append "-" (
      text_append (first_chars 4 (chars_from 8 digest)) (
        text_append "-" (
          text_append (first_chars 4 (chars_from 12 digest)) (
            text_append "-" (
              text_append (first_chars 4 (chars_from 16 digest))
                (text_append "-" (first_chars 12 (chars_from 20 digest)))))))))

-- The text that the digest of an event id is taken of.
abbrev pub event_text : JournalEntry → String → ℕ → String
event_text entry event_type seq = text_append event_type (
    text_append "|" (
      text_append entry.collection (
        text_append "|" (
          text_append entry.id (
            text_append "|" (text_append (padded 0 entry.seq) (text_append "|" (padded 0 seq))))))))

-- `entry.meta is not None and entry.meta.get("seed") is True`
unfoldable pub is_seed : JournalEntry → Bool
is_seed entry = elim entry.meta [
  | none ↦ false
  | some meta ↦ elim (Dict.get meta "seed") [ some (bool b) ↦ b | _ ↦ false ]
]

module _ (x : Context) where
  -- `_mint_event_id`
  unfoldable pub mint_event_id : JournalEntry → String → Dispatcher → String × Dispatcher
  unfolding uuid_shape
  mint_event_id entry event_type d = (
    uuid_shape (x.sha256_hex (event_text entry event_type (d.event_seq + 1))),
    record d { event_seq = d.event_seq + 1 },
  )

  -- `mapped.event_id if mapped.event_id is not None else self._mint_event_id(...)`
  unfoldable pub event_id_of : JournalEntry → MappedEvent → Dispatcher → String × Dispatcher
  unfolding mint_event_id
  event_id_of entry mapped d = elim mapped.event_id [
    | some id ↦ (id, d)
    | none ↦ mint_event_id entry mapped.kind d
  ]

  -- The loop of `_prepare`.
  unfoldable pub prepare_all :
      JournalEntry → List MappedEvent → Dispatcher → List PreparedEvent × Dispatcher
  unfolding event_id_of
  prepare_all entry [] d = ([], d)
  prepare_all entry (mapped ∷ more) d =
      let (event_id, d1) = event_id_of entry mapped d in
      let created_at = iso_ms (clock_of d1) in
      let event : PreparedEvent = record {
        kind = mapped.kind;
        event_id = event_id;
        entity_id = mapped.entity_id;
        created_at = created_at;
        body = mapped.build (record { event_id = event_id; created_at = created_at });
      } in
      let (events, d2) = prepare_all entry more d1 in (event ∷ events, d2)

  unfoldable pub enqueue_all : List PreparedEvent → Action Dispatcher (Unit {0})
  unfolding and_then
  enqueue_all [] = return tt
  enqueue_all (event ∷ events) = and_then (enqueue x event) (λ queued. enqueue_all events)

  -- What the listener does with an entry that passes its tests.
  unfoldable pub map_and_enqueue : JournalEntry → Action Dispatcher (Unit {0})
  unfolding prepare_all enqueue_all
  map_and_enqueue entry d = elim x.events [
    | none ↦ (ok tt, d)
    | some mapper ↦ elim (mapper entry) [
      | err e ↦ (ok tt, d)
      | ok mapped ↦ let (events, d') = prepare_all entry mapped d in enqueue_all events d'
    ]
  ]

  abbrev pub has_signer : Option Signer → Bool
  has_signer none = false
  has_signer (some signer) = true

  -- The listener of `attach`.
  unfoldable pub listener : JournalEntry → Action Dispatcher (Unit {0})
  unfolding is_on is_seed map_and_enqueue
  listener entry d =
      if not (is_on d)
        || not (has_signer x.signer)
        || not (is_enabled d.registry "webhooks")
        || text_eq entry.collection subscription_collection
        || is_seed entry
      then (ok tt, d)
      else map_and_enqueue entry d

  -- `set_retry_policy`
  unfoldable pub set_retry_policy :
      (Value → (ℤ → Option ℤ) → ℤ → Option ℤ) → Dict Value → Dispatcher → Dispatcher
  set_retry_policy rescale patch d = record d {
    retry = patched x.parse_float rescale patch d.retry;
  }

-- `set_enabled`
unfoldable pub set_enabled : Bool → Dispatcher → Dispatcher
set_enabled on d = record d { enabled_flag = on }

-- `clear_log`
unfoldable pub clear_log : Dispatcher → Dispatcher
clear_log d = record d { log = [] }

-- `stop`
unfoldable pub stop : Dispatcher → Dispatcher
stop d = record d { worker = stop_worker d.worker }

-- `with self.muted(): block`; the flag is cleared also when the block raises.
unfoldable pub with_muted : {A : Type 0} → Action Dispatcher A → Action Dispatcher A
with_muted block d =
    let (a, d') = block (record d { muted = true }) in (a, record d' { muted = false })
