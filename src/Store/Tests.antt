-- ===== src/Store/Tests.antt =====
-- Two small stores of core/state/store.py, and the theorems at work on them.
use vendorfake.Prelude.{
  ◌≤◌, String, ◌≡◌, refl, ◌↔◌, true, false, not, ◌&&◌, none, some, List, [], ◌∷◌, arith,
  if◌then◌else◌,
}
use vendorfake.Text.{text_eq, SortedText, Member}
use vendorfake.Dict
use vendorfake.Dict.{Dict}
use vendorfake.Dict.Laws.{NodupKeys}
use vendorfake.Json.{int, pos, str}
use vendorfake.Json.Canonical.{int_eq}
use vendorfake.Errors.{Result, ok, err}
use vendorfake.Clock.Defs.{Clock, virtual, iso_ms, now}
use vendorfake.Store.State.{
  Store, Entity, IdempotencyRecord, idempotency_capacity, new_store, raw, entities,
}
use vendorfake.Store.Diff.{diff_keys}
use vendorfake.Store.Collection.{
  delete, insert, update, entity_id, stamped, already_exists, missing_entity, check_version,
  same_version, bump, next_version, redraft, restore_fixed,
}
use vendorfake.Store.Idempotency.{idempotency_key, get_idempotent, put_idempotent}
use vendorfake.Store.Snapshot.{snapshot, restore}
use vendorfake.Store.Laws.Seq.{IsJournal, new_store-IsJournal}
use vendorfake.Store.Laws.Ops.{
  Call, insert_call, update_call, delete_call, perform_all, perform_all-IsJournal,
}
use vendorfake.Store.Laws.Writes.{entity_at}
use vendorfake.Store.Laws.Update.{Updated, update_lem}
use vendorfake.Store.Laws.Records.{put_idempotent_lem, is_oldest}
use vendorfake.Store.Laws.Restore.{restore-snapshot, KeyedByRecord}
use vendorfake.Store.Laws.Changed.{Changes, diff_keys_lem}
use vendorfake.Store.Laws.Refines.{meanings, perform_all-meanings}

abbrev clock : Clock
clock = record {
  mode = virtual;
  wall = 0;
  virtual_now = 1000;
  next_id = 1;
  timers = [];
  handles = [];
  iso = λ n. "2025-01-01T00:00:01.000Z";
}

abbrev instant : String
instant = "2025-01-01T00:00:01.000Z"

abbrev order : Entity
order = ("id", str "o1") ∷ ("state", str "OPEN") ∷ []

abbrev stored_order : Entity
stored_order =
    ("id", str "o1")
    ∷ ("state", str "OPEN")
    ∷ ("version", int (pos 1))
    ∷ ("created_at", str "2025-01-01T00:00:00.000Z")
    ∷ ("updated_at", str "2025-01-01T00:00:00.000Z")
    ∷ []

abbrev completed_order : Entity
completed_order =
    ("id", str "o1")
    ∷ ("state", str "COMPLETED")
    ∷ ("version", int (pos 2))
    ∷ ("created_at", str "2025-01-01T00:00:00.000Z")
    ∷ ("updated_at", str instant)
    ∷ []

abbrev empty_store : Store
empty_store = record {
  clock = clock;
  collections = [];
  journal = [];
  idempotency = [];
  listeners = 1 ∷ [];
  heard = [];
  muted = false;
  seq = 0;
  volatile_fields = [];
  opaque_fields = [];
}

abbrev store : Store
store = record empty_store { collections = ("orders", ("o1", stored_order) ∷ []) ∷ [] }

-- The mutator tries to change the id as well.
abbrev complete : Entity → Result Entity
complete e = ok (Dict.put (Dict.put e "state" (str "COMPLETED")) "id" (str "other"))

inserted : (insert "orders" order none empty_store).0 ≡ ok (stamped instant order)
unfolding insert entity_id stamped raw entities iso_ms now Dict.has Dict.get Dict.put
inserted = refl

updated : (update "orders" "o1" complete (some (pos 1)) none false store).0 ≡ ok completed_order
unfolding update redraft check_version same_version bump next_version restore_fixed raw entities
    iso_ms now Dict.has Dict.get Dict.put Dict.pop int_eq
updated = refl

taken : (insert "orders" order none store).0 ≡ err (already_exists "orders" "o1")
unfolding insert entity_id raw entities Dict.has Dict.get
taken = refl

not_there :
    (update "orders" "o2" complete none none false store).0 ≡ err (missing_entity "orders" "o2")
unfolding update raw entities Dict.has Dict.get
not_there = refl

update_lem_example :
    Updated "orders" "o1" complete
      (some (pos 1))
      none
      false
      store
      (update "orders" "o1" complete (some (pos 1)) none false store).1
      completed_order
update_lem_example =
    update_lem "orders" "o1" complete (some (pos 1)) none false store completed_order updated

nothing_there : Dict.get (entities store "orders") "o2" ≡ none
unfolding entities Dict.get
nothing_there = refl

abbrev calls : List Call
calls =
    insert_call "orders" order none
    ∷ insert_call "orders" order none
    ∷ update_call "orders" "o1" complete none none false
    ∷ delete_call "orders" "o1" none
    ∷ []

perform_all-IsJournal_example : IsJournal (perform_all calls (new_store clock))
perform_all-IsJournal_example =
    perform_all-IsJournal calls (new_store clock) (new_store-IsJournal clock)

abbrev kept : IdempotencyRecord
kept = record {
  scope = "orders";
  key = "k1";
  request_digest = "d1";
  status = 200;
  headers = [];
  body_b64 = "e30=";
  stored_at = instant;
}

abbrev recorded_store : Store
recorded_store = record store { idempotency = ("orders k1", kept) ∷ [] }

abbrev next_record : IdempotencyRecord
next_record = record kept { key = "k2" }

unique_keys : NodupKeys recorded_store.idempotency
unfolding Dict.has
unique_keys = (refl, tt)

few_records : Dict.size recorded_store.idempotency ≤ idempotency_capacity
few_records = omega arith

put_idempotent_lem_example :
    (Dict.size (put_idempotent next_record recorded_store).idempotency ≤ idempotency_capacity)
    × (get_idempotent "orders" "k2" (put_idempotent next_record recorded_store) ≡ some next_record)
    × (Dict.get (put_idempotent next_record recorded_store).idempotency "orders k1" ≡ (
        if text_eq (idempotency_key "orders" "k2") "orders k1"
        then some next_record
        else (if not (Dict.has recorded_store.idempotency (idempotency_key "orders" "k2"))
              && is_oldest idempotency_capacity recorded_store.idempotency "orders k1"
            then none
            else Dict.get recorded_store.idempotency "orders k1")))
put_idempotent_lem_example =
    put_idempotent_lem next_record recorded_store "orders k1" unique_keys few_records

keyed_by_record : KeyedByRecord recorded_store.idempotency
unfolding idempotency_key
keyed_by_record = (refl, tt)

restore-snapshot_example : restore (snapshot recorded_store) empty_store ≡ record empty_store {
  collections = recorded_store.collections;
  journal = recorded_store.journal;
  idempotency = recorded_store.idempotency;
  seq = recorded_store.seq;
}
restore-snapshot_example =
    restore-snapshot recorded_store empty_store (omega arith) few_records keyed_by_record
      unique_keys

diff_keys_lem_example :
    SortedText (diff_keys stored_order completed_order)
    × ((k : String)
        → Member k (diff_keys stored_order completed_order)
          ↔ Changes stored_order completed_order k)
diff_keys_lem_example = diff_keys_lem stored_order completed_order

deleted : (delete "orders" "o1" none store).0 ≡ ok true
unfolding delete raw entities Dict.has Dict.get
deleted = refl

perform_all-meanings_example :
    entity_at (perform_all calls (new_store clock))
    ≡ meanings (iso_ms clock) calls (entity_at (new_store clock))
unfolding new_store
perform_all-meanings_example = perform_all-meanings calls (new_store clock)
