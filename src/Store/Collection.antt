-- ===== src/Store/Collection.antt =====
-- `Collection` of core/state/store.py.
use vendorfake.Prelude.{
  ℕ, zero, suc, ◌+◌, String, Bool, true, false, Option, none, some, List, [], ◌∷◌, keep,
  if◌then◌else◌,
}
use vendorfake.Text.{text_eq}
use vendorfake.Dict
use vendorfake.Dict.{Dict}
use vendorfake.Json.{ℤ, pos, negsuc, Value, bool, int, str, document}
use vendorfake.Json.Canonical.{int_eq}
use vendorfake.Errors.{
  Result, ok, err, Error, unit_error, value_error, key_error, type_error, conflict, not_found,
  version_conflict, ◌>>=◌,
}
use vendorfake.Clock.Defs.{iso_ms}
use vendorfake.Store.State.{
  Entity, Store, Method, insert as op_insert, update as op_update, delete as op_delete, entities,
  raw, set_entities,
}
use vendorfake.Store.Journal.{append_journal}
use vendorfake.Store.Diff.{diff_keys}

-- `entity.get(key, default)`
abbrev pub get_or : Entity → String → Value → Value
get_or entity key default = elim (Dict.get entity key) [ none ↦ default | some v ↦ v ]

-- `entity.get("id")`, if it is a non-empty string.
unfoldable pub entity_id : Entity → Option String
entity_id entity = elim (Dict.get entity "id") [
  | some (str t) ↦ if text_eq t "" then none else some t
  | _ ↦ none
]

abbrev pub already_exists : String → String → Error
already_exists name id =
    unit_error conflict none (document (("collection", str name) ∷ ("id", str id) ∷ []))

abbrev pub missing_entity : String → String → Error
missing_entity name id =
    unit_error not_found none (document (("collection", str name) ∷ ("id", str id) ∷ []))

-- The entity that `insert` writes.
unfoldable pub stamped : String → Entity → Entity
stamped instant entity =
    let versioned = Dict.put entity "version" (get_or entity "version" (int (pos 1))) in
    let created = Dict.put versioned "created_at" (get_or entity "created_at" (str instant)) in
    Dict.put created "updated_at" (get_or entity "updated_at" (str instant))

-- The write of `insert`, once the id is known to be free.
unfoldable pub commit_insert : String → String → Entity → Option (Dict Value) → Store → Store
commit_insert name id created meta s =
    append_journal name id op_insert none (Dict.get created "version") (Dict.keys created) meta
      (set_entities name (Dict.put (entities s name) id created) s)

-- `Collection.insert`
unfoldable pub insert : String → Entity → Option (Dict Value) → Method Entity
insert name entity meta s = elim (entity_id entity) [
  | none ↦ (err value_error, s)
  | some id ↦
      let s' = raw name s in
      let created = stamped (iso_ms s.clock) entity in
      if Dict.has (entities s' name) id
      then (err (already_exists name id), s')
      else (ok created, commit_insert name id created meta s')
]

-- `current["version"] + 1`
unfoldable pub next_version : Option Value → Result Value
next_version none = err key_error
next_version (some (int (pos n))) = ok (int (pos (n + 1)))
next_version (some (int (negsuc zero))) = ok (int (pos 0))
next_version (some (int (negsuc (suc n)))) = ok (int (negsuc n))
next_version (some (bool true)) = ok (int (pos 2))
next_version (some (bool false)) = ok (int (pos 1))
next_version (some v) = err type_error

-- `expect_version == current["version"]`; Python's `True` is 1.
unfoldable pub same_version : ℤ → Value → Bool
same_version n (int m) = int_eq n m
same_version n (bool true) = int_eq n (pos 1)
same_version n (bool false) = int_eq n (pos 0)
same_version n v = false

abbrev pub version_mismatch : String → String → ℤ → Value → Error
version_mismatch name id supplied current = unit_error version_conflict none (
    document (
      ("collection", str name)
      ∷ ("id", str id)
      ∷ ("supplied", int supplied)
      ∷ ("current", current)
      ∷ []))

-- The check of `expect_version`, skipped when it is `None`.
unfoldable pub check_version : String → String → Option ℤ → Option Value → Result (Unit {0})
unfolding same_version
check_version name id none current = ok tt
check_version name id (some n) none = err key_error
check_version name id (some n) (some v) =
    if same_version n v then ok tt else err (version_mismatch name id n v)

-- The version and the stamp of an update that is not silent.
unfoldable pub bump : Bool → String → Entity → Entity → Result Entity
unfolding next_version
bump true instant current draft = ok draft
bump false instant current draft = do
  version ← next_version (Dict.get current "version")
  ok (Dict.put (Dict.put draft "version" version) "updated_at" (str instant))

-- `id` and `created_at` as they were.
unfoldable pub restore_fixed : String → Entity → Entity → Entity
restore_fixed id current draft =
    let named = Dict.put draft "id" (get_or current "id" (str id)) in
    elim (Dict.get current "created_at") [
      | some v ↦ Dict.put named "created_at" v
      | none ↦ Dict.pop named "created_at"
    ]

-- All that `update` computes from the current entity before it writes: the new entity and
-- `changed`. A mutator that raises gives an error.
unfoldable pub redraft :
    String
    → String
    → (Entity → Result Entity)
    → Option ℤ
    → Bool
    → String
    → Entity
    → Result (Entity × List String)
redraft name id mutate expect_version silent instant current =
    check_version name id expect_version (Dict.get current "version") >>= λ _.
    mutate current >>= λ draft. bump silent instant current draft >>= λ bumped.
    ok (restore_fixed id current bumped, diff_keys current draft)

-- The write of `update`.
unfoldable pub commit_update :
    Bool → String → String → Entity → Entity → List String → Option (Dict Value) → Store → Store
commit_update silent name id current draft changed meta s =
    let written = set_entities name (Dict.put (entities s name) id draft) s in
    if silent
    then written
    else append_journal name id op_update (Dict.get current "version") (Dict.get draft "version")
        changed meta written

-- `Collection.update`
unfoldable pub update :
    String
    → String
    → (Entity → Result Entity)
    → Option ℤ
    → Option (Dict Value)
    → Bool
    → Method Entity
update name id mutate expect_version meta silent s =
    let s' = raw name s in
    elim (Dict.get (entities s' name) id) [
      | none ↦ (err (missing_entity name id), s')
      | some current ↦
          elim (redraft name id mutate expect_version silent (iso_ms s.clock) current) [
            | err e ↦ (err e, s')
            | ok (draft, changed) ↦
                (ok draft, commit_update silent name id current draft changed meta s')
          ]
    ]

-- `Collection.delete`. The entity is gone before `current["version"]` is read.
unfoldable pub delete : String → String → Option (Dict Value) → Method Bool
delete name id meta s =
    let s' = raw name s in
    elim (Dict.get (entities s' name) id) [
      | none ↦ (ok false, s')
      | some current ↦
          let removed = set_entities name (Dict.pop (entities s' name) id) s' in
          elim (Dict.get current "version") [
            | none ↦ (err key_error, removed)
            | some v ↦ (ok true, append_journal name id op_delete (some v) none [] meta removed)
          ]
    ]

-- `Collection.get`; the store changes only in that the collection exists afterwards.
unfoldable pub get : String → String → Store → Option Entity × Store
get name id s = let s' = raw name s in (Dict.get (entities s' name) id, s')

-- `Collection.require`
unfoldable pub require : String → String → Method Entity
unfolding get
require name id s =
    let (found, s') = get name id s in
    elim found [ none ↦ (err (missing_entity name id), s') | some e ↦ (ok e, s') ]

-- `Collection.has`
unfoldable pub has : String → String → Store → Bool × Store
has name id s = let s' = raw name s in (Dict.has (entities s' name) id, s')

-- `Collection.all`
unfoldable pub all_entities : String → Store → List Entity × Store
all_entities name s = let s' = raw name s in (Dict.values (entities s' name), s')

unfoldable pub find_first : (Entity → Bool) → List Entity → Option Entity
find_first predicate [] = none
find_first predicate (e ∷ es) = if predicate e then some e else find_first predicate es

-- `Collection.find`
unfoldable pub find : String → (Entity → Bool) → Store → Option Entity × Store
unfolding all_entities find_first
find name predicate s = let (es, s') = all_entities name s in (find_first predicate es, s')

-- `Collection.filter`
unfoldable pub filter : String → (Entity → Bool) → Store → List Entity × Store
unfolding all_entities
filter name predicate s = let (es, s') = all_entities name s in (keep predicate es, s')

-- `Collection.size`
unfoldable pub size : String → Store → ℕ × Store
size name s = let s' = raw name s in (Dict.size (entities s' name), s')
