-- ===== src/Store/Laws/Writes.antt =====
-- What a call that succeeds writes.
use vendorfake.Prelude.{
  ◌+◌, String, ◌≡◌, refl, ◌∙◌, ap, Option, none, some, List, ◌++◌, Bool-cases, Option-cases, inl,
  inr, arith, if◌then◌else◌,
}
use vendorfake.Text.{text_eq, text_eq_iff}
use vendorfake.Dict
use vendorfake.Dict.{Dict}
use vendorfake.Dict.Laws.{get-put, get_of_not_has}
use vendorfake.Json.{Value}
use vendorfake.Errors.{ok}
use vendorfake.Ring.{push}
use vendorfake.Clock.Defs.{iso_ms}
use vendorfake.Store.State.{
  Store, Entity, JournalEntry, Op, insert as op_insert, journal_capacity, entities, raw,
  set_entities,
}
use vendorfake.Store.Journal.{append_journal, next_entry, calls}
use vendorfake.Store.Collection.{insert, entity_id, stamped, commit_insert}
use vendorfake.Store.Laws.Entities.{entities-raw, entities-set_entities, entities-append_journal}

-- The entity under an id of a collection.
abbrev pub entity_at : Store → String → String → Option Entity
entity_at s name id = Dict.get (entities s name) id

-- Writing one entity and journalling it, or not, changes that entity alone.
write_one :
    (name id n k : String) (entity : Entity) (s : Store)
    → entity_at (set_entities name (Dict.put (entities s name) id entity) s) n k ≡ (
        if text_eq name n
        then (if text_eq id k then some entity else entity_at s n k)
        else entity_at s n k)
write_one name id n k entity s = ground (
  arith,
  entities-set_entities name n (Dict.put (entities s name) id entity) s,
  get-put (entities s name) id k entity,
  text_eq_iff name n,
)

-- The only entity that differs between two stores is the one under `id`, which is now `entity`.
abbrev pub WritesOne : String → String → Entity → Store → Store → Type 0
WritesOne name id entity s t =
    (n k : String)
    → entity_at t n k ≡ (
        if text_eq name n
        then (if text_eq id k then some entity else entity_at s n k)
        else entity_at s n k)

pub write_raw :
    (name id : String) (entity : Entity) (s : Store)
    → WritesOne name id entity s
        (set_entities name (Dict.put (entities (raw name s) name) id entity) (raw name s))
write_raw name id entity s n k =
    rw (write_one name id n k entity (raw name s)) (ground (arith, entities-raw name n s))

-- One more entry stands in the journal, and every listener has heard it, unless they are muted.
pub record Journalled (entry : JournalEntry) (s t : Store) : Type 0 where
  pub counted : t.seq ≡ s.seq + 1
  pub numbered : entry.seq ≡ t.seq
  pub appended : t.journal ≡ push journal_capacity s.journal entry
  pub told : t.heard ≡ s.heard ++ calls s.muted s.listeners entry

-- The write of `insert` and of `update`, after the collection was read.
pub write-Journalled :
    (name id : String) (op : Op) (v w : Option Value) (ks : List String)
    (meta : Option (Dict Value)) (entity : Entity) (s : Store)
    → let t =
        append_journal name id op v w ks meta
          (set_entities name (Dict.put (entities (raw name s) name) id entity) (raw name s)) in
      WritesOne name id entity s t × Journalled (next_entry s name id op v w ks meta) s t
unfolding append_journal set_entities raw
write-Journalled name id op v w ks meta entity s = (
  λ n k. entities_same n k ∙ write_raw name id entity s n k,
  record {
    counted = ground arith;
    numbered = ground arith;
    appended = ground arith;
    told = ground arith;
  },
)
  where
    entities_same :
        (n k : String)
        → entity_at
            (append_journal name id op v w ks meta
              (set_entities name (Dict.put (entities (raw name s) name) id entity) (raw name s)))
            n
            k
          ≡ entity_at
              (set_entities name (Dict.put (entities (raw name s) name) id entity) (raw name s))
              n
              k
    entities_same n k =
        ap (λ es. Dict.get es k) (entities-append_journal name id op v w ks meta _ n)

pub commit_insert_lem :
    (name id : String) (created : Entity) (meta : Option (Dict Value)) (s : Store)
    → let t = commit_insert name id created meta (raw name s) in
      WritesOne name id created s t
      × Journalled
          (next_entry s name id op_insert none
            (Dict.get created "version")
            (Dict.keys created)
            meta)
          s
          t
unfolding commit_insert
commit_insert_lem name id created meta s =
    write-Journalled name id op_insert none _ _ meta created s

-- What an insert that succeeds found and wrote, in the store `t` that it leaves.
pub record Inserted (name : String) (entity : Entity) (meta : Option (Dict Value)) (s t : Store)
    (created : Entity) : Type 0 where
  pub id : String
  pub named : entity_id entity ≡ some id
  pub free : entity_at s name id ≡ none
  pub filled : created ≡ stamped (iso_ms s.clock) entity
  pub writes : WritesOne name id created s t
  pub journalled :
      Journalled
        (next_entry s name id op_insert none (Dict.get created "version") (Dict.keys created) meta)
        s
        t

-- An insert that succeeds found the id free, writes the stamped entity under it and nothing else,
-- and journals one insert with the version and the keys of that entity.
pub insert_lem :
    (name : String) (entity : Entity) (meta : Option (Dict Value)) (s : Store) (created : Entity)
    → (insert name entity meta s).0 ≡ ok created
    → Inserted name entity meta s (insert name entity meta s).1 created
unfolding insert
insert_lem name entity meta s created h = elim (Option-cases (entity_id entity)) [
  | inl invalid ↦ ground (arith, invalid)
  | inr (id, valid) ↦ elim (Bool-cases (Dict.has (entities (raw name s) name) id)) [
    | inl taken ↦ ground (arith, valid, taken)
    | inr free ↦
        let same : created ≡ stamped (iso_ms s.clock) entity = ground (arith, valid, free) in
        let after : (insert name entity meta s).1
            ≡ commit_insert name id (stamped (iso_ms s.clock) entity) meta (raw name s) =
          ground (arith, valid, free) in
        let (writes, journalled) =
          commit_insert_lem name id (stamped (iso_ms s.clock) entity) meta s in
        let unused : entity_at s name id ≡ none =
          get_of_not_has (entities s name) id (rw entities-raw at free) in
        rw (same, after)
          (record {
            id = id;
            named = valid;
            free = unused;
            filled = refl;
            writes = writes;
            journalled = journalled;
          })
  ]
]
