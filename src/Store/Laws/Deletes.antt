-- ===== src/Store/Laws/Deletes.antt =====
-- What a successful `Collection.delete` takes away.
use vendorfake.Prelude.{
  String, ◌≡◌, ap, ◌∙◌, true, Option, none, some, [], arith, if◌then◌else◌, Option-cases, inl, inr,
}
use vendorfake.Text.{text_eq, text_eq_iff}
use vendorfake.Dict
use vendorfake.Dict.{Dict}
use vendorfake.Dict.Laws.{get-pop}
use vendorfake.Json.{Value}
use vendorfake.Errors.{ok}
use vendorfake.Store.State.{Store, Entity, delete as op_delete, entities, raw, set_entities}
use vendorfake.Store.Journal.{append_journal, next_entry}
use vendorfake.Store.Collection.{delete}
use vendorfake.Store.Laws.Entities.{entities-raw, entities-set_entities, entities-append_journal}
use vendorfake.Store.Laws.Writes.{entity_at, Journalled}

-- The only entity that differs between two stores is the one under `id`, which is gone.
abbrev pub RemovesOne : String → String → Store → Store → Type 0
RemovesOne name id s t =
    (n k : String)
    → entity_at t n k ≡ (
        if text_eq name n
        then (if text_eq id k then none else entity_at s n k)
        else entity_at s n k)

-- The store after the removal, once the collection was read.
abbrev pub removed : String → String → Store → Store
removed name id s = set_entities name (Dict.pop (entities (raw name s) name) id) (raw name s)

pub remove_one : (name id : String) (s : Store) → RemovesOne name id s (removed name id s)
remove_one name id s n k = ground (
  arith,
  entities-set_entities name n (Dict.pop (entities (raw name s) name) id) (raw name s),
  get-pop (entities (raw name s) name) id k,
  entities-raw name n s,
  text_eq_iff name n,
)

remove-Journalled :
    (name id : String) (v : Value) (meta : Option (Dict Value)) (s : Store)
    → let t = append_journal name id op_delete (some v) none [] meta (removed name id s) in
      RemovesOne name id s t × Journalled (next_entry s name id op_delete (some v) none [] meta) s t
unfolding append_journal set_entities raw
remove-Journalled name id v meta s = (
  λ n k.
      ap (λ es. Dict.get es k)
        (entities-append_journal name id op_delete (some v) none [] meta (removed name id s) n)
      ∙ remove_one name id s n k,
  record {
    counted = ground arith;
    numbered = ground arith;
    appended = ground arith;
    told = ground arith;
  },
)

-- What a delete that answers `True` found and took away, in the store `t` that it leaves.
pub record Deleted (name id : String) (meta : Option (Dict Value)) (s t : Store) : Type 0 where
  pub current : Entity
  pub version : Value
  pub found : entity_at s name id ≡ some current
  pub versioned : Dict.get current "version" ≡ some version
  pub removes : RemovesOne name id s t
  pub journalled : Journalled (next_entry s name id op_delete (some version) none [] meta) s t

-- A delete that answers `True` found the entity, removes it and nothing else, and journals one
-- delete with the version that the entity had.
pub delete_lem :
    (name id : String) (meta : Option (Dict Value)) (s : Store)
    → (delete name id meta s).0 ≡ ok true
    → Deleted name id meta s (delete name id meta s).1
unfolding delete
delete_lem name id meta s h = elim (Option-cases (Dict.get (entities (raw name s) name) id)) [
  | inl absent ↦ ground (arith, absent, h)
  | inr (current, found) ↦ elim (Option-cases (Dict.get current "version")) [
    | inl unversioned ↦ ground (arith, found, unversioned, h)
    | inr (v, versioned) ↦
        let after : (delete name id meta s).1
            ≡ append_journal name id op_delete (some v) none [] meta (removed name id s) =
          ground (arith, found, versioned) in
        let (removes, journalled) = remove-Journalled name id v meta s in
        rw after (record {
          current = current;
          version = v;
          found = rw entities-raw at found;
          versioned = versioned;
          removes = removes;
          journalled = journalled;
        })
  ]
]
