-- ===== src/Store/Laws/Refines.antt =====
-- The collections of core/state/store.py as a map from collection and id to entities: what each
-- call does to the map, and that the store's methods do it.
use vendorfake.Prelude.{
  String, ◌≡◌, refl, ap, ◌∙◌, Bool, Option, none, some, List, [], ◌∷◌, arith, if◌then◌else◌,
  Bool-cases, Option-cases, inl, inr, fun_ext,
}
use vendorfake.Text.{text_eq, text_eq_iff}
use vendorfake.Dict
use vendorfake.Dict.{Dict}
use vendorfake.Dict.Laws.{not_has_of_get, has_of_get}
use vendorfake.Json.{ℤ, Value}
use vendorfake.Errors.{Result, ok, err, Result-cases}
use vendorfake.Clock.Defs.{Clock, iso_ms}
use vendorfake.Store.State.{Store, Entity, delete as op_delete, entities, raw, set_entities}
use vendorfake.Store.Journal.{append_journal}
use vendorfake.Store.Collection.{insert, update, delete, entity_id, stamped, redraft}
use vendorfake.Store.Laws.Entities.{entities-raw, entities-append_journal}
use vendorfake.Store.Laws.Ops.{
  IsClosed, Call, insert_call, update_call, delete_call, perform, perform_all, perform_all-keeps,
}
use vendorfake.Store.Laws.Writes.{entity_at, commit_insert_lem}
use vendorfake.Store.Laws.Update.{commit_update_lem}
use vendorfake.Store.Laws.Deletes.{removed, remove_one}

-- The entity of each collection and id.
abbrev pub Entities : Type 0
Entities = String → String → Option Entity

-- The map with another entity, or none, in one place.
abbrev pub set_at : String → String → Option Entity → Entities → Entities
set_at name id entity m n k =
    if text_eq name n then (if text_eq id k then entity else m n k) else m n k

abbrev pub insert_free : String → String → String → Entity → Option Entity → Entities → Entities
insert_free instant name id entity none m = set_at name id (some (stamped instant entity)) m
insert_free instant name id entity (some taken) m = m

abbrev pub insert_valid : String → String → Entity → Option String → Entities → Entities
insert_valid instant name entity none m = m
insert_valid instant name entity (some id) m = insert_free instant name id entity (m name id) m

abbrev pub update_drafted : String → String → Result (Entity × List String) → Entities → Entities
update_drafted name id (err e) m = m
update_drafted name id (ok drafted) m = set_at name id (some drafted.0) m

abbrev pub update_found :
    String → String → (Entity → Result (Entity × List String)) → Option Entity → Entities → Entities
update_found name id draft none m = m
update_found name id draft (some current) m = update_drafted name id (draft current) m

-- What a call means for the map, at an instant. A failing call leaves it as it is, but that a delete
-- of an entity without a version removes it before it raises.
abbrev pub meaning : String → Call → Entities → Entities
meaning instant (insert_call name entity meta) m =
    insert_valid instant name entity (entity_id entity) m
meaning instant (update_call name id mutate expect_version meta silent) m =
    update_found name id (λ current. redraft name id mutate expect_version silent instant current)
      (m name id) m
meaning instant (delete_call name id meta) m = set_at name id none m

abbrev pub meanings : String → List Call → Entities → Entities
meanings instant [] m = m
meanings instant (c ∷ cs) m = meanings instant cs (meaning instant c m)

Same : Entities → Entities → Type 0
Same m m' = (n k : String) → m n k ≡ m' n k

entity_at-raw : (name n k : String) (s : Store) → entity_at (raw name s) n k ≡ entity_at s n k
entity_at-raw name n k s = ap (λ (es : Dict Entity). Dict.get es k) (entities-raw name n s)

-- The map of what a call leaves is its meaning.
Means : Call → Store → Store → Type 0
Means c s t = Same (entity_at t) (meaning (iso_ms s.clock) c (entity_at s))

insert-Means :
    (name : String) (entity : Entity) (meta : Option (Dict Value)) (s : Store)
    → Means (insert_call name entity meta) s (insert name entity meta s).1
unfolding Means Same insert
insert-Means name entity meta s n k = elim (Option-cases (entity_id entity)) [
  | inl invalid ↦ rw (invalid, insert) refl
  | inr (id, valid) ↦ elim (Option-cases (entity_at s name id)) [
    | inl free ↦
        let unused =
          not_has_of_get (entities (raw name s) name) id (entity_at-raw name name id s ∙ free) in
        rw (valid, unused, free, insert)
          ((commit_insert_lem name id (stamped (iso_ms s.clock) entity) meta s).0 n k)
    | inr (current, taken) ↦
        let used =
          has_of_get (entities (raw name s) name) id current
            (entity_at-raw name name id s ∙ taken) in
        rw (valid, used, taken, insert) (entity_at-raw name n k s)
  ]
]

update-Means :
    (name id : String) (mutate : Entity → Result Entity) (expect_version : Option ℤ)
    (meta : Option (Dict Value)) (silent : Bool) (s : Store)
    → Means
        (update_call name id mutate expect_version meta silent)
        s
        (update name id mutate expect_version meta silent s).1
unfolding Means Same update
update-Means name id mutate expect_version meta silent s n k =
    elim (Option-cases (entity_at s name id)) [
      | inl absent ↦
          let missing : Dict.get (entities (raw name s) name) id ≡ none =
            entity_at-raw name name id s ∙ absent in
          rw (missing, absent, update) (entity_at-raw name n k s)
      | inr (current, found) ↦
          let there : Dict.get (entities (raw name s) name) id ≡ some current =
            entity_at-raw name name id s ∙ found in
          elim (Result-cases
            (redraft name id mutate expect_version silent (iso_ms s.clock) current)) [
              | inl (e, refused) ↦ rw (there, found, refused, update) (entity_at-raw name n k s)
              | inr ((draft, changed), accepted) ↦
                  rw (there, found, accepted, update)
                    ((commit_update_lem silent name id current draft changed meta s).0 n k)
            ]
    ]

delete-Means :
    (name id : String) (meta : Option (Dict Value)) (s : Store)
    → Means (delete_call name id meta) s (delete name id meta s).1
unfolding Means Same delete
delete-Means name id meta s n k = elim (Option-cases (entity_at s name id)) [
  | inl absent ↦
      let missing : Dict.get (entities (raw name s) name) id ≡ none =
        entity_at-raw name name id s ∙ absent in
      rw (missing, delete)
        (ground (arith, entity_at-raw name n k s, absent, text_eq_iff name n, text_eq_iff id k))
  | inr (current, found) ↦
      let there : Dict.get (entities (raw name s) name) id ≡ some current =
        entity_at-raw name name id s ∙ found in
      elim (Option-cases (Dict.get current "version")) [
        | inl unversioned ↦ rw (there, unversioned, delete) (remove_one name id s n k)
        | inr (v, versioned) ↦
            rw (there, versioned, delete)
              (ap (λ (es : Dict Entity). Dict.get es k)
                  (entities-append_journal name id op_delete (some v) none [] meta
                    (removed name id s) n)
                ∙ remove_one name id s n k)
      ]
]

perform-Means : (c : Call) (s : Store) → Means c s (perform c s)
unfolding perform
perform-Means (insert_call name entity meta) s = insert-Means name entity meta s
perform-Means (update_call name id mutate expect_version meta silent) s =
    update-Means name id mutate expect_version meta silent s
perform-Means (delete_call name id meta) s = delete-Means name id meta s

-- The calls do not move the clock.
HasClock : Clock → Store → Type 0
HasClock clock s = s.clock ≡ clock

HasClock-IsClosed : (clock : Clock) → IsClosed (HasClock clock)
unfolding HasClock raw set_entities append_journal
HasClock-IsClosed clock = record {
  on_raw = λ name s h. elim (Bool-cases (Dict.has s.collections name)) [
    | inl there ↦ rw (there, raw) h
    | inr absent ↦ rw (absent, raw) h
  ];
  on_write = λ name es s h. h;
  on_append = λ c id op v w ks meta s h. h;
}

perform-clock : (c : Call) (s : Store) → (perform c s).clock ≡ s.clock
unfolding HasClock perform_all
perform-clock c s = perform_all-keeps (HasClock s.clock) (HasClock-IsClosed s.clock) (c ∷ []) s refl

-- The store implements a plain map from collections and ids to entities: after any sequence of
-- inserts, updates and deletes, failing ones included, its entities are those that the meanings of
-- the calls, one after another, make of the map from before.
pub perform_all-meanings :
    (cs : List Call) (s : Store)
    → entity_at (perform_all cs s) ≡ meanings (iso_ms s.clock) cs (entity_at s)
unfolding perform_all Means Same
perform_all-meanings [] s = refl
perform_all-meanings (c ∷ cs) s =
    perform_all-meanings cs (perform c s)
    ∙ ap (λ clock. meanings (iso_ms clock) cs (entity_at (perform c s))) (perform-clock c s)
    ∙ ap (meanings (iso_ms s.clock) cs) (fun_ext (λ n. fun_ext (λ k. perform-Means c s n k)))
