-- ===== src/Store/Laws/Rejected.antt =====
-- What a call that raises leaves behind.
use vendorfake.Prelude.{
  String, ◌≡◌, refl, Bool, false, Option, none, Bool-cases, Option-cases, inl, inr, arith,
}
use vendorfake.Dict
use vendorfake.Dict.{Dict}
use vendorfake.Json.{ℤ, Value}
use vendorfake.Errors.{Result, ok, err, Error, Result-cases}
use vendorfake.Clock.Defs.{iso_ms}
use vendorfake.Store.State.{Store, Entity, entities, raw}
use vendorfake.Store.Collection.{insert, update, delete, entity_id, redraft}
use vendorfake.Store.Laws.Entities.{entities-raw}

-- No entity of any collection, no journal entry, no call of a listener and no record differs.
pub record Untouched (s t : Store) : Type 0 where
  pub same_entities : (name : String) → entities t name ≡ entities s name
  pub same_journal : t.journal ≡ s.journal
  pub same_seq : t.seq ≡ s.seq
  pub same_heard : t.heard ≡ s.heard
  pub same_idempotency : t.idempotency ≡ s.idempotency

Untouched-refl : (s : Store) → Untouched s s
Untouched-refl s = record {
  same_entities = λ name. refl;
  same_journal = refl;
  same_seq = refl;
  same_heard = refl;
  same_idempotency = refl;
}

Untouched-raw : (name : String) (s : Store) → Untouched s (raw name s)
unfolding raw
Untouched-raw name s = record {
  same_entities = λ m. entities-raw name m s;
  same_journal = ground arith;
  same_seq = ground arith;
  same_heard = ground arith;
  same_idempotency = ground arith;
}

-- A rejected insert leaves no trace, whatever the reason (a bad id, a taken id): every entity, the
-- journal, its counter, what the listeners heard and the idempotency records stay as they were.
pub insert-Untouched :
    (name : String) (entity : Entity) (meta : Option (Dict Value)) (s : Store) (e : Error)
    → (insert name entity meta s).0 ≡ err e
    → Untouched s (insert name entity meta s).1
unfolding insert
insert-Untouched name entity meta s e h = elim (Option-cases (entity_id entity)) [
  | inl invalid ↦ rw (invalid, insert) (Untouched-refl s)
  | inr (id, valid) ↦ elim (Bool-cases (Dict.has (entities (raw name s) name) id)) [
    | inl taken ↦ rw (valid, insert) (rw (taken, insert) (Untouched-raw name s))
    | inr free ↦ ground (arith, valid, free)
  ]
]

-- A rejected update leaves no trace, whatever the reason (a missing entity, a stale version, a
-- mutator that raises, a version that is no number): every entity, the journal, its counter, what
-- the listeners heard and the idempotency records stay as they were.
pub update-Untouched :
    (name id : String) (mutate : Entity → Result Entity) (expect_version : Option ℤ)
    (meta : Option (Dict Value)) (silent : Bool) (s : Store) (e : Error)
    → (update name id mutate expect_version meta silent s).0 ≡ err e
    → Untouched s (update name id mutate expect_version meta silent s).1
unfolding update
update-Untouched name id mutate expect_version meta silent s e h =
    elim (Option-cases (Dict.get (entities (raw name s) name) id)) [
      | inl absent ↦ rw (absent, update) (Untouched-raw name s)
      | inr (current, found) ↦
          elim (Result-cases
            (redraft name id mutate expect_version silent (iso_ms s.clock) current)) [
              | inl (e', refused) ↦ rw (found, update) (rw (refused, update) (Untouched-raw name s))
              | inr ((draft, changed), accepted) ↦ ground (arith, found, accepted)
            ]
    ]

-- Deleting what is not there answers `False` and changes nothing.
pub delete_missing :
    (name id : String) (meta : Option (Dict Value)) (s : Store)
    → Dict.get (entities s name) id ≡ none
    → ((delete name id meta s).0 ≡ ok false) × Untouched s (delete name id meta s).1
unfolding delete
delete_missing name id meta s h =
    let absent : Dict.get (entities (raw name s) name) id ≡ none = rw entities-raw h in
    (ground (arith, absent), rw (absent, delete) (Untouched-raw name s))
