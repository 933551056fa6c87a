-- ===== src/Store/Laws/Ops.antt =====
-- Invariants of the store that do not speak of entities, over any sequence of calls.
use vendorfake.Prelude.{
  String, Bool, true, false, Option, List, [], ◌∷◌, Bool-cases, Option-cases, inl, inr,
}
use vendorfake.Dict
use vendorfake.Dict.{Dict}
use vendorfake.Json.{ℤ, Value}
use vendorfake.Errors.{Result, Result-cases}
use vendorfake.Clock.Defs.{iso_ms}
use vendorfake.Store.State.{Store, Entity, Op, entities, raw, set_entities}
use vendorfake.Store.Journal.{append_journal}
use vendorfake.Store.Collection.{
  insert, update, delete, entity_id, commit_insert, commit_update, redraft,
}
use vendorfake.Store.Laws.Seq.{IsJournal, append_journal-IsJournal}

pub record IsClosed (P : Store → Type 0) : Type 0 where
  pub on_raw : (name : String) (s : Store) → P s → P (raw name s)
  pub on_write : (name : String) (es : Dict Entity) (s : Store) → P s → P (set_entities name es s)
  pub on_append :
      (c id : String) (op : Op) (v w : Option Value) (ks : List String) (meta : Option (Dict Value))
      (s : Store)
      → P s
      → P (append_journal c id op v w ks meta s)

module _ (P : Store → Type 0) (closed : IsClosed P) where
  open closed use {on_raw, on_write, on_append}

  pub insert-keeps :
      (name : String) (entity : Entity) (meta : Option (Dict Value)) (s : Store)
      → P s
      → P (insert name entity meta s).1
  unfolding insert commit_insert
  insert-keeps name entity meta s h = elim (Option-cases (entity_id entity)) [
    | inl invalid ↦ rw (invalid, insert) h
    | inr (id, valid) ↦ elim (Bool-cases (Dict.has (entities (raw name s) name) id)) [
      | inl taken ↦ rw (valid, insert) (rw (taken, insert) (on_raw name s h))
      | inr free ↦
          rw (valid, insert)
            (rw (free, insert) (on_append _ _ _ _ _ _ _ _ (on_write name _ _ (on_raw name s h))))
    ]
  ]

  commit-keeps :
      (silent : Bool) (name id : String) (current draft : Entity) (changed : List String)
      (meta : Option (Dict Value)) (s : Store)
      → P s
      → P (commit_update silent name id current draft changed meta s)
  unfolding commit_update
  commit-keeps true name id current draft changed meta s h = on_write name _ s h
  commit-keeps false name id current draft changed meta s h =
      on_append _ _ _ _ _ _ _ _ (on_write name _ s h)

  pub update-keeps :
      (name id : String) (mutate : Entity → Result Entity) (expect_version : Option ℤ)
      (meta : Option (Dict Value)) (silent : Bool) (s : Store)
      → P s
      → P (update name id mutate expect_version meta silent s).1
  unfolding update
  update-keeps name id mutate expect_version meta silent s h =
      elim (Option-cases (Dict.get (entities (raw name s) name) id)) [
        | inl absent ↦ rw (absent, update) (on_raw name s h)
        | inr (current, found) ↦
            elim (Result-cases
              (redraft name id mutate expect_version silent (iso_ms s.clock) current)) [
                | inl (e, refused) ↦ rw (found, update) (rw (refused, update) (on_raw name s h))
                | inr ((draft, changed), accepted) ↦
                    rw (found, update)
                      (rw (accepted, update)
                        (commit-keeps silent name id current draft changed meta (raw name s)
                          (on_raw name s h)))
              ]
      ]

  pub delete-keeps :
      (name id : String) (meta : Option (Dict Value)) (s : Store)
      → P s
      → P (delete name id meta s).1
  unfolding delete
  delete-keeps name id meta s h = elim (Option-cases (Dict.get (entities (raw name s) name) id)) [
    | inl absent ↦ rw (absent, delete) (on_raw name s h)
    | inr (current, found) ↦ elim (Option-cases (Dict.get current "version")) [
      | inl unversioned ↦
          rw (found, delete) (rw (unversioned, delete) (on_write name _ _ (on_raw name s h)))
      | inr (v, versioned) ↦
          rw (found, delete)
            (rw (versioned, delete)
              (on_append _ _ _ _ _ _ _ _ (on_write name _ _ (on_raw name s h))))
    ]
  ]

-- What a client of the store can do to a collection, one call after another. `requests` may fail;
-- what a failed call left behind is where the next one starts.
pub data Call : Type 0 where
  insert_call : String → Entity → Option (Dict Value) → Call
  update_call :
      String → String → (Entity → Result Entity) → Option ℤ → Option (Dict Value) → Bool → Call
  delete_call : String → String → Option (Dict Value) → Call

unfoldable pub perform : Call → Store → Store
perform (insert_call name entity meta) s = (insert name entity meta s).1
perform (update_call name id mutate expect_version meta silent) s =
    (update name id mutate expect_version meta silent s).1
perform (delete_call name id meta) s = (delete name id meta s).1

unfoldable pub perform_all : List Call → Store → Store
unfolding perform
perform_all [] s = s
perform_all (c ∷ cs) s = perform_all cs (perform c s)

module _ (P : Store → Type 0) (closed : IsClosed P) where
  perform-keeps : (c : Call) (s : Store) → P s → P (perform c s)
  unfolding perform
  perform-keeps (insert_call name entity meta) s h = insert-keeps P closed name entity meta s h
  perform-keeps (update_call name id mutate expect_version meta silent) s h =
      update-keeps P closed name id mutate expect_version meta silent s h
  perform-keeps (delete_call name id meta) s h = delete-keeps P closed name id meta s h

  pub perform_all-keeps : (cs : List Call) (s : Store) → P s → P (perform_all cs s)
  unfolding perform_all
  perform_all-keeps [] s h = h
  perform_all-keeps (c ∷ cs) s h = perform_all-keeps cs (perform c s) (perform-keeps c s h)

IsJournal-IsClosed : IsClosed IsJournal
unfolding raw set_entities
IsJournal-IsClosed = record {
  on_raw = λ name s h. elim (Bool-cases (Dict.has s.collections name)) [
    | inl there ↦ rw (there, raw) h
    | inr absent ↦
        rw (absent, raw) (record { numbered = h.numbered; fits = h.fits; counted = h.counted })
  ];
  on_write = λ name es s h. record { numbered = h.numbered; fits = h.fits; counted = h.counted };
  on_append = append_journal-IsJournal;
}

-- Whatever the calls, valid or not, the journal of a store that was well numbered holds at most
-- its capacity of entries, numbered without a gap up to `seq`.
pub perform_all-IsJournal :
    (cs : List Call) (s : Store) → IsJournal s → IsJournal (perform_all cs s)
perform_all-IsJournal = perform_all-keeps IsJournal IsJournal-IsClosed
