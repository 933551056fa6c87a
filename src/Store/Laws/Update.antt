-- ===== src/Store/Laws/Update.antt =====
-- What a successful `Collection.update` computes and writes.
use vendorfake.Prelude.{
  String, ◌≡◌, refl, Bool, true, false, Option, some, List, Option-cases, inl, inr, arith,
  if◌then◌else◌, sym, ap, ◌∙◌,
}
use vendorfake.Text.{text_eq}
use vendorfake.Dict
use vendorfake.Dict.{Dict}
use vendorfake.Dict.Laws.{get-put, get-pop}
use vendorfake.Json.{ℤ, Value, str}
use vendorfake.Errors.{Result, ok, Result-cases, >>=-eq-ok}
use vendorfake.Clock.Defs.{iso_ms}
use vendorfake.Store.State.{
  Store, JournalEntry, Entity, update as op_update, entities, raw, set_entities,
}
use vendorfake.Store.Journal.{next_entry}
use vendorfake.Store.Diff.{diff_keys}
use vendorfake.Store.Collection.{
  update, get_or, commit_update, redraft, bump, restore_fixed, next_version, check_version,
}
use vendorfake.Store.Laws.Entities.{entities-raw}
use vendorfake.Store.Laws.Writes.{entity_at, WritesOne, Journalled, write_raw, write-Journalled}

-- `id` and `created_at` come from the current entity, every other field from the draft.
restore_fixed_lem :
    (id : String) (current draft : Entity) (k : String)
    → Dict.get (restore_fixed id current draft) k ≡ (
        if text_eq "created_at" k
        then Dict.get current "created_at"
        else (if text_eq "id" k then some (get_or current "id" (str id)) else Dict.get draft k))
unfolding restore_fixed
restore_fixed_lem id current draft k =
    let named = Dict.put draft "id" (get_or current "id" (str id)) in
    elim (Option-cases (Dict.get current "created_at")) [
      | inl absent ↦ ground (
        arith,
        absent,
        get-pop named "created_at" k,
        get-put draft "id" k (get_or current "id" (str id)),
      )
      | inr (v, present) ↦ ground (
        arith,
        present,
        get-put named "created_at" k v,
        get-put draft "id" k (get_or current "id" (str id)),
      )
    ]

bump_lem :
    (silent : Bool) (instant : String) (current draft bumped : Entity)
    → bump silent instant current draft ≡ ok bumped
    → ((silent ≡ true) → bumped ≡ draft)
      × ((silent ≡ false)
          → (v : Value) × (next_version (Dict.get current "version") ≡ ok v)
            × ((k : String)
                → Dict.get bumped k ≡ (
                    if text_eq "updated_at" k
                    then some (str instant)
                    else (if text_eq "version" k then some v else Dict.get draft k))))
unfolding bump
bump_lem true instant current draft bumped h = (λ e. ground arith, λ e. cc)
bump_lem false instant current draft bumped h = (
  λ e. cc,
  λ e.
      let (v, next, same) = >>=-eq-ok (next_version (Dict.get current "version")) _ h in
      (
        v,
        next,
        λ k. ground (
          arith,
          same,
          get-put draft "version" k v,
          get-put (Dict.put draft "version" v) "updated_at" k (str instant),
        ),
      ),
)

-- The version and the stamp after an update: the next ones, or the mutator's if it is silent.
abbrev pub Raised : Bool → String → Entity → Entity → Entity → Type 0
Raised true instant current mutated draft =
    (Dict.get draft "version" ≡ Dict.get mutated "version")
    × (Dict.get draft "updated_at" ≡ Dict.get mutated "updated_at")
Raised false instant current mutated draft =
    (v : Value) × (next_version (Dict.get current "version") ≡ ok v)
    × (Dict.get draft "version" ≡ some v)
    × (Dict.get draft "updated_at" ≡ some (str instant))

bump-Raised :
    (silent : Bool) (instant : String) (current mutated bumped draft : Entity)
    → bump silent instant current mutated ≡ ok bumped
    → Dict.get draft "version" ≡ Dict.get bumped "version"
    → Dict.get draft "updated_at" ≡ Dict.get bumped "updated_at"
    → Raised silent instant current mutated draft
bump-Raised true instant current mutated bumped draft h version stamp =
    let same = (bump_lem true instant current mutated bumped h).0 refl in
    (version ∙ ap (λ d. Dict.get d "version") same, stamp ∙ ap (λ d. Dict.get d "updated_at") same)
bump-Raised false instant current mutated bumped draft h version stamp =
    let (v, next, fields) = (bump_lem false instant current mutated bumped h).1 refl in
    (v, next, version ∙ fields "version", stamp ∙ fields "updated_at")

-- What holds of the entity `draft` and the list `changed` that an update computes.
pub record Redrafted (id : String) (mutate : Entity → Result Entity) (silent : Bool)
    (instant : String) (current draft : Entity) (changed : List String) : Type 0 where
  pub mutated : Entity
  pub by_mutator : mutate current ≡ ok mutated
  -- compared before the version is raised
  pub compared : changed ≡ diff_keys current mutated
  pub same_id : Dict.get draft "id" ≡ some (get_or current "id" (str id))
  pub same_created : Dict.get draft "created_at" ≡ Dict.get current "created_at"
  pub raised : Raised silent instant current mutated draft
  pub others :
      (k : String)
      → text_eq "id" k ≡ false
      → text_eq "created_at" k ≡ false
      → text_eq "version" k ≡ false
      → text_eq "updated_at" k ≡ false
      → Dict.get draft k ≡ Dict.get mutated k

bump_others :
    (silent : Bool) (instant : String) (current draft bumped : Entity) (k : String)
    → bump silent instant current draft ≡ ok bumped
    → text_eq "version" k ≡ false
    → text_eq "updated_at" k ≡ false
    → Dict.get bumped k ≡ Dict.get draft k
bump_others true instant current draft bumped k h nv nu =
    ap (λ d. Dict.get d k) ((bump_lem true instant current draft bumped h).0 refl)
bump_others false instant current draft bumped k h nv nu =
    let (v, next, fields) = (bump_lem false instant current draft bumped h).1 refl in
    ground (arith, fields k, nv, nu)

redrafted :
    (id : String) (mutate : Entity → Result Entity) (silent : Bool) (instant : String)
    (current mutated bumped draft : Entity) (changed : List String)
    → mutate current ≡ ok mutated
    → bump silent instant current mutated ≡ ok bumped
    → restore_fixed id current bumped ≡ draft
    → changed ≡ diff_keys current mutated
    → Redrafted id mutate silent instant current draft changed
redrafted id mutate silent instant current mutated bumped draft changed m b d c = record {
  mutated = mutated;
  by_mutator = m;
  compared = c;
  same_id = at "id";
  same_created = at "created_at";
  raised =
      bump-Raised silent instant current mutated bumped draft b (at "version") (at "updated_at");
  others = λ k ni nc nv nu.
      ground (arith, at k, ni, nc, bump_others silent instant current mutated bumped k b nv nu);
}
  where
    at :
        (k : String)
        → Dict.get draft k ≡ (
            if text_eq "created_at" k
            then Dict.get current "created_at"
            else (if text_eq "id" k
                then some (get_or current "id" (str id))
                else Dict.get bumped k))
    at k = ap (λ x. Dict.get x k) (sym d) ∙ restore_fixed_lem id current bumped k

redraft_lem :
    (name id : String) (mutate : Entity → Result Entity) (expect_version : Option ℤ) (silent : Bool)
    (instant : String) (current draft : Entity) (changed : List String)
    → redraft name id mutate expect_version silent instant current ≡ ok (draft, changed)
    → (check_version name id expect_version (Dict.get current "version") ≡ ok tt)
      × Redrafted id mutate silent instant current draft changed
unfolding redraft
redraft_lem name id mutate expect_version silent instant current draft changed h =
    let (u, checked, h₁) =
      >>=-eq-ok (check_version name id expect_version (Dict.get current "version")) _ h in
    let (mutated, by_mutator, h₂) = >>=-eq-ok (mutate current) _ h₁ in
    let (bumped, bumps, h₃) = >>=-eq-ok (bump silent instant current mutated) _ h₂ in
    let same_draft : restore_fixed id current bumped ≡ draft = ground (arith, h₃) in
    let same_changed : changed ≡ diff_keys current mutated = ground (arith, h₃) in
    (
      checked,
      redrafted id mutate silent instant current mutated bumped draft changed by_mutator bumps
          same_draft same_changed,
    )

-- An update that is not silent is journalled; a silent one leaves the journal, its counter and the
-- listeners alone.
abbrev pub Recorded : Bool → JournalEntry → Store → Store → Type 0
Recorded true entry s t = (t.journal ≡ s.journal) × (t.seq ≡ s.seq) × (t.heard ≡ s.heard)
Recorded false entry s t = Journalled entry s t

pub commit_update_lem :
    (silent : Bool) (name id : String) (current draft : Entity) (changed : List String)
    (meta : Option (Dict Value)) (s : Store)
    → let t = commit_update silent name id current draft changed meta (raw name s) in
      WritesOne name id draft s t
      × Recorded silent
          (next_entry s name id op_update
            (Dict.get current "version")
            (Dict.get draft "version")
            changed
            meta)
          s
          t
unfolding commit_update set_entities raw
commit_update_lem true name id current draft changed meta s =
    (write_raw name id draft s, (ground arith, ground arith, ground arith))
commit_update_lem false name id current draft changed meta s =
    write-Journalled name id op_update _ _ changed meta draft s

-- What an update that succeeds found, computed and wrote, in the store `t` that it leaves.
pub record Updated (name id : String) (mutate : Entity → Result Entity) (expect_version : Option ℤ)
    (meta : Option (Dict Value)) (silent : Bool) (s t : Store) (draft : Entity) : Type 0 where
  pub current : Entity
  pub changed : List String
  pub found : entity_at s name id ≡ some current
  pub checked : check_version name id expect_version (Dict.get current "version") ≡ ok tt
  pub redrafts : Redrafted id mutate silent (iso_ms s.clock) current draft changed
  pub writes : WritesOne name id draft s t
  pub recorded :
      Recorded silent
        (next_entry s name id op_update
          (Dict.get current "version")
          (Dict.get draft "version")
          changed
          meta)
        s
        t

-- An update that succeeds found the entity, at the expected version if one was given. It writes
-- under its id, and nowhere else, an entity that keeps `id` and `created_at`, has the next
-- version and a new stamp unless the update is silent, and is otherwise what the mutator made.
-- It journals the changed keys, or nothing at all if it is silent.
pub update_lem :
    (name id : String) (mutate : Entity → Result Entity) (expect_version : Option ℤ)
    (meta : Option (Dict Value)) (silent : Bool) (s : Store) (draft : Entity)
    → (update name id mutate expect_version meta silent s).0 ≡ ok draft
    → Updated name id mutate expect_version meta silent s
        (update name id mutate expect_version meta silent s).1
        draft
unfolding update
update_lem name id mutate expect_version meta silent s draft h =
    elim (Option-cases (Dict.get (entities (raw name s) name) id)) [
      | inl absent ↦ ground (arith, absent)
      | inr (current, found) ↦
          elim (Result-cases
            (redraft name id mutate expect_version silent (iso_ms s.clock) current)) [
              | inl (e, refused) ↦ ground (arith, found, refused)
              | inr ((draft', changed), accepted) ↦
                  let same : draft ≡ draft' = ground (arith, found, accepted) in
                  let after : (update name id mutate expect_version meta silent s).1
                      ≡ commit_update silent name id current draft' changed meta (raw name s) =
                    ground (arith, found, accepted) in
                  let (checked, redrafted) =
                    redraft_lem name id mutate expect_version silent (iso_ms s.clock) current draft'
                      changed accepted in
                  let (writes, recorded) =
                    commit_update_lem silent name id current draft' changed meta s in
                  rw (same, after)
                    (record {
                      current = current;
                      changed = changed;
                      found = rw entities-raw at found;
                      checked = checked;
                      redrafts = redrafted;
                      writes = writes;
                      recorded = recorded;
                    })
            ]
    ]
