-- ===== src/Store/Laws/Succeeds.antt =====
-- When `Collection.update` succeeds.
use vendorfake.Prelude.{
  zero, suc, ◌+◌, String, ◌≡◌, refl, sym, ap, ◌∙◌, false, Option, some, arith, ◌&&◌, Bool-cases,
  inl, inr,
}
use vendorfake.Text.{text_eq}
use vendorfake.Dict
use vendorfake.Dict.{Dict}
use vendorfake.Json.{ℤ, pos, negsuc, Value, int, str}
use vendorfake.Errors.{Result, ok}
use vendorfake.Clock.Defs.{iso_ms}
use vendorfake.Store.State.{Store, Entity, entities, raw}
use vendorfake.Store.Diff.{diff_keys}
use vendorfake.Store.Collection.{update, redraft, check_version, next_version, bump, restore_fixed}
use vendorfake.Store.Laws.Entities.{entities-raw}
use vendorfake.Store.Laws.Writes.{entity_at}
use vendorfake.Store.Laws.Update.{update_lem}

-- Every entity has a version, and it is a whole number.
abbrev pub IsVersioned : Store → Type 0
IsVersioned s =
    (name k : String) (e : Entity)
    → entity_at s name k ≡ some e
    → (n : ℤ) × (Dict.get e "version" ≡ some (int n))

next_version-int : (n : ℤ) → (m : ℤ) × (next_version (some (int n)) ≡ ok (int m))
unfolding next_version
next_version-int (pos n) = (pos (n + 1), refl)
next_version-int (negsuc zero) = (pos 0, refl)
next_version-int (negsuc (suc n)) = (negsuc n, refl)

-- An update of an entity that is there, at the expected version, succeeds if its mutator does.
pub update_succeeds :
    (name id : String) (mutate : Entity → Result Entity) (expect_version : Option ℤ)
    (meta : Option (Dict Value)) (s : Store) (current drafted : Entity)
    → IsVersioned s
    → entity_at s name id ≡ some current
    → check_version name id expect_version (Dict.get current "version") ≡ ok tt
    → mutate current ≡ ok drafted
    → (e : Entity) × ((update name id mutate expect_version meta false s).0 ≡ ok e)
unfolding update redraft bump
update_succeeds name id mutate expect_version meta s current drafted versioned found checked made =
    let (n, at) = versioned name id current found in
    let (m, next) = next_version-int n in
    let there : Dict.get (entities (raw name s) name) id ≡ some current =
      ap (λ (es : Dict Entity). Dict.get es id) (entities-raw name name s) ∙ found in
    let bumped =
      Dict.put (Dict.put drafted "version" (int m)) "updated_at" (str (iso_ms s.clock)) in
    let raised : next_version (Dict.get current "version") ≡ ok (int m) =
      ap next_version at ∙ next in
    let redrafted : redraft name id mutate expect_version false (iso_ms s.clock) current
        ≡ ok (restore_fixed id current bumped, diff_keys current drafted) =
      rw (checked, made, raised, redraft, bump) refl in
    (restore_fixed id current bumped, rw (there, redrafted, update) refl)

pub update-IsVersioned :
    (name id : String) (mutate : Entity → Result Entity) (expect_version : Option ℤ)
    (meta : Option (Dict Value)) (s : Store) (e : Entity)
    → IsVersioned s
    → (update name id mutate expect_version meta false s).0 ≡ ok e
    → IsVersioned (update name id mutate expect_version meta false s).1
update-IsVersioned name id mutate expect_version meta s e versioned h n k d found =
    let u = update_lem name id mutate expect_version meta false s e h in
    let (v, next, at, stamp) = u.redrafts.raised in
    let (m, was) = versioned name id u.current u.found in
    let (m', next') = next_version-int m in
    let now_int : Dict.get e "version" ≡ some (int m') =
      at ∙ (let same = sym next ∙ ap next_version was ∙ next' in cc) in
    elim (Bool-cases (text_eq name n && text_eq id k)) [
      | inl here ↦
          let same : e ≡ d = ground (arith, here, u.writes n k, found) in
          (m', ap (λ (d : Entity). Dict.get d "version") (sym same) ∙ now_int)
      | inr elsewhere ↦ versioned n k d (ground (arith, elsewhere, u.writes n k, found))
    ]
