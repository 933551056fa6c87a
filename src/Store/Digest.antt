-- ===== src/Store/Digest.antt =====
-- `_scrub_volatile` and `Store.entity_digest`. The hash of the canonical text is a parameter.
use vendorfake.Prelude.{String, Bool, true, false, none, some, List, [], ◌∷◌, if◌then◌else◌}
use vendorfake.Text.{mem_text, sorted}
use vendorfake.Dict
use vendorfake.Dict.{Dict}
use vendorfake.Json.{
  Value, null, bool, int, str, arr, obj, Items, nil, cons, Fields, end, field, document,
}
use vendorfake.Json.Canonical.{canonical_json}
use vendorfake.Store.State.{Store, Entity, entities}

-- `VOLATILE_PRESENT`
abbrev pub volatile_present : String
volatile_present = "<set>"

-- A field whose value is a scalar.
unfoldable pub scrub_scalar : Bool → String → Value → Fields → Fields
scrub_scalar true key null rest = rest
scrub_scalar true key v rest = field key (str volatile_present) rest
scrub_scalar false key v rest = field key v rest

-- `_scrub_volatile`
unfoldable mutual
  unfolding scrub_scalar

  pub scrub : List String → List String → Value → Value
  scrub volatile opaque (obj fs) = obj (scrub_fields volatile opaque fs)
  scrub volatile opaque (arr xs) = arr (scrub_items volatile opaque xs)
  scrub volatile opaque null = null
  scrub volatile opaque (bool b) = bool b
  scrub volatile opaque (int n) = int n
  scrub volatile opaque (str s) = str s

  pub scrub_items : List String → List String → Items → Items
  scrub_items volatile opaque nil = nil
  scrub_items volatile opaque (cons v vs) =
      cons (scrub volatile opaque v) (scrub_items volatile opaque vs)

  -- Opaque subtrees are taken as they are, nested ones are entered, volatile scalars are marked.
  pub scrub_fields : List String → List String → Fields → Fields
  scrub_fields volatile opaque end = end
  scrub_fields volatile opaque (field key inner fs) =
      let rest = scrub_fields volatile opaque fs in
      let entered = scrub volatile opaque inner in
      if mem_text key opaque then field key inner rest else elim inner [
        | obj gs ↦ field key entered rest
        | arr xs ↦ field key entered rest
        | other ↦ scrub_scalar (mem_text key volatile) key other rest
      ]

-- `if not entities: continue`
abbrev pub is_nonempty : {A : Type 0} → List A → Bool
is_nonempty [] = false
is_nonempty (x ∷ xs) = true

-- The entities of one collection, by sorted id, scrubbed.
unfoldable pub digest_entities : List String → List String → Dict Entity → List String → Dict Value
digest_entities volatile opaque es [] = []
digest_entities volatile opaque es (id ∷ ids) =
    let rest = digest_entities volatile opaque es ids in
    elim (Dict.get es id) [ none ↦ rest | some e ↦ (id, scrub volatile opaque (document e)) ∷ rest ]

unfoldable pub digest_collections : Store → List String → Dict Value
unfolding digest_entities
digest_collections s [] = []
digest_collections s (name ∷ names) =
    let rest = digest_collections s names in
    let es = entities s name in
    if is_nonempty es
    then (
      name,
      document (digest_entities s.volatile_fields s.opaque_fields es (sorted (Dict.keys es))),
    )
      ∷ rest
    else rest

-- `Store.entity_digest`
unfoldable pub entity_digest : (Value → String) → Store → String
unfolding digest_collections
entity_digest hash s =
    hash (canonical_json (document (digest_collections s (sorted (Dict.keys s.collections)))))

-- `Store.mark_volatile` and `Store.mark_opaque`
unfoldable pub add_all : List String → List String → List String
add_all set [] = set
add_all set (f ∷ fs) = add_all (if mem_text f set then set else f ∷ set) fs

unfoldable pub mark_volatile : List String → Store → Store
unfolding add_all
mark_volatile fields s = record s { volatile_fields = add_all s.volatile_fields fields }

unfoldable pub mark_opaque : List String → Store → Store
unfolding add_all
mark_opaque fields s = record s { opaque_fields = add_all s.opaque_fields fields }
