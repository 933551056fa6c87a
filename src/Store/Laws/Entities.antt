-- ===== src/Store/Laws/Entities.antt =====
-- How the writes of the store show in the entities of its collections.
use vendorfake.Prelude.{
  String, ◌≡◌, refl, Option, List, [], arith, if◌then◌else◌, Bool-cases, inl, inr,
}
use vendorfake.Text.{text_eq, text_eq_iff}
use vendorfake.Dict
use vendorfake.Dict.{Dict}
use vendorfake.Dict.Laws.{get-put, get_of_not_has}
use vendorfake.Json.{Value}
use vendorfake.Store.State.{Store, Entity, Op, entities, raw, set_entities}
use vendorfake.Store.Journal.{append_journal}

-- Reading a collection changes no entity.
pub entities-raw : (n m : String) (s : Store) → entities (raw n s) m ≡ entities s m
unfolding entities raw
entities-raw n m s = elim (Bool-cases (Dict.has s.collections n)) [
  | inl there ↦ ground arith
  | inr absent ↦
      ground (
        arith,
        get-put s.collections n m [],
        get_of_not_has s.collections n absent,
        text_eq_iff n m,
      )
]

pub entities-set_entities :
    (n m : String) (es : Dict Entity) (s : Store)
    → entities (set_entities n es s) m ≡ (if text_eq n m then es else entities s m)
unfolding entities set_entities
entities-set_entities n m es s = ground (arith, get-put s.collections n m es)

pub entities-append_journal :
    (c id : String) (op : Op) (v w : Option Value) (ks : List String) (meta : Option (Dict Value))
    (s : Store) (m : String)
    → entities (append_journal c id op v w ks meta s) m ≡ entities s m
unfolding entities append_journal
entities-append_journal c id op v w ks meta s m = refl
