-- ===== src/Store/State.antt =====
-- The state of `Store`, and the records that it keeps.
use vendorfake.Prelude.{ℕ, String, Bool, false, Option, none, some, List, [], ◌∷◌, if◌then◌else◌}
use vendorfake.Dict
use vendorfake.Dict.{Dict}
use vendorfake.Json.{Value}
use vendorfake.Clock.Defs.{Clock}
use vendorfake.Errors.{Result}

-- A plain `dict`, never a model object. Values are immutable here, so `copy.deepcopy` is the value.
abbrev pub Entity : Type 0
Entity = Dict Value

pub data Op : Type 0 where
  insert update delete : Op

-- `JournalEntry` of core/kernel/types.py
pub record JournalEntry : Type 0 where
  pub seq : ℕ
  pub at : String
  pub collection : String
  pub id : String
  pub op : Op
  pub from_version : Option Value
  pub to_version : Option Value
  pub changed : List String
  pub meta : Option (Dict Value)

pub record IdempotencyRecord : Type 0 where
  pub scope : String
  pub key : String
  pub request_digest : String
  pub status : ℕ
  pub headers : Dict String
  pub body_b64 : String
  pub stored_at : String

abbrev pub journal_capacity : ℕ
journal_capacity = 10000

abbrev pub idempotency_capacity : ℕ
idempotency_capacity = 10000

abbrev pub default_cursor_ttl_ms : ℕ
default_cursor_ttl_ms = 300000

-- `Store`. A listener is known by a number, and `heard` is the sequence of calls made to the
-- listeners; the wrapper objects of `Store.collection` have no state.
pub record Store : Type 0 where
  pub clock : Clock
  pub collections : Dict (Dict Entity)
  pub journal : List JournalEntry
  pub idempotency : Dict IdempotencyRecord
  pub listeners : List ℕ
  pub heard : List (ℕ × JournalEntry)
  pub muted : Bool
  pub seq : ℕ
  pub volatile_fields : List String
  pub opaque_fields : List String

-- `Store(clock)`
unfoldable pub new_store : Clock → Store
new_store clock = record {
  clock = clock;
  collections = [];
  journal = [];
  idempotency = [];
  listeners = [];
  heard = [];
  muted = false;
  seq = 0;
  volatile_fields = "created_at" ∷ "updated_at" ∷ [];
  opaque_fields = [];
}

-- `self._collections.get(name)` or the empty map that `Store.raw` puts there.
unfoldable pub entities : Store → String → Dict Entity
entities s name = elim (Dict.get s.collections name) [ none ↦ [] | some es ↦ es ]

-- `Store.raw`: the first read of a collection creates it.
unfoldable pub raw : String → Store → Store
raw name s =
    if Dict.has s.collections name
    then s
    else record s { collections = Dict.put s.collections name [] }

-- A write into the live map of a collection.
unfoldable pub set_entities : String → Dict Entity → Store → Store
set_entities name es s = record s { collections = Dict.put s.collections name es }

-- A method returns its result and the store: what was written before a raise stays written.
abbrev pub Method : Type 0 → Type 0
Method A = Store → Result A × Store
