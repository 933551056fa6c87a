-- ===== src/Store/Idempotency.antt =====
-- The idempotency records of `Store`.
use vendorfake.Prelude.{ℕ, String, Option, [], ◌∷◌, ltb, if◌then◌else◌}
use Prim.Native.String.{◌++◌ as text_append}
use vendorfake.Dict
use vendorfake.Dict.{Dict}
use vendorfake.Store.State.{Store, IdempotencyRecord, idempotency_capacity}

-- `Store.idempotency_key`
unfoldable pub idempotency_key : String → String → String
idempotency_key scope key = text_append scope (text_append " " key)

-- `Store.get_idempotent`
unfoldable pub get_idempotent : String → String → Store → Option IdempotencyRecord
get_idempotent scope key s = Dict.get s.idempotency (idempotency_key scope key)

-- `Store._evict_idempotency`: the loop drops the first record while there are too many.
unfoldable pub evict : ℕ → Dict IdempotencyRecord → Dict IdempotencyRecord
evict room [] = []
evict room ((k, r) ∷ d) =
    let rest = evict room d in if ltb room (Dict.size ((k, r) ∷ d)) then rest else (k, r) ∷ d

-- `Store.put_idempotent`
unfoldable pub put_idempotent : IdempotencyRecord → Store → Store
unfolding evict
put_idempotent r s = record s {
  idempotency =
      evict idempotency_capacity (Dict.put s.idempotency (idempotency_key r.scope r.key) r);
}
