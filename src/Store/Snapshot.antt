-- ===== src/Store/Snapshot.antt =====
-- `Store.snapshot`, `restore`, `reset` and `stats`.
use vendorfake.Prelude.{ℕ, String, List, [], ◌∷◌, map}
use vendorfake.Text.{sorted}
use vendorfake.Dict
use vendorfake.Dict.{Dict}
use vendorfake.Ring.{of_list}
use vendorfake.Store.State.{
  Store, Entity, JournalEntry, IdempotencyRecord, journal_capacity, idempotency_capacity, entities,
}
use vendorfake.Store.Idempotency.{idempotency_key, evict}

pub record StoreSnapshot : Type 0 where
  pub collections : Dict (Dict Entity)
  pub journal : List JournalEntry
  pub idempotency : List IdempotencyRecord
  pub seq : ℕ

-- `Store.snapshot`
unfoldable pub snapshot : Store → StoreSnapshot
snapshot s = record {
  collections = s.collections;
  journal = s.journal;
  idempotency = Dict.values s.idempotency;
  seq = s.seq;
}

-- `{self.idempotency_key(r.scope, r.key): r for r in records}`, from the records before `d`.
unfoldable pub keyed : Dict IdempotencyRecord → List IdempotencyRecord → Dict IdempotencyRecord
keyed d [] = d
keyed d (r ∷ rs) = keyed (Dict.put d (idempotency_key r.scope r.key) r) rs

-- `Store.restore`; the listeners are not called.
unfoldable pub restore : StoreSnapshot → Store → Store
unfolding keyed
restore snap s = record s {
  collections = snap.collections;
  journal = of_list journal_capacity snap.journal;
  idempotency = evict idempotency_capacity (keyed [] snap.idempotency);
  seq = snap.seq;
}

-- `Store.reset`
unfoldable pub reset : Store → Store
reset s = record s { collections = []; journal = []; idempotency = []; seq = 0 }

-- `Store.stats`
unfoldable pub stats : Store → List (String × ℕ)
stats s = map (λ name. (name, Dict.size (entities s name))) (sorted (Dict.keys s.collections))
