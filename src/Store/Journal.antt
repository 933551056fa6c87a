-- ===== src/Store/Journal.antt =====
-- The journal of `Store`: `append_journal`, `journal`, `on_journal`, `muted`.
use vendorfake.Prelude.{
  ℕ, ◌+◌, String, Bool, true, false, Option, List, [], ◌∷◌, ◌++◌, map, keep, ltb, if◌then◌else◌,
}
use vendorfake.Dict.{Dict}
use vendorfake.Json.{Value}
use vendorfake.Ring.{push}
use vendorfake.Clock.Defs.{iso_ms}
use vendorfake.Store.State.{Store, JournalEntry, Op, journal_capacity}

-- `Store.on_journal`
unfoldable pub on_journal : ℕ → Store → Store
on_journal listener s = record s { listeners = s.listeners ++ listener ∷ [] }

-- The entry that `append_journal` builds, after `self._seq += 1`.
unfoldable pub next_entry :
    Store
    → String
    → String
    → Op
    → Option Value
    → Option Value
    → List String
    → Option (Dict Value)
    → JournalEntry
next_entry s collection entity_id op from_version to_version changed meta = record {
  seq = s.seq + 1;
  at = iso_ms s.clock;
  collection = collection;
  id = entity_id;
  op = op;
  from_version = from_version;
  to_version = to_version;
  changed = changed;
  meta = meta;
}

-- The calls `listener(entry)` of one entry.
abbrev pub calls : Bool → List ℕ → JournalEntry → List (ℕ × JournalEntry)
calls muted listeners entry = if muted then [] else map (λ l. (l, entry)) listeners

-- The state after one more entry.
unfoldable pub record_entry : JournalEntry → Store → Store
record_entry entry s = record s {
  seq = s.seq + 1;
  journal = push journal_capacity s.journal entry;
  heard = s.heard ++ calls s.muted s.listeners entry;
}

-- `Store.append_journal`; a listener is called by its number, and returns.
unfoldable pub append_journal :
    String
    → String
    → Op
    → Option Value
    → Option Value
    → List String
    → Option (Dict Value)
    → Store
    → Store
unfolding next_entry record_entry
append_journal collection entity_id op from_version to_version changed meta s =
    record_entry (next_entry s collection entity_id op from_version to_version changed meta) s

-- `Store.journal(since_seq)`
unfoldable pub journal_since : ℕ → Store → List JournalEntry
journal_since since_seq s = keep (λ e. ltb since_seq e.seq) s.journal

-- `with store.muted(): block`; the block may raise, and the flag is cleared all the same.
unfoldable pub with_muted : {A : Type 0} → (Store → A × Store) → Store → A × Store
with_muted block s =
    let (a, s') = block (record s { muted = true }) in (a, record s' { muted = false })
