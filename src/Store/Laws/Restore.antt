-- ===== src/Store/Laws/Restore.antt =====
-- Proofs about `Store.snapshot` and `Store.restore`.
use vendorfake.Prelude.{
  ◌≤◌, String, ◌≡◌, refl, ap, ◌∙◌, sym, false, [], ◌∷◌, ◌++◌, arith, append-nil, append_assoc,
  subst, length,
}
use vendorfake.Dict
use vendorfake.Dict.{Dict}
use vendorfake.Dict.Laws.{NodupKeys, put_new, has-append}
use vendorfake.Text.{text_eq_iff}
use vendorfake.Ring.{of_list-fits}
use vendorfake.Store.State.{Store, IdempotencyRecord, journal_capacity, idempotency_capacity}
use vendorfake.Store.Idempotency.{idempotency_key, evict}
use vendorfake.Store.Snapshot.{snapshot, restore, keyed}
use vendorfake.Store.Laws.Records.{evict_fits}

-- Each record stands under its own key.
abbrev pub KeyedByRecord : Dict IdempotencyRecord → Type 0
KeyedByRecord [] = Unit
KeyedByRecord ((k, r) ∷ d) = (idempotency_key r.scope r.key ≡ k) × KeyedByRecord d

no_clash :
    (d : Dict IdempotencyRecord) (j : String) (r : IdempotencyRecord) (e : Dict IdempotencyRecord)
    → NodupKeys (d ++ (j, r) ∷ e)
    → Dict.has d j ≡ false
unfolding Dict.has
no_clash [] j r e u = refl
no_clash ((i, w) ∷ d) j r e u =
    ground (arith, no_clash d j r e u.1, has-append d ((j, r) ∷ e) i, u.0, text_eq_iff i j)

keyed-values :
    (d e : Dict IdempotencyRecord)
    → KeyedByRecord e
    → NodupKeys (d ++ e)
    → keyed d (Dict.values e) ≡ d ++ e
unfolding keyed Dict.values
keyed-values d [] h u = sym (append-nil d)
keyed-values d ((k, r) ∷ e) h u =
    let placed : Dict.put d (idempotency_key r.scope r.key) r ≡ d ++ (k, r) ∷ [] =
      ap (λ j. Dict.put d j r) h.0 ∙ put_new d k r (no_clash d k r e u) in
    ap (λ (x : Dict IdempotencyRecord). keyed x (Dict.values e)) placed
    ∙ keyed-values (d ++ (k, r) ∷ []) e h.1
        (subst NodupKeys (sym (append_assoc d ((k, r) ∷ []) e)) u)
    ∙ append_assoc d ((k, r) ∷ []) e

-- Restoring a snapshot brings back every entity, the journal, its counter and the idempotency
-- records, whatever happened in between, and calls no listener.
pub restore-snapshot :
    (s t : Store)
    → length s.journal ≤ journal_capacity
    → Dict.size s.idempotency ≤ idempotency_capacity
    → KeyedByRecord s.idempotency
    → NodupKeys s.idempotency
    → restore (snapshot s) t ≡ record t {
      collections = s.collections;
      journal = s.journal;
      idempotency = s.idempotency;
      seq = s.seq;
    }
unfolding restore snapshot
restore-snapshot s t fits few keys unique =
    let records : evict idempotency_capacity (keyed [] (Dict.values s.idempotency))
        ≡ s.idempotency =
      ap (evict idempotency_capacity) (keyed-values [] s.idempotency keys unique)
      ∙ evict_fits idempotency_capacity s.idempotency few in
    let journal = of_list-fits journal_capacity s.journal fits in cc (records, journal)
