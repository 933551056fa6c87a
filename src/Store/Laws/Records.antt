-- ===== src/Store/Laws/Records.antt =====
-- Proofs about `put_idempotent` and the eviction of records.
use vendorfake.Prelude.{
  ℕ, suc, ◌≤◌, ◌<◌, String, ◌≡◌, refl, Bool, false, not, ◌&&◌, none, some, [], ◌∷◌, ◌++◌, arith,
  ◌==◌, if◌then◌else◌, Bool-cases, inl, inr, length, length-append,
}
use vendorfake.Text.{text_eq, text_eq_iff}
use vendorfake.Dict
use vendorfake.Dict.{Dict}
use vendorfake.Dict.Laws.{get-put, get_of_not_has, put_new, size-put, NodupKeys, get-append}
use vendorfake.Store.State.{Store, IdempotencyRecord, idempotency_capacity}
use vendorfake.Store.Idempotency.{idempotency_key, get_idempotent, evict, put_idempotent}

size-evict-le : (room : ℕ) (d : Dict IdempotencyRecord) → Dict.size (evict room d) ≤ room
unfolding evict
size-evict-le room [] = omega arith
size-evict-le room ((k, r) ∷ d) = ground (arith, size-evict-le room d)

pub evict_fits : (room : ℕ) (d : Dict IdempotencyRecord) → Dict.size d ≤ room → evict room d ≡ d
unfolding evict
evict_fits room [] h = refl
evict_fits room ((k, r) ∷ d) h = ground arith

evict_one :
    (room : ℕ) (k : String) (r : IdempotencyRecord) (d : Dict IdempotencyRecord)
    → Dict.size d ≡ room
    → evict room ((k, r) ∷ d) ≡ d
unfolding evict
evict_one room k r d h = ground (arith, evict_fits room d)

-- Whether `j` is the oldest of `room` records.
abbrev pub is_oldest : ℕ → Dict IdempotencyRecord → String → Bool
is_oldest room d j =
    (Dict.size d == room) && elim (Dict.first d) [ none ↦ false | some k ↦ text_eq k j ]

full_evict :
    (k i j : String) (r w : IdempotencyRecord) (d : Dict IdempotencyRecord)
    → Dict.has ((i, w) ∷ d) k ≡ false
    → Dict.has d i ≡ false
    → Dict.get (d ++ (k, r) ∷ []) j
      ≡ (if text_eq k j then some r else (if text_eq i j then none else Dict.get ((i, w) ∷ d) j))
unfolding Dict.get Dict.has
full_evict k i j r w d new alone = ground (
  arith,
  get-append d ((k, r) ∷ []) j,
  get_of_not_has d j,
  text_eq_iff k j,
  text_eq_iff i j,
  text_eq_iff i k,
)

put_new_evict :
    (room : ℕ) (d : Dict IdempotencyRecord) (k j : String) (r : IdempotencyRecord)
    → 0 < room
    → Dict.size d ≤ room
    → NodupKeys d
    → Dict.has d k ≡ false
    → Dict.get (evict room (Dict.put d k r)) j ≡ (
        if text_eq k j
        then some r
        else (if not (Dict.has d k) && is_oldest room d j then none else Dict.get d j))
unfolding Dict.first
put_new_evict room [] k j r p fits unique new =
    unfold Dict.put Dict.get Dict.has evict in ground arith
put_new_evict room ((i, w) ∷ d) k j r p fits unique new =
    elim (Bool-cases (suc (length d) == room)) [
      | inl full ↦
          let appended = put_new ((i, w) ∷ d) k r new in
          let one =
            evict_one room i w (d ++ (k, r) ∷ []) (ground (arith, length-append d ((k, r) ∷ []))) in
          rw (appended, one, full, new) (full_evict k i j r w d new unique.0)
      | inr room_left ↦
          let same : Dict.size (Dict.put ((i, w) ∷ d) k r) ≡ suc (suc (length d)) =
            ground (arith, size-put ((i, w) ∷ d) k r, new) in
          let kept = evict_fits room (Dict.put ((i, w) ∷ d) k r) (ground (arith, same)) in
          ground (arith, kept, get-put ((i, w) ∷ d) k j r)
    ]

put-evict :
    (room : ℕ) (d : Dict IdempotencyRecord) (k j : String) (r : IdempotencyRecord)
    → 0 < room
    → Dict.size d ≤ room
    → NodupKeys d
    → Dict.get (evict room (Dict.put d k r)) j ≡ (
        if text_eq k j
        then some r
        else (if not (Dict.has d k) && is_oldest room d j then none else Dict.get d j))
unfolding Dict.first
put-evict room d k j r p fits unique = elim (Bool-cases (Dict.has d k)) [
  | inl old ↦
      let same : Dict.size (Dict.put d k r) ≡ Dict.size d = ground (arith, size-put d k r, old) in
      let kept = evict_fits room (Dict.put d k r) (omega (arith, same)) in
      ground (arith, kept, old, get-put d k j r)
  | inr new ↦ put_new_evict room d k j r p fits unique new
]

-- The records are never more than the capacity. A record that is put is found under its scope and
-- key; every other record is found as before, but for the oldest one if the store was full and
-- the key is new.
pub put_idempotent_lem :
    (r : IdempotencyRecord) (s : Store) (j : String)
    → NodupKeys s.idempotency
    → Dict.size s.idempotency ≤ idempotency_capacity
    → (Dict.size (put_idempotent r s).idempotency ≤ idempotency_capacity)
      × (get_idempotent r.scope r.key (put_idempotent r s) ≡ some r)
      × (Dict.get (put_idempotent r s).idempotency j ≡ (
          if text_eq (idempotency_key r.scope r.key) j
          then some r
          else (if not (Dict.has s.idempotency (idempotency_key r.scope r.key))
                && is_oldest idempotency_capacity s.idempotency j
              then none
              else Dict.get s.idempotency j)))
unfolding put_idempotent get_idempotent
put_idempotent_lem r s j unique fits =
    let key = idempotency_key r.scope r.key in
    let law = λ (i : String).
      put-evict idempotency_capacity s.idempotency key i r (omega arith) fits unique in
    (
      size-evict-le idempotency_capacity (Dict.put s.idempotency key r),
      ground (arith, law key, text_eq_iff key key),
      law j,
    )
