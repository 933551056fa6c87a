-- ===== src/Store/Laws/Seq.antt =====
-- The numbers of the journal entries.
use vendorfake.Prelude.{
  ℕ, zero, suc, ◌+◌, ◌-◌, ◌≤◌, ◌<◌, String, ◌≡◌, refl, subst, Option, List, [], ◌∷◌, ◌++◌, arith,
  length, drop, length-append, length-drop,
}
use vendorfake.Dict.{Dict}
use vendorfake.Json.{Value}
use vendorfake.Ring.{push, of_list, length-push-le}
use vendorfake.Clock.Defs.{Clock}
use vendorfake.Store.State.{Store, JournalEntry, Op, journal_capacity, new_store}
use vendorfake.Store.Journal.{append_journal}

-- The entries are numbered `k`, `k + 1`, and so on.
abbrev pub Numbered : ℕ → List JournalEntry → Type 0
Numbered k [] = Unit
Numbered k (e ∷ es) = (e.seq ≡ k) × Numbered (suc k) es

-- The journal holds the last entries, as many as fit, numbered up to `seq` without a gap.
pub record IsJournal (s : Store) : Type 0 where
  pub numbered : Numbered (s.seq + 1 - length s.journal) s.journal
  pub fits : length s.journal ≤ journal_capacity
  pub counted : length s.journal ≤ s.seq

Numbered-append :
    (k : ℕ) (es : List JournalEntry) (e : JournalEntry)
    → Numbered k es
    → e.seq ≡ k + length es
    → Numbered k (es ++ e ∷ [])
Numbered-append k [] e h q = (omega arith, tt)
Numbered-append k (d ∷ ds) e h q = (h.0, Numbered-append (suc k) ds e h.1 (omega arith))

Numbered-drop : (k n : ℕ) (es : List JournalEntry) → Numbered k es → Numbered (k + n) (drop n es)
Numbered-drop k zero es h = subst (λ j. Numbered j es) (omega arith) h
Numbered-drop k (suc n) [] h = tt
Numbered-drop k (suc n) (e ∷ es) h =
    subst (λ j. Numbered j (drop n es)) (omega arith) (Numbered-drop (suc k) n es h.1)

Numbered-eq : (k j : ℕ) (es : List JournalEntry) → k ≡ j → Numbered k es → Numbered j es
Numbered-eq k j es e h = subst (λ i. Numbered i es) e h

Numbered-push :
    (room n : ℕ) (es : List JournalEntry) (e : JournalEntry)
    → Numbered (n + 1 - length es) es
    → length es ≤ room
    → length es ≤ n
    → e.seq ≡ n + 1
    → 0 < room
    → Numbered (n + 1 + 1 - length (push room es e)) (push room es e)
      × (length (push room es e) ≤ n + 1)
unfolding push of_list
Numbered-push room n es e h fits counted q p =
    let all = es ++ e ∷ [] in
    let size = length-append es (e ∷ []) in
    let extra = length all - room in
    let left = length-drop extra all in
    (
      Numbered-eq (n + 1 - length es + extra) (n + 1 + 1 - length (drop extra all)) (drop extra all)
          (omega (arith, size, left))
          (Numbered-drop (n + 1 - length es) extra all
            (Numbered-append (n + 1 - length es) es e h (omega arith))),
      omega (arith, size, left),
    )

pub append_journal-IsJournal :
    (c id : String) (op : Op) (v w : Option Value) (ks : List String) (meta : Option (Dict Value))
    (s : Store)
    → IsJournal s
    → IsJournal (append_journal c id op v w ks meta s)
unfolding append_journal
append_journal-IsJournal c id op v w ks meta s h =
    let (numbered, counted) =
      Numbered-push journal_capacity s.seq s.journal _ h.numbered h.fits h.counted refl
        (omega arith) in
    record {
      numbered = numbered;
      fits = length-push-le journal_capacity s.journal _;
      counted = counted;
    }

pub new_store-IsJournal : (c : Clock) → IsJournal (new_store c)
unfolding new_store
new_store-IsJournal c = record { numbered = tt; fits = omega arith; counted = omega arith }
