-- ===== src/Square/Completing.antt =====
-- When an order is completed, square/surface/orders.py.
use vendorfake.Prelude.{
  ℕ, String, ◌≡◌, refl, ap, ◌∙◌, subst, false, not, some, List, [], ◌∷◌, ◌++◌, map, keep, length,
  ◌==◌, Bool-cases, inl, inr,
}
use vendorfake.Text.{text_eq}
use vendorfake.Dict
use vendorfake.Dict.{Dict}
use vendorfake.Dict.Laws.{get-put}
use vendorfake.Json.{pos, Value, str}
use vendorfake.Integers.{◌+ℤ◌, ◌-ℤ◌, int_laws, at_least_zero-spent}
use vendorfake.Numbers.{at_least_zero}
use vendorfake.Store.State.{Entity}
use vendorfake.Square.Readers.{objects, listed}
use vendorfake.Square.Entities.{Tender, applied, tender_to_entity}
use vendorfake.Square.Totals.{Quantities, sum_of}
use vendorfake.Square.Tenders.{
  has_text, is_zero_quantity, drop_zero_quantity_lines, complete_order, apply_tenders,
}
use vendorfake.Square.Tendering.{objects-listed, tender_from_entity-to_entity}
use vendorfake.Square.Amounts.{
  due_of, lines_total, tenders_total, due_lem, due_of-same, due_of-drop,
}

module _ (q : Quantities) (text_of : Value → String) where
  -- Another field than the lines is left alone.
  get-drop :
      (draft : Entity) (key : String)
      → ((lines : Value) → Dict.get (Dict.put draft "line_items" lines) key ≡ Dict.get draft key)
      → Dict.get (drop_zero_quantity_lines q draft) key ≡ Dict.get draft key
  unfolding drop_zero_quantity_lines
  get-drop draft key other =
      let lines = objects (Dict.get draft "line_items") in
      let kept = keep (λ line. not (is_zero_quantity q line)) lines in
      elim (Bool-cases (length kept == length lines)) [
        | inl all ↦ rw all refl
        | inr some_zero ↦ rw some_zero (other (listed kept))
      ]

  -- A completed draft: its state, when it was closed, and what is due on it.
  pub record Completed (now : String) (due : ℕ) (draft : Entity) : Type 0 where
    pub state : Dict.get draft "state" ≡ some (str "COMPLETED")
    pub closed_at : Dict.get draft "closed_at" ≡ some (str now)
    pub due_is : due_of q text_of draft ≡ due

  complete_order-Completed :
      (now : String) (draft : Entity)
      → has_text draft "state" "COMPLETED" ≡ false
      → Completed now (due_of q text_of draft) (complete_order q now draft)
  unfolding complete_order
  complete_order-Completed now draft h =
      let moved = Dict.put draft "state" (str "COMPLETED") in
      let closed = Dict.put moved "closed_at" (str now) in
      rw h (record {
        state =
            get-drop closed "state" (get-put closed "line_items" "state")
            ∙ get-put moved "closed_at" "state" (str now)
            ∙ get-put draft "state" "state" (str "COMPLETED");
        closed_at =
            get-drop closed "closed_at" (get-put closed "line_items" "closed_at")
            ∙ get-put moved "closed_at" "closed_at" (str now);
        due_is =
            due_of-drop q text_of closed
            ∙ due_of-same q text_of closed draft
                (get-put moved "closed_at" "line_items" (str now)
                  ∙ get-put draft "state" "line_items" (str "COMPLETED"))
                (get-put moved "closed_at" "tenders" (str now)
                  ∙ get-put draft "state" "tenders" (str "COMPLETED"));
      })

  tenders_total-stored :
      (tenders : List Tender)
      → tenders_total q text_of (map tender_to_entity tenders) ≡ sum_of applied tenders
  unfolding sum_of
  tenders_total-stored [] = refl
  tenders_total-stored (t ∷ ts) =
      rw (tender_from_entity-to_entity text_of t, tenders_total-stored ts) refl

  tenders_total-append :
      (stored more : List (Dict Value))
      → tenders_total q text_of (stored ++ more)
        ≡ tenders_total q text_of stored +ℤ tenders_total q text_of more
  unfolding sum_of
  tenders_total-append [] more = omega int_laws
  tenders_total-append (t ∷ ts) more = rw (tenders_total-append ts more) (omega int_laws)

  -- The draft with more tenders, before it is completed.
  abbrev tendered : List Tender → Entity → Entity
  tendered tenders draft =
      Dict.put draft "tenders"
        (listed (objects (Dict.get draft "tenders") ++ map tender_to_entity tenders))

  nothing_due :
      (tenders : List Tender) (draft : Entity)
      → sum_of applied tenders ≡ pos (due_of q text_of draft)
      → due_of q text_of (tendered tenders draft) ≡ 0
  nothing_due tenders draft paid =
      let before = objects (Dict.get draft "tenders") in
      let stored = before ++ map tender_to_entity tenders in
      let lines = lines_total q text_of (objects (Dict.get draft "line_items")) in
      let due =
        due_lem q text_of draft (Dict.get draft "line_items") (Dict.get draft "tenders") refl
          refl in
      due_lem q text_of (tendered tenders draft) (Dict.get draft "line_items")
        (some (listed stored)) (get-put draft "tenders" "line_items" (listed stored))
        (get-put draft "tenders" "tenders" (listed stored))
      ∙ ap (λ total. at_least_zero (lines -ℤ total))
          (ap (tenders_total q text_of) (objects-listed stored)
            ∙ tenders_total-append before (map tender_to_entity tenders)
            ∙ ap (λ total. tenders_total q text_of before +ℤ total)
                (tenders_total-stored tenders ∙ paid ∙ ap pos due))
      ∙ at_least_zero-spent lines (tenders_total q text_of before)

  has_text_lem :
      (draft : Entity) (key found text : String)
      → Dict.get draft key ≡ some (str found)
      → has_text draft key text ≡ text_eq found text
  unfolding has_text
  has_text_lem draft key found text h = rw (h, has_text) refl

  -- Tenders that apply exactly what is due on an open order complete it, and nothing is due then.
  pub apply_tenders-Completed :
      (tenders : List Tender) (now : String) (draft : Entity)
      → Dict.get draft "state" ≡ some (str "OPEN")
      → sum_of applied tenders ≡ pos (due_of q text_of draft)
      → Completed now 0 (apply_tenders q text_of tenders now draft)
  unfolding apply_tenders
  apply_tenders-Completed tenders now draft is_open paid =
      let more = tendered tenders draft in
      let state =
        get-put draft "tenders" "state"
          (listed (objects (Dict.get draft "tenders") ++ map tender_to_entity tenders))
        ∙ is_open in
      let nothing = nothing_due tenders draft paid in
      rw (has_text_lem more "state" "OPEN" "OPEN" state, nothing)
        (subst (λ due. Completed now due (complete_order q now more)) nothing
          (complete_order-Completed now more (has_text_lem more "state" "OPEN" "COMPLETED" state)))
