-- ===== src/Store/Laws/Pages.antt =====
-- Proofs about `paginate`, and a client that follows its cursors.
use vendorfake.Prelude.{
  ℕ, zero, suc, ◌+◌, ◌-◌, ◌≤◌, ◌<◌, String, ◌≡◌, refl, ap, ◌∙◌, sym, false, Option, none, some,
  List, [], ◌∷◌, ◌++◌, arith, ltb, Bool-cases, Option-cases, inl, inr, ◌⊎◌, length, take, drop,
  length-take, length-drop, take-append-drop, drop-drop, append-nil, ltb→lt,
}
use vendorfake.Text.{text_eq, text_eq_iff, text_eq_refl}
use vendorfake.Dict
use vendorfake.Json.{ℤ, pos}
use vendorfake.Errors.{Result, ok, err, Error, ◌>>=◌}
use vendorfake.Store.Page.{
  Page, CursorPayload, Codec, cursor_document, encode_cursor, decode_cursor, resolved_limit,
  expired, check_cursor, bad_cursor, offset, page_at, paginate,
}

-- What the code relies on: the text of a cursor is not empty and reads back as its document.
pub record IsCodec (codec : Codec) : Type 0 where
  pub round_trip :
      (p : CursorPayload)
      → codec.decode (codec.encode (cursor_document p)) ≡ some (cursor_document p)
  pub nonempty : (p : CursorPayload) → text_eq (codec.encode (cursor_document p)) "" ≡ false

pub resolved_limit_bounds :
    (limit : Option ℤ) (max_limit default_limit : ℕ)
    → 0 < max_limit
    → (0 < resolved_limit limit max_limit default_limit)
      × (resolved_limit limit max_limit default_limit ≤ max_limit)
unfolding resolved_limit
resolved_limit_bounds none m d h = omega arith
resolved_limit_bounds (some n) m d h = ground arith

decode-encode :
    (codec : Codec) (p : CursorPayload)
    → IsCodec codec
    → decode_cursor codec (encode_cursor codec p) ≡ some p
unfolding decode_cursor encode_cursor Dict.get
decode-encode codec p good = rw good.round_trip

cursor_nonempty :
    (codec : Codec) (p : CursorPayload) → IsCodec codec → text_eq (encode_cursor codec p) "" ≡ false
unfolding encode_cursor
cursor_nonempty codec p good = good.nonempty p

drop_all {ℓ} : {A : Type ℓ} (n : ℕ) (xs : List A) → length xs ≤ n → drop n xs ≡ []
drop_all zero [] h = refl
drop_all zero (x ∷ xs) h = absurd (omega arith)
drop_all (suc n) [] h = refl
drop_all (suc n) (x ∷ xs) h = drop_all n xs (omega arith)

drop_taken {ℓ} : {A : Type ℓ} (n : ℕ) (ys : List A) → drop (length (take n ys)) ys ≡ drop n ys
drop_taken zero ys = refl
drop_taken (suc n) [] = refl
drop_taken (suc n) (y ∷ ys) = drop_taken n ys

drop_past_page {ℓ} :
    {A : Type ℓ} (xs : List A) (o n : ℕ)
    → take n (drop o xs) ++ drop (o + length (take n (drop o xs))) xs ≡ drop o xs
drop_past_page xs o n =
    let page = take n (drop o xs) in
    ap (λ ys. page ++ ys) (sym (drop-drop (length page) o xs) ∙ drop_taken n (drop o xs))
    ∙ take-append-drop n (drop o xs)

-- A cursor that a page carries leads to its offset, at the same instant and for the same query.
offset-cursor :
    (codec : Codec) (fp : String) (instant o : ℕ)
    → IsCodec codec
    → offset codec fp instant
        (some (encode_cursor codec (record { o = o; q = fp; t = pos instant })))
      ≡ ok o
unfolding offset check_cursor expired
offset-cursor codec fp instant o good =
    let p : CursorPayload = record { o = o; q = fp; t = pos instant } in
    ground (arith, decode-encode codec p good, cursor_nonempty codec p good, text_eq_refl fp)

page_at_bound :
    {A : Type 0} (codec : Codec) (fp : String) (instant : ℕ) (items : List A) (n o m : ℕ)
    → n ≤ m
    → length (page_at codec fp instant items n o).items ≤ m
unfolding page_at
page_at_bound codec fp instant items n o m h = omega (arith, length-take n (drop o items))

-- A page holds at most `max_limit` items, whatever limit the client asks for. A cursor that is
-- given is accepted exactly if it reads back, was issued for this query and is not too old; any
-- other is refused as an invalid cursor.
pub paginate_bounds_and_errors :
    {A : Type 0} (codec : Codec) (fp : String) (instant : ℕ) (items : List A) (limit : Option ℤ)
    (text : String) (max_limit default_limit : ℕ)
    → 0 < max_limit
    → text_eq text "" ≡ false
    → ((page : Page A)
        → paginate codec fp instant items limit (some text) max_limit default_limit ≡ ok page
        → (length page.items ≤ max_limit)
          × ((p : CursorPayload) × (decode_cursor codec text ≡ some p)
              × (p.q ≡ fp)
              × (expired instant p.t ≡ false)))
      × ((e : Error)
          → paginate codec fp instant items limit (some text) max_limit default_limit ≡ err e
          → e ≡ bad_cursor)
unfolding paginate offset check_cursor
paginate_bounds_and_errors codec fp instant items limit text max_limit default_limit positive
      given =
    elim (Option-cases (decode_cursor codec text)) [
      | inl unreadable ↦
          (λ page h. ground (arith, unreadable, given), λ e h. ground (arith, unreadable, given))
      | inr (p, readable) ↦ (
        λ page h.
            let n = resolved_limit limit max_limit default_limit in
            let same : page ≡ page_at codec fp instant items n p.o =
              ground (arith, readable, given, h) in
            (
              rw same (
                  page_at_bound codec fp instant items n p.o max_limit
                    (resolved_limit_bounds limit max_limit default_limit positive).1),
              (
                p,
                readable,
                (text_eq_iff p.q fp).0 (ground (arith, readable, given, h)),
                ground (arith, readable, given, h),
              ),
            ),
        λ e h. ground (arith, readable, given, h),
      )
    ]

module _ {A : Type 0} (codec : Codec) (fp : String) (instant : ℕ) (items : List A)
    (limit : Option ℤ) (max_limit default_limit : ℕ) where
  -- A client that asks for page after page until there is no cursor; `none` is out of fuel.
  pub walk : ℕ → Option String → Result (Option (List A))
  walk zero cursor = ok none
  walk (suc fuel) cursor =
      paginate codec fp instant items limit cursor max_limit default_limit >>= λ page.
      elim page.cursor [
        | none ↦ ok (some page.items)
        | some c ↦ walk fuel (some c) >>= λ rest. elim rest [
          | none ↦ ok none
          | some more ↦ ok (some (page.items ++ more))
        ]
      ]

  abbrev page : ℕ → Page A
  page o = page_at codec fp instant items (resolved_limit limit max_limit default_limit) o

  -- The next cursor, and the items that it leads to.
  page-next :
      (o : ℕ)
      → 0 < max_limit
      → o ≤ length items
      → let next = o + length (page o).items in
        ((page o).items ++ drop next items ≡ drop o items)
        × (((page o).cursor ≡ none) × (drop next items ≡ [])
            ⊎ (((page o).cursor
                  ≡ some (encode_cursor codec (record { o = next; q = fp; t = pos instant })))
                × (o < next)
                × (next ≤ length items)))
  unfolding page_at
  page-next o positive inside =
      let n = resolved_limit limit max_limit default_limit in
      let next = o + length (take n (drop o items)) in
      let size = length-take n (drop o items) in
      let left = length-drop o items in
      let some_limit = (resolved_limit_bounds limit max_limit default_limit positive).0 in
      (
        drop_past_page items o n,
        elim (Bool-cases (ltb next (length items))) [
          | inl more ↦ inr (
            rw more,
            omega (arith, size, left, some_limit, ltb→lt _ _ more),
            omega (arith, ltb→lt _ _ more),
          )
          | inr last ↦ inl (rw last, drop_all next items (ground arith))
        ],
      )

  walk_from :
      (fuel o : ℕ) (cursor : Option String)
      → IsCodec codec
      → 0 < max_limit
      → offset codec fp instant cursor ≡ ok o
      → o ≤ length items
      → length items - o < fuel
      → walk fuel cursor ≡ ok (some (drop o items))
  unfolding walk paginate
  walk_from zero o cursor good positive at inside h = absurd (omega arith)
  walk_from (suc fuel) o cursor good positive at inside h =
      let next = o + length (page o).items in
      let (whole, step) = page-next o positive inside in
      elim step [
        | inl (end, nothing) ↦
            let all_here : (page o).items ≡ drop o items =
              sym (append-nil (page o).items)
              ∙ ap (λ ys. (page o).items ++ ys) (sym nothing)
              ∙ whole in
            rw (at, end) (ap (λ ys. ok (some ys)) all_here)
        | inr (more, further, still) ↦
            let rest =
              walk_from fuel next
                (some (encode_cursor codec (record { o = next; q = fp; t = pos instant }))) good
                positive (offset-cursor codec fp instant next good) still
                (omega (arith, further)) in
            rw (at, more, rest) (ap (λ ys. ok (some ys)) whole)
      ]

  -- From the first page on, following the cursors returns all the items, each once and in order,
  -- whatever the limits; one page more than there are items is enough.
  pub walk_lem :
      (fuel : ℕ)
      → IsCodec codec
      → 0 < max_limit
      → length items < fuel
      → walk fuel none ≡ ok (some items)
  unfolding offset
  walk_lem fuel good positive h =
      walk_from fuel 0 none good positive refl (omega arith) (omega arith)
