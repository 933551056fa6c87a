-- ===== src/Store/Page.antt =====
-- `Collection.paginate` and its cursors. The text of a cursor, base64url of a JSON document, is
-- read and written by a codec, which is a parameter.
use vendorfake.Prelude.{
  ℕ, suc, ◌+◌, min, max, String, Bool, not, Option, none, some, List, [], ◌∷◌, ltb, if◌then◌else◌,
  length, take, drop,
}
use vendorfake.Text.{text_eq}
use vendorfake.Dict
use vendorfake.Json.{ℤ, pos, negsuc, Value, null, int, str, obj, to_dict, document}
use vendorfake.Errors.{Result, ok, err, Error, unit_error, invalid_cursor, ◌>>=◌, ◌>>◌, raise_if}
use vendorfake.Store.State.{default_cursor_ttl_ms}

pub record Page (A : Type 0) : Type 0 where
  pub items : List A
  pub cursor : Option String

-- `_CursorPayload`
pub record CursorPayload : Type 0 where
  pub o : ℕ
  pub q : String
  pub t : ℤ

-- `b64url_encode(dump_json(...))` and `json.loads(b64url_decode(...))`, `none` where that raises.
pub record Codec : Type 0 where
  pub encode : Value → String
  pub decode : String → Option Value

-- The document of a cursor.
abbrev pub cursor_document : CursorPayload → Value
cursor_document p = document (("o", int (pos p.o)) ∷ ("q", str p.q) ∷ ("t", int p.t) ∷ [])

-- `_encode_cursor`
unfoldable pub encode_cursor : Codec → CursorPayload → String
encode_cursor codec p = codec.encode (cursor_document p)

-- The checks of `_decode_cursor` on the three fields.
unfoldable pub payload : Option Value → Option Value → Option Value → Option CursorPayload
payload (some (int (pos o))) (some (str q)) (some (int t)) = some (record { o = o; q = q; t = t })
payload _ _ _ = none

unfoldable pub cursor_fields : Option Value → Option CursorPayload
unfolding payload
cursor_fields (some (obj fs)) =
    let d = to_dict fs in payload (Dict.get d "o") (Dict.get d "q") (Dict.get d "t")
cursor_fields _ = none

-- `_decode_cursor`
unfoldable pub decode_cursor : Codec → String → Option CursorPayload
unfolding cursor_fields
decode_cursor codec text = cursor_fields (codec.decode text)

-- `max(limit, 1)`
abbrev pub at_least_one : ℤ → ℕ
at_least_one (pos n) = max n 1
at_least_one (negsuc n) = 1

-- `resolved_limit`
unfoldable pub resolved_limit : Option ℤ → ℕ → ℕ → ℕ
resolved_limit none max_limit default_limit = min (max default_limit 1) max_limit
resolved_limit (some n) max_limit default_limit = min (at_least_one n) max_limit

-- `now - t > DEFAULT_CURSOR_TTL_MS`
unfoldable pub expired : ℕ → ℤ → Bool
expired instant (pos t) = ltb (t + default_cursor_ttl_ms) instant
expired instant (negsuc t) = ltb default_cursor_ttl_ms (instant + suc t)

abbrev pub bad_cursor : Error
bad_cursor = unit_error invalid_cursor (some "cursor") null

-- The three checks of a cursor that was given.
unfoldable pub check_cursor : String → ℕ → Option CursorPayload → Result ℕ
check_cursor fp instant none = err bad_cursor
check_cursor fp instant (some p) = do
  raise_if (not (text_eq p.q fp)) bad_cursor
  raise_if (expired instant p.t) bad_cursor
  ok p.o

-- `offset`; an empty cursor is no cursor.
unfoldable pub offset : Codec → String → ℕ → Option String → Result ℕ
offset codec fp instant none = ok 0
offset codec fp instant (some text) =
    if text_eq text "" then ok 0 else check_cursor fp instant (decode_cursor codec text)

module _ {A : Type 0} where
  -- The page at an offset: a next cursor only if there is a next page.
  unfoldable pub page_at : Codec → String → ℕ → List A → ℕ → ℕ → Page A
  page_at codec fp instant items limit offset =
      let page = take limit (drop offset items) in
      let next_offset = offset + length page in
      record {
        items = page;
        cursor =
            if ltb next_offset (length items)
            then some (encode_cursor codec (record { o = next_offset; q = fp; t = pos instant }))
            else none;
      }

  -- `Collection.paginate`, with `fp` the first 16 digits of the fingerprint's digest.
  unfoldable pub paginate :
      Codec → String → ℕ → List A → Option ℤ → Option String → ℕ → ℕ → Result (Page A)
  unfolding page_at
  paginate codec fp instant items limit cursor max_limit default_limit =
      offset codec fp instant cursor >>= λ start.
      ok (page_at codec fp instant items (resolved_limit limit max_limit default_limit) start)
