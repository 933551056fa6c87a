-- ===== src/Overlay/Tests.antt =====
-- A seed document with one collection, an overlay for it, and the theorems of the merge at work.
use vendorfake.Prelude.{◌≡◌, refl, some, [], ◌∷◌}
use vendorfake.Text.{sorted}
use vendorfake.Dict
use vendorfake.Dict.{Dict}
use vendorfake.Dict.Laws.{NodupKeys}
use vendorfake.Json.{Value, null, str, obj, Fields, end, field, to_dict}
use vendorfake.Errors.{ok}
use vendorfake.Overlay.Defs.{merge_seed, apply_seed_overlay, unknown_collections}
use vendorfake.Overlay.Merged.{laid, get-merge_seed}

abbrev seed : Fields
seed =
    field "orders" (obj (field "a" (str "one") (field "b" (str "two") end)))
      (field "items" (str "none") end)

abbrev overlay : Fields
overlay = field "orders" (obj (field "a" null (field "c" (str "three") end))) end

abbrev merged_seed : Dict Value
merged_seed =
    ("orders", obj (field "b" (str "two") (field "c" (str "three") end)))
    ∷ ("items", str "none")
    ∷ []

overlay_unique : NodupKeys (to_dict overlay)
unfolding Dict.has
overlay_unique = (refl, tt)

overlaid : apply_seed_overlay (some (obj seed)) overlay ≡ ok (some merged_seed)
unfolding apply_seed_overlay unknown_collections merge_seed sorted Dict.has Dict.get Dict.put
    Dict.pop Dict.keys
overlaid = refl

get-merge_seed_example :
    Dict.get (merge_seed (to_dict seed) overlay) "orders"
    ≡ laid (Dict.get (to_dict seed) "orders") (Dict.get (to_dict overlay) "orders")
get-merge_seed_example = get-merge_seed (to_dict seed) overlay "orders" overlay_unique
