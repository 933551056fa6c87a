-- ===== src/Router/Tests.antt =====
-- A table of three routes, and the theorems of core/kernel/router.py at work on it.
use vendorfake.Prelude.{
  String, ◌≡◌, refl, ◌↔◌, inr, true, false, Option, some, List, [], ◌∷◌, keep, All, In,
}
use vendorfake.Text.{SortedText, Member}
use vendorfake.Dict
use vendorfake.Dict.{Dict}
use vendorfake.Errors.{ok}
use vendorfake.Registry.Defs.{starts_with}
use vendorfake.Router.Defs.{
  is_reserved, is_control_path, is_nonempty_text, Route, Compiled, matched, no_route, compile,
  split_path, is_param, inner, percent_decode, has_bad_escape, read_segments, fit, upper, allowed,
  give_up, find_route,
}
use vendorfake.Router.Segments.{with_slashes, no_slash, split_path_lem}
use vendorfake.Router.Outcome.{Answers, Passes, has_path, find_route-matched, find_route-gives_up}

abbrev get_order : Route
get_order = record {
  method = "GET";
  path = "/v2/orders/{order_id}";
  capability = "orders";
  internal = false;
}

abbrev put_order : Route
put_order = record get_order { method = "PUT" }

abbrev info : Route
info = record { method = "GET"; path = "/__unit/info"; capability = "__control"; internal = true }

abbrev order_template : List String
order_template = "v2" ∷ "orders" ∷ "{order_id}" ∷ []

abbrev compiled_order : Route → Compiled
compiled_order r = record { route = r; segments = order_template; param_names = "order_id" ∷ [] }

abbrev table : List Compiled
table = compiled_order get_order ∷ compiled_order put_order ∷ []

abbrev as_is : String → Option String
as_is text = some text

got :
    find_route as_is table "put" "/v2/orders/o1" ≡ ok (matched put_order (("order_id", "o1") ∷ []))
unfolding find_route fit read_segments percent_decode has_bad_escape is_param inner upper split_path
    Dict.put
got = refl

table-Passes : All (Passes as_is "/v2/orders/o1" "DELETE") table
unfolding fit read_segments percent_decode has_bad_escape is_param inner upper split_path Dict.put
table-Passes =
    (inr (("order_id", "o1") ∷ [], refl, refl), (inr (("order_id", "o1") ∷ [], refl, refl), tt))

find_route-matched_example :
    Answers as_is "/v2/orders/o1" "put" table put_order (("order_id", "o1") ∷ [])
find_route-matched_example =
    find_route-matched as_is table "put" "/v2/orders/o1" put_order (("order_id", "o1") ∷ []) got

abbrev candidates : List Compiled
candidates = keep (has_path as_is "/v2/orders/o1" "DELETE") table

find_route-gives_up_example :
    (find_route as_is table "DELETE" "/v2/orders/o1" ≡ ok (give_up candidates))
    × ((give_up candidates ≡ no_route) ↔ (candidates ≡ []))
    × SortedText (allowed candidates)
    × ((n : String)
        → Member n (allowed candidates)
          ↔ ((c : Compiled) × In c candidates × (upper (c.route).method ≡ n)))
find_route-gives_up_example = find_route-gives_up as_is table "DELETE" "/v2/orders/o1" table-Passes

abbrev doubled_slash : Route
doubled_slash = record {
  method = "GET";
  path = "//__unit/info";
  capability = "orders";
  internal = false;
}

abbrev compiled_info : Compiled
compiled_info = record {
  route = doubled_slash;
  segments = "__unit" ∷ "info" ∷ [];
  param_names = [];
}

doubled_slash_compiled : compile doubled_slash ≡ compiled_info
unfolding compile split_path is_param inner
doubled_slash_compiled = refl

-- A route that is written with two slashes is no reserved one, and answers a path of the control
-- plane.
doubled_slash_passes :
    (is_reserved doubled_slash ≡ false)
    × (find_route as_is (compiled_info ∷ []) "GET" "/__unit/info" ≡ ok (matched doubled_slash []))
unfolding is_reserved is_control_path starts_with find_route fit read_segments is_param upper
    split_path
doubled_slash_passes = (refl, refl)

split_path_lem_example :
    (pieces : List String) × (with_slashes pieces ≡ "/v2//orders/")
    × All (λ t. no_slash t ≡ true) pieces
    × (split_path "/v2//orders/" ≡ keep is_nonempty_text pieces)
split_path_lem_example = split_path_lem "/v2//orders/"
