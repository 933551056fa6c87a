-- ===== src/Router/Defs.antt =====
-- `Router` and the helpers of core/kernel/router.py. `unquote` of urllib, strict and in UTF-8, is a
-- parameter: `none` where it raises.
use Prim.Native.Char.{Char, code}
use Prim.Native.String.{◌∷◌ as push_front, ◌++◌ as text_append}
use vendorfake.Prelude.{
  ℕ, String, Bool, true, false, not, ◌&&◌, ◌||◌, Option, none, some, List, [], ◌∷◌, ◌++◌, map, keep,
  leb, ◌==◌, length, if◌then◌else◌,
}
use vendorfake.Text.{text_eq, mem_text, sorted}
use vendorfake.Dict
use vendorfake.Dict.{Dict}
use vendorfake.Json.{str, strs, document}
use vendorfake.Errors.{Result, ok, err, Error, unit_error, invalid_value, ◌>>=◌, ◌>>◌, raise_if}
use vendorfake.Registry.Defs.{starts_with}

-- The fields of `Route` (core/kernel/types.py) that the router reads, and its capability.
pub record Route : Type 0 where
  pub method : String
  pub path : String
  pub capability : String
  pub internal : Bool

pub record Compiled : Type 0 where
  pub route : Route
  pub segments : List String
  pub param_names : List String

pub data MatchOutcome : Type 0 where
  matched : Route → Dict String → MatchOutcome
  method_not_allowed : List String → MatchOutcome
  no_route : MatchOutcome

-- One character under `upper()`, for methods, which are ASCII.
abbrev pub translate : String → String → Char → Char
translate String.[] _ c = c
translate _ String.[] c = c
translate (String.◌∷◌ a from) (String.◌∷◌ b to) c =
    let rest = translate from to c in if code a == code c then b else rest

-- `method.upper()`
unfoldable pub upper : String → String
upper String.[] = ""
upper (String.◌∷◌ c s) =
    push_front (translate "abcdefghijklmnopqrstuvwxyz" "ABCDEFGHIJKLMNOPQRSTUVWXYZ" c) (upper s)

-- `Route.key`
unfoldable pub key : Route → String
unfolding upper
key r = text_append (upper r.method) (text_append " " r.path)

-- `INTERNAL_PATH_PREFIX`
abbrev pub internal_path_prefix : String
internal_path_prefix = "/__unit/"

abbrev pub onto_first : Char → List String → List String
onto_first c [] = push_front c "" ∷ []
onto_first c (t ∷ ts) = push_front c t ∷ ts

-- `path.split("/")`
unfoldable pub split_slash : String → List String
split_slash String.[] = "" ∷ []
split_slash (String.◌∷◌ c s) =
    let rest = split_slash s in if code c == b'/' then "" ∷ rest else onto_first c rest

abbrev pub is_nonempty_text : String → Bool
is_nonempty_text String.[] = false
is_nonempty_text (String.◌∷◌ c s) = true

-- `split_path`
unfoldable pub split_path : String → List String
unfolding split_slash
split_path path = keep is_nonempty_text (split_slash path)

abbrev pub is_hex : ℕ → Bool
is_hex c = leb b'0' c && leb c b'9' || leb b'A' c && leb c b'F' || leb b'a' c && leb c b'f'

abbrev pub two_hex : String → Bool
two_hex (String.◌∷◌ c (String.◌∷◌ d s)) = is_hex (code c) && is_hex (code d)
two_hex _ = false

-- `_ESCAPE.search(segment)`: a percent sign without two hex digits behind it.
unfoldable pub has_bad_escape : String → Bool
has_bad_escape String.[] = false
has_bad_escape (String.◌∷◌ c s) = code c == b'%' && not (two_hex s) || has_bad_escape s

abbrev pub bad_escape : String → String → Error
bad_escape path segment =
    unit_error invalid_value (some "path")
      (document (("path", str path) ∷ ("segment", str segment) ∷ []))

-- `percent_decode`
unfoldable pub percent_decode : (String → Option String) → String → String → Result String
percent_decode unquote path segment =
    raise_if (has_bad_escape segment) (bad_escape path segment)
    >> elim (unquote segment) [ none ↦ err (bad_escape path segment) | some t ↦ ok t ]

abbrev pub ends_in : ℕ → String → Bool
ends_in b String.[] = false
ends_in b (String.◌∷◌ c String.[]) = code c == b
ends_in b (String.◌∷◌ c (String.◌∷◌ d s)) = ends_in b (String.◌∷◌ d s)

abbrev pub without_last : String → String
without_last String.[] = ""
without_last (String.◌∷◌ c String.[]) = ""
without_last (String.◌∷◌ c (String.◌∷◌ d s)) = push_front c (without_last (String.◌∷◌ d s))

-- `_is_param`: an opening brace, at least one character, a closing brace.
unfoldable pub is_param : String → Bool
is_param (String.◌∷◌ c (String.◌∷◌ d s)) = code c == b'{' && ends_in b'}' s
is_param _ = false

-- `segment[1:-1]`
unfoldable pub inner : String → String
inner String.[] = ""
inner (String.◌∷◌ c s) = without_last s

-- `is_control_path`
unfoldable pub is_control_path : String → Bool
is_control_path path = text_eq path "/__unit" || starts_with path internal_path_prefix

unfoldable pub compile : Route → Compiled
compile route =
    let segments = split_path route.path in
    record { route = route; segments = segments; param_names = map inner (keep is_param segments) }

-- A route that may not be in the table.
unfoldable pub is_reserved : Route → Bool
is_reserved route = not route.internal && is_control_path route.path

abbrev pub reserved_route : String → Error
reserved_route name =
    unit_error invalid_value (some "routes")
      (document (("route", str name) ∷ ("reserved_prefix", str internal_path_prefix) ∷ []))

-- `Router.add`
unfoldable pub add : Route → List Compiled → Result (List Compiled)
add route table =
    raise_if (is_reserved route) (reserved_route (key route)) >> ok (table ++ compile route ∷ [])

-- `Router(routes)`, from the table of the routes before.
unfoldable pub add_routes : List Route → List Compiled → Result (List Compiled)
unfolding add
add_routes [] table = ok table
add_routes (route ∷ routes) table = add route table >>= λ longer. add_routes routes longer

-- `Router.routes`
unfoldable pub routes : List Compiled → List Route
routes = map (λ c. c.route)

-- `assert_no_reserved_paths`
unfoldable pub assert_no_reserved_paths : List Route → Result (Unit {0})
assert_no_reserved_paths rs = elim (map key (keep is_reserved rs)) [
  | [] ↦ ok tt
  | k ∷ ks ↦ err (
      unit_error invalid_value (some "routes")
        (document (("routes", strs (k ∷ ks)) ∷ ("reserved_prefix", str internal_path_prefix) ∷ [])))
]

-- `set(names)`: each name once.
unfoldable pub distinct : List String → List String
distinct [] = []
distinct (n ∷ ns) = let rest = distinct ns in if mem_text n rest then rest else n ∷ rest

-- The methods of the candidates, sorted and each once.
abbrev pub allowed : List Compiled → List String
allowed candidates = sorted (distinct (map (λ (c : Compiled). upper (c.route).method) candidates))

-- The outcome when no route has both the path and the method.
abbrev pub give_up : List Compiled → MatchOutcome
give_up [] = no_route
give_up (c ∷ cs) = method_not_allowed (allowed (c ∷ cs))

module _ (unquote : String → Option String) (path : String) where
  -- The inner loop of `match`: `none` at a segment that differs.
  unfoldable pub read_segments :
      List String → List String → Dict String → Result (Option (Dict String))
  read_segments [] [] params = ok (some params)
  read_segments [] (got ∷ rest) params = ok none
  read_segments (template ∷ templates) [] params = ok none
  read_segments (template ∷ templates) (got ∷ rest) params = elim (is_param template) [
    | true ↦ percent_decode unquote path got >>= λ value.
        read_segments templates rest (Dict.put params (inner template) value)
    | false ↦ elim (text_eq template got) [
      | true ↦ read_segments templates rest params
      | false ↦ ok none
    ]
  ]

  -- The parameters that one route reads from the segments of the path, if it has their shape.
  unfoldable pub fit : List String → Compiled → Result (Option (Dict String))
  unfolding read_segments
  fit wanted c =
      if length c.segments == length wanted then read_segments c.segments wanted [] else ok none

  -- The outer loop of `match`, with the candidates that had the path and not the method.
  unfoldable pub scan : String → List String → List Compiled → List Compiled → Result MatchOutcome
  unfolding fit
  scan method wanted path_matches [] = ok (give_up path_matches)
  scan method wanted path_matches (c ∷ cs) = fit wanted c >>= λ fitted. elim fitted [
    | none ↦ scan method wanted path_matches cs
    | some params ↦ elim (text_eq (upper (c.route).method) (upper method)) [
      | true ↦ ok (matched c.route params)
      | false ↦ scan method wanted (path_matches ++ c ∷ []) cs
    ]
  ]

-- `Router.match`
unfoldable pub find_route :
    (String → Option String) → List Compiled → String → String → Result MatchOutcome
unfolding scan split_path
find_route unquote table method path = scan unquote path method (split_path path) [] table
