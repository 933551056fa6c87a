-- ===== src/Unit/Access.antt =====
-- `names_control_plane` and `control_access_error` of core/control/access.py.
use vendorfake.Prelude.{
  String, Bool, true, false, not, ◌&&◌, ◌||◌, Option, none, some, List, [], ◌∷◌, if◌then◌else◌,
}
use vendorfake.Text.{text_eq}
use vendorfake.Dict
use vendorfake.Dict.{Dict}
use vendorfake.Json.{null}
use vendorfake.Errors.{Error, unit_error, unauthorized}
use vendorfake.Router.Defs.{split_path, upper}

-- `CONTROL_TOKEN_HEADER`
abbrev pub control_token_header : String
control_token_header = "vendorfake-control-token"

-- `HEALTH_PATH`
abbrev pub health_path : String
health_path = "/__unit/health"

abbrev pub first_is : String → List String → Bool
first_is name [] = false
first_is name (s ∷ ss) = text_eq s name

-- `names_control_plane`
unfoldable pub names_control_plane : String → Bool
names_control_plane path = first_is "__unit" (split_path path)

unfoldable pub same_texts : List String → List String → Bool
same_texts [] [] = true
same_texts (s ∷ ss) (t ∷ ts) = text_eq s t && same_texts ss ts
same_texts _ _ = false

-- A health check: the request that no token guards.
unfoldable pub is_health : String → String → Bool
unfolding same_texts
is_health method path =
    (text_eq (upper method) "GET" || text_eq (upper method) "HEAD")
    && same_texts (split_path path) (split_path health_path)

abbrev pub header_or_empty : Option String → String
header_or_empty none = ""
header_or_empty (some t) = t

-- `control_access_error`
unfoldable pub control_access_error : String → String → Dict String → Option String → Option Error
unfolding names_control_plane is_health
control_access_error method path headers none = none
control_access_error method path headers (some token) =
    if text_eq token "" || not (names_control_plane path)
    then none
    else if is_health method path
    then none
    else if text_eq (header_or_empty (Dict.get headers control_token_header)) token
    then none
    else some (unit_error unauthorized (some control_token_header) null)
