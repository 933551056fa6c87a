-- ===== src/Magic.antt =====
-- `extract_magic` of core/kernel/magic.py.
use vendorfake.Prelude.{String, Option, none, some, List, [], ◌∷◌, ◌++◌, ◌==◌, if◌then◌else◌}
use vendorfake.Text.{text_eq}
use vendorfake.Dict
use vendorfake.Dict.{Dict}
use vendorfake.Json.{Value, str}
use vendorfake.Registry.Defs.{starts_with}
use vendorfake.Chaos.Evaluate.{get_header}
use vendorfake.Chaos.Selector.{MagicExtraction}
use vendorfake.Webhooks.Listen.{chars_from}
use vendorfake.Paths.{dot_get, split_on, cut_at, size_of}

-- `MagicTriggerSpec` of core/kernel/types.py
pub record MagicTriggerSpec : Type 0 where
  pub prefix : String
  pub body_paths : List String
  pub query_params : List String
  pub headers : List String

-- `NO_MAGIC`
abbrev pub no_magic : MagicExtraction
no_magic = record { faults = []; params = [] }

abbrev pub texts_of : Option Value → List String
texts_of (some (str t)) = t ∷ []
texts_of _ = []

abbrev pub listed : Option String → List String
listed none = []
listed (some t) = t ∷ []

unfoldable pub body_candidates : Value → List String → List String
body_candidates body [] = []
body_candidates body (path ∷ paths) = texts_of (dot_get body path) ++ body_candidates body paths

unfoldable pub query_candidates : Dict String → List String → List String
query_candidates query [] = []
query_candidates query (name ∷ names) = listed (Dict.get query name) ++ query_candidates query names

unfoldable pub header_candidates : Dict String → List String → List String
header_candidates headers [] = []
header_candidates headers (name ∷ names) =
    listed (get_header headers name) ++ header_candidates headers names

-- `candidates`: body paths, query parameters, headers.
unfoldable pub candidates : MagicTriggerSpec → Dict String → Dict String → Value → List String
unfolding body_candidates query_candidates header_candidates
candidates spec query headers body =
    body_candidates body spec.body_paths
    ++ (query_candidates query spec.query_params ++ header_candidates headers spec.headers)

-- `params[pair[:separator]] = pair[separator + 1:]`, if a name stands before the `=`.
unfoldable pub add_pair : Dict String → String → Dict String
unfolding cut_at chars_from
add_pair params pair =
    let (name, behind) = cut_at (λ c. c == b'=') pair in
    if text_eq name ""
    then params
    else if text_eq behind ""
    then params
    else Dict.put params name (chars_from 1 behind)

unfoldable pub add_pairs : Dict String → List String → Dict String
unfolding add_pair
add_pairs params [] = params
add_pairs params (pair ∷ pairs) = add_pairs (add_pair params pair) pairs

-- One candidate.
unfoldable pub read_candidate : String → String → MagicExtraction → MagicExtraction
unfolding chars_from size_of split_on add_pairs
read_candidate prefix raw found =
    if starts_with raw prefix
    then elim (split_on b':' (chars_from (size_of prefix) raw)) [
      | [] ↦ found
      | fault ∷ rest ↦
          if text_eq fault ""
          then found
          else record { faults = found.faults ++ fault ∷ []; params = add_pairs found.params rest }
    ]
    else found

unfoldable pub read_candidates : String → List String → MagicExtraction → MagicExtraction
unfolding read_candidate
read_candidates prefix [] found = found
read_candidates prefix (raw ∷ raws) found =
    read_candidates prefix raws (read_candidate prefix raw found)

abbrev pub if_any : MagicExtraction → List String → MagicExtraction
if_any found [] = no_magic
if_any found (fault ∷ faults) = found

-- `extract_magic`
unfoldable pub extract_magic :
    Option MagicTriggerSpec → Dict String → Dict String → Value → MagicExtraction
unfolding read_candidates candidates
extract_magic none query headers body = no_magic
extract_magic (some spec) query headers body =
    let found = read_candidates spec.prefix (candidates spec query headers body) no_magic in
    if_any found found.faults
