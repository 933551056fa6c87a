-- ===== src/Chaos/Rules.antt =====
-- The rule grammar of core/chaos/rules.py.
use vendorfake.Prelude.{ℕ, String, Bool, true, false, not, ◌||◌, Option, none, some, List, keep}
use vendorfake.Text.{text_eq}
use vendorfake.Dict
use vendorfake.Dict.{Dict}
use vendorfake.Json.{Value, null, str}
use vendorfake.Errors.{Result, Error, unit_error, missing_field, invalid_value, ◌>>◌, raise_if}
use vendorfake.Chaos.Glob.{glob_match}

pub data ChaosScope : Type 0 where
  request webhook : ChaosScope

pub record ChaosMatch : Type 0 where
  pub route : Option String
  pub path : Option String
  pub method : Option String
  pub capability : Option String
  pub event_type : Option String
  pub header : Option (Dict String)
  pub body_contains : Option String

-- `probability` is the least 53-bit numerator that is not below it: `random()` is a whole
-- number of 2 ^ 53rds.
pub record ChaosWhen : Type 0 where
  pub nth : Option (List ℕ)
  pub every : Option ℕ
  pub after : Option ℕ
  pub times : Option ℕ
  pub always : Option Bool
  pub probability : Option ℕ

pub record ChaosRule : Type 0 where
  pub id : String
  pub scope : ChaosScope
  pub fault : String
  pub matching : Option ChaosMatch
  pub when : Option ChaosWhen
  pub params : Option (Dict Value)
  pub note : Option String

-- `matched_routes`
unfoldable pub matched_routes : ChaosRule → List String → List String
matched_routes rule route_keys = elim rule.matching [
  | none ↦ route_keys
  | some m ↦ elim m.route [
    | none ↦ route_keys
    | some pattern ↦ keep (glob_match pattern) route_keys
  ]
]

-- `not isinstance(v, str) or not v`
abbrev pub is_missing_text : Option Value → Bool
is_missing_text (some (str t)) = text_eq t ""
is_missing_text _ = true

abbrev pub is_scope : Option Value → Bool
is_scope (some (str t)) = text_eq t "request" || text_eq t "webhook"
is_scope _ = false

abbrev pub missing : String → Error
missing name = unit_error missing_field (some name) null

-- `validate_rule_document`
unfoldable pub validate_rule_document : Dict Value → Result (Unit {0})
validate_rule_document document = do
  raise_if (is_missing_text (Dict.get document "id")) (missing "id")
  raise_if (is_missing_text (Dict.get document "fault")) (missing "fault")
  raise_if (not (is_scope (Dict.get document "scope")))
      (unit_error invalid_value (some "scope") null)
