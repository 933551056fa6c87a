-- ===== src/Unit/AccessTests.antt =====
-- The guard of core/control/access.py on a path with doubled slashes, and the theorem at work on it.
use vendorfake.Prelude.{String, ◌≡◌, ◌↔◌, refl, none, some, []}
use vendorfake.Dict
use vendorfake.Router.Defs.{split_path, split_slash, upper}
use vendorfake.Unit.Access.{control_access_error, names_control_plane, is_health, same_texts}
use vendorfake.Unit.Laws.Guarded.{LacksToken, refusal, control_access_error_lem}

abbrev chaos_path : String
chaos_path = "//__unit//chaos"

guarded : control_access_error "POST" chaos_path [] (some "secret") ≡ some refusal
unfolding control_access_error names_control_plane is_health same_texts split_path split_slash upper
    Dict.get
guarded = refl

control_access_error_lem_example :
    ((control_access_error "POST" chaos_path [] (some "secret") ≡ some refusal)
      ↔ LacksToken "POST" chaos_path [] (some "secret"))
    × ((LacksToken "POST" chaos_path [] (some "secret") → ⊥)
        → control_access_error "POST" chaos_path [] (some "secret") ≡ none)
control_access_error_lem_example = control_access_error_lem "POST" chaos_path [] (some "secret")
