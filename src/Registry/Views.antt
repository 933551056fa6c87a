-- ===== src/Registry/Views.antt =====
-- `CapabilityView` and `view` of core/capability/registry.py.
use vendorfake.Prelude.{String, Bool, Option, none, some, List, [], ◌∷◌, if◌then◌else◌}
use vendorfake.Text.{text_eq}
use vendorfake.Dict.{Dict}
use vendorfake.Json.{Value, bool, str, strs, document}
use vendorfake.Registry.Defs.{
  Kind, surface, behavior, CapabilityDecl, control_capability, Registry, routes_for, blocked_by,
  is_enabled,
}

pub record CapabilityView : Type 0 where
  pub name : String
  pub summary : String
  pub enabled : Bool
  pub kind : Kind
  pub requires : List String
  pub routes : List String
  pub blocked_by : Option String

-- `blocker if blocker is not None and blocker != name else None`
abbrev pub other_blocker : String → Option String → Option String
other_blocker name none = none
other_blocker name (some b) = if text_eq b name then none else some b

-- One row of `view`.
unfoldable pub view_row : Registry → String → CapabilityDecl → CapabilityView
unfolding routes_for
view_row r name d = record {
  name = name;
  summary = d.summary;
  enabled = is_enabled r name;
  kind = d.kind;
  requires = d.requires;
  routes = routes_for r name;
  blocked_by = other_blocker name (blocked_by r name);
}

unfoldable pub view_rows : Registry → Dict CapabilityDecl → List CapabilityView
view_rows r [] = []
view_rows r ((name, d) ∷ rest) =
    let rows = view_rows r rest in
    if text_eq name control_capability then rows else view_row r name d ∷ rows

-- `view`: the declared capabilities but the control capability, in their order.
unfoldable pub view : Registry → List CapabilityView
unfolding view_rows
view r = view_rows r r.declared

abbrev pub kind_text : Kind → String
kind_text surface = "surface"
kind_text behavior = "behavior"

abbrev pub blocked_field : Option String → Dict Value
blocked_field none = []
blocked_field (some b) = ("blocked_by", str b) ∷ []

-- `CapabilityView.as_json`
unfoldable pub view_json : CapabilityView → Value
view_json v = document (
    ("name", str v.name)
    ∷ ("summary", str v.summary)
    ∷ ("enabled", bool v.enabled)
    ∷ ("kind", str (kind_text v.kind))
    ∷ ("requires", strs v.requires)
    ∷ ("routes", strs v.routes)
    ∷ blocked_field v.blocked_by)
