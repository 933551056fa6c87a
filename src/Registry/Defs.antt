-- ===== src/Registry/Defs.antt =====
-- `CapabilityRegistry` of core/capability/registry.py.
use Prim.Native.Char.{code}
use Prim.Native.String.{◌++◌ as text_append, ◌∷◌ as push_front}
use vendorfake.Prelude.{
  String, Bool, true, false, not, ◌&&◌, Option, none, some, List, [], ◌∷◌, ◌++◌, keep, all, ◌==◌,
  if◌then◌else◌,
}
use vendorfake.Text.{text_eq, mem_text, sorted}
use vendorfake.Dict
use vendorfake.Dict.{Dict}
use vendorfake.Json.{Value, str, strs, document}
use vendorfake.Errors.{
  Result, ok, err, unit_error, invalid_value, capability_disabled, ◌>>◌, raise_if,
}

pub data Kind : Type 0 where
  surface behavior : Kind

-- `CapabilityDecl` of core/kernel/types.py
pub record CapabilityDecl : Type 0 where
  pub name : String
  pub summary : String
  pub requires : List String
  pub kind : Kind

-- `CONTROL_CAPABILITY`
abbrev pub control_capability : String
control_capability = "__control"

-- The set of enabled names is a list; its order is that of Python's set, which does not matter.
pub record Registry : Type 0 where
  pub profile_name : String
  pub declared : Dict CapabilityDecl
  pub routes_by_capability : Dict (List String)
  pub enabled : List String

-- `declare`: a known name keeps its place.
unfoldable pub declare : CapabilityDecl → Registry → Registry
declare decl r = record r { declared = Dict.put r.declared decl.name decl }

-- `names`
unfoldable pub names : Registry → List String
names r = keep (λ n. not (text_eq n control_capability)) (Dict.keys r.declared)

-- `set_enabled`
unfoldable pub set_enabled : List String → Registry → Result Registry
set_enabled wanted r = do
  raise_if (not (all (Dict.has r.declared) wanted)) (
      unit_error invalid_value (some "capabilities") (document (("declared", strs (names r)) ∷ [])))
  ok (record r { enabled = wanted ++ control_capability ∷ [] })

-- `_CONTROL_DECL`
abbrev pub control_decl : CapabilityDecl
control_decl = record {
  name = control_capability;
  summary = "Unit control plane (always on).";
  requires = [];
  kind = surface;
}

unfoldable pub declare_all : List CapabilityDecl → Registry → Registry
unfolding declare
declare_all [] r = r
declare_all (d ∷ ds) r = declare_all ds (declare d r)

abbrev pub keys_of : Option (List String) → List String
keys_of none = []
keys_of (some ks) = ks

-- `self._routes_by_capability.setdefault(route.capability, []).append(route.key)`, of routes that
-- are given as their capability and their key.
unfoldable pub add_route_keys : List (String × String) → Dict (List String) → Dict (List String)
add_route_keys [] d = d
add_route_keys ((capability, key) ∷ rest) d =
    add_route_keys rest (Dict.put d capability (keys_of (Dict.get d capability) ++ key ∷ []))

-- `CapabilityRegistry(decls, routes, enabled, profile_name)`
unfoldable pub new_registry :
    List CapabilityDecl → List (String × String) → List String → String → Result Registry
unfolding declare_all add_route_keys
new_registry decls routes enabled profile_name =
    let empty : Registry = record {
      profile_name = profile_name;
      declared = [];
      routes_by_capability = add_route_keys routes [];
      enabled = control_capability ∷ [];
    } in
    set_enabled enabled (declare control_decl (declare_all decls empty))

-- `is_declared`
unfoldable pub is_declared : Registry → String → Bool
is_declared r name = Dict.has r.declared name

-- `declaration`
unfoldable pub declaration : Registry → String → Option CapabilityDecl
declaration r name = Dict.get r.declared name

-- `routes_for`
unfoldable pub routes_for : Registry → String → List String
routes_for r name = keys_of (Dict.get r.routes_by_capability name)

-- `set_profile_name`
unfoldable pub set_profile_name : String → Registry → Registry
set_profile_name name r = record r { profile_name = name }

abbrev pub not_control : String → Bool
not_control n = not (text_eq n control_capability)

-- `enable`
unfoldable pub enable : String → Registry → Result Registry
enable name r = set_enabled (keep not_control (r.enabled ++ name ∷ [])) r

-- `_requires`
unfoldable pub requires : Registry → String → List String
requires r name = elim (Dict.get r.declared name) [ none ↦ [] | some d ↦ d.requires ]

-- `text.startswith(part)`
unfoldable pub starts_with : String → String → Bool
starts_with t String.[] = true
starts_with String.[] (String.◌∷◌ c s) = false
starts_with (String.◌∷◌ d t) (String.◌∷◌ c s) = code d == code c && starts_with t s

-- The names that `disable` keeps.
unfoldable pub survives : Registry → String → String → Bool
survives r name n =
    not_control n
    && not (text_eq n name)
    && not (starts_with n (text_append name "."))
    && not (mem_text name (requires r n))

-- `disable`
unfoldable pub disable : String → Registry → Result Registry
disable name r = set_enabled (keep (survives r name) r.enabled) r

-- `name.rsplit(".", 1)[0] if "." in name else None`
unfoldable pub parent : String → Option String
parent String.[] = none
parent (String.◌∷◌ c s) = elim (parent s) [
  | some p ↦ some (push_front c p)
  | none ↦ if code c == b'.' then some "" else none
]

-- The first of the names that is not enabled.
unfoldable pub first_unmet : List String → List String → Option String
first_unmet enabled [] = none
first_unmet enabled (n ∷ ns) = if mem_text n enabled then first_unmet enabled ns else some n

-- The dotted parent, if it is declared and not enabled.
unfoldable pub blocked_parent : Registry → Option String → Option String
blocked_parent r none = none
blocked_parent r (some p) =
    if Dict.has r.declared p && not (mem_text p r.enabled) then some p else none

-- `blocked_by`
unfoldable pub blocked_by : Registry → String → Option String
blocked_by r name =
    if not (mem_text name r.enabled) then some name else elim (blocked_parent r (parent name)) [
      | some p ↦ some p
      | none ↦ first_unmet r.enabled (requires r name)
    ]

-- `is_enabled`
unfoldable pub is_enabled : Registry → String → Bool
is_enabled r name = elim (blocked_by r name) [ none ↦ true | some b ↦ false ]

-- `enabled_names`
unfoldable pub enabled_names : Registry → List String
enabled_names r = sorted (keep not_control r.enabled)

abbrev pub route_field : Option String → Dict Value
route_field none = []
route_field (some key) = ("route", str key) ∷ []

-- `assert_enabled`
unfoldable pub assert_enabled : Registry → String → Option String → Result (Unit {0})
assert_enabled r name route_key = elim (blocked_by r name) [
  | none ↦ ok tt
  | some b ↦ err (
      unit_error capability_disabled none (
        document (
          ("kind", str "capability_disabled")
          ∷ ("capability", str name)
          ∷ ("blocked_by", str b)
          ∷ ("profile", str r.profile_name)
          ∷ (route_field route_key ++ ("enabled", strs (enabled_names r)) ∷ []))))
]
