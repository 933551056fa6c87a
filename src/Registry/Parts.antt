-- ===== src/Registry/Parts.antt =====
-- `apply_capability_delta` of core/capability/registry.py.
use vendorfake.Prelude.{
  String, Bool, true, false, not, List, [], ◌∷◌, ◌++◌, map, keep, any, if◌then◌else◌,
}
use vendorfake.Text.{text_eq, mem_text}
use vendorfake.Errors.{Result}
use vendorfake.Registry.Defs.{Registry, set_enabled, enabled_names}

-- One part of a delta, without its sign: whether it takes away, and the name.
pub data Part : Type 0 where
  plus minus bare : String → Part

abbrev pub is_signed : Part → Bool
is_signed (bare n) = false
is_signed _ = true

abbrev pub name_of : Part → String
name_of (plus n) = n
name_of (minus n) = n
name_of (bare n) = n

abbrev pub add_name : String → List String → List String
add_name n ns = if mem_text n ns then ns else ns ++ n ∷ []

-- The loop of `apply_capability_delta`.
unfoldable pub apply_parts : List String → List Part → List String
apply_parts result [] = result
apply_parts result (minus n ∷ ps) = apply_parts (keep (λ m. not (text_eq m n)) result) ps
apply_parts result (plus n ∷ ps) = apply_parts (add_name n result) ps
apply_parts result (bare n ∷ ps) = apply_parts (add_name n result) ps

-- `apply_capability_delta`, of an expression that is split at its commas and stripped.
unfoldable pub apply_capability_delta : List String → List Part → List String
unfolding apply_parts
apply_capability_delta base parts =
    if any is_signed parts then apply_parts base parts else map name_of parts

-- `apply_delta`
unfoldable pub apply_delta : List Part → Registry → Result Registry
apply_delta parts r = set_enabled (apply_capability_delta (enabled_names r) parts) r
