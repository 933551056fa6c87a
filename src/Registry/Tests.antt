-- ===== src/Registry/Tests.antt =====
-- A registry of core/capability/registry.py with webhooks and their chaos, and the theorems at
-- work on it.
use vendorfake.Prelude.{String, ◌≡◌, refl, ◌↔◌, true, false, not, ◌&&◌, List, [], ◌∷◌, all}
use Prim.Native.String.{◌++◌ as text_append}
use vendorfake.Text.{text_eq, mem_text}
use vendorfake.Dict
use vendorfake.Errors.{ok}
use vendorfake.Registry.Parts.{Part, plus, minus}
use vendorfake.Registry.Defs.{
  CapabilityDecl, Registry, behavior, set_enabled, enable, disable, starts_with, requires,
  is_enabled, control_capability, survives, blocked_by, blocked_parent, parent, first_unmet,
}
use vendorfake.Registry.Closure.{disable_lem}
use vendorfake.Registry.Usable.{is_enabled_iff, ParentBars}

abbrev decl : String → List String → CapabilityDecl
decl name needs = record { name = name; summary = ""; requires = needs; kind = behavior }

abbrev registry : Registry
registry = record {
  profile_name = "full";
  declared =
      ("__control", decl "__control" [])
      ∷ ("webhooks", decl "webhooks" [])
      ∷ ("webhooks.chaos", decl "webhooks.chaos" ("chaos" ∷ []))
      ∷ ("chaos", decl "chaos" [])
      ∷ [];
  routes_by_capability = [];
  enabled = "webhooks" ∷ "webhooks.chaos" ∷ "chaos" ∷ "__control" ∷ [];
}

abbrev without_chaos : Registry
without_chaos = record registry { enabled = "webhooks" ∷ "__control" ∷ [] }

chaos_disabled : disable "chaos" registry ≡ ok without_chaos
unfolding disable set_enabled survives requires starts_with Dict.has Dict.get
chaos_disabled = refl

chaos_usable : is_enabled registry "webhooks.chaos" ≡ true
unfolding is_enabled blocked_by blocked_parent parent first_unmet requires Dict.has Dict.get
chaos_usable = refl

disable_lem_example :
    (is_enabled without_chaos "chaos" ≡ false)
    × ((n : String)
        → text_eq n control_capability ≡ false
        → mem_text n without_chaos.enabled ≡ (
            mem_text n registry.enabled
            && not (text_eq n "chaos")
            && not (starts_with n (text_append "chaos" "."))
            && not (mem_text "chaos" (requires registry n))))
disable_lem_example = disable_lem "chaos" registry without_chaos refl chaos_disabled

webhooks_alone : set_enabled ("webhooks" ∷ []) registry ≡ ok without_chaos
unfolding set_enabled Dict.has
webhooks_alone = refl

abbrev chaos_again : Registry
chaos_again = record registry { enabled = "webhooks" ∷ "chaos" ∷ "__control" ∷ [] }

chaos_enabled : enable "chaos" without_chaos ≡ ok chaos_again
unfolding enable set_enabled Dict.has
chaos_enabled = refl

is_enabled_iff_example : (is_enabled registry "webhooks.chaos" ≡ true) ↔ (
    (mem_text "webhooks.chaos" registry.enabled ≡ true)
    × (ParentBars registry "webhooks.chaos" → ⊥)
    × (all (λ n. mem_text n registry.enabled) (requires registry "webhooks.chaos") ≡ true))
is_enabled_iff_example = is_enabled_iff registry "webhooks.chaos"

abbrev parts : List Part
parts = plus "oauth" ∷ minus "chaos" ∷ plus "chaos" ∷ []

abbrev chain : Registry
chain = record {
  profile_name = "chain";
  declared =
      ("__control", decl "__control" [])
      ∷ ("a", decl "a" [])
      ∷ ("b", decl "b" ("a" ∷ []))
      ∷ ("c", decl "c" ("b" ∷ []))
      ∷ ("d", decl "d" ("c" ∷ []))
      ∷ [];
  routes_by_capability = [];
  enabled = "a" ∷ "b" ∷ "c" ∷ "d" ∷ "__control" ∷ [];
}

abbrev chain_cut : Registry
chain_cut = record chain { enabled = "c" ∷ "d" ∷ "__control" ∷ [] }

-- A chain of requirements: switching the first off takes the second out, which bars the third, but
-- the fourth, which requires the third, stays usable.
chain_end_usable :
    (disable "a" chain ≡ ok chain_cut)
    × (is_enabled chain_cut "c" ≡ false)
    × (is_enabled chain_cut "d" ≡ true)
unfolding disable set_enabled survives requires starts_with is_enabled blocked_by blocked_parent
    parent first_unmet Dict.has Dict.get
chain_end_usable = (refl, refl, refl)
