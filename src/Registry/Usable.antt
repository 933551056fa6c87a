-- ===== src/Registry/Usable.antt =====
-- Which capabilities are usable, `blocked_by` of core/capability/registry.py.
use vendorfake.Prelude.{
  ◌==◌, Bool, ap, subst, String, ◌≡◌, refl, ◌∙◌, true, false, not, ◌&&◌, Option, none, some, List,
  [], ◌∷◌, all, arith, Bool-cases, Option-cases, inl, inr, ◌↔◌,
}
use Prim.Native.Char.{Char, code}
use Prim.Native.String.{◌∷◌ as push_front}
use vendorfake.Text.{mem_text}
use vendorfake.Dict
use vendorfake.Errors.{ok}
use vendorfake.Registry.Defs.{
  Registry, requires, first_unmet, blocked_parent, blocked_by, is_enabled, assert_enabled, parent,
}

first_unmet-none_iff :
    (enabled names : List String)
    → (first_unmet enabled names ≡ none) ↔ (all (λ n. mem_text n enabled) names ≡ true)
unfolding first_unmet
first_unmet-none_iff enabled [] = (λ h. refl, λ h. refl)
first_unmet-none_iff enabled (n ∷ ns) = (
  λ h. ground (arith, (first_unmet-none_iff enabled ns).0),
  λ h. ground (arith, (first_unmet-none_iff enabled ns).1),
)

-- No character is a dot.
abbrev pub no_dot : String → Bool
no_dot String.[] = true
no_dot (String.◌∷◌ c s) = not (code c == b'.') && no_dot s

-- The first text and then the second.
abbrev pub followed_by : String → String → String
followed_by String.[] rest = rest
followed_by (String.◌∷◌ c s) rest = push_front c (followed_by s rest)

-- What stands before the last dot of a name, if a dot is in it.
abbrev pub IsParent : String → String → Type 0
IsParent p name =
    (dot : Char) × (part : String) × ((code dot == b'.') ≡ true)
    × (no_dot part ≡ true)
    × (name ≡ followed_by p (push_front dot part))

parent-none : (name : String) → parent name ≡ none → no_dot name ≡ true
unfolding parent
parent-none String.[] h = refl
parent-none (String.◌∷◌ c s) h = elim (Option-cases (parent s)) [
  | inl top ↦ ground (arith, top, parent-none s)
  | inr (q, below) ↦ let deeper = (rw (below, parent) at h) in cc
]

parent-some : (name p : String) → parent name ≡ some p → IsParent p name
unfolding parent
parent-some String.[] p h = cc
parent-some (String.◌∷◌ c s) p h = elim (Option-cases (parent s)) [
  | inl top ↦ elim (Bool-cases (code c == b'.')) [
    | inl dot ↦
        let whole = (rw (top, dot, parent) at h) in
        let empty : "" ≡ p = cc in
        subst (λ q. IsParent q (push_front c s)) empty (c, s, dot, parent-none s top, refl)
    | inr other ↦ let nothing = (rw (top, other, parent) at h) in cc
  ]
  | inr (q, below) ↦
      let deeper = (rw (below, parent) at h) in
      let same : push_front c q ≡ p = cc in
      let (dot, part, is_dot, plain, name) = parent-some s q below in
      subst (λ p. IsParent p (push_front c s)) same
        (dot, part, is_dot, plain, ap (push_front c) name)
]

parent-no_dot : (part : String) → no_dot part ≡ true → parent part ≡ none
unfolding parent
parent-no_dot String.[] h = refl
parent-no_dot (String.◌∷◌ c s) h = ground (arith, parent-no_dot s)

parent-followed_by :
    (p : String) (dot : Char) (part : String)
    → (code dot == b'.') ≡ true
    → no_dot part ≡ true
    → parent (followed_by p (push_front dot part)) ≡ some p
unfolding parent
parent-followed_by String.[] dot part is_dot plain = rw (parent-no_dot part plain, is_dot) refl
parent-followed_by (String.◌∷◌ c s) dot part is_dot plain =
    rw (parent-followed_by s dot part is_dot plain) refl

parent_iff : (name p : String) → (parent name ≡ some p) ↔ IsParent p name
parent_iff name p = (
  parent-some name p,
  λ (dot, part, is_dot, plain, same). ap parent same ∙ parent-followed_by p dot part is_dot plain,
)

-- The dotted parent of a name bars it: it is declared and switched off.
abbrev pub ParentBars : Registry → String → Type 0
ParentBars r name =
    (p : String) × IsParent p name × (Dict.has r.declared p ≡ true) × (mem_text p r.enabled ≡ false)

-- A capability is usable exactly if its own name is enabled, its dotted parent (what stands before
-- the last dot), if that is declared, is enabled, and everything that it requires is enabled.
pub is_enabled_iff :
    (r : Registry) (name : String)
    → (is_enabled r name ≡ true) ↔ (
        (mem_text name r.enabled ≡ true)
        × (ParentBars r name → ⊥)
        × (all (λ n. mem_text n r.enabled) (requires r name) ≡ true))
unfolding is_enabled blocked_by blocked_parent
is_enabled_iff r name = elim (Option-cases (parent name)) [
  | inl top ↦ (
    λ h. (
      ground (arith, top),
      (λ (p, is_parent, declared, off).
          let has_parent = (parent_iff name p).1 is_parent in ground (arith, top, has_parent)),
      ground (arith, top, (first_unmet-none_iff r.enabled (requires r name)).0),
    ),
    λ (own, free, met).
        ground (arith, top, own, (first_unmet-none_iff r.enabled (requires r name)).1 met),
  )
  | inr (p, below) ↦ elim (Bool-cases (Dict.has r.declared p && not (mem_text p r.enabled))) [
    | inl bars ↦ (
      λ h. ground (arith, below, bars),
      λ (own, free, met).
          absurd
            (free (p, (parent_iff name p).0 below, ground (arith, bars), ground (arith, bars))),
    )
    | inr free ↦ (
      λ h. (
        ground (arith, below, free),
        (λ (q, is_parent, declared, off).
            let has_parent = (parent_iff name q).1 is_parent in
            let same : p ≡ q = ground (arith, below, has_parent) in
            ground (arith, free, same, declared, off)),
        ground (arith, below, free, (first_unmet-none_iff r.enabled (requires r name)).0),
      ),
      λ (own, bar, met).
          ground
            (arith, below, free, own, (first_unmet-none_iff r.enabled (requires r name)).1 met),
    )
  ]
]

-- The guard of a route raises exactly if the capability is not usable.
pub assert_enabled-eq-ok_iff :
    (r : Registry) (name : String) (route_key : Option String)
    → (assert_enabled r name route_key ≡ ok tt) ↔ (is_enabled r name ≡ true)
unfolding assert_enabled is_enabled
assert_enabled-eq-ok_iff r name route_key = elim (Option-cases (blocked_by r name)) [
  | inl free ↦ (λ h. ground (arith, free), λ h. ground (arith, free))
  | inr (b, blocked) ↦ (λ h. ground (arith, blocked), λ h. ground (arith, blocked))
]
