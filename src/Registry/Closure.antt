-- ===== src/Registry/Closure.antt =====
-- What switching capabilities on and off leaves usable.
use vendorfake.Prelude.{
  String, ◌≡◌, ◌∙◌, true, false, not, ◌&&◌, ◌||◌, List, [], ◌∷◌, ◌++◌, keep, all, arith,
}
use Prim.Native.String.{◌++◌ as text_append}
use vendorfake.Text.{text_eq, text_eq_refl, text_eq_comm, mem_text, mem-append, mem-keep}
use vendorfake.Dict
use vendorfake.Errors.{ok}
use vendorfake.Registry.Defs.{
  Registry, control_capability, not_control, set_enabled, enable, disable, survives, requires,
  blocked_by, is_enabled, starts_with,
}

-- `set_enabled` succeeds exactly if every name is declared; then the set is the names and the
-- control capability.
set_enabled-eq-ok :
    (wanted : List String) (r r' : Registry)
    → set_enabled wanted r ≡ ok r'
    → (all (Dict.has r.declared) wanted ≡ true)
      × (r' ≡ record r { enabled = wanted ++ control_capability ∷ [] })
unfolding set_enabled
set_enabled-eq-ok wanted r r' h = (ground arith, ground arith)

mem-set_enabled :
    (wanted : List String) (r r' : Registry) (n : String)
    → set_enabled wanted r ≡ ok r'
    → mem_text n r'.enabled ≡ (mem_text n wanted || text_eq control_capability n)
mem-set_enabled wanted r r' n h =
    ground
      (arith, (set_enabled-eq-ok wanted r r' h).1, mem-append n wanted (control_capability ∷ []))

-- Whatever set is asked for, if it is accepted then the control capability stays enabled, the
-- declarations stay, and the other names that are enabled are exactly the ones asked for.
pub set_enabled_lem :
    (wanted : List String) (r r' : Registry)
    → set_enabled wanted r ≡ ok r'
    → (mem_text control_capability r'.enabled ≡ true)
      × (r'.declared ≡ r.declared)
      × ((n : String)
          → text_eq n control_capability ≡ false
          → mem_text n r'.enabled ≡ mem_text n wanted)
set_enabled_lem wanted r r' h = (
  mem-set_enabled wanted r r' control_capability h ∙ ground arith,
  ground (arith, (set_enabled-eq-ok wanted r r' h).1),
  λ n other.
      mem-set_enabled wanted r r' n h ∙ ground (arith, other, text_eq_comm n control_capability),
)

-- Switching a capability on enables its name, and whatever was enabled stays so.
pub enable_lem :
    (name : String) (r r' : Registry)
    → text_eq name control_capability ≡ false
    → enable name r ≡ ok r'
    → (mem_text name r'.enabled ≡ true)
      × ((n : String) → mem_text n r.enabled ≡ true → mem_text n r'.enabled ≡ true)
unfolding enable
enable_lem name r r' plain h =
    let now : (n : String)
        → mem_text n r'.enabled ≡ (
            mem_text n (keep not_control (r.enabled ++ name ∷ []))
            || text_eq control_capability n) =
      λ n. mem-set_enabled _ r r' n h in
    let asked : (n : String)
        → mem_text n (keep not_control (r.enabled ++ name ∷ []))
          ≡ ((mem_text n r.enabled || mem_text n (name ∷ [])) && not_control n) =
      λ n. ground (
        arith,
        mem-keep not_control n (r.enabled ++ name ∷ []),
        mem-append n r.enabled (name ∷ []),
      ) in
    (
      ground (arith, now name, asked name, text_eq_refl name, plain),
      λ n on. ground (arith, now n, asked n, on, text_eq_comm n control_capability),
    )

-- Switching a capability off leaves it unusable. Of the other names but the control capability's,
-- exactly those stay enabled that were, that are not its dotted descendants and that do not
-- require it.
pub disable_lem :
    (name : String) (r r' : Registry)
    → text_eq name control_capability ≡ false
    → disable name r ≡ ok r'
    → (is_enabled r' name ≡ false)
      × ((n : String)
          → text_eq n control_capability ≡ false
          → mem_text n r'.enabled ≡ (
              mem_text n r.enabled
              && not (text_eq n name)
              && not (starts_with n (text_append name "."))
              && not (mem_text name (requires r n))))
unfolding disable is_enabled blocked_by survives
disable_lem name r r' plain h =
    let wanted = keep (survives r name) r.enabled in
    let left : (n : String)
        → mem_text n r'.enabled ≡ (mem_text n wanted || text_eq control_capability n) =
      λ n. mem-set_enabled wanted r r' n h in
    let kept : (n : String) → mem_text n wanted ≡ (mem_text n r.enabled && survives r name n) =
      λ n. mem-keep (survives r name) n r.enabled in
    let gone : mem_text name r'.enabled ≡ false = ground (
      arith,
      left name,
      kept name,
      plain,
      text_eq_comm name control_capability,
      text_eq_refl name,
    ) in
    (
      ground (arith, gone),
      λ n other. ground (arith, left n, kept n, other, text_eq_comm n control_capability),
    )
