-- ===== src/Overlay/Defs.antt =====
-- `merge_seed` and `apply_seed_overlay` of core/config/overlay.py.
use vendorfake.Prelude.{String, Bool, true, false, not, Option, none, some, List, [], ◌∷◌, keep}
use Prim.Native.String.{◌++◌ as text_append}
use vendorfake.Text.{sorted}
use vendorfake.Dict
use vendorfake.Dict.{Dict}
use vendorfake.Json.{
  Value, null, bool, int, str, arr, obj, Fields, end, field, to_dict, of_dict, strs, document,
}
use vendorfake.Json.Canonical.{canonical_json}
use vendorfake.Errors.{Result, ok, err, Error, unit_error, invalid_value, ◌>>◌, raise_if}
use vendorfake.Registry.Defs.{starts_with}

-- `merge_seed`, of an overlay that is the fields of an object: the overlay is read in order, a
-- `null` deletes, two objects merge, any other value replaces.
unfoldable pub merge_seed : Dict Value → Fields → Dict Value
merge_seed merged end = merged
merge_seed merged (field key null rest) = merge_seed (Dict.pop merged key) rest
merge_seed merged (field key (obj fs) rest) = elim (Dict.get merged key) [
  | some (obj previous) ↦
      merge_seed (Dict.put merged key (obj (of_dict (merge_seed (to_dict previous) fs)))) rest
  | _ ↦ merge_seed (Dict.put merged key (obj fs)) rest
]
merge_seed merged (field key (bool b) rest) = merge_seed (Dict.put merged key (bool b)) rest
merge_seed merged (field key (int n) rest) = merge_seed (Dict.put merged key (int n)) rest
merge_seed merged (field key (str t) rest) = merge_seed (Dict.put merged key (str t)) rest
merge_seed merged (field key (arr vs) rest) = merge_seed (Dict.put merged key (arr vs)) rest

-- `overlay_collections`
unfoldable pub overlay_collections : Dict Value → List String
overlay_collections base = sorted (keep (λ key. not (starts_with key "_")) (Dict.keys base))

-- `unknown_collections`
unfoldable pub unknown_collections : Dict Value → Fields → List String
unknown_collections base overlay =
    sorted (keep (λ key. not (Dict.has base key)) (Dict.keys (to_dict overlay)))

-- `seed_overlay_digest`; the hash of a canonical document is a parameter.
unfoldable pub seed_overlay_digest : (Value → String) → Fields → String
seed_overlay_digest sha256_hex overlay =
    text_append "sha256:" (sha256_hex (canonical_json (obj overlay)))

abbrev pub bad_overlay : List String → List String → Error
bad_overlay unknown available =
    unit_error invalid_value (some "seed_overlay")
      (document (("unknown", strs unknown) ∷ ("available", strs available) ∷ []))

abbrev pub any_name : List String → Bool
any_name [] = false
any_name (n ∷ ns) = true

-- The check of the names and the merge.
unfoldable pub lay_over : Dict Value → Fields → Result (Option (Dict Value))
lay_over base overlay =
    raise_if (any_name (unknown_collections base overlay))
      (bad_overlay (unknown_collections base overlay) (overlay_collections base))
    >> ok (some (merge_seed base overlay))

-- `apply_seed_overlay`
unfoldable pub apply_seed_overlay : Option Value → Fields → Result (Option (Dict Value))
unfolding lay_over
apply_seed_overlay none end = ok none
apply_seed_overlay none (field key v rest) = lay_over [] (field key v rest)
apply_seed_overlay (some (obj base)) overlay = lay_over (to_dict base) overlay
apply_seed_overlay (some other) overlay =
    err (bad_overlay (sorted (Dict.keys (to_dict overlay))) [])
