-- ===== src/Store/Diff.antt =====
-- `diff_keys` of core/state/store.py.
use vendorfake.Prelude.{
  String, Bool, true, false, not, ◌&&◌, Option, none, some, List, [], ◌∷◌, ◌++◌, keep,
}
use vendorfake.Text.{mem_text, sorted}
use vendorfake.Dict
use vendorfake.Json.{Value}
use vendorfake.Json.Canonical.{canonical_json, value_eq}
use vendorfake.Store.State.{Entity}

-- `_DIFF_EXCLUDED`
abbrev pub diff_excluded : List String
diff_excluded = "version" ∷ "updated_at" ∷ []

-- `set(before) | set(after)`; the order does not matter, since the result is sorted.
unfoldable pub all_keys : Entity → Entity → List String
all_keys before after = Dict.keys before ++ keep (λ k. not (Dict.has before k)) (Dict.keys after)

-- Whether `left` and `right` differ; `none` is `MISSING`.
unfoldable pub differs : Option Value → Option Value → Bool
differs none none = false
differs none (some v) = true
differs (some v) none = true
differs (some v) (some w) = not (value_eq (canonical_json v) (canonical_json w))

-- The body of the loop: whether `key` is appended to `changed`.
unfoldable pub is_changed : Entity → Entity → String → Bool
unfolding differs
is_changed before after key =
    not (mem_text key diff_excluded) && differs (Dict.get before key) (Dict.get after key)

unfoldable pub diff_keys : Entity → Entity → List String
unfolding all_keys is_changed
diff_keys before after = sorted (keep (is_changed before after) (all_keys before after))
