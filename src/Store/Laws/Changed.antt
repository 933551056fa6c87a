-- ===== src/Store/Laws/Changed.antt =====
-- Which keys `diff_keys` reports.
use vendorfake.Prelude.{
  String, ◌≡◌, ◌≢◌, refl, sym, ◌∙◌, true, false, not, ◌&&◌, ◌||◌, Option, none, some, keep, arith,
  ◌↔◌, Bool-cases, inl, inr,
}
use vendorfake.Json.{Value}
use vendorfake.Json.Canonical.{canonical_json, value_eq, value_eq_iff}
use vendorfake.Text.{
  text_eq, text_eq_iff, mem_text, mem_text_iff, Member, SortedText, sorted-SortedText, sorted,
  mem-append, mem-keep, mem-sorted,
}
use vendorfake.Dict
use vendorfake.Dict.Laws.{has-keys, has-eq-get}
use vendorfake.Store.State.{Entity}
use vendorfake.Store.Diff.{diff_excluded, differs, is_changed, all_keys, diff_keys}

mem-all_keys :
    (before after : Entity) (k : String)
    → mem_text k (all_keys before after) ≡ (Dict.has before k || Dict.has after k)
unfolding all_keys
mem-all_keys before after k = ground (
  arith,
  mem-append k (Dict.keys before) (keep (λ j. not (Dict.has before j)) (Dict.keys after)),
  mem-keep (λ j. not (Dict.has before j)) k (Dict.keys after),
  has-keys before k,
  has-keys after k,
)

-- A key that differs is a key of one of the two.
changed-all_keys :
    (before after : Entity) (k : String)
    → (mem_text k (all_keys before after) && is_changed before after k) ≡ is_changed before after k
unfolding is_changed differs
changed-all_keys before after k =
    ground (arith, mem-all_keys before after k, has-eq-get before k, has-eq-get after k)

-- The two values are the same JSON document, or there is none of either.
abbrev pub SameValue : Option Value → Option Value → Type 0
SameValue none none = Unit {0}
SameValue none (some v) = ⊥
SameValue (some v) none = ⊥
SameValue (some v) (some w) = canonical_json v ≡ canonical_json w

differs_iff : (l r : Option Value) → (differs l r ≡ true) ↔ (SameValue l r → ⊥)
unfolding differs
differs_iff none none = (λ e. cc, λ h. absurd (h tt))
differs_iff none (some v) = (λ e same. same, λ h. refl)
differs_iff (some v) none = (λ e same. same, λ h. refl)
differs_iff (some v) (some w) =
    let same = value_eq_iff (canonical_json v) (canonical_json w) in
    (
      λ e equal. ground (arith, same.1 equal),
      λ h. elim (Bool-cases (value_eq (canonical_json v) (canonical_json w))) [
        | inl equal ↦ absurd (h (same.0 equal))
        | inr other ↦ rw other refl
      ],
    )

-- Both entities have the key with other values, or only one has it, and it is not one of the two
-- that the store itself changes.
abbrev pub Changes : Entity → Entity → String → Type 0
Changes before after k =
    (k ≢ "version") × (k ≢ "updated_at") × (SameValue (Dict.get before k) (Dict.get after k) → ⊥)

excluded_iff :
    (k : String) → (mem_text k diff_excluded ≡ false) ↔ ((k ≢ "version") × (k ≢ "updated_at"))
excluded_iff k = (
  λ e. (
    λ same. ground (arith, e, text_eq_iff "version" k, sym same),
    λ same. ground (arith, e, text_eq_iff "updated_at" k, sym same),
  ),
  λ (a, b). elim (Bool-cases (mem_text k diff_excluded)) [
    | inr out ↦ out
    | inl within ↦ elim (Bool-cases (text_eq "version" k)) [
      | inl same ↦ absurd (a (sym ((text_eq_iff "version" k).0 same)))
      | inr other ↦ elim (Bool-cases (text_eq "updated_at" k)) [
        | inl same ↦ absurd (b (sym ((text_eq_iff "updated_at" k).0 same)))
        | inr another ↦ ground (arith, within, other, another)
      ]
    ]
  ],
)

is_changed_iff :
    (before after : Entity) (k : String)
    → (is_changed before after k ≡ true) ↔ Changes before after k
unfolding is_changed
is_changed_iff before after k =
    let other = differs_iff (Dict.get before k) (Dict.get after k) in
    (
      λ h.
          let out : mem_text k diff_excluded ≡ false = ground arith in
          let differ : differs (Dict.get before k) (Dict.get after k) ≡ true = ground arith in
          let (a, b) = (excluded_iff k).0 out in (a, b, other.0 differ),
      λ (a, b, c). rw ((excluded_iff k).1 (a, b), other.1 c) refl,
    )

-- `diff_keys` reports exactly the keys, other than `version` and `updated_at`, that only one of the
-- entities has or whose values differ as JSON documents, and reports them in the order of their
-- code points.
pub diff_keys_lem :
    (before after : Entity)
    → SortedText (diff_keys before after)
      × ((k : String) → Member k (diff_keys before after) ↔ Changes before after k)
unfolding diff_keys
diff_keys_lem before after = (
  sorted-SortedText (keep (is_changed before after) (all_keys before after)),
  λ k.
      let member =
        mem_text_iff k (sorted (keep (is_changed before after) (all_keys before after))) in
      let found =
        mem-sorted k (keep (is_changed before after) (all_keys before after))
        ∙ mem-keep (is_changed before after) k (all_keys before after)
        ∙ changed-all_keys before after k in
      (
        λ m. (is_changed_iff before after k).0 (rw (← found) (member.1 m)),
        λ h. member.0 (found ∙ (is_changed_iff before after k).1 h),
      ),
)
