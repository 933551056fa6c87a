-- ===== src/Router/Shape.antt =====
-- What the templates of core/kernel/router.py read from the segments of a path.
use vendorfake.Prelude.{
  suc, length, ◌==◌, String, ◌≡◌, refl, ap, ◌⊎◌, inl, inr, true, false, Option, none, some, List,
  [], ◌∷◌, arith, Bool-cases,
}
use vendorfake.Text.{text_eq, text_eq_iff}
use vendorfake.Dict
use vendorfake.Dict.{Dict}
use vendorfake.Errors.{ok, >>=-eq-ok}
use vendorfake.Router.Defs.{Compiled, fit, is_param, inner, percent_decode, read_segments}

module _ (unquote : String → Option String) (path : String) where
  -- What it is for a template to read the parameters `after` from some segments, from those read
  -- before: as many segments, the same texts but for the parameters, and each parameter under its
  -- name with what its segment decodes to.
  abbrev pub Reads : List String → List String → Dict String → Dict String → Type 0
  Reads [] [] before after = before ≡ after
  Reads [] (got ∷ rest) before after = ⊥
  Reads (template ∷ templates) [] before after = ⊥
  Reads (template ∷ templates) (got ∷ rest) before after =
      ((is_param template ≡ false) × (template ≡ got) × Reads templates rest before after)
      ⊎ ((is_param template ≡ true)
          × (value : String) × (percent_decode unquote path got ≡ ok value)
          × Reads templates rest (Dict.put before (inner template) value) after)

  read_segments-Reads :
      (templates got : List String) (before after : Dict String)
      → read_segments unquote path templates got before ≡ ok (some after)
      → Reads templates got before after
  unfolding read_segments
  read_segments-Reads [] [] before after h = cc
  read_segments-Reads [] (g ∷ got) before after h = cc
  read_segments-Reads (t ∷ ts) [] before after h = cc
  read_segments-Reads (t ∷ ts) (g ∷ got) before after h = elim (Bool-cases (is_param t)) [
    | inl param ↦
        let (value, decoded, onward) =
          >>=-eq-ok (percent_decode unquote path g) _ (rw (param, read_segments) at h) in
        inr (
          param,
          value,
          decoded,
          read_segments-Reads ts got (Dict.put before (inner t) value) after onward,
        )
    | inr literal ↦ elim (Bool-cases (text_eq t g)) [
      | inl same ↦ inl (
        literal,
        (text_eq_iff t g).0 same,
        read_segments-Reads ts got before after (rw (literal, same, read_segments) at h),
      )
      | inr other ↦ let stopped = (rw (literal, other, read_segments) at h) in cc
    ]
  ]

  -- A template that reads no parameters and raises nothing has another shape.
  read_segments-none :
      (templates got : List String) (before after : Dict String)
      → read_segments unquote path templates got before ≡ ok none
      → Reads templates got before after
      → ⊥
  unfolding read_segments
  read_segments-none [] [] before after h reads = cc
  read_segments-none [] (g ∷ got) before after h reads = reads
  read_segments-none (t ∷ ts) [] before after h reads = reads
  read_segments-none (t ∷ ts) (g ∷ got) before after h (inl (literal, same, reads)) =
      let equal = (text_eq_iff t g).1 same in
      read_segments-none ts got before after (rw (literal, equal, read_segments) at h) reads
  read_segments-none (t ∷ ts) (g ∷ got) before after h (inr (param, value, decoded, reads)) =
      read_segments-none ts got (Dict.put before (inner t) value) after
        (rw (param, decoded, read_segments) at h) reads

  length-Reads :
      (templates got : List String) (before after : Dict String)
      → Reads templates got before after
      → length templates ≡ length got
  length-Reads [] [] before after reads = refl
  length-Reads [] (g ∷ got) before after reads = absurd reads
  length-Reads (t ∷ ts) [] before after reads = absurd reads
  length-Reads (t ∷ ts) (g ∷ got) before after (inl (literal, same, reads)) =
      ap suc (length-Reads ts got before after reads)
  length-Reads (t ∷ ts) (g ∷ got) before after (inr (param, value, decoded, reads)) =
      ap suc (length-Reads ts got (Dict.put before (inner t) value) after reads)

  -- What a route fits, its template reads.
  pub fit-Reads :
      (wanted : List String) (c : Compiled) (params : Dict String)
      → fit unquote path wanted c ≡ ok (some params)
      → Reads c.segments wanted [] params
  unfolding fit
  fit-Reads wanted c params h = elim (Bool-cases (length c.segments == length wanted)) [
    | inl same ↦ read_segments-Reads c.segments wanted [] params (rw (same, fit) at h)
    | inr other ↦ let stopped = (rw (other, fit) at h) in cc
  ]

  pub fit-none :
      (wanted : List String) (c : Compiled) (params : Dict String)
      → fit unquote path wanted c ≡ ok none
      → Reads c.segments wanted [] params
      → ⊥
  unfolding fit
  fit-none wanted c params h reads =
      let same : (length c.segments == length wanted) ≡ true =
        ground (arith, length-Reads c.segments wanted [] params reads) in
      read_segments-none c.segments wanted [] params (rw (same, fit) at h) reads
