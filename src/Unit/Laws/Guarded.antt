-- ===== src/Unit/Laws/Guarded.antt =====
-- Whom `control_access_error` of core/control/access.py refuses.
use vendorfake.Prelude.{
  String, ◌≡◌, ◌≢◌, ◌↔◌, refl, sym, ap, ◌∙◌, ◌⊎◌, inl, inr, true, false, ◌||◌, Option, none, some,
  List, [], ◌∷◌, arith, Bool-cases,
}
use vendorfake.Text.{text_eq, text_eq_iff, text_eq_refl}
use vendorfake.Dict
use vendorfake.Dict.{Dict}
use vendorfake.Json.{null}
use vendorfake.Errors.{Error, unit_error, unauthorized}
use vendorfake.Router.Defs.{split_path, split_slash, upper}
use vendorfake.Unit.Access.{
  control_token_header, first_is, names_control_plane, same_texts, is_health, header_or_empty,
  control_access_error,
}

-- The path's first segment is that of the control plane.
abbrev pub InControlPlane : String → Type 0
InControlPlane path = (rest : List String) × (split_path path ≡ "__unit" ∷ rest)

-- A request that reads the health route.
abbrev pub IsHealthCheck : String → String → Type 0
IsHealthCheck method path =
    ((upper method ≡ "GET") ⊎ (upper method ≡ "HEAD"))
    × (split_path path ≡ "__unit" ∷ "health" ∷ [])

-- A token is set, and the request is one of the control plane, no health check, and without it.
abbrev pub LacksToken : String → String → Dict String → Option String → Type 0
LacksToken method path headers token =
    (t : String) × (token ≡ some t)
    × (t ≢ "")
    × InControlPlane path
    × (IsHealthCheck method path → ⊥)
    × (Dict.get headers control_token_header ≢ some t)

abbrev pub refusal : Error
refusal = unit_error unauthorized (some control_token_header) null

first_is_iff :
    (name : String) (ss : List String)
    → (first_is name ss ≡ true) ↔ ((rest : List String) × (ss ≡ name ∷ rest))
first_is_iff name [] = (λ h. cc, λ (rest, e). cc)
first_is_iff name (s ∷ ss) = (
  λ h. (ss, ap (λ t. t ∷ ss) ((text_eq_iff s name).0 h)),
  λ (rest, e). ap (first_is name) e ∙ text_eq_refl name,
)

same_texts-eq : (ss ts : List String) → same_texts ss ts ≡ true → ss ≡ ts
unfolding same_texts
same_texts-eq [] [] h = refl
same_texts-eq [] (t ∷ ts) h = cc
same_texts-eq (s ∷ ss) [] h = cc
same_texts-eq (s ∷ ss) (t ∷ ts) h =
    let same : text_eq s t ≡ true = ground (arith, h) in
    let more : same_texts ss ts ≡ true = ground (arith, h) in
    let one = (text_eq_iff s t).0 same in let rest = same_texts-eq ss ts more in cc

same_texts_refl : (ss : List String) → same_texts ss ss ≡ true
unfolding same_texts
same_texts_refl [] = refl
same_texts_refl (s ∷ ss) = rw (text_eq_refl s, same_texts_refl ss) refl

is_health_iff : (method path : String) → (is_health method path ≡ true) ↔ IsHealthCheck method path
unfolding is_health split_path split_slash
is_health_iff method path = (
  λ h.
      let read : (text_eq (upper method) "GET" || text_eq (upper method) "HEAD") ≡ true =
        ground (arith, h) in
      let health : same_texts (split_path path) ("__unit" ∷ "health" ∷ []) ≡ true =
        ground (arith, h) in
      (
        elim (Bool-cases (text_eq (upper method) "GET")) [
          | inl get ↦ inl ((text_eq_iff (upper method) "GET").0 get)
          | inr other ↦ inr ((text_eq_iff (upper method) "HEAD").0 (ground (arith, read, other)))
        ],
        same_texts-eq (split_path path) ("__unit" ∷ "health" ∷ []) health,
      ),
  λ (read, health).
      let reads : (text_eq (upper method) "GET" || text_eq (upper method) "HEAD") ≡ true =
        elim read [
          | inl get ↦ ground (arith, (text_eq_iff (upper method) "GET").1 get)
          | inr head ↦ ground (arith, (text_eq_iff (upper method) "HEAD").1 head)
        ] in
      let same : same_texts (split_path path) ("__unit" ∷ "health" ∷ []) ≡ true =
        ap (λ ss. same_texts ss ("__unit" ∷ "health" ∷ [])) health
        ∙ same_texts_refl ("__unit" ∷ "health" ∷ []) in
      ground (arith, reads, same),
)

names_control_plane_iff : (path : String) → (names_control_plane path ≡ true) ↔ InControlPlane path
unfolding names_control_plane
names_control_plane_iff path = first_is_iff "__unit" (split_path path)

presented-eq :
    (t : String) (header : Option String) → t ≢ "" → header_or_empty header ≡ t → header ≡ some t
presented-eq t none given h = absurd (given (sym h))
presented-eq t (some shown) given h = ap some h

-- Either the request is refused and lacks the token, or it is let through and does not.
guarded-cases :
    (method path : String) (headers : Dict String) (token : Option String)
    → ((control_access_error method path headers token ≡ some refusal)
        × LacksToken method path headers token)
      ⊎ ((control_access_error method path headers token ≡ none)
          × (LacksToken method path headers token → ⊥))
unfolding control_access_error
guarded-cases method path headers none =
    inr (refl, λ (t, set, nonempty, named, unhealthy, absent). cc)
guarded-cases method path headers (some token) =
    let header = Dict.get headers control_token_header in
    elim (Bool-cases (text_eq token "")) [
      | inl empty ↦ inr (
        rw empty refl,
        λ (t, set, nonempty, named, unhealthy, absent).
            let same : token ≡ t = cc in nonempty (sym same ∙ (text_eq_iff token "").0 empty),
      )
      | inr given ↦ elim (Bool-cases (names_control_plane path)) [
        | inr other ↦ inr (
          rw (given, other) refl,
          λ (t, set, nonempty, named, unhealthy, absent).
              let both : true ≡ false = sym ((names_control_plane_iff path).1 named) ∙ other in cc,
        )
        | inl control ↦ elim (Bool-cases (is_health method path)) [
          | inl health ↦ inr (
            rw (given, control, health) refl,
            λ (t, set, nonempty, named, unhealthy, absent).
                unhealthy ((is_health_iff method path).0 health),
          )
          | inr plain ↦ elim (Bool-cases (text_eq (header_or_empty header) token)) [
            | inl shown ↦ inr (
              rw (given, control, plain, shown) refl,
              λ (t, set, nonempty, named, unhealthy, absent).
                  let same : token ≡ t = cc in
                  absent (
                    presented-eq t header nonempty
                      ((text_eq_iff (header_or_empty header) token).0 shown ∙ same)),
            )
            | inr wrong ↦ inl (
              rw (given, control, plain, wrong) refl,
              (
                token,
                refl,
                λ empty.
                    let both : true ≡ false = sym ((text_eq_iff token "").1 empty) ∙ given in cc,
                (names_control_plane_iff path).0 control,
                λ health.
                    let both : true ≡ false = sym ((is_health_iff method path).1 health) ∙ plain in
                    cc,
                λ there.
                    let both : true ≡ false =
                      sym
                        ((text_eq_iff (header_or_empty header) token).1 (ap header_or_empty there))
                      ∙ wrong in
                    cc,
              ),
            )
          ]
        ]
      ]
    ]

-- Where a control token is set, `control_access_error` refuses, as unauthorized, exactly the requests
-- whose path has the first segment `__unit`, that do not carry the token in its header, and that are
-- no GET or HEAD of /__unit/health; it lets all others through, and everything if no token is set or
-- the empty one. Segments are those of `split_path`, so that doubled slashes do not matter.
pub control_access_error_lem :
    (method path : String) (headers : Dict String) (token : Option String)
    → ((control_access_error method path headers token ≡ some refusal)
        ↔ LacksToken method path headers token)
      × ((LacksToken method path headers token → ⊥)
          → control_access_error method path headers token ≡ none)
control_access_error_lem method path headers token =
    elim (guarded-cases method path headers token) [
      | inl (refused, lacks) ↦ ((λ h. lacks, λ h. refused), λ carries. absurd (carries lacks))
      | inr (passed, carries) ↦
          ((λ h. let both = sym passed ∙ h in cc, λ lacks. absurd (carries lacks)), λ h. passed)
    ]
