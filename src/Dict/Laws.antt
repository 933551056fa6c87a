-- ===== src/Dict/Laws.antt =====
-- What the operations of a dictionary promise one another.
use vendorfake.Prelude.{
  suc, subst, ◌⊎◌, String, ◌≡◌, refl, true, false, none, some, [], ◌∷◌, ◌++◌, arith, if◌then◌else◌,
  Bool-cases, inl, inr,
}
use vendorfake.Text.{text_eq, text_eq_iff, mem_text}
use vendorfake.Dict.Defs.{Dict, get, has, put, pop, keys, size}

-- No key stands twice, as Python guarantees.
abbrev pub NodupKeys {ℓ} : {V : Type ℓ} → Dict V → Type 0
NodupKeys [] = Unit
NodupKeys ((j, v) ∷ d) = (has d j ≡ false) × NodupKeys d

module _ {ℓ} {V : Type ℓ} where
  pub get-put :
      (d : Dict V) (k j : String) (v : V)
      → get (put d k v) j ≡ (if text_eq k j then some v else get d j)
  unfolding get put
  get-put [] k j v = refl
  get-put ((i, w) ∷ d) k j v =
      ground (arith, text_eq_iff k j, text_eq_iff i k, text_eq_iff i j, get-put d k j v)

  pub has-put :
      (d : Dict V) (k j : String) (v : V)
      → has (put d k v) j ≡ (if text_eq k j then true else has d j)
  unfolding has put
  has-put [] k j v = refl
  has-put ((i, w) ∷ d) k j v =
      ground (arith, text_eq_iff k j, text_eq_iff i k, text_eq_iff i j, has-put d k j v)

  pub has-eq-get :
      (d : Dict V) (k : String) → has d k ≡ elim (get d k) [ none ↦ false | some _ ↦ true ]
  unfolding has get
  has-eq-get [] k = refl
  has-eq-get ((i, w) ∷ d) k = ground (arith, has-eq-get d k)

  pub get_of_not_has : (d : Dict V) (k : String) → has d k ≡ false → get d k ≡ none
  unfolding has get
  get_of_not_has [] k h = refl
  get_of_not_has ((i, w) ∷ d) k h = ground (arith, get_of_not_has d k)

  pub not_has_of_get : (d : Dict V) (k : String) → get d k ≡ none → has d k ≡ false
  not_has_of_get d k h = ground (arith, has-eq-get d k)

  pub has_of_get : (d : Dict V) (k : String) (v : V) → get d k ≡ some v → has d k ≡ true
  has_of_get d k v h = ground (arith, has-eq-get d k)

  pub get-pop :
      (d : Dict V) (k j : String) → get (pop d k) j ≡ (if text_eq k j then none else get d j)
  unfolding get pop
  get-pop [] k j = ground arith
  get-pop ((i, w) ∷ d) k j =
      ground (arith, text_eq_iff k j, text_eq_iff i k, text_eq_iff i j, get-pop d k j)

  pub has-pop :
      (d : Dict V) (k j : String) → has (pop d k) j ≡ (if text_eq k j then false else has d j)
  unfolding has pop
  has-pop [] k j = ground arith
  has-pop ((i, w) ∷ d) k j =
      ground (arith, text_eq_iff k j, text_eq_iff i k, text_eq_iff i j, has-pop d k j)

  pub put-NodupKeys : (d : Dict V) (k : String) (v : V) → NodupKeys d → NodupKeys (put d k v)
  unfolding put has
  put-NodupKeys [] k v u = (refl, tt)
  put-NodupKeys ((i, w) ∷ d) k v u = elim (Bool-cases (text_eq i k)) [
    | inl same ↦ rw (same, put) u
    | inr other ↦
        rw (other, put)
          (rw has-put (ground (arith, text_eq_iff i k, text_eq_iff k i)), put-NodupKeys d k v u.1)
  ]

  pub pop-NodupKeys : (d : Dict V) (k : String) → NodupKeys d → NodupKeys (pop d k)
  unfolding pop has
  pop-NodupKeys [] k u = tt
  pop-NodupKeys ((i, w) ∷ d) k u = elim (Bool-cases (text_eq i k)) [
    | inl same ↦ rw (same, pop) (pop-NodupKeys d k u.1)
    | inr other ↦ rw (other, pop) (ground (arith, has-pop d k i, u.0), pop-NodupKeys d k u.1)
  ]

  pub get-append :
      (d e : Dict V) (k : String) → get (d ++ e) k ≡ (if has d k then get d k else get e k)
  unfolding get has
  get-append [] e k = refl
  get-append ((i, w) ∷ d) e k = ground (arith, get-append d e k)

  pub has-append :
      (d e : Dict V) (k : String) → has (d ++ e) k ≡ (if has d k then true else has e k)
  unfolding has
  has-append [] e k = refl
  has-append ((i, w) ∷ d) e k = ground (arith, has-append d e k)

  -- A new key goes to the end.
  pub put_new : (d : Dict V) (k : String) (v : V) → has d k ≡ false → put d k v ≡ d ++ (k, v) ∷ []
  unfolding put has
  put_new [] k v h = refl
  put_new ((i, w) ∷ d) k v h = ground (arith, put_new d k v)

  pub size-put :
      (d : Dict V) (k : String) (v : V)
      → size (put d k v) ≡ (if has d k then size d else suc (size d))
  unfolding put has
  size-put [] k v = refl
  size-put ((i, w) ∷ d) k v = ground (arith, size-put d k v)

  pub put-put : (d : Dict V) (k : String) (v w : V) → put (put d k v) k w ≡ put d k w
  unfolding put
  put-put [] k v w = ground (arith, text_eq_iff k k)
  put-put ((i, u) ∷ d) k v w = ground (arith, put-put d k v w)

  pub has-keys : (d : Dict V) (k : String) → has d k ≡ mem_text k (keys d)
  unfolding has keys
  has-keys [] k = refl
  has-keys ((i, w) ∷ d) k = ground (arith, has-keys d k)

module _ {ℓ} {V : Type ℓ} where
  pub get_cons_cases :
      (d : Dict V) (j k : String) (w v : V)
      → get ((j, w) ∷ d) k ≡ some v
      → (w ≡ v) ⊎ (get d k ≡ some v)
  unfolding get
  get_cons_cases d j k w v h = ground arith

-- A predicate on every value of a dictionary.
abbrev pub AllValues {ℓ} : {V : Type ℓ} → (V → Type 0) → Dict V → Type 0
AllValues P [] = Unit
AllValues P ((k, v) ∷ d) = P v × AllValues P d

module _ {ℓ} {V : Type ℓ} (P : V → Type 0) where
  pub AllValues-get : (d : Dict V) (k : String) (v : V) → AllValues P d → get d k ≡ some v → P v
  unfolding get
  AllValues-get [] k v a h = cc
  AllValues-get ((j, w) ∷ d) k v a h = elim (get_cons_cases d j k w v h) [
    | inl same ↦ subst P same a.0
    | inr later ↦ AllValues-get d k v a.1 later
  ]

  pub AllValues-put :
      (d : Dict V) (k : String) (v : V) → AllValues P d → P v → AllValues P (put d k v)
  unfolding put
  AllValues-put [] k v a p = (p, tt)
  AllValues-put ((j, w) ∷ d) k v a p = elim (Bool-cases (text_eq j k)) [
    | inl same ↦ rw (same, put) (p, a.1)
    | inr other ↦ rw (other, put) (a.0, AllValues-put d k v a.1 p)
  ]

  pub AllValues-pop : (d : Dict V) (k : String) → AllValues P d → AllValues P (pop d k)
  unfolding pop
  AllValues-pop [] k a = tt
  AllValues-pop ((j, w) ∷ d) k a = elim (Bool-cases (text_eq j k)) [
    | inl same ↦ rw (same, pop) (AllValues-pop d k a.1)
    | inr other ↦ rw (other, pop) (a.0, AllValues-pop d k a.1)
  ]

pub ruleset dict_laws = (get-put, has-put, get-pop, has-pop, put-put, size-put)
