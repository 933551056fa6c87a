-- ===== src/Errors.antt =====
-- The failures of core/kernel/types.py (`UnitErrorKind`, `UnitError`) and the Python exceptions
-- that the modelled code raises, as values. Message texts are not kept.
use vendorfake.Prelude.{String, ◌≡◌, refl, Bool, true, false, Option, ◌⊎◌, inl, inr}
use vendorfake.Json.{Value}

pub data UnitErrorKind : Type 0 where
  bad_request invalid_json missing_field invalid_value not_found method_not_allowed : UnitErrorKind
  unauthorized token_expired token_revoked forbidden_scope capability_disabled : UnitErrorKind
  version_conflict idempotency_conflict invalid_cursor invalid_transition conflict : UnitErrorKind
  rate_limited timeout unavailable internal : UnitErrorKind

-- `unit_error kind field info`; the others are Python's own exceptions.
pub data Error : Type 0 where
  unit_error : UnitErrorKind → Option String → Value → Error
  value_error key_error type_error runtime_error index_error overflow_error : Error

-- What a call gives: the exception that it raises, or what it returns.
pub data Result {ℓ} (R : Type ℓ) : Type ℓ where
  err : Error → Result R
  ok : R → Result R

pub Result-cases {ℓ} :
    {R : Type ℓ} (r : Result R) → ((e : Error) × (r ≡ err e)) ⊎ ((v : R) × (r ≡ ok v))
Result-cases (err e) = inl (e, refl)
Result-cases (ok v) = inr (v, refl)

-- `if test: raise e`
abbrev pub raise_if : Bool → Error → Result (Unit {0})
raise_if false e = ok tt
raise_if true e = err e

-- The statements that follow a call run only if it returns.
infixl 5 ◌>>=◌
abbrev pub ◌>>=◌ {ℓ κ} : {R : Type ℓ} {S : Type κ} → Result R → (R → Result S) → Result S
err raised >>= follow = err raised
ok value >>= follow = follow value

-- A chain that returns did so at each of its calls.
pub >>=-eq-ok {ℓ κ} :
    {R : Type ℓ} {S : Type κ} (call : Result R) (follow : R → Result S) {result : S}
    → (call >>= follow) ≡ ok result
    → (value : R) × (call ≡ ok value) × (follow value ≡ ok result)
>>=-eq-ok (err raised) follow returned = cc
>>=-eq-ok (ok value) follow returned = (value, refl, returned)

-- A call for its effect alone.
infixl 5 ◌>>◌
abbrev pub ◌>>◌ {ℓ} : {S : Type ℓ} → Result (Unit {0}) → Result S → Result S
call >> after = call >>= λ nothing. after
