-- ===== src/Webhooks/Retry.antt =====
-- core/webhooks/retry.py. `time_scale` is what `js_round` makes of the product with it; `none` where
-- the product is not finite, which `js_round` refuses with an OverflowError.
use vendorfake.Prelude.{ℕ, zero, suc, String, Bool, Option, none, some, List, [], ◌∷◌, leb, length}
use vendorfake.Dict
use vendorfake.Dict.{Dict}
use vendorfake.Json.{ℤ, pos, Value, Items, arr, nil, cons}
use vendorfake.Numbers.{as_int}
use vendorfake.Errors.{Result, ok, err, index_error, overflow_error}

-- `DEFAULT_TIMEOUT_MS`
abbrev pub default_timeout_ms : ℤ
default_timeout_ms = pos 10000

-- `MutableRetryPolicy`
pub record RetryPolicy : Type 0 where
  pub schedule_ms : List ℤ
  pub time_scale : ℤ → Option ℤ
  pub timeout_ms : ℤ

-- `tuple(as_int(item, 0) for item in raw)`
unfoldable pub schedule_of : (String → Option ℤ) → Items → List ℤ
schedule_of parse nil = []
schedule_of parse (cons v vs) = as_int parse (some v) (pos 0) ∷ schedule_of parse vs

abbrev pub patched_schedule : (String → Option ℤ) → Option Value → List ℤ → List ℤ
patched_schedule parse (some (arr vs)) schedule = schedule_of parse vs
patched_schedule parse _ schedule = schedule

abbrev pub patched_scale :
    (Value → (ℤ → Option ℤ) → ℤ → Option ℤ) → Option Value → (ℤ → Option ℤ) → ℤ → Option ℤ
patched_scale rescale none scale = scale
patched_scale rescale (some v) scale = rescale v scale

abbrev pub patched_timeout : (String → Option ℤ) → Option Value → ℤ → ℤ
patched_timeout parse none timeout = timeout
patched_timeout parse (some v) timeout = as_int parse (some v) timeout

-- `MutableRetryPolicy.patched`; `rescale` is `as_float(patch["time_scale"], self.time_scale)`.
unfoldable pub patched :
    (String → Option ℤ)
    → (Value → (ℤ → Option ℤ) → ℤ → Option ℤ)
    → Dict Value
    → RetryPolicy
    → RetryPolicy
unfolding schedule_of
patched parse rescale patch policy = record {
  schedule_ms = patched_schedule parse (Dict.get patch "schedule_ms") policy.schedule_ms;
  time_scale = patched_scale rescale (Dict.get patch "time_scale") policy.time_scale;
  timeout_ms = patched_timeout parse (Dict.get patch "timeout_ms") policy.timeout_ms;
}

-- `schedule_exhausted`
unfoldable pub schedule_exhausted : RetryPolicy → ℕ → Bool
schedule_exhausted policy retry_number = leb (length policy.schedule_ms) retry_number

-- `schedule_ms[n]`
abbrev pub item_at : List ℤ → ℕ → Result ℤ
item_at [] n = err index_error
item_at (x ∷ xs) zero = ok x
item_at (x ∷ xs) (suc n) = item_at xs n

-- `retry_delay_ms`
unfoldable pub retry_delay_ms : RetryPolicy → ℕ → Result ℤ
retry_delay_ms policy retry_number = elim (item_at policy.schedule_ms retry_number) [
  | err e ↦ err e
  | ok ms ↦ elim (policy.time_scale ms) [ none ↦ err overflow_error | some delay ↦ ok delay ]
]
