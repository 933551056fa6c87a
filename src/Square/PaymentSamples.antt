-- ===== src/Square/PaymentSamples.antt =====
-- A small order and a payment of square/entities.py.
use vendorfake.Prelude.{
  ℕ, zero, suc, ◌*◌, String, ◌≡◌, refl, true, false, Option, none, some, [], ◌∷◌, arith, ◌==◌,
  if◌then◌else◌,
}
use vendorfake.Text.{text_eq}
use vendorfake.Dict.{Dict}
use vendorfake.Json.{ℤ, pos, negsuc, Value, int, str, document}
use vendorfake.Store.State.{Store, Entity}
use vendorfake.Webhooks.Samples.{clock}
use vendorfake.Square.Readers.{listed}
use vendorfake.Square.Totals.{Quantities}

abbrev pub text_of : Value → String
text_of v = "?"

-- Quantities of one digit, all finite.
abbrev pub whole : String → Option ℕ
whole text =
    if text_eq text "0"
    then some 0
    else if text_eq text "1"
    then some 1
    else if text_eq text "2"
    then some 2
    else none

abbrev pub times : ℤ → ℕ → ℤ
times amount zero = pos 0
times (pos n) (suc k) = pos (n * suc k)
times (negsuc n) (suc k) = negsuc (n * suc k)

pub times-zero : (amount : ℤ) (q : ℕ) → (q == 0) ≡ true → times amount q ≡ pos 0
times-zero amount zero h = refl
times-zero amount (suc k) h = ground arith

abbrev pub quantities : Quantities
quantities = record {
  Quantity = ℕ;
  parse = whole;
  is_finite = λ q. true;
  is_zero = λ q. q == 0;
  overflows = λ amount q. false;
  times = times;
  times-zero = times-zero;
}

abbrev pub dollars : ℕ → Value
dollars n = document (("amount", int (pos n)) ∷ ("currency", str "USD") ∷ [])

abbrev pub item : String → String → ℕ → Dict Value
item uid quantity price =
    ("uid", str uid) ∷ ("quantity", str quantity) ∷ ("base_price_money", dollars price) ∷ []

abbrev pub order : Entity
order =
    ("id", str "o1")
    ∷ ("version", int (pos 1))
    ∷ ("location_id", str "l1")
    ∷ ("currency", str "USD")
    ∷ ("state", str "OPEN")
    ∷ ("line_items", listed (item "a" "2" 300 ∷ item "b" "0" 900 ∷ []))
    ∷ []

abbrev pub payment : Entity
payment =
    ("id", str "p1")
    ∷ ("version", int (pos 1))
    ∷ ("location_id", str "l1")
    ∷ ("amount_money", dollars 600)
    ∷ ("tip_money", dollars 90)
    ∷ ("status", str "APPROVED")
    ∷ []

abbrev pub store : Store
store = record {
  clock = clock;
  collections = ("orders", ("o1", order) ∷ []) ∷ ("payments", ("p1", payment) ∷ []) ∷ [];
  journal = [];
  idempotency = [];
  listeners = [];
  heard = [];
  muted = false;
  seq = 0;
  volatile_fields = [];
  opaque_fields = [];
}

abbrev pub minted : ℕ → String
minted n = if n == 0 then "t0" else "t1"

abbrev pub instant : String
instant = "2024-01-01T00:00:01.000Z"

-- The tip is on top of what is due, and the line of quantity zero is gone.
abbrev pub paid_order : Entity
paid_order =
    ("id", str "o1")
    ∷ ("version", int (pos 2))
    ∷ ("location_id", str "l1")
    ∷ ("currency", str "USD")
    ∷ ("state", str "COMPLETED")
    ∷ ("line_items", listed (item "a" "2" 300 ∷ []))
    ∷ (
      "tenders",
      listed (
          (("id", str "t0")
            ∷ ("location_id", str "l1")
            ∷ ("transaction_id", str "o1")
            ∷ ("created_at", str instant)
            ∷ ("amount_money", dollars 690)
            ∷ ("type", str "OTHER")
            ∷ ("payment_id", str "p1")
            ∷ ("tip_money", dollars 90)
            ∷ [])
          ∷ []),
    )
    ∷ ("closed_at", str instant)
    ∷ ("updated_at", str instant)
    ∷ []
