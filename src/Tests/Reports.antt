-- ===== src/Tests/Reports.antt =====
-- Analytics, encryption, log lines and sequences of commerce, on concrete inputs.
use ops_pilot_be.Prelude.{
  ℕ, ◌/◌, ◌*◌, ◌≡◌, refl, none, some, List, [], ◌∷◌, ◌++◌, length, ◌==◌, nat_eq, if◌then◌else◌,
}
use mathlib.Core.Option
use ops_pilot_be.Prelude.Dict.{lookup}
use ops_pilot_be.Repository.{count}
use ops_pilot_be.Store.{OrderStatus, order_status_eq}
use ops_pilot_be.Store.Valid.{IsValid}
use ops_pilot_be.Analytics.{get_overview, get_order_distribution, in_status}
use ops_pilot_be.Analytics.Agreement.{EachOnce, distribution-overview}
use ops_pilot_be.Encryption.{
  Bytes, Crypto, Settings, derive_key, process_bind_param, process_result_value,
}
use ops_pilot_be.Encryption.Columns.{process_result_value-bind}
use ops_pilot_be.Commerce.{order_created, customer_created, perform_all}
use ops_pilot_be.Commerce.Sequences.{empty_store, perform_all-IsValid}
use ops_pilot_be.Tests.Commerce.{shop, second_order, bola}

abbrev statuses : List OrderStatus
statuses =
    OrderStatus.completed ∷ OrderStatus.pending ∷ OrderStatus.cancelled ∷ OrderStatus.processing
    ∷ []

statuses-EachOnce : EachOnce statuses
statuses-EachOnce OrderStatus.pending = refl
statuses-EachOnce OrderStatus.processing = refl
statuses-EachOnce OrderStatus.completed = refl
statuses-EachOnce OrderStatus.cancelled = refl

abbrev percent : ℕ → ℕ → ℕ
percent a b = a * 100 / b

abbrev average : ℕ → ℕ → ℕ
average a b = a / b

distribution-overview_example :
    ((get_order_distribution 0 average percent statuses 5 shop).0
      ≡ (get_overview 0 average percent 5 shop).total_orders)
    × (lookup OrderStatus.completed (get_order_distribution 0 average percent statuses 5 shop).1
        ≡ some (
          (get_overview 0 average percent 5 shop).completed_orders,
          (get_overview 0 average percent 5 shop).order_conversion_rate,
        ))
    × ((st : OrderStatus)
        → Option.map
            (λ (x : ℕ × ℕ). x.0)
            (lookup st (get_order_distribution 0 average percent statuses 5 shop).1)
          ≡ some (count (in_status 5 st) shop.orders))
distribution-overview_example =
    distribution-overview 0 average percent statuses 5 shop statuses-EachOnce

abbrev nonce : Bytes
nonce = 1 ∷ 2 ∷ 3 ∷ 4 ∷ 5 ∷ 6 ∷ 7 ∷ 8 ∷ 9 ∷ 10 ∷ 11 ∷ 12 ∷ []

abbrev key : Bytes
key = nonce ++ (nonce ++ (1 ∷ 2 ∷ 3 ∷ 4 ∷ 5 ∷ 6 ∷ 7 ∷ 8 ∷ []))

-- Cryptography for one text, `hi`, which it leaves as it is.
abbrev plain : Crypto
plain = record {
  encode = λ s. 104 ∷ 105 ∷ [];
  decode = λ bs. if length bs == 2 then some "hi" else none;
  fromhex = λ s. none;
  hkdf = λ bs. key;
  seal = λ k n bs. bs;
  unseal = λ k n bs. some bs;
  b64encode = λ bs. "sealed";
  b64decode = λ s. some (nonce ++ (104 ∷ 105 ∷ []));
}

abbrev no_key : Settings
no_key = record { encryption_key = none; jwt_secret_key = "s" }

process_result_value-bind_example :
    (process_result_value plain no_key (process_bind_param plain no_key nonce (some "hi"))
      ≡ some "hi")
    × (length (derive_key plain no_key) ≡ 32)
process_result_value-bind_example =
    process_result_value-bind plain no_key nonce (some "hi")
      (record { text = refl; cipher = λ k. refl; base64 = λ k. refl }) (λ bs. refl) refl

perform_all-IsValid_example : IsValid (
    perform_all
      (customer_created 1 5 bola
        ∷ order_created 2 5 second_order
        ∷ order_created 2 6 second_order
        ∷ [])
      empty_store)
perform_all-IsValid_example = perform_all-IsValid (
    customer_created 1 5 bola
    ∷ order_created 2 5 second_order
    ∷ order_created 2 6 second_order
    ∷ [])
