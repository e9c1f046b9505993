-- ===== src/Finance/Vo.antt =====
-- services/finance-service/internal/domain/vo.py, errors.py and service.py: money, the exceptions,
-- and the exchange of coins and VND. A `Money` is its amount, which `__post_init__` keeps from being
-- negative.
use rent_a_girlfriend.Prelude.{
  ℕ, ◌+◌, ◌-◌, ◌*◌, ◌/◌, String, ℤ, pos, negsuc, ◌-ℤ◌, ltb, if◌then◌else◌, Bool, true, false,
}

pub data TransactionType : Type 0 where
  unspecified topup booking_reservation escrow_release penalty_deduction refund : TransactionType

-- `==` on the members of the enumeration.
unfoldable pub same_type : TransactionType → TransactionType → Bool
same_type unspecified unspecified = true
same_type topup topup = true
same_type booking_reservation booking_reservation = true
same_type escrow_release escrow_release = true
same_type penalty_deduction penalty_deduction = true
same_type refund refund = true
same_type _ _ = false

-- The `status` strings of an escrow: HELD, PAID_OUT, REFUNDED.
pub data EscrowStatus : Type 0 where
  held paid_out refunded : EscrowStatus

abbrev pub is_held : EscrowStatus → Bool
is_held held = true
is_held paid_out = false
is_held refunded = false

-- The exceptions of errors.py with their arguments, then those of the code that the service calls:
-- the database, the arithmetic on floats, the parsing of numbers, the encoding of events.
pub data Error : Type 0 where
  insufficient_balance insufficient_frozen_balance : String → ℕ → ℕ → Error
  invalid_amount : ℤ → Error
  wallet_not_found wallet_already_exists escrow_not_found escrow_already_exists : String → Error
  invalid_escrow_status_transition : EscrowStatus → EscrowStatus → Error
  database_error float_error value_error encode_error : Error

pub data Result (A : Type 0) : Type 0 where
  ok : A → Result A
  err : Error → Result A

infixl 5 ◌>>=◌
abbrev pub ◌>>=◌ : {A B : Type 0} → Result A → (A → Result B) → Result B
ok a >>= f = f a
err e >>= f = err e

abbrev pub Money : Type 0
Money = ℕ

-- `Money(amount)`
unfoldable pub money : ℤ → Result Money
money (pos n) = ok n
money (negsuc n) = err (invalid_amount (negsuc n))

-- `Money.add`
unfoldable pub add : Money → Money → Money
add a b = a + b

-- `Money.subtract`
unfoldable pub subtract : Money → Money → Result Money
subtract a b = if ltb a b then err (invalid_amount (pos a -ℤ pos b)) else ok (a - b)

-- `CurrencyExchangeService`
abbrev pub rate_coin_to_vnd : ℕ
rate_coin_to_vnd = 1000

unfoldable pub coin_to_vnd : Money → ℕ
coin_to_vnd coins = coins * rate_coin_to_vnd

unfoldable pub vnd_to_coin : ℕ → Money
vnd_to_coin vnd_amount = vnd_amount / rate_coin_to_vnd
