-- ===== src/Finance/Repositories.antt =====
-- services/finance-service/internal/infrastructure/persistence/repositories.py and the event
-- publisher of internal/infrastructure/broker/outbox_publisher.py, over what the service takes from
-- outside: the tables, the encoding of events, floats, the parsing of numbers and the signature
-- primitives. Row locks do nothing in a single session.
use rent_a_girlfriend.Prelude.{
  ℕ, String, ℤ, pos, ◌≡◌, Bool, ◌&&◌, Option, some, List, [], ◌∷◌, ◌++◌, ◌==◌, if◌then◌else◌,
}
use mathlib.Core.Option
use rent_a_girlfriend.Table.{Table}
use rent_a_girlfriend.Finance.Vo.{TransactionType, same_type, ok, err, encode_error}
use rent_a_girlfriend.Finance.Events.{DomainEvent}
use rent_a_girlfriend.Finance.Wallet.{Wallet}
use rent_a_girlfriend.Finance.Escrow.{Escrow}
use rent_a_girlfriend.Finance.Transaction.{Transaction}
use rent_a_girlfriend.Finance.Action.{WalletModel, EscrowModel, Action, gets, write, pure, ◌>>◌}

-- The constrained columns.
abbrev pub wallet_id : WalletModel → String
wallet_id m = m.wallet_id

abbrev pub user_id : WalletModel → String
user_id m = m.user_id

abbrev pub escrow_id : EscrowModel → String
escrow_id m = m.escrow_id

abbrev pub booking_id : EscrowModel → String
booking_id m = m.booking_id

abbrev pub transaction_id : Transaction → String
transaction_id t = t.transaction_id

pub record Environment : Type 1 where
  pub wallets : Table wallet_id user_id
  pub escrows : Table escrow_id booking_id
  pub transactions : Table transaction_id transaction_id
  -- Whether the protobuf message of the event can hold its fields.
  pub encodes : DomainEvent → Bool
  -- Python floats, as commission rates; `none` where `int(round(...))` raises.
  pub Rate : Type 0
  pub zero_rate : Rate
  pub round_product : ℕ → Rate → Option ℤ
  pub round_product_zero : (n : ℕ) → round_product n zero_rate ≡ some (pos 0)
  -- `str(n)`, `int(text)`
  pub show_int : ℕ → String
  pub parse_int : String → Option ℤ
  -- `urllib.parse.urlencode`, the hexadecimal HMAC-SHA512 under the configured secret, `str.lower`.
  pub urlencode : List (String × String) → String
  pub hmac_sha512 : String → String
  pub lower : String → String
  -- `sorted` on the items of a dict.
  pub sort_items : List (String × String) → List (String × String)
  -- The settings of the payment gateway.
  pub tmn_code : String
  pub payment_url : String
  pub return_url : String

unfoldable pub to_model : Wallet → WalletModel
to_model w = record {
  wallet_id = w.wallet_id;
  user_id = w.user_id;
  available_balance = w.available_balance;
  frozen_balance = w.frozen_balance;
}

-- `WalletRepository._to_domain`
unfoldable pub to_domain : WalletModel → Wallet
to_domain m = record {
  wallet_id = m.wallet_id;
  user_id = m.user_id;
  available_balance = m.available_balance;
  frozen_balance = m.frozen_balance;
  events = [];
}

unfoldable pub escrow_to_model : Escrow → EscrowModel
escrow_to_model x = record {
  escrow_id = x.escrow_id;
  booking_id = x.booking_id;
  amount = x.amount;
  status = x.status;
}

-- `EscrowRepository._to_domain`
unfoldable pub escrow_to_domain : EscrowModel → Escrow
escrow_to_domain m = record {
  escrow_id = m.escrow_id;
  booking_id = m.booking_id;
  amount = m.amount;
  status = m.status;
  events = [];
}

module _ (env : Environment) where
  unfoldable pub save_wallet : Wallet → Action Unit
  unfolding to_model
  save_wallet w =
      write λ db.
        Option.map (λ t. record db { wallets = t }) (env.wallets.merge (to_model w) db.wallets)

  unfoldable pub find_wallet_by_user_id : String → Action (Option Wallet)
  unfolding to_domain
  find_wallet_by_user_id u =
      gets λ db. Option.map to_domain (env.wallets.first (λ m. user_id m == u) db.wallets)

  unfoldable pub save_escrow : Escrow → Action Unit
  unfolding escrow_to_model
  save_escrow x = write λ db.
      Option.map (λ t. record db { escrows = t }) (env.escrows.merge (escrow_to_model x) db.escrows)

  unfoldable pub find_escrow_by_booking_id : String → Action (Option Escrow)
  unfolding escrow_to_domain
  find_escrow_by_booking_id b =
      gets λ db. Option.map escrow_to_domain (env.escrows.first (λ m. booking_id m == b) db.escrows)

  unfoldable pub save_transaction : Transaction → Action Unit
  save_transaction t = write λ db.
      Option.map (λ ts. record db { transactions = ts }) (env.transactions.merge t db.transactions)

  unfoldable pub find_transaction_by_id : String → Action (Option Transaction)
  find_transaction_by_id k =
      gets λ db. env.transactions.first (λ t. transaction_id t == k) db.transactions

  unfoldable pub find_transaction_by_reference_id :
      String → TransactionType → Action (Option Transaction)
  unfolding same_type
  find_transaction_by_reference_id r type = gets λ db.
      env.transactions.first (λ t. t.reference_id == r && same_type t.type type) db.transactions

  -- `DatabaseEventPublisher.publish`
  unfoldable pub publish : DomainEvent → Action Unit
  publish e s =
      if env.encodes e
      then (ok tt, record s { now = record s.now { outbox = s.now.outbox ++ e ∷ [] } })
      else (err encode_error, s)

  -- `for event in events: self.event_publisher.publish(event)`
  unfoldable pub publish_all : List DomainEvent → Action Unit
  publish_all [] = pure tt
  publish_all (e ∷ es) = publish e >> publish_all es
