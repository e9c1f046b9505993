-- ===== src/Finance/Ledger.antt =====
-- The coins of the finance database: what the wallets and the held escrows are worth together, the
-- constraints on its rows, and the effect of one write on both.
pub mod Accounts
pub mod Conservation
use rent_a_girlfriend.Prelude.{ℕ, ◌+◌, ◌≡◌, refl, List, ◌++◌, Memᴰ, arith, total, if◌then◌else◌}
use rent_a_girlfriend.Table.Rows.{
  upsert, IsDistinct, IsFresh, NoClash, total-upsert_new, total-upsert_old, upsert-IsDistinct,
  upsert-IsDistinct_unique,
}
use rent_a_girlfriend.Finance.Vo.{is_held}
use rent_a_girlfriend.Finance.Events.{DomainEvent}
use rent_a_girlfriend.Finance.Wallet.{Wallet}
use rent_a_girlfriend.Finance.Escrow.{Escrow}
use rent_a_girlfriend.Finance.Transaction.{Transaction}
use rent_a_girlfriend.Finance.Action.{WalletModel, EscrowModel, Store}
use rent_a_girlfriend.Finance.Repositories.{
  wallet_id, user_id, escrow_id, booking_id, transaction_id, to_model, escrow_to_model,
}

abbrev pub balance : WalletModel → ℕ
balance m = m.available_balance + m.frozen_balance

abbrev pub held_amount : EscrowModel → ℕ
held_amount m = if is_held m.status then m.amount else 0

-- All coins that belong to somebody.
abbrev pub coins : Store → ℕ
coins db = total balance db.wallets + total held_amount db.escrows

-- The key and UNIQUE constraints of persistence/models.py.
pub record IsValid (db : Store) : Type 0 where
  pub wallet_ids : IsDistinct wallet_id db.wallets
  pub user_ids : IsDistinct user_id db.wallets
  pub escrow_ids : IsDistinct escrow_id db.escrows
  pub booking_ids : IsDistinct booking_id db.escrows
  pub transaction_ids : IsDistinct transaction_id db.transactions

-- The writes.
unfoldable pub with_wallet : Wallet → Store → Store
with_wallet w db = record db { wallets = upsert wallet_id (to_model w) db.wallets }

unfoldable pub with_escrow : Escrow → Store → Store
with_escrow x db = record db { escrows = upsert escrow_id (escrow_to_model x) db.escrows }

unfoldable pub with_transaction : Transaction → Store → Store
with_transaction t db = record db { transactions = upsert transaction_id t db.transactions }

unfoldable pub with_events : List DomainEvent → Store → Store
with_events es db = record db { outbox = db.outbox ++ es }

module _ (db : Store) (v : IsValid db) where
  pub with_wallet-IsValid :
      (w : Wallet) → NoClash wallet_id user_id (to_model w) db.wallets → IsValid (with_wallet w db)
  unfolding with_wallet
  with_wallet-IsValid w c = record {
    wallet_ids = upsert-IsDistinct wallet_id _ _ v.wallet_ids;
    user_ids = upsert-IsDistinct_unique wallet_id user_id _ _ v.wallet_ids v.user_ids c;
    escrow_ids = v.escrow_ids;
    booking_ids = v.booking_ids;
    transaction_ids = v.transaction_ids;
  }

  pub with_escrow-IsValid :
      (x : Escrow)
      → NoClash escrow_id booking_id (escrow_to_model x) db.escrows
      → IsValid (with_escrow x db)
  unfolding with_escrow
  with_escrow-IsValid x c = record {
    wallet_ids = v.wallet_ids;
    user_ids = v.user_ids;
    escrow_ids = upsert-IsDistinct escrow_id _ _ v.escrow_ids;
    booking_ids = upsert-IsDistinct_unique escrow_id booking_id _ _ v.escrow_ids v.booking_ids c;
    transaction_ids = v.transaction_ids;
  }

  pub with_transaction-IsValid : (t : Transaction) → IsValid (with_transaction t db)
  unfolding with_transaction
  with_transaction-IsValid t = record {
    wallet_ids = v.wallet_ids;
    user_ids = v.user_ids;
    escrow_ids = v.escrow_ids;
    booking_ids = v.booking_ids;
    transaction_ids = upsert-IsDistinct transaction_id _ _ v.transaction_ids;
  }

  pub with_events-IsValid : (es : List DomainEvent) → IsValid (with_events es db)
  unfolding with_events
  with_events-IsValid es = record {
    wallet_ids = v.wallet_ids;
    user_ids = v.user_ids;
    escrow_ids = v.escrow_ids;
    booking_ids = v.booking_ids;
    transaction_ids = v.transaction_ids;
  }

  -- Writing a wallet over its old row changes the coins by the difference of the two balances.
  pub coins-with_wallet :
      (old : WalletModel) (w : Wallet)
      → Memᴰ old db.wallets
      → w.wallet_id ≡ wallet_id old
      → coins (with_wallet w db) + balance old ≡ coins db + (w.available_balance + w.frozen_balance)
  unfolding with_wallet to_model
  coins-with_wallet old w m e =
      omega (arith, total-upsert_old wallet_id balance (to_model w) old db.wallets v.wallet_ids m e)

  pub coins-with_escrow :
      (old : EscrowModel) (x : Escrow)
      → Memᴰ old db.escrows
      → x.escrow_id ≡ escrow_id old
      → coins (with_escrow x db) + held_amount old ≡ coins db + held_amount (escrow_to_model x)
  unfolding with_escrow escrow_to_model
  coins-with_escrow old x m e = omega (
    arith,
    total-upsert_old escrow_id held_amount (escrow_to_model x) old db.escrows v.escrow_ids m e,
  )

module _ (db : Store) where
  pub coins-with_new_wallet :
      (w : Wallet)
      → IsFresh wallet_id w.wallet_id db.wallets
      → coins (with_wallet w db) ≡ coins db + (w.available_balance + w.frozen_balance)
  unfolding with_wallet to_model
  coins-with_new_wallet w f =
      omega (arith, total-upsert_new wallet_id balance (to_model w) db.wallets f)

  pub coins-with_new_escrow :
      (x : Escrow)
      → IsFresh escrow_id x.escrow_id db.escrows
      → coins (with_escrow x db) ≡ coins db + held_amount (escrow_to_model x)
  unfolding with_escrow escrow_to_model
  coins-with_new_escrow x f =
      omega (arith, total-upsert_new escrow_id held_amount (escrow_to_model x) db.escrows f)

  pub coins-with_transaction : (t : Transaction) → coins (with_transaction t db) ≡ coins db
  unfolding with_transaction
  coins-with_transaction t = refl

  pub coins-with_events : (es : List DomainEvent) → coins (with_events es db) ≡ coins db
  unfolding with_events
  coins-with_events es = refl
