-- ===== src/Finance/Service/Reservations/Success.antt =====
-- When `freeze_coin` returns: the conditions under which the reservation goes through.
use rent_a_girlfriend.Prelude.{ℕ, ◌+◌, ◌-◌, String, [], ◌∷◌, ◌++◌}
use rent_a_girlfriend.Finance.Vo.{TransactionType}
use rent_a_girlfriend.Finance.Events.{coins_frozen}
use rent_a_girlfriend.Finance.Wallet
use rent_a_girlfriend.Finance.Wallet.{Wallet}
use rent_a_girlfriend.Finance.Transaction.{Transaction, pending}
use rent_a_girlfriend.Finance.Action.{WalletModel, Store}
use rent_a_girlfriend.Finance.Repositories.{Environment, wallet_id, user_id, to_domain}
use rent_a_girlfriend.Finance.Service.Reservations

-- The wallet after the freeze.
abbrev frozen_wallet : ℕ → String → Wallet → Wallet
frozen_wallet n b w = record w {
  available_balance = w.available_balance - n;
  frozen_balance = w.frozen_balance + n;
  events =
      w.events
      ++ coins_frozen
          (record { wallet_id = w.wallet_id; user_id = w.user_id; amount = n; booking_id = b })
        ∷ [];
}

module _ (env : Environment) (wid k : String) (n : ℕ) (b : String) (ty : TransactionType)
    (m : WalletModel) (db : Store) where
  abbrev changed : Wallet
  changed = frozen_wallet n b (to_domain m)

  abbrev reservation : Transaction
  reservation = record {
    transaction_id = k;
    user_id = m.user_id;
    amount = n;
    type = ty;
    status = pending;
    reference_id = b;
  }
