-- ===== src/Finance/Service/Escrows/Success.antt =====
-- When `process_payout` returns.
use rent_a_girlfriend.Prelude.{ℤ, ℕ, String, pos, [], ◌∷◌, ◌++◌}
use rent_a_girlfriend.Finance.Vo.{TransactionType}
use rent_a_girlfriend.Finance.Wallet
use rent_a_girlfriend.Finance.Wallet.{Wallet}
use rent_a_girlfriend.Finance.Transaction.{Transaction}
use rent_a_girlfriend.Finance.Action.{WalletModel, Store}
use rent_a_girlfriend.Finance.Repositories.{Environment, user_id, to_domain}
use rent_a_girlfriend.Finance.Escrow.{Escrow}
use rent_a_girlfriend.Finance.Action.{EscrowModel}
use rent_a_girlfriend.Finance.Repositories.{booking_id, escrow_to_domain}
use rent_a_girlfriend.Prelude.{◌-ℤ◌}
use rent_a_girlfriend.Finance.Escrow
use rent_a_girlfriend.Finance.Vo.{paid_out}
use rent_a_girlfriend.Finance.Events.{payout_processed}
use rent_a_girlfriend.Finance.Transaction.{success}

-- The escrow after the payout.
abbrev released : String → ℤ → Escrow → Escrow
released u c x = record x {
  status = paid_out;
  events =
      x.events
      ++ payout_processed (record {
        booking_id = x.booking_id;
        companion_id = u;
        amount = x.amount;
        commission_amount = c;
        net_amount = pos x.amount -ℤ c;
      })
        ∷ [];
}

module _ (env : Environment) (wid k : String) (rate : env.Rate) (n : ℕ) (c : ℤ) (x : EscrowModel)
    (m : WalletModel) (db : Store) where
  abbrev paid : Escrow
  paid = released m.user_id c (escrow_to_domain x)

  abbrev richer : Wallet
  richer = Wallet.deposit n (to_domain m)

  abbrev payment : Transaction
  payment = record {
    transaction_id = k;
    user_id = m.user_id;
    amount = n;
    type = TransactionType.escrow_release;
    status = success;
    reference_id = x.booking_id;
  }
