-- ===== src/Finance/Service/Escrows/Closing.antt =====
-- The writes that close an escrow: its row, the wallet that is paid, a transaction and the events.
use rent_a_girlfriend.Finance.Wallet
use rent_a_girlfriend.Finance.Wallet.Balances.{deposit_ok}
use rent_a_girlfriend.Prelude.{ℕ, ◌+◌, String, ◌≡◌, refl, ap, true, false, List, arith, total}
use rent_a_girlfriend.Table.Rows.{upsert, NoClash}
use rent_a_girlfriend.Finance.Vo.{is_held}
use rent_a_girlfriend.Finance.Events.{DomainEvent}
use rent_a_girlfriend.Finance.Wallet.{Wallet}
use rent_a_girlfriend.Finance.Escrow.{Escrow}
use rent_a_girlfriend.Finance.Transaction.{Transaction}
use rent_a_girlfriend.Finance.Action.{Store}
use rent_a_girlfriend.Finance.Repositories.{
  wallet_id, user_id, escrow_id, booking_id, to_model, escrow_to_model,
}
use rent_a_girlfriend.Finance.Ledger.{
  IsValid, coins, held_amount, with_wallet, with_escrow, with_transaction, with_events,
  with_wallet-IsValid, with_escrow-IsValid, with_transaction-IsValid, with_events-IsValid,
}
use rent_a_girlfriend.Finance.Ledger.Accounts.{Moved}
use rent_a_girlfriend.Finance.Steps.Rows.{HasEscrow, held-upsert}
use rent_a_girlfriend.Finance.Service.Wallets.Opening.{HasWallet, with_opened_wallet-Moved}

pub closed-IsValid :
    (db : Store)
    → IsValid db
    → (x : Escrow) (w : Wallet) (t : Transaction) (es : List DomainEvent)
    → NoClash escrow_id booking_id (escrow_to_model x) db.escrows
    → NoClash wallet_id user_id (to_model w) db.wallets
    → IsValid (with_events es (with_transaction t (with_wallet w (with_escrow x db))))
unfolding with_escrow
closed-IsValid db v x w t es c c' =
    with_events-IsValid _
      (with_transaction-IsValid _
        (with_wallet-IsValid (with_escrow x db) (with_escrow-IsValid db v x c) w c') t)
      es

-- A held escrow that is held no more takes its amount out of the coins.
pub closed-coins :
    (b : String) (x x' : Escrow) (d db' : Store) (u : String) (n : ℕ)
    → IsValid d
    → HasEscrow b x d
    → x'.escrow_id ≡ x.escrow_id
    → is_held x.status ≡ true
    → is_held x'.status ≡ false
    → Moved u n 0 0 0 d db'
    → db'.escrows ≡ upsert escrow_id (escrow_to_model x') d.escrows
    → coins db' + x.amount ≡ coins d + n
unfolding escrow_to_model
closed-coins b x x' d db' u n v hx id was now m e = omega (
  arith,
  m.of_all,
  ap (total held_amount) e,
  held-upsert b x x' d v hx id,
  held x was,
  held_not x' now,
)
  where
    held : (y : Escrow) → is_held y.status ≡ true → held_amount (escrow_to_model y) ≡ y.amount
    held y q = rw q refl

    held_not : (y : Escrow) → is_held y.status ≡ false → held_amount (escrow_to_model y) ≡ 0
    held_not y q = rw q refl

-- Saving a wallet with a deposit gives the deposit to its owner.
pub deposited-Moved :
    (u : String) (n : ℕ) {d db : Store} {w : Wallet}
    → HasWallet d u w db
    → Moved u n 0 0 0 d (with_wallet (Wallet.deposit n w) db)
deposited-Moved u n {w = w} h =
    let (same, a, f) = deposit_ok n "" w w in
    with_opened_wallet-Moved u n 0 0 0 (Wallet.deposit n w) h same (omega arith) (omega arith)
