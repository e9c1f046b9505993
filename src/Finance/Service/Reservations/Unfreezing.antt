-- ===== src/Finance/Service/Reservations/Unfreezing.antt =====
-- What `unfreeze_coin` does: the release of a booking's reservation.
use rent_a_girlfriend.Prelude.{
  ℕ, String, ℤ, pos, ◌≡◌, refl, ap, subst, [], ◌∷◌, ◌++◌, arith, or_else,
}
use rent_a_girlfriend.Table.Rows.{upsert, NoClash}
use rent_a_girlfriend.Finance.Vo.{TransactionType, Error, ok, err, money}
use rent_a_girlfriend.Finance.Events.{coins_unfrozen, refund_failed}
use rent_a_girlfriend.Finance.Wallet.{Wallet}
use rent_a_girlfriend.Finance.Wallet.Balances.{unfreeze_coin_ok}
use rent_a_girlfriend.Finance.Transaction.{success}
use rent_a_girlfriend.Finance.Action.{Store, Session, in_session}
use rent_a_girlfriend.Finance.Action.Preserves.{Preserves}
use rent_a_girlfriend.Finance.Action.Yields.{Yields, Yields-lift, Yields-pure}
use rent_a_girlfriend.Finance.Action.Sessions.{begin}
use rent_a_girlfriend.Finance.Repositories.{
  Environment, wallet_id, user_id, transaction_id, to_model,
}
use rent_a_girlfriend.Finance.Ledger.{
  IsValid, with_wallet, with_transaction, with_events, with_wallet-IsValid,
  with_transaction-IsValid, with_events-IsValid,
}
use rent_a_girlfriend.Finance.Ledger.Accounts.{Moved, Moved-of_same_wallets}
use rent_a_girlfriend.Finance.Steps.{
  Yields-save_wallet, Yields-save_transaction, Yields-publish_all,
}
use rent_a_girlfriend.Finance.Steps.Saved.{
  SavedIs, saved_rules, reported, in_session_returns, in_session_reports,
}
use rent_a_girlfriend.Finance.Steps.Rows.{Yields-found_wallet}
use rent_a_girlfriend.Finance.Service.Wallets.{nil_uuid}
use rent_a_girlfriend.Finance.Service.Wallets.Opening.{HasWallet, with_opened_wallet-Moved}
use rent_a_girlfriend.Finance.Steps.Rows.{Yields-found_wallet}
use rent_a_girlfriend.Finance.Service.Wallets.Opening.{HasWallet}
use rent_a_girlfriend.Table.Rows.{NoClash, upsert}
use rent_a_girlfriend.Finance.Wallet.{Wallet}
use rent_a_girlfriend.Finance.Steps.Saved.{reported, in_session_returns, saved_rules, SavedIs}
use rent_a_girlfriend.Finance.Action.Yields.{Yields}
use rent_a_girlfriend.Finance.Ledger.Accounts.{Moved}
use rent_a_girlfriend.Finance.Vo.{err, ok, Error}
use rent_a_girlfriend.Finance.Action.Preserves.{Preserves}
use rent_a_girlfriend.Finance.Ledger.{with_wallet, with_transaction, IsValid, with_events}
use rent_a_girlfriend.Finance.Action.{in_session, Session, Store}
use rent_a_girlfriend.Finance.Repositories.{transaction_id, Environment}
use rent_a_girlfriend.Prelude.{pos, ◌≡◌, ℤ, ℕ, String}
use rent_a_girlfriend.Finance.Service.Reservations.Freezing.{money_ok}
use rent_a_girlfriend.Finance.Service.Reservations
use rent_a_girlfriend.Finance.Service.Reservations.{unfreeze_reservation}
use rent_a_girlfriend.Finance.Wallet

-- `n` coins of `u`, frozen for the booking `b`, are available again, in the transaction `k`.
pub record Unreserved (u b k : String) (n : ℕ) (db db' : Store) : Type 0 where
  pub valid : IsValid db'
  pub moved : Moved u n 0 0 n db db'
  pub escrows : db'.escrows ≡ db.escrows
  pub logged :
      db'.transactions
      ≡ upsert transaction_id
          (record {
            transaction_id = k;
            user_id = u;
            amount = n;
            type = TransactionType.refund;
            status = success;
            reference_id = b;
          })
          db.transactions
  pub wallet : String
  pub published :
      db'.outbox
      ≡ db.outbox
        ++ coins_unfrozen (record { wallet_id = wallet; user_id = u; amount = n; booking_id = b })
          ∷ []

module _ (env : Environment) (k u : String) (amount : ℤ) (b : String) where
  unreserved :
      {d : Store} (w : Wallet) (db : Store) (w' : Wallet) (n : ℕ)
      → HasWallet d u w db
      → NoClash wallet_id user_id (to_model w') db.wallets
      → Wallet.unfreeze_coin n b w ≡ ok w'
      → Unreserved u b k n d (
          with_events w'.events (
            with_transaction
              (record {
                transaction_id = k;
                user_id = u;
                amount = n;
                type = TransactionType.refund;
                status = success;
                reference_id = b;
              })
              (with_wallet w' db)))
  unfolding with_events with_transaction with_wallet
  unreserved {d} w db w' n h c ew =
      let (o, a, f, e) = unfreeze_coin_ok n b w w' ew in
      record {
        valid =
            with_events-IsValid _
              (with_transaction-IsValid _ (with_wallet-IsValid db h.valid w' c) _) w'.events;
        moved =
            Moved-of_same_wallets u n 0 0 n d (with_wallet w' db) _ refl
              (with_opened_wallet-Moved u n 0 0 n w' h o (omega arith) (omega arith));
        escrows = h.same_escrows;
        logged = ap (upsert transaction_id _) h.same_transactions;
        wallet = w.wallet_id;
        published = rw (h.same_outbox, e, h.no_events, h.owner) refl;
      }

  unfreeze_reservation-Yields :
      (s : Session)
      → IsValid s.now
      → Yields
          (λ k' s'. (k' ≡ k) × ((n : ℕ) × (amount ≡ pos n) × Unreserved u b k n s.now s'.now))
          (unfreeze_reservation env k u amount b)
          s
  unfolding unfreeze_reservation
  unfreeze_reservation-Yields s v = Yields-found_wallet env u _ _ v λ w h.
      Yields-lift (money amount) λ n en. Yields-lift (Wallet.unfreeze_coin n b w) λ w' ew.
        Yields-save_wallet env w' _ λ c. Yields-save_transaction env _ _ (
          Yields-publish_all env w'.events _
            (Yields-pure k (refl, (n, money_ok amount n en, unreserved w s.now w' n h c ew))))

  unfreeze_reservation-SavedIs :
      (db : Store) → Preserves (SavedIs db) (unfreeze_reservation env k u amount b)
  unfolding unfreeze_reservation
  unfreeze_reservation-SavedIs db = search saved_rules depth 20

  -- On a database within its constraints: an unfreeze that returns has the amount of the request, which is not negative, moved from the
  -- user's frozen to the user's available coins, moves nobody else's, keeps the constraints, leaves
  -- the escrows alone, logs one refund and publishes one event.
  pub unfreeze_coin_releases :
      (db : Store) {k' : String} {db' : Store}
      → IsValid db
      → in_session (Reservations.unfreeze_coin env k u amount b) db ≡ (ok k', db')
      → (k' ≡ k) × ((n : ℕ) × (amount ≡ pos n) × Unreserved u b k n db db')
  unfolding Reservations.unfreeze_coin
  unfreeze_coin_releases db {k'} {db'} v h =
      let (s, q, end) =
        in_session_returns env _ _ db (unfreeze_reservation-Yields (begin db) v) h in
      let (n, e, r) = q.1 in (q.0, (n, e, subst (Unreserved u b k n db) end r))

  -- An unfreeze that raises leaves the database as it was, but for one event that reports the error.
  pub unfreeze_coin_fails :
      (db : Store) {e : Error} {db' : Store}
      → in_session (Reservations.unfreeze_coin env k u amount b) db ≡ (err e, db')
      → db'
        ≡ reported env
            (refund_failed (record { booking_id = b; client_id = or_else u nil_uuid; reason = e }))
            db
  unfolding Reservations.unfreeze_coin
  unfreeze_coin_fails db h = in_session_reports env _ _ db (unfreeze_reservation-SavedIs db) h
