-- ===== src/Finance/Service/Reservations/Freezing.antt =====
-- What `freeze_coin` does when it returns: the reservation of a booking's price.
use rent_a_girlfriend.Finance.Service.Wallets.{nil_uuid}
use rent_a_girlfriend.Finance.Steps.Saved.{
  in_session_reports, in_session_returns, saved_rules, reported, SavedIs,
}
use rent_a_girlfriend.Finance.Action.Sessions.{begin}
use rent_a_girlfriend.Finance.Action.Preserves.{Preserves}
use rent_a_girlfriend.Prelude.{
  subst, or_else, ℕ, String, ℤ, pos, ◌≡◌, refl, ap, [], ◌∷◌, ◌++◌, arith,
}
use rent_a_girlfriend.Table.Rows.{upsert, IsFresh, NoClash}
use rent_a_girlfriend.Finance.Vo.{Error, err, TransactionType, ok, money}
use rent_a_girlfriend.Finance.Events.{coins_freeze_failed, coins_frozen}
use rent_a_girlfriend.Finance.Wallet.{Wallet, freeze_coin}
use rent_a_girlfriend.Finance.Wallet.Balances.{freeze_coin_ok}
use rent_a_girlfriend.Finance.Transaction.{pending}
use rent_a_girlfriend.Finance.Action.{in_session, Store, Session}
use rent_a_girlfriend.Finance.Action.Yields.{Yields, Yields-lift, Yields-pure}
use rent_a_girlfriend.Finance.Repositories.{
  Environment, wallet_id, user_id, transaction_id, to_model,
}
use rent_a_girlfriend.Finance.Ledger.{
  IsValid, with_wallet, with_transaction, with_events, with_wallet-IsValid,
  with_transaction-IsValid, with_events-IsValid,
}
use rent_a_girlfriend.Finance.Ledger.Accounts.{Moved, Moved-of_same_wallets}
use rent_a_girlfriend.Finance.Steps.{
  Yields-save_wallet, Yields-save_transaction, Yields-publish_all,
}
use rent_a_girlfriend.Finance.Service.Wallets.Opening.{
  get_or_create-SavedIs, HasWallet, with_opened_wallet-Moved, Yields-get_or_create,
}
use rent_a_girlfriend.Finance.Service.Reservations
use rent_a_girlfriend.Finance.Service.Reservations.{freeze_reservation}

-- `n` coins of `u` are frozen for the booking `b`, in the transaction `k`.
pub record Reserved (u b k : String) (ty : TransactionType) (n : ℕ) (db db' : Store) : Type 0 where
  pub valid : IsValid db'
  pub moved : Moved u 0 n n 0 db db'
  pub escrows : db'.escrows ≡ db.escrows
  pub logged :
      db'.transactions
      ≡ upsert transaction_id
          (record {
            transaction_id = k;
            user_id = u;
            amount = n;
            type = ty;
            status = pending;
            reference_id = b;
          })
          db.transactions
  pub wallet : String
  pub published :
      db'.outbox
      ≡ db.outbox
        ++ coins_frozen (record { wallet_id = wallet; user_id = u; amount = n; booking_id = b })
          ∷ []

pub money_ok : (z : ℤ) (n : ℕ) → money z ≡ ok n → z ≡ pos n
unfolding money
money_ok z n h = ground arith

module _ (env : Environment) (wid k u : String) (amount : ℤ) (b : String)
    (ty : TransactionType) where
  reserved :
      {d : Store} (w : Wallet) (db : Store) (w' : Wallet) (n : ℕ)
      → HasWallet d u w db
      → NoClash wallet_id user_id (to_model w') db.wallets
      → freeze_coin n b w ≡ ok w'
      → Reserved u b k ty n d (
          with_events w'.events (
            with_transaction
              (record {
                transaction_id = k;
                user_id = u;
                amount = n;
                type = ty;
                status = pending;
                reference_id = b;
              })
              (with_wallet w' db)))
  unfolding with_events with_transaction with_wallet
  reserved {d} w db w' n h c ew =
      let (o, a, f, e) = freeze_coin_ok n b w w' ew in
      record {
        valid =
            with_events-IsValid _
              (with_transaction-IsValid _ (with_wallet-IsValid db h.valid w' c) _) w'.events;
        moved =
            Moved-of_same_wallets u 0 n n 0 d (with_wallet w' db) _ refl
              (with_opened_wallet-Moved u 0 n n 0 w' h o (omega arith) (omega arith));
        escrows = h.same_escrows;
        logged = ap (upsert transaction_id _) h.same_transactions;
        wallet = w.wallet_id;
        published = rw (h.same_outbox, e, h.no_events, h.owner) refl;
      }

  pub freeze_reservation-Yields :
      (s : Session)
      → IsValid s.now
      → IsFresh wallet_id wid s.now.wallets
      → Yields
          (λ k' s'.
            (k' ≡ k)
            × (s'.saved ≡ s.saved)
            × ((n : ℕ) × (amount ≡ pos n) × Reserved u b k ty n s.now s'.now))
          (freeze_reservation env wid k u amount b ty)
          s
  unfolding freeze_reservation
  freeze_reservation-Yields s v fresh = Yields-get_or_create env wid u _ v fresh λ w db h.
      Yields-lift (money amount) λ n en. Yields-lift (freeze_coin n b w) λ w' ew.
        Yields-save_wallet env w' _ λ c. Yields-save_transaction env _ _ (
          Yields-publish_all env w'.events _
            (Yields-pure k (refl, refl, (n, money_ok amount n en, reserved w db w' n h c ew))))

module _ (env : Environment) (wid k u : String) (amount : ℤ) (b : String)
    (ty : TransactionType) where
  freeze_reservation-SavedIs :
      (db : Store) → Preserves (SavedIs db) (freeze_reservation env wid k u amount b ty)
  unfolding freeze_reservation
  freeze_reservation-SavedIs db = search (saved_rules, get_or_create-SavedIs) depth 20

  -- On a database within its constraints, with an unused id for a new wallet:
  -- a freeze that returns has the amount of the request, which is not negative, moved from the
  -- user's available to the user's frozen coins, moves nobody else's, keeps the constraints, leaves
  -- the escrows alone, logs one pending transaction and publishes one event.
  pub freeze_coin_reserves :
      (db : Store) {k' : String} {db' : Store}
      → IsValid db
      → IsFresh wallet_id wid db.wallets
      → in_session (Reservations.freeze_coin env wid k u amount b ty) db ≡ (ok k', db')
      → (k' ≡ k) × ((n : ℕ) × (amount ≡ pos n) × Reserved u b k ty n db db')
  unfolding Reservations.freeze_coin
  freeze_coin_reserves db {k'} {db'} v fresh h =
      let (s, q, end) =
        in_session_returns env _ _ db
          (freeze_reservation-Yields env wid k u amount b ty (begin db) v fresh) h in
      let (n, e, r) = q.2 in (q.0, (n, e, subst (Reserved u b k ty n db) end r))

  -- A freeze that raises leaves the database as it was, but for one event that reports the error.
  pub freeze_coin_fails :
      (db : Store) {e : Error} {db' : Store}
      → in_session (Reservations.freeze_coin env wid k u amount b ty) db ≡ (err e, db')
      → db'
        ≡ reported env
            (coins_freeze_failed (record {
              booking_id = b;
              user_id = or_else u nil_uuid;
              amount = amount;
              reason = e;
            }))
            db
  unfolding Reservations.freeze_coin
  freeze_coin_fails db h = in_session_reports env _ _ db (freeze_reservation-SavedIs db) h
