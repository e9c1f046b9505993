-- ===== src/Finance/Service/Escrows/Refunding.antt =====
-- What `refund_escrow` does: a held escrow goes back to the client.
use rent_a_girlfriend.Prelude.{
  ℕ, ◌+◌, String, ℤ, pos, ◌≡◌, refl, ap, sym, ◌∙◌, subst, true, [], ◌∷◌, ◌++◌, Memᴰ,
}
use rent_a_girlfriend.Table.Rows.{upsert, IsFresh, NoClash}
use rent_a_girlfriend.Finance.Vo.{refunded, is_held, TransactionType, ok, money}
use rent_a_girlfriend.Finance.Events.{escrow_refunded}
use rent_a_girlfriend.Finance.Wallet.{Wallet}
use rent_a_girlfriend.Finance.Escrow.{Escrow}
use rent_a_girlfriend.Finance.Transaction.{success}
use rent_a_girlfriend.Finance.Action.{EscrowModel, Store, Session, in_session}
use rent_a_girlfriend.Finance.Action.Yields.{
  Yields-weaken, Yields-attempt, Yields, Yields-bind, Yields-gets, Yields-lift, Yields-pure,
  Yields-returned,
}
use rent_a_girlfriend.Finance.Action.Sessions.{begin, in_session_ok}
use rent_a_girlfriend.Finance.Repositories.{
  Environment, wallet_id, user_id, escrow_id, booking_id, transaction_id, to_model, escrow_to_model,
  find_transaction_by_reference_id,
}
use rent_a_girlfriend.Finance.Ledger.{
  IsValid, coins, with_wallet, with_escrow, with_transaction, with_events,
}
use rent_a_girlfriend.Finance.Ledger.Accounts.{Moved, Moved-of_same_wallets}
use rent_a_girlfriend.Finance.Steps.{
  Yields-save_wallet, Yields-save_escrow, Yields-save_transaction, Yields-publish_all,
}
use rent_a_girlfriend.Finance.Steps.Rows.{HasEscrow, Yields-found_escrow}
use rent_a_girlfriend.Finance.Service.Wallets.Opening.{HasWallet, Yields-get_or_create}
use rent_a_girlfriend.Finance.Escrow
use rent_a_girlfriend.Finance.Escrow.Statuses.{refund_ok}
use rent_a_girlfriend.Finance.Wallet
use rent_a_girlfriend.Finance.Service.Reservations.Freezing.{money_ok}
use rent_a_girlfriend.Finance.Service.Reservations.Marking.{reservation_of}
use rent_a_girlfriend.Finance.Service.Escrows.{
  refund_escrow, find_refund, pay_refund, resolve_if_missing,
}
use rent_a_girlfriend.Finance.Service.Escrows.Closing.{
  closed-coins, closed-IsValid, deposited-Moved,
}

-- The held escrow of the booking `b` is refunded: `u` gets `n` coins.
pub record Refunded (b u k : String) (row : EscrowModel) (n : ℕ) (db db' : Store) : Type 0 where
  pub valid : IsValid db'
  pub stored : Memᴰ row db.escrows
  pub booking : row.booking_id ≡ b
  pub was_held : is_held row.status ≡ true
  pub moved : Moved u n 0 0 0 db db'
  pub escrows : db'.escrows ≡ upsert escrow_id (record row { status = refunded }) db.escrows
  pub same_coins : coins db' + row.amount ≡ coins db + n
  pub logged :
      db'.transactions
      ≡ upsert transaction_id
          (record {
            transaction_id = k;
            user_id = u;
            amount = n;
            type = TransactionType.refund;
            status = success;
            reference_id = b;
          })
          db.transactions
  pub published :
      db'.outbox
      ≡ db.outbox
        ++ escrow_refunded (record { booking_id = b; client_id = u; refund_amount = n }) ∷ []

module _ (env : Environment) (wid k b : String) where
  refund-Refunded :
      (u : String) (d : Store) (x : Escrow) (w : Wallet) (db : Store) (x' : Escrow) (n : ℕ)
      → IsValid d
      → HasEscrow b x d
      → HasWallet d u w db
      → NoClash escrow_id booking_id (escrow_to_model x') db.escrows
      → NoClash wallet_id user_id (to_model (Wallet.deposit n w)) db.wallets
      → Escrow.refund u n x ≡ ok x'
      → Refunded b u k (escrow_to_model x) n d (
          with_events x'.events (
            with_transaction
              (record {
                transaction_id = k;
                user_id = u;
                amount = n;
                type = TransactionType.refund;
                status = success;
                reference_id = b;
              })
              (with_wallet (Wallet.deposit n w) (with_escrow x' db))))
  unfolding with_events with_transaction with_escrow with_wallet escrow_to_model
  refund-Refunded u d x w db x' n v hx h clash clash' ep =
      let (was, x'_is) = refund_ok u n x x' ep in
      let moved : Moved u n 0 0 0 d (with_wallet (Wallet.deposit n w) db) = deposited-Moved u n h in
      record {
        valid = closed-IsValid db h.valid x' (Wallet.deposit n w) _ _ clash clash';
        stored = hx.stored;
        booking = hx.booking;
        was_held = was;
        moved =
            Moved-of_same_wallets u n 0 0 0 d (with_wallet (Wallet.deposit n w) db) _ refl moved;
        escrows = rw (h.same_escrows, x'_is) refl;
        same_coins =
            closed-coins b x x' d (with_wallet (Wallet.deposit n w) (with_escrow x' db)) u n v hx
              (ap (λ (y : Escrow). y.escrow_id) x'_is) was
              (ap (λ (y : Escrow). is_held y.status) x'_is)
              (Moved-of_same_wallets u n 0 0 0 d (with_wallet (Wallet.deposit n w) db) _ refl moved)
              (ap (upsert escrow_id _) h.same_escrows);
        logged = ap (upsert transaction_id _) h.same_transactions;
        published = rw (h.same_outbox, x'_is, hx.no_events, hx.booking) refl;
      }

  pay_refund-Yields :
      (x : Escrow) (u : String) (amount : ℤ) (s : Session)
      → IsValid s.now
      → IsFresh wallet_id wid s.now.wallets
      → HasEscrow b x s.now
      → Yields
          (λ k' s'.
            (k' ≡ k)
            × ((row : EscrowModel) × (n : ℕ) × (amount ≡ pos n)
                × Refunded b u k row n s.now s'.now))
          (pay_refund env wid k b x u amount)
          s
  unfolding pay_refund with_escrow escrow_to_model
  pay_refund-Yields x u amount s v fresh hx = Yields-lift (money amount) λ n en.
      Yields-lift (Escrow.refund u n x) λ x' ep. Yields-get_or_create env wid u _ v fresh λ w db h.
        Yields-save_escrow env x' _ λ clash. Yields-save_wallet env _ _ λ clash'.
          Yields-save_transaction env _ _ (
            Yields-publish_all env x'.events _ (
              Yields-pure k (
                refl,
                (
                  escrow_to_model x,
                  n,
                  money_ok amount n en,
                  refund-Refunded u s.now x w db x' n v hx h clash clash' ep,
                ),
              )))

module _ (env : Environment) (wid k b client : String) (amount : ℤ) where
  find_refund-Yields :
      (s : Session)
      → Yields
          (λ p s'.
            (s' ≡ s)
            × HasEscrow b p.0 s.now
            × ((p.1, p.2) ≡ resolve_if_missing client amount (reservation_of env b s.now)))
          (find_refund env b client amount)
          s
  unfolding find_refund find_transaction_by_reference_id
  find_refund-Yields s =
      Yields-found_escrow env b _ _ λ x hx. Yields-gets _ _ (Yields-pure _ (refl, hx, refl))

  refund_escrow-Yields :
      (s : Session)
      → IsValid s.now
      → IsFresh wallet_id wid s.now.wallets
      → Yields
          (λ k' s'.
            (k' ≡ k)
            × ((row : EscrowModel) × (u : String) × (n : ℕ) × (resolve_if_missing client amount
                    (reservation_of env b s.now)
                  ≡ (u, pos n))
                × Refunded b u k row n s.now s'.now))
          (refund_escrow env wid k b client amount)
          s
  unfolding refund_escrow
  refund_escrow-Yields s v fresh =
      Yields-bind _ (Yields-attempt _ _ (find_refund-Yields s)) λ p s' q.
        let (same, hx, found) = q in
        Yields-attempt _ _ (
          subst (Yields _ _) (sym same) (
            Yields-weaken _ (pay_refund-Yields env wid k b p.0 p.1 p.2 s v fresh hx) (λ k' s₁ r.
              let (row, n, e, done) = r.1 in
              (r.0, (row, p.1, n, sym found ∙ ap (λ z. (p.1, z)) e, done)))))

  -- On a database within its constraints, with an unused id for a new wallet:
  -- a refund that returns has refunded the held escrow of the booking, to the client and by the
  -- amount of the request, or of the booking's reservation where the request has none: the amount
  -- is added to the client's available coins, nobody else's move, the constraints are kept, one
  -- transaction is logged and one event published. All coins together change by the difference of
  -- the refund and the escrow's amount.
  pub refund_escrow_pays :
      (db : Store) {k' : String} {db' : Store}
      → IsValid db
      → IsFresh wallet_id wid db.wallets
      → in_session (refund_escrow env wid k b client amount) db ≡ (ok k', db')
      → (k' ≡ k)
        × ((row : EscrowModel) × (u : String) × (n : ℕ) × (resolve_if_missing client amount
                (reservation_of env b db)
              ≡ (u, pos n))
            × Refunded b u k row n db db')
  refund_escrow_pays db {k'} {db'} v fresh h =
      let (s, run, end) = in_session_ok _ db h in
      let (same, (row, u, n, e, r)) =
        Yields-returned _ _ (refund_escrow-Yields (begin db) v fresh) run in
      (same, (row, u, n, e, subst (Refunded b u k row n db) end r))
