-- ===== src/Finance/Service/Escrows/Paying.antt =====
-- What `process_payout` does: a held escrow goes to the companion, less the commission.
use rent_a_girlfriend.Prelude.{
  ℕ, ◌+◌, String, ℤ, pos, ◌-ℤ◌, ◌≡◌, refl, ap, sym, ◌∙◌, subst, true, some, [], ◌∷◌, ◌++◌, Memᴰ,
}
use rent_a_girlfriend.Table.Rows.{upsert, IsFresh, NoClash}
use rent_a_girlfriend.Finance.Vo.{paid_out, is_held, TransactionType, Error, ok, err, money}
use rent_a_girlfriend.Finance.Events.{payout_processed}
use rent_a_girlfriend.Finance.Wallet.{Wallet}
use rent_a_girlfriend.Finance.Escrow.{Escrow}
use rent_a_girlfriend.Finance.Transaction.{success}
use rent_a_girlfriend.Finance.Action.{EscrowModel, Store, Session, in_session}
use rent_a_girlfriend.Finance.Action.Preserves.{Preserves}
use rent_a_girlfriend.Finance.Action.Yields.{Yields, Yields-lift, Yields-pure, Yields-returned}
use rent_a_girlfriend.Finance.Action.Sessions.{begin, in_session_ok}
use rent_a_girlfriend.Finance.Repositories.{
  Environment, wallet_id, user_id, escrow_id, booking_id, transaction_id, to_model, escrow_to_model,
}
use rent_a_girlfriend.Finance.Ledger.{
  IsValid, coins, with_wallet, with_escrow, with_transaction, with_events,
}
use rent_a_girlfriend.Finance.Ledger.Accounts.{Moved, Moved-of_same_wallets}
use rent_a_girlfriend.Finance.Steps.{
  Yields-save_wallet, Yields-save_escrow, Yields-save_transaction, Yields-publish_all,
}
use rent_a_girlfriend.Finance.Steps.Saved.{in_session_drops, SavedIs, saved_rules}
use rent_a_girlfriend.Finance.Steps.Rows.{HasEscrow, Yields-found_escrow}
use rent_a_girlfriend.Finance.Service.Wallets.Opening.{
  HasWallet, Yields-get_or_create, get_or_create-SavedIs,
}
use rent_a_girlfriend.Finance.Escrow
use rent_a_girlfriend.Finance.Escrow.Statuses.{payout_ok}
use rent_a_girlfriend.Finance.Wallet
use rent_a_girlfriend.Finance.Service.Reservations.Freezing.{money_ok}
use rent_a_girlfriend.Finance.Service.Escrows.{process_payout}
use rent_a_girlfriend.Finance.Service.Escrows.Closing.{
  deposited-Moved, closed-coins, closed-IsValid,
}

-- The held escrow of the booking `b` is paid out to `u`: `n` coins, less than its amount by the
-- commission `c`.
pub record PaidOut (b u k : String) (row : EscrowModel) (c : ℤ) (n : ℕ) (db db' : Store)
    : Type 0 where
  pub valid : IsValid db'
  pub stored : Memᴰ row db.escrows
  pub booking : row.booking_id ≡ b
  pub was_held : is_held row.status ≡ true
  pub net : pos n ≡ pos row.amount -ℤ c
  pub moved : Moved u n 0 0 0 db db'
  pub escrows : db'.escrows ≡ upsert escrow_id (record row { status = paid_out }) db.escrows
  pub same_coins : coins db' + row.amount ≡ coins db + n
  pub logged :
      db'.transactions
      ≡ upsert transaction_id
          (record {
            transaction_id = k;
            user_id = u;
            amount = n;
            type = TransactionType.escrow_release;
            status = success;
            reference_id = b;
          })
          db.transactions
  pub published :
      db'.outbox
      ≡ db.outbox
        ++ payout_processed (record {
          booking_id = b;
          companion_id = u;
          amount = row.amount;
          commission_amount = c;
          net_amount = pos n;
        })
          ∷ []

module _ (env : Environment) (wid k b u : String) (rate : env.Rate) where
  payout-PaidOut :
      (d : Store) (x : Escrow) (w : Wallet) (db : Store) (x' : Escrow) (c net : ℤ) (n : ℕ)
      → IsValid d
      → HasEscrow b x d
      → HasWallet d u w db
      → NoClash escrow_id booking_id (escrow_to_model x') db.escrows
      → NoClash wallet_id user_id (to_model (Wallet.deposit n w)) db.wallets
      → Escrow.payout u (λ m. env.round_product m rate) x ≡ ok (c, net, x')
      → net ≡ pos n
      → PaidOut b u k (escrow_to_model x) c n d (
          with_events x'.events (
            with_transaction
              (record {
                transaction_id = k;
                user_id = u;
                amount = n;
                type = TransactionType.escrow_release;
                status = success;
                reference_id = b;
              })
              (with_wallet (Wallet.deposit n w) (with_escrow x' db))))
  unfolding with_events with_transaction with_escrow with_wallet escrow_to_model
  payout-PaidOut d x w db x' c net n v hx h clash clash' ep en =
      let (was, round, net_is, x'_is) = payout_ok u _ x x' c net ep in
      let moved : Moved u n 0 0 0 d (with_wallet (Wallet.deposit n w) db) = deposited-Moved u n h in
      record {
        valid = closed-IsValid db h.valid x' (Wallet.deposit n w) _ _ clash clash';
        stored = hx.stored;
        booking = hx.booking;
        was_held = was;
        net = sym en ∙ net_is;
        moved =
            Moved-of_same_wallets u n 0 0 0 d (with_wallet (Wallet.deposit n w) db) _ refl moved;
        escrows = rw (h.same_escrows, x'_is) refl;
        same_coins =
            closed-coins b x x' d (with_wallet (Wallet.deposit n w) (with_escrow x' db)) u n v hx
              (ap (λ (y : Escrow). y.escrow_id) x'_is) was
              (ap (λ (y : Escrow). is_held y.status) x'_is)
              (Moved-of_same_wallets u n 0 0 0 d (with_wallet (Wallet.deposit n w) db) _ refl moved)
              (ap (upsert escrow_id _) h.same_escrows);
        logged = ap (upsert transaction_id _) h.same_transactions;
        published = rw (h.same_outbox, x'_is, hx.no_events, hx.booking, sym net_is, en) refl;
      }

  process_payout-Yields :
      (s : Session)
      → IsValid s.now
      → IsFresh wallet_id wid s.now.wallets
      → Yields
          (λ k' s'.
            (k' ≡ k)
            × ((row : EscrowModel) × (c : ℤ) × (n : ℕ) × (env.round_product row.amount rate
                  ≡ some c)
                × PaidOut b u k row c n s.now s'.now))
          (process_payout env wid k b u rate)
          s
  unfolding process_payout with_escrow escrow_to_model
  process_payout-Yields s v fresh = Yields-found_escrow env b _ _ λ x hx.
      Yields-lift (Escrow.payout u (λ m. env.round_product m rate) x) λ paid ep.
        Yields-get_or_create env wid u _ v fresh λ w db h. Yields-lift (money paid.1) λ n en.
          Yields-save_escrow env paid.2 _ λ clash. Yields-save_wallet env _ _ λ clash'.
            Yields-save_transaction env _ _ (
              Yields-publish_all env paid.2.events _ (
                Yields-pure k (
                  refl,
                  (
                    escrow_to_model x,
                    paid.0,
                    n,
                    (payout_ok u _ x paid.2 paid.0 paid.1 ep).1,
                    payout-PaidOut s.now x w db paid.2 paid.0 paid.1 n v hx h clash clash' ep
                        (money_ok paid.1 n en),
                  ),
                )))

  process_payout-SavedIs : (db : Store) → Preserves (SavedIs db) (process_payout env wid k b u rate)
  unfolding process_payout
  process_payout-SavedIs db = search (saved_rules, get_or_create-SavedIs) depth 20

  -- On a database within its constraints, with an unused id for a new wallet:
  -- a payout that returns has paid out the held escrow of the booking: its amount less the rounded
  -- commission, a difference that is not negative, is added to the companion's available coins, so that all
  -- coins together change by that commission; nobody else's coins move, the constraints are kept, one
  -- transaction is logged and one event published.
  pub process_payout_releases :
      (db : Store) {k' : String} {db' : Store}
      → IsValid db
      → IsFresh wallet_id wid db.wallets
      → in_session (process_payout env wid k b u rate) db ≡ (ok k', db')
      → (k' ≡ k)
        × ((row : EscrowModel) × (c : ℤ) × (n : ℕ) × (env.round_product row.amount rate ≡ some c)
            × PaidOut b u k row c n db db')
  process_payout_releases db {k'} {db'} v fresh h =
      let (s, run, end) = in_session_ok _ db h in
      let (same, (row, c, n, e, r)) =
        Yields-returned _ _ (process_payout-Yields (begin db) v fresh) run in
      (same, (row, c, n, e, subst (PaidOut b u k row c n db) end r))

  -- A payout that raises changes nothing.
  pub process_payout_fails :
      (db : Store) {e : Error} {db' : Store}
      → in_session (process_payout env wid k b u rate) db ≡ (err e, db')
      → db' ≡ db
  process_payout_fails db h = in_session_drops _ db (process_payout-SavedIs db) h
