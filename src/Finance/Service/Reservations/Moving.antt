-- ===== src/Finance/Service/Reservations/Moving.antt =====
-- What `transfer_to_escrow` does: the reserved coins go from the client's wallet to a new escrow.
use rent_a_girlfriend.Prelude.{
  ℕ, String, ℤ, pos, ◌≡◌, refl, subst, Bool, true, false, Option, none, some, [], ◌∷◌, ◌++◌, arith,
  or_else, if◌then◌else◌,
}
use rent_a_girlfriend.Table.Rows.{upsert, IsFresh, NoClash, total-upsert_new}
use rent_a_girlfriend.Finance.Vo.{held, is_held, Error, ok, err, money}
use rent_a_girlfriend.Finance.Events.{escrow_created, escrow_failed}
use rent_a_girlfriend.Finance.Wallet.{Wallet}
use rent_a_girlfriend.Finance.Wallet.Balances.{deduct_frozen_ok}
use rent_a_girlfriend.Finance.Escrow.{Escrow}
use rent_a_girlfriend.Finance.Action.{Action, Store, Session, in_session, ◌>>=◌, pure, raise}
use rent_a_girlfriend.Finance.Action.Preserves.{Preserves}
use rent_a_girlfriend.Finance.Action.Yields.{Ensures, Yields, Yields-gets, Yields-lift, Yields-pure}
use rent_a_girlfriend.Finance.Action.Sessions.{begin}
use rent_a_girlfriend.Finance.Repositories.{
  Environment, wallet_id, user_id, escrow_id, booking_id, to_model, escrow_to_model,
  find_escrow_by_booking_id, find_transaction_by_reference_id,
}
use rent_a_girlfriend.Finance.Ledger.{
  IsValid, coins, held_amount, with_wallet, with_escrow, with_transaction, with_events,
  with_wallet-IsValid, with_escrow-IsValid, with_transaction-IsValid, with_events-IsValid,
}
use rent_a_girlfriend.Finance.Ledger.Accounts.{Moved, Moved-of_same_wallets}
use rent_a_girlfriend.Finance.Steps.{
  Yields-save_wallet, Yields-save_escrow, Yields-save_transaction, Yields-publish_all,
}
use rent_a_girlfriend.Finance.Steps.Saved.{
  SavedIs, saved_rules, reported, in_session_returns, in_session_reports,
}
use rent_a_girlfriend.Finance.Steps.Rows.{Yields-found_wallet}
use rent_a_girlfriend.Finance.Service.Wallets.{nil_uuid}
use rent_a_girlfriend.Finance.Service.Wallets.Opening.{HasWallet, with_opened_wallet-Moved}
use rent_a_girlfriend.Finance.Service.Reservations.Freezing.{money_ok}
use rent_a_girlfriend.Finance.Service.Reservations.{
  transfer_to_escrow, move_to_escrow, reservation_done, refuse_held,
}
use rent_a_girlfriend.Finance.Service.Reservations.Marking.{
  SettledReservation, reservation_of, settled,
}
use rent_a_girlfriend.Finance.Wallet
use rent_a_girlfriend.Finance.Escrow

-- `n` frozen coins of `u` are held in the escrow `x` of the booking `b`.
pub record Escrowed (u b x k : String) (n : ℕ) (db db' : Store) : Type 0 where
  pub valid : IsValid db'
  pub moved : Moved u 0 0 0 n db db'
  pub escrows :
      db'.escrows
      ≡ upsert escrow_id
          (record { escrow_id = x; booking_id = b; amount = n; status = held })
          db.escrows
  pub same_coins : coins db' ≡ coins db
  pub logged : SettledReservation u b k n db.transactions db'.transactions
  pub published :
      db'.outbox ≡ db.outbox ++ escrow_created (record { booking_id = b; amount = n }) ∷ []

-- A held escrow of the booking ends the method, any other changes nothing.
module _ {B : Type 0} {Q : B → Session → Type 0} where
  Yields-refuse_held :
      (b : String) (o : Option Escrow) (f : Unit {0} → Action B) {s : Session}
      → Yields Q (f tt) s
      → Yields Q (refuse_held b o >>= f) s
  unfolding refuse_held ◌>>=◌
  Yields-refuse_held b none f h = record { outcome = h.outcome }
  Yields-refuse_held b (some y) f {s} h = record { outcome = next (is_held y.status) }
    where
      next :
          (t : Bool)
          → Ensures Q (((if t then raise (Error.escrow_already_exists b) else pure tt) >>= f) s)
      next true = tt
      next false = h.outcome

refuse_held-SavedIs :
    (db : Store) (b : String) (o : Option Escrow) → Preserves (SavedIs db) (refuse_held b o)
unfolding refuse_held
refuse_held-SavedIs db b none = search saved_rules
refuse_held-SavedIs db b (some y) = search saved_rules

module _ (env : Environment) (x k u : String) (amount : ℤ) (b : String) where
  escrowed :
      {d : Store} (w : Wallet) (w' : Wallet) (n : ℕ)
      → HasWallet d u w d
      → IsFresh escrow_id x d.escrows
      → NoClash wallet_id user_id (to_model w') d.wallets
      → NoClash escrow_id booking_id (escrow_to_model (Escrow.create x b n)) d.escrows
      → Wallet.deduct_frozen n w ≡ ok w'
      → Escrowed u b x k n d (
          with_events (Escrow.create x b n).events (
            with_transaction
              (reservation_done k u n b (reservation_of env b d))
              (with_escrow (Escrow.create x b n) (with_wallet w' d))))
  unfolding with_events with_transaction with_escrow with_wallet Escrow.create escrow_to_model
  escrowed {d} w w' n h fresh c c' ew =
      let (same, a, f) = deduct_frozen_ok n "" w w' ew in
      let moved : Moved u 0 0 0 n d (with_wallet w' d) =
        with_opened_wallet-Moved u 0 0 0 n w' h same (omega arith) (omega arith) in
      record {
        valid =
            with_events-IsValid _
              (with_transaction-IsValid _
                (with_escrow-IsValid _ (with_wallet-IsValid d h.valid w' c) (Escrow.create x b n)
                  c')
                _)
              _;
        moved = Moved-of_same_wallets u 0 0 0 n d (with_wallet w' d) _ refl moved;
        escrows = refl;
        same_coins = omega (
          arith,
          moved.of_all,
          total-upsert_new escrow_id held_amount (escrow_to_model (Escrow.create x b n)) d.escrows
              fresh,
        );
        logged = settled env u b k n d;
        published = refl;
      }

  move_to_escrow-Yields :
      (s : Session)
      → IsValid s.now
      → IsFresh escrow_id x s.now.escrows
      → Yields
          (λ x' s'. (x' ≡ x) × ((n : ℕ) × (amount ≡ pos n) × Escrowed u b x k n s.now s'.now))
          (move_to_escrow env x k u amount b)
          s
  unfolding move_to_escrow find_escrow_by_booking_id find_transaction_by_reference_id with_wallet
  move_to_escrow-Yields s v fresh = Yields-found_wallet env u _ _ v λ w h.
      Yields-lift (money amount) λ n en. Yields-gets _ _ (
        Yields-refuse_held b _ _ (
          Yields-lift (Wallet.deduct_frozen n w) λ w' ew. Yields-gets _ _ (
            Yields-save_wallet env w' _ λ c. Yields-save_escrow env _ _ λ c'.
              Yields-save_transaction env _ _ (
                Yields-publish_all env _ _ (
                  Yields-pure x
                    (refl, (n, money_ok amount n en, escrowed w w' n h fresh c c' ew)))))))

  move_to_escrow-SavedIs : (db : Store) → Preserves (SavedIs db) (move_to_escrow env x k u amount b)
  unfolding move_to_escrow
  move_to_escrow-SavedIs db = search (saved_rules, refuse_held-SavedIs) depth 20

  -- On a database within its constraints, with an unused id for the escrow:
  -- a transfer that returns has the amount of the request, which is not negative, taken from the
  -- client's frozen coins and held in a new escrow of the booking; nobody else's coins move and
  -- their sum stays, and the constraints are kept. In the log, one stored transaction that has the
  -- booking as its reference and the type of a reservation is marked as a success, or, if there is
  -- none, such a transaction of the client and the amount is logged as a success; and one event is
  -- published.
  pub transfer_to_escrow_holds :
      (db : Store) {x' : String} {db' : Store}
      → IsValid db
      → IsFresh escrow_id x db.escrows
      → in_session (transfer_to_escrow env x k u amount b) db ≡ (ok x', db')
      → (x' ≡ x) × ((n : ℕ) × (amount ≡ pos n) × Escrowed u b x k n db db')
  unfolding transfer_to_escrow
  transfer_to_escrow_holds db {x'} {db'} v fresh h =
      let (s, q, end) =
        in_session_returns env _ _ db (move_to_escrow-Yields (begin db) v fresh) h in
      let (n, e, r) = q.1 in (q.0, (n, e, subst (Escrowed u b x k n db) end r))

  -- A transfer that raises leaves the database as it was, but for one event that reports the error.
  pub transfer_to_escrow_fails :
      (db : Store) {e : Error} {db' : Store}
      → in_session (transfer_to_escrow env x k u amount b) db ≡ (err e, db')
      → db'
        ≡ reported env
            (escrow_failed (record { booking_id = b; client_id = or_else u nil_uuid; reason = e }))
            db
  unfolding transfer_to_escrow
  transfer_to_escrow_fails db h = in_session_reports env _ _ db (move_to_escrow-SavedIs db) h
