-- ===== src/Finance/Steps/Running.antt =====
-- Running the repositories' calls where nothing refuses them.
use rent_a_girlfriend.Prelude.{
  Option, String, ◌≡◌, refl, sym, ap, ◌∙◌, true, some, List, [], ◌∷◌, Memᴰ, All-of_mem,
}
use mathlib.Core.Option
use rent_a_girlfriend.Table.Rows.{NoClash, IsDistinct, mem_unique}
use rent_a_girlfriend.Table.Reads.{first_of_mem}
use rent_a_girlfriend.Finance.Vo.{Error, Result, ok}
use rent_a_girlfriend.Finance.Events.{DomainEvent}
use rent_a_girlfriend.Finance.Wallet.{Wallet}
use rent_a_girlfriend.Finance.Transaction.{Transaction}
use rent_a_girlfriend.Finance.Action.{
  Action, WalletModel, Store, Session, attempt, write, gets, pure,
}
use rent_a_girlfriend.Finance.Action.Sessions.{begin, run-bind}
use rent_a_girlfriend.Finance.Repositories.{
  Environment, wallet_id, user_id, to_model, to_domain, save_wallet, save_transaction, publish,
  publish_all, find_wallet_by_user_id,
}
use rent_a_girlfriend.Finance.Ledger.{IsValid, with_wallet, with_transaction, with_events}
use rent_a_girlfriend.Finance.Service.Wallets.{get_or_create_wallet, use_or_create}
use rent_a_girlfriend.Finance.Escrow.{Escrow}
use rent_a_girlfriend.Finance.Action.{EscrowModel}
use rent_a_girlfriend.Finance.Repositories.{
  escrow_id, booking_id, escrow_to_model, escrow_to_domain, save_escrow, find_escrow_by_booking_id,
}
use rent_a_girlfriend.Finance.Ledger.{with_escrow}

-- A row's own constraints do not clash with the row in its place.
pub own-NoClash :
    {R : Type 0} (key unique : R → String) (t : List R) (old new : R)
    → IsDistinct unique t
    → Memᴰ old t
    → key new ≡ key old
    → unique new ≡ unique old
    → NoClash key unique new t
own-NoClash key unique t old new d m k u =
    All-of_mem _ t
      (λ q n other same. other (ap key (mem_unique unique q old t d n m (same ∙ u)) ∙ sym k))

module _ (env : Environment) (all_encode : (e : DomainEvent) → env.encodes e ≡ true) where
  publish-run :
      (e : DomainEvent) (s : Session)
      → publish env e s ≡ (ok tt, record s { now = with_events (e ∷ []) s.now })
  unfolding publish with_events
  publish-run e s = rw (all_encode e) refl

  pub publish_one-run :
      (e : DomainEvent) (s : Session)
      → publish_all env (e ∷ []) s ≡ (ok tt, record s { now = with_events (e ∷ []) s.now })
  unfolding publish_all pure
  publish_one-run e s = run-bind (publish env e) (λ _. pure tt) s (publish-run e s)

pub write-run :
    (f : Store → Option Store) (s : Session) {t : Store}
    → f s.now ≡ some t
    → write f s ≡ (ok tt, record s { now = t })
unfolding write
write-run f s e = ap (λ o. write (λ _. o) s) e

module _ (env : Environment) where
  pub find_wallet-run :
      (m : WalletModel) (db : Store)
      → IsValid db
      → Memᴰ m db.wallets
      → find_wallet_by_user_id env m.user_id (begin db) ≡ (ok (some (to_domain m)), begin db)
  unfolding find_wallet_by_user_id gets
  find_wallet-run m db v mem =
      ap (λ o. (ok (Option.map to_domain o), begin db))
        (first_of_mem env.wallets user_id m db.wallets m.user_id v.user_ids mem refl)

  pub found-run :
      (wid : String) (m : WalletModel) (db : Store)
      → IsValid db
      → Memᴰ m db.wallets
      → get_or_create_wallet env wid m.user_id (begin db) ≡ (ok (to_domain m), begin db)
  unfolding get_or_create_wallet use_or_create pure
  found-run wid m db v mem =
      run-bind (find_wallet_by_user_id env m.user_id) (use_or_create env wid m.user_id) (begin db)
        (find_wallet-run m db v mem)

  pub save_wallet-run :
      (w : Wallet) (s : Session)
      → env.wallets.accepts (to_model w) ≡ true
      → NoClash wallet_id user_id (to_model w) s.now.wallets
      → save_wallet env w s ≡ (ok tt, record s { now = with_wallet w s.now })
  unfolding save_wallet with_wallet write
  save_wallet-run w s a c =
      write-run
        (λ db.
          Option.map (λ t. record db { wallets = t }) (env.wallets.merge (to_model w) db.wallets))
        s
        (ap (Option.map (λ t. record s.now { wallets = t }))
          (env.wallets.merge_accepts (to_model w) s.now.wallets a c))

  pub save_transaction-run :
      (t : Transaction) (s : Session)
      → env.transactions.accepts t ≡ true
      → save_transaction env t s ≡ (ok tt, record s { now = with_transaction t s.now })
  unfolding save_transaction with_transaction write
  save_transaction-run t s a =
      write-run
        (λ db.
          Option.map (λ ts. record db { transactions = ts })
            (env.transactions.merge t db.transactions))
        s
        (ap (Option.map (λ ts. record s.now { transactions = ts })) (
          env.transactions.merge_accepts t s.now.transactions a
            (All-of_mem _ s.now.transactions (λ q n other. other))))

  pub save_escrow-run :
      (x : Escrow) (s : Session)
      → env.escrows.accepts (escrow_to_model x) ≡ true
      → NoClash escrow_id booking_id (escrow_to_model x) s.now.escrows
      → save_escrow env x s ≡ (ok tt, record s { now = with_escrow x s.now })
  unfolding save_escrow with_escrow
  save_escrow-run x s a c =
      write-run
        (λ db.
          Option.map (λ t. record db { escrows = t })
            (env.escrows.merge (escrow_to_model x) db.escrows))
        s
        (ap (Option.map (λ t. record s.now { escrows = t }))
          (env.escrows.merge_accepts (escrow_to_model x) s.now.escrows a c))

  pub find_escrow-run :
      (m : EscrowModel) (db : Store)
      → IsValid db
      → Memᴰ m db.escrows
      → find_escrow_by_booking_id env m.booking_id (begin db)
        ≡ (ok (some (escrow_to_domain m)), begin db)
  unfolding find_escrow_by_booking_id gets
  find_escrow-run m db v mem =
      ap (λ o. (ok (Option.map escrow_to_domain o), begin db))
        (first_of_mem env.escrows booking_id m db.escrows m.booking_id v.booking_ids mem refl)

pub attempt-run :
    {A : Type 0} (handler : Error → Action Unit) (m : Action A) (s : Session) {a : A} {s' : Session}
    → m s ≡ (ok a, s')
    → attempt handler m s ≡ (ok a, s')
unfolding attempt
attempt-run {A} handler m s e = ap (λ (p : Result A × Session). attempt handler (λ _. p) s) e
