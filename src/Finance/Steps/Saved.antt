-- ===== src/Finance/Steps/Saved.antt =====
-- The repositories' calls, and what is built from them, leave alone what the last commit saved.
use rent_a_girlfriend.Finance.Action.Yields.{Yields-returned, Yields}
use rent_a_girlfriend.Finance.Action.Sessions.{
  attempt_err, attempt_ok, in_session_ok, in_session_err, begin,
}
use rent_a_girlfriend.Finance.Ledger.{with_events}
use rent_a_girlfriend.Prelude.{
  ◌∙◌, sym, if◌then◌else◌, arith, Bool, true, false, refl, ap, sym, ◌∙◌, ◌≡◌, List, [], ◌∷◌, String,
}
use rent_a_girlfriend.Finance.Vo.{Result, encode_error, ok, err, Error, TransactionType}
use rent_a_girlfriend.Finance.Events.{DomainEvent}
use rent_a_girlfriend.Finance.Wallet.{Wallet}
use rent_a_girlfriend.Finance.Escrow.{Escrow}
use rent_a_girlfriend.Finance.Transaction.{Transaction}
use rent_a_girlfriend.Finance.Action.{
  attempt, in_session, Action, ◌>>◌, commit, ◌>>=◌, Store, Session,
}
use rent_a_girlfriend.Finance.Action.Preserves.{
  Preserves-bind, Preserves, Preserves-write, Preserves-gets, preserves_rules,
}
use rent_a_girlfriend.Finance.Repositories.{
  Environment, save_wallet, save_escrow, save_transaction, publish, publish_all,
  find_wallet_by_user_id, find_escrow_by_booking_id, find_transaction_by_id,
  find_transaction_by_reference_id,
}

abbrev pub SavedIs : Store → Session → Type 0
SavedIs db s = s.saved ≡ db

module _ (env : Environment) (db : Store) where
  pub save_wallet-SavedIs : (w : Wallet) → Preserves (SavedIs db) (save_wallet env w)
  unfolding save_wallet
  save_wallet-SavedIs w = Preserves-write _ (λ s t h _. h)

  pub save_escrow-SavedIs : (x : Escrow) → Preserves (SavedIs db) (save_escrow env x)
  unfolding save_escrow
  save_escrow-SavedIs x = Preserves-write _ (λ s t h _. h)

  pub save_transaction-SavedIs : (t : Transaction) → Preserves (SavedIs db) (save_transaction env t)
  unfolding save_transaction
  save_transaction-SavedIs t = Preserves-write _ (λ s t h _. h)

  pub publish-SavedIs : (e : DomainEvent) → Preserves (SavedIs db) (publish env e)
  unfolding publish
  publish-SavedIs e = record { after = λ s h. ground (arith, h) }

  pub publish_all-SavedIs : (es : List DomainEvent) → Preserves (SavedIs db) (publish_all env es)
  unfolding publish_all
  publish_all-SavedIs [] = search preserves_rules
  publish_all-SavedIs (e ∷ es) =
      Preserves-bind _ _ (publish-SavedIs e) (λ _. publish_all-SavedIs es)

  pub find_wallet-SavedIs : (u : String) → Preserves (SavedIs db) (find_wallet_by_user_id env u)
  unfolding find_wallet_by_user_id
  find_wallet-SavedIs u = Preserves-gets _

  pub find_escrow-SavedIs : (b : String) → Preserves (SavedIs db) (find_escrow_by_booking_id env b)
  unfolding find_escrow_by_booking_id
  find_escrow-SavedIs b = Preserves-gets _

  pub find_transaction-SavedIs :
      (k : String) → Preserves (SavedIs db) (find_transaction_by_id env k)
  unfolding find_transaction_by_id
  find_transaction-SavedIs k = Preserves-gets _

  pub find_reference-SavedIs :
      (b : String) (ty : TransactionType)
      → Preserves (SavedIs db) (find_transaction_by_reference_id env b ty)
  unfolding find_transaction_by_reference_id
  find_reference-SavedIs b ty = Preserves-gets _

pub ruleset saved_rules = (
  preserves_rules, save_wallet-SavedIs, save_escrow-SavedIs, save_transaction-SavedIs,
  publish_all-SavedIs, find_wallet-SavedIs, find_escrow-SavedIs, find_transaction-SavedIs,
  find_reference-SavedIs,
)

-- `publish` of a failure and `commit`: the event is saved on the old database, if it can be encoded.
abbrev pub reported : Environment → DomainEvent → Store → Store
reported env e db = if env.encodes e then with_events (e ∷ []) db else db

pub saved-report :
    (env : Environment) (e : DomainEvent) (db : Store)
    → ((publish env e >> commit) (begin db)).1.saved ≡ reported env e db
unfolding publish ◌>>=◌ commit with_events
saved-report env e db = next (env.encodes e)
  where
    next :
        (b : Bool)
        → (((λ s'.
                if b
                then (ok tt, record s' { now = with_events (e ∷ []) s'.now })
                else (err encode_error, s'))
              >> commit)
            (begin db)).1.saved
          ≡ (if b then with_events (e ∷ []) db else db)
    next true = refl
    next false = refl

module _ (env : Environment) {A : Type 0} where
  -- A handler that reports the error: what a method that raises leaves in the database.
  pub in_session_reports :
      (event : Error → DomainEvent) (m : Action A) (db : Store) {e : Error} {db' : Store}
      → Preserves (SavedIs db) m
      → in_session (attempt (λ e'. publish env (event e') >> commit) m) db ≡ (err e, db')
      → db' ≡ reported env (event e) db
  in_session_reports event m db {e} {db'} k h =
      let (s, run, end) = in_session_err _ db h in
      sym end
      ∙ ap (λ (x : Session). x.saved) (attempt_err _ m db k run)
      ∙ saved-report env (event e) db

  -- A method that returns ends in its own session.
  pub in_session_returns :
      {Q : A → Session → Type 0} (handler : Error → Action Unit) (m : Action A) (db : Store) {a : A}
      {db' : Store}
      → Yields Q m (begin db)
      → in_session (attempt handler m) db ≡ (ok a, db')
      → (s : Session) × Q a s × (s.now ≡ db')
  in_session_returns handler m db y h =
      let (s, run, end) = in_session_ok _ db h in
      (s, Yields-returned _ _ y (attempt_ok handler m (begin db) run), end)

-- A method without a handler that raises changes nothing.
pub in_session_drops :
    {A : Type 0} (m : Action A) (db : Store) {e : Error} {db' : Store}
    → Preserves (SavedIs db) m
    → in_session m db ≡ (err e, db')
    → db' ≡ db
in_session_drops {A = A} m db k h =
    let (s, run, end) = in_session_err m db h in
    sym end ∙ sym (ap (λ (p : Result A × Session). p.1.saved) run) ∙ k.after (begin db) refl
