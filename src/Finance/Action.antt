-- ===== src/Finance/Action.antt =====
-- What a method of the finance service does to its database session: it returns or raises, and what
-- it has written so far stays in the session until `rollback`. `saved` is what the last commit left.
pub mod Preserves
pub mod Yields
pub mod Sessions
use rent_a_girlfriend.Prelude.{ℕ, String, List, Option, none, some}
use rent_a_girlfriend.Finance.Vo.{EscrowStatus, Error, Result, ok, err}
use rent_a_girlfriend.Finance.Events.{DomainEvent}
use rent_a_girlfriend.Finance.Transaction.{Transaction}

-- The rows of persistence/models.py; a transaction's row has the fields of the transaction.
pub record WalletModel : Type 0 where
  pub wallet_id : String
  pub user_id : String
  pub available_balance : ℕ
  pub frozen_balance : ℕ

pub record EscrowModel : Type 0 where
  pub escrow_id : String
  pub booking_id : String
  pub amount : ℕ
  pub status : EscrowStatus

-- The tables; the outbox keeps the events themselves, oldest first.
pub record Store : Type 0 where
  pub wallets : List WalletModel
  pub escrows : List EscrowModel
  pub transactions : List Transaction
  pub outbox : List DomainEvent

pub record Session : Type 0 where
  pub saved : Store
  pub now : Store

abbrev pub Action : Type 0 → Type 0
Action A = Session → Result A × Session

module _ {A : Type 0} where
  unfoldable pub pure : A → Action A
  pure a s = (ok a, s)

  unfoldable pub raise : Error → Action A
  raise e s = (err e, s)

  unfoldable pub lift : Result A → Action A
  lift r s = (r, s)

  unfoldable pub gets : (Store → A) → Action A
  gets f s = (ok (f s.now), s)

  unfoldable pub or_raise : Error → Option A → Action A
  unfolding pure raise
  or_raise e none = raise e
  or_raise e (some a) = pure a

infixl 5 ◌>>=◌ ◌>>◌
-- Opening this opens the ways to end a method too.
unfoldable pub ◌>>=◌ : {A B : Type 0} → Action A → (A → Action B) → Action B
unfolding pure raise lift gets or_raise
◌>>=◌ m f s = let (r, s') = m s in elim r [ ok a ↦ f a s' | err e ↦ (err e, s') ]

abbrev pub ◌>>◌ : {A B : Type 0} → Action A → Action B → Action B
m >> k = m >>= λ _. k

-- `session.rollback()`
abbrev pub rollback : Session → Session
rollback s = record s { now = s.saved }

-- `session.commit()`, where it succeeds: a commit that fails is not modelled.
unfoldable pub commit : Action Unit
commit s = (ok tt, record s { saved = s.now })

-- A statement that gives the new store, or `none` where the database refuses it.
unfoldable pub write : (Store → Option Store) → Action Unit
write f s = elim (f s.now) [
  | none ↦ (err Error.database_error, s)
  | some t ↦ (ok tt, record s { now = t })
]

-- `try: m except Exception as e: rollback; handler(e); raise e`, where an exception in the handler
-- is only logged.
unfoldable pub attempt : {A : Type 0} → (Error → Action Unit) → Action A → Action A
attempt handler m s =
    let (r, s') = m s in elim r [ ok a ↦ (ok a, s') | err e ↦ (err e, (handler e (rollback s')).1) ]

-- A request's session: committed if the handler returns, dropped if it raises. What the handler
-- has committed itself stays. The last commit is taken to succeed, like every other.
unfoldable pub in_session : {A : Type 0} → Action A → Store → Result A × Store
in_session m db =
    let (r, s) = m (record { saved = db; now = db }) in
    elim r [ ok a ↦ (ok a, s.now) | err e ↦ (err e, s.saved) ]
