-- ===== src/Finance/Steps.antt =====
-- Running the repositories' calls inside a method: each rule goes on in the session that the call
-- leaves.
pub mod Rows
pub mod Running
pub mod Saved
use rent_a_girlfriend.Prelude.{
  String, ◌≡◌, refl, ap, sym, ◌∙◌, subst, Bool, true, false, Option, none, some, List, [], ◌∷◌,
  append_assoc, if◌then◌else◌,
}
use mathlib.Core.Option
use mathlib.Core.Option.{some-injective}
use mathlib.Core.List.{append-nil}
use rent_a_girlfriend.Table.{Table}
use rent_a_girlfriend.Table.Rows.{upsert, NoClash}
use rent_a_girlfriend.Finance.Vo.{ok, err, encode_error}
use rent_a_girlfriend.Finance.Events.{DomainEvent}
use rent_a_girlfriend.Finance.Wallet.{Wallet}
use rent_a_girlfriend.Finance.Escrow.{Escrow}
use rent_a_girlfriend.Finance.Transaction.{Transaction}
use rent_a_girlfriend.Finance.Action.{Store, Session, Action, ◌>>=◌, write, pure}
use rent_a_girlfriend.Finance.Action.Yields.{Yields, Ensures, Yields-write, Yields-assoc}
use rent_a_girlfriend.Finance.Repositories.{
  Environment, wallet_id, user_id, escrow_id, booking_id, to_model, escrow_to_model, save_wallet,
  save_escrow, save_transaction, publish, publish_all,
}
use rent_a_girlfriend.Finance.Ledger.{with_wallet, with_escrow, with_transaction, with_events}

module _ (env : Environment) {B : Type 0} {Q : B → Session → Type 0} where
  -- A merge that the database takes has put the row in place, and has broken no constraint.
  Yields-merge :
      {R : Type 0} {key unique : R → String} (T : Table key unique) (r : R) (rows : Store → List R)
      (put : Store → List R → Store) (f : Unit {0} → Action B) {s : Session}
      → (NoClash key unique r (rows s.now)
          → Yields Q (f tt) (record s { now = put s.now (upsert key r (rows s.now)) }))
      → Yields Q (write (λ db. Option.map (put db) (T.merge r (rows db))) >>= f) s
  Yields-merge {key} T r rows put f {s} h =
      Yields-write _ f (λ t e. wrote t (T.merge r (rows s.now)) refl e)
    where
      wrote :
          (t : Store) (o : Option (List _))
          → T.merge r (rows s.now) ≡ o
          → Option.map (put s.now) o ≡ some t
          → Yields Q (f tt) (record s { now = t })
      wrote t none m e = cc
      wrote t (some ts) m e =
          let (u, c) = T.merge_some r (rows s.now) ts m in
          subst (λ t'. Yields Q (f tt) (record s { now = t' }))
            (ap (put s.now) (sym u) ∙ some-injective _ _ e) (h c)

  pub Yields-save_wallet :
      (w : Wallet) (f : Unit {0} → Action B) {s : Session}
      → (NoClash wallet_id user_id (to_model w) s.now.wallets
          → Yields Q (f tt) (record s { now = with_wallet w s.now }))
      → Yields Q (save_wallet env w >>= f) s
  unfolding save_wallet with_wallet
  Yields-save_wallet w f h =
      Yields-merge env.wallets (to_model w) (λ db. db.wallets) (λ db ts. record db { wallets = ts })
        f h

  pub Yields-save_escrow :
      (x : Escrow) (f : Unit {0} → Action B) {s : Session}
      → (NoClash escrow_id booking_id (escrow_to_model x) s.now.escrows
          → Yields Q (f tt) (record s { now = with_escrow x s.now }))
      → Yields Q (save_escrow env x >>= f) s
  unfolding save_escrow with_escrow
  Yields-save_escrow x f h =
      Yields-merge env.escrows (escrow_to_model x) (λ db. db.escrows)
        (λ db ts. record db { escrows = ts }) f h

  pub Yields-save_transaction :
      (t : Transaction) (f : Unit {0} → Action B) {s : Session}
      → Yields Q (f tt) (record s { now = with_transaction t s.now })
      → Yields Q (save_transaction env t >>= f) s
  unfolding save_transaction with_transaction
  Yields-save_transaction t f h =
      Yields-merge env.transactions t (λ db. db.transactions)
        (λ db ts. record db { transactions = ts }) f (λ _. h)

  Yields-publish :
      (e : DomainEvent) (f : Unit {0} → Action B) {s : Session}
      → Yields Q (f tt) (record s { now = with_events (e ∷ []) s.now })
      → Yields Q (publish env e >>= f) s
  unfolding publish with_events ◌>>=◌
  Yields-publish e f {s} h = record { outcome = next (env.encodes e) }
    where
      next :
          (b : Bool)
          → Ensures Q (
              ((λ s'.
                    if b
                    then (ok tt, record s' { now = with_events (e ∷ []) s'.now })
                    else (err encode_error, s'))
                  >>= f)
                s)
      next true = h.outcome
      next false = tt

  -- Publishing appends to the outbox.
  pub Yields-publish_all :
      (es : List DomainEvent) (f : Unit {0} → Action B) {s : Session}
      → Yields Q (f tt) (record s { now = with_events es s.now })
      → Yields Q (publish_all env es >>= f) s
  unfolding publish_all with_events
  Yields-publish_all [] f {s} h = record {
    outcome =
        subst (λ o. Ensures Q ((pure tt >>= f) (record s { now = record s.now { outbox = o } })))
          (append-nil s.now.outbox) (unfold ◌>>=◌ in h.outcome);
  }
  Yields-publish_all (e ∷ es) f {s} h =
      Yields-assoc (publish env e) (λ _. publish_all env es) f
        (Yields-publish e (λ _. publish_all env es >>= f)
          (Yields-publish_all es f (
            subst (λ o. Yields Q (f tt) (record s { now = record s.now { outbox = o } }))
              (sym (append_assoc s.now.outbox (e ∷ []) es)) h)))
