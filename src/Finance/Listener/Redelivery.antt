-- ===== src/Finance/Listener/Redelivery.antt =====
-- An early cancellation that Kafka delivers again.
use rent_a_girlfriend.Finance.Service.Escrows.{refund_escrow}
use rent_a_girlfriend.Prelude.{
  ◌⊎◌, ℕ, String, pos, ◌≡◌, refl, sym, ap, ◌∙◌, subst, Bool, true, false, false≢true, inl, inr,
  Option, none, some, is_some, Option-cases, Memᴰ, ◌==◌, ◌&&◌, eq_iff, if◌then◌else◌,
}
use rent_a_girlfriend.Table.Rows.{upsert, IsFresh, mem-upsert_self}
use rent_a_girlfriend.Finance.Vo.{TransactionType, Result, ok, err, same_type, is_held}
use rent_a_girlfriend.Finance.Escrow.{Escrow}
use rent_a_girlfriend.Finance.Transaction.{Transaction, success}
use rent_a_girlfriend.Finance.Action.{Action, Store, Session, in_session, pure, ◌>>=◌, ◌>>◌}
use rent_a_girlfriend.Finance.Action.Sessions.{begin}
use rent_a_girlfriend.Finance.Repositories.{
  Environment, wallet_id, transaction_id, find_escrow_by_booking_id,
  find_transaction_by_reference_id,
}
use rent_a_girlfriend.Finance.Ledger.{IsValid}
use rent_a_girlfriend.Finance.Service.Reservations.Unfreezing.{unfreeze_coin_releases}
use rent_a_girlfriend.Finance.Service.Escrows.Refunding.{refund_escrow_pays}
use rent_a_girlfriend.Finance.Listener.{
  Draws, release_found, release_reservation, give_back_found, give_back, cancel_early, deliver,
}
use rent_a_girlfriend.Finance.Listener.Cancelling.{deliver-gets}

-- What a step that answers with nothing of its own has done.
discarded :
    {A : Type 0} (m : Action A) (db db' : Store)
    → in_session (m >> pure tt) db ≡ (ok tt, db')
    → (a : A) × (in_session m db ≡ (ok a, db'))
unfolding in_session ◌>>=◌
discarded {A} m db db' h = next (m (begin db)) h
  where
    next :
        (p : Result A × Session)
        → in_session ((λ _. p) >> pure tt) db ≡ (ok tt, db')
        → (a : A) × (in_session (λ _. p) db ≡ (ok a, db'))
    next (ok a, s) e = (a, cc)
    next (err x, s) e = cc

-- A refund of the booking is logged.
abbrev is_refund_of : String → Transaction → Bool
is_refund_of b t = t.reference_id == b && same_type t.type TransactionType.refund

abbrev HasRefund : String → Store → Type 0
HasRefund b db = (t : Transaction) × Memᴰ t db.transactions × (is_refund_of b t ≡ true)

-- What a handler has done: a refund is logged, or nothing has changed, nor would another run change
-- anything.
abbrev Ended : String → (Draws → Action Unit) → Store → Store → Type 0
Ended b handler db db' =
    HasRefund b db' ⊎ ((db' ≡ db) × ((again : Draws) → deliver (handler again) db ≡ db))

if-Ended :
    (b : String) (draws : Draws) (t : Bool) (m n : Draws → Action Unit) (db db' : Store)
    → (in_session (m draws) db ≡ (ok tt, db') → Ended b m db db')
    → (in_session (n draws) db ≡ (ok tt, db') → Ended b n db db')
    → in_session (if t then m draws else n draws) db ≡ (ok tt, db')
    → Ended b (λ d. if t then m d else n d) db db'
if-Ended b draws true m n db db' p q h = p h
if-Ended b draws false m n db db' p q h = q h

nothing-Ended :
    (b : String) (db db' : Store)
    → in_session (pure tt) db ≡ (ok tt, db')
    → Ended b (λ _. pure tt) db db'
unfolding in_session pure deliver
nothing-Ended b db db' h = inr (cc, λ _. refl)

logged-HasRefund :
    (b k u : String) (n : ℕ) (db db' : Store)
    → db'.transactions
      ≡ upsert transaction_id
          (record {
            transaction_id = k;
            user_id = u;
            amount = n;
            type = TransactionType.refund;
            status = success;
            reference_id = b;
          })
          db.transactions
    → HasRefund b db'
unfolding same_type
logged-HasRefund b k u n db db' e = (
  _,
  subst (Memᴰ _) (sym e) (mem-upsert_self transaction_id _ db.transactions),
  rw ((eq_iff b b).1 refl) refl,
)

module _ (env : Environment) (b u : String) (draws : Draws) (db db' : Store) (v : IsValid db)
    (fresh : IsFresh wallet_id draws.wallet_id db.wallets) where
  release_found-Ended :
      (o : Option Transaction)
      → in_session (release_found env draws b u o) db ≡ (ok tt, db')
      → Ended b (λ d. release_found env d b u o) db db'
  unfolding release_found
  release_found-Ended none h = nothing-Ended b db db' h
  release_found-Ended (some t) h =
      let (k, e) = discarded _ db db' h in
      let (_, (n, _, r)) = unfreeze_coin_releases env draws.txn_id u (pos t.amount) b db v e in
      inl (logged-HasRefund b _ u n db db' r.logged)

  release_reservation-Ended :
      in_session (release_reservation env draws b u) db ≡ (ok tt, db')
      → Ended b (λ d. release_reservation env d b u) db db'
  unfolding release_reservation find_transaction_by_reference_id in_session ◌>>=◌ deliver
  release_reservation-Ended h = release_found-Ended _ h

  give_back_found-Ended :
      (o : Option Escrow)
      → in_session (give_back_found env draws b u o) db ≡ (ok tt, db')
      → Ended b (λ d. give_back_found env d b u o) db db'
  unfolding give_back_found
  give_back_found-Ended none h = release_reservation-Ended h
  give_back_found-Ended (some x) h =
      if-Ended b draws (is_held x.status)
        (λ d. refund_escrow env d.wallet_id d.txn_id b u (pos x.amount) >> pure tt)
        (λ d. release_reservation env d b u) db db'
        (λ paid.
          let (k, e) = discarded _ db db' paid in
          let (_, (row, client, n, _, r)) =
            refund_escrow_pays env draws.wallet_id draws.txn_id b u (pos x.amount) db v fresh e in
          inl (logged-HasRefund b _ client n db db' r.logged))
        release_reservation-Ended h

  cancel_early-Ended :
      in_session (cancel_early env draws b u) db ≡ (ok tt, db')
      → Ended b (λ d. cancel_early env d b u) db db'
  unfolding cancel_early find_transaction_by_reference_id give_back find_escrow_by_booking_id
      in_session ◌>>=◌ deliver
  cancel_early-Ended h =
      if-Ended b draws (is_some (env.transactions.first (is_refund_of b) db.transactions))
        (λ _. pure tt) (λ d. give_back env d b u) db db' (nothing-Ended b db db')
        (give_back_found-Ended _) h

module _ (env : Environment) (b u : String) where
  finds_refund :
      (db : Store)
      → HasRefund b db
      → is_some (env.transactions.first (is_refund_of b) db.transactions) ≡ true
  finds_refund db (t, mem, is) =
      elim (Option-cases (env.transactions.first (is_refund_of b) db.transactions)) [
        | inl missing ↦
            absurd (false≢true (sym (env.transactions.first_none _ _ t missing mem) ∙ is))
        | inr (r, found) ↦ rw found refl
      ]

  skips :
      (draws : Draws) (db : Store) → HasRefund b db → deliver (cancel_early env draws b u) db ≡ db
  unfolding cancel_early find_transaction_by_reference_id
  skips draws db r =
      deliver-gets _ _ db
      ∙ ap (λ t. deliver (if t then pure tt else give_back env draws b u) db) (finds_refund db r)
      ∙ done
    where
      done : deliver (pure tt) db ≡ db
      done = unfold deliver in_session pure in refl

  -- On a database within its constraints, with an unused id for a new wallet: after an early
  -- cancellation of a booking that was handled without an error, the same cancellation, delivered
  -- again with whatever ids are drawn then, changes nothing: the client gets the coins back once.
  pub cancel_early_twice :
      (draws again : Draws) (db : Store) {db' : Store}
      → IsValid db
      → IsFresh wallet_id draws.wallet_id db.wallets
      → in_session (cancel_early env draws b u) db ≡ (ok tt, db')
      → deliver (cancel_early env again b u) db' ≡ db'
  cancel_early_twice draws again db {db'} v fresh h =
      elim (cancel_early-Ended env b u draws db db' v fresh h) [
        | inl refunded ↦ skips again db' refunded
        | inr (same, quiet) ↦
            subst (λ d. deliver (cancel_early env again b u) d ≡ d) (sym same) (quiet again)
      ]
