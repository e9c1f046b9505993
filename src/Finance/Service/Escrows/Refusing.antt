-- ===== src/Finance/Service/Escrows/Refusing.antt =====
-- When `process_payout` raises: without a held escrow of the booking that covers the commission.
use rent_a_girlfriend.Prelude.{
  ℕ, String, ℤ, pos, ◌-ℤ◌, ◌≡◌, refl, sym, ap, ◌∙◌, subst, true, some, Memᴰ, false≢true,
}
use rent_a_girlfriend.Table.Rows.{IsFresh, mem_unique, mem-upsert_self}
use rent_a_girlfriend.Finance.Vo.{paid_out, is_held, Error, Result, ok, err}
use rent_a_girlfriend.Finance.Action.{EscrowModel, Store, in_session}
use rent_a_girlfriend.Finance.Repositories.{Environment, wallet_id, booking_id, escrow_id}
use rent_a_girlfriend.Finance.Ledger.{IsValid}
use rent_a_girlfriend.Finance.Service.Escrows.{process_payout}
use rent_a_girlfriend.Finance.Service.Escrows.Paying.{
  PaidOut, process_payout_releases, process_payout_fails,
}

-- A held escrow of the booking `b` covers the commission at the given rate.
pub record IsPayable (env : Environment) (b : String) (rate : env.Rate) (db : Store) : Type 0 where
  pub row : EscrowModel
  pub stored : Memᴰ row db.escrows
  pub booking : row.booking_id ≡ b
  pub waiting : is_held row.status ≡ true
  pub commission : ℤ
  pub rounded : env.round_product row.amount rate ≡ some commission
  pub net : ℕ
  pub covered : pos net ≡ pos row.amount -ℤ commission

module _ (env : Environment) (wid k b u : String) (rate : env.Rate) where
  -- On a database within its constraints, with an unused id for a new wallet:
  -- a payout raises and changes nothing, unless the database has a held escrow of the booking, the
  -- commission on its amount can be computed, and it is at most that amount.
  pub process_payout_refuses :
      (db : Store)
      → IsValid db
      → IsFresh wallet_id wid db.wallets
      → ¬ IsPayable env b rate db
      → (e : Error) × (in_session (process_payout env wid k b u rate) db ≡ (err e, db))
  process_payout_refuses db v fresh denied =
      ended (in_session (process_payout env wid k b u rate) db) refl
    where
      ended :
          (p : Result String × Store)
          → in_session (process_payout env wid k b u rate) db ≡ p
          → (e : Error) × (p ≡ (err e, db))
      ended (ok k', db') h =
          let (same, (row, c, n, rounded, r)) =
            process_payout_releases env wid k b u rate db v fresh h in
          absurd (
            denied (record {
              row = row;
              stored = r.stored;
              booking = r.booking;
              waiting = r.was_held;
              commission = c;
              rounded = rounded;
              net = n;
              covered = r.net;
            }))
      ended (err e, db') h =
          (e, ap (λ d. (err e, d)) (process_payout_fails env wid k b u rate db h))

module _ (env : Environment) (wid k b u : String) (rate : env.Rate) where
  -- After a payout, no held escrow of the booking is left.
  closed_by_payout :
      (rate' : env.Rate) (row : EscrowModel) (c : ℤ) (n : ℕ) (db db' : Store)
      → PaidOut b u k row c n db db'
      → ¬ IsPayable env b rate' db'
  closed_by_payout rate' row c n db db' r p =
      let paid : EscrowModel = record row { status = paid_out } in
      let stored : Memᴰ paid db'.escrows =
        subst (Memᴰ paid) (sym r.escrows) (mem-upsert_self escrow_id paid db.escrows) in
      let same : p.row ≡ paid =
        mem_unique booking_id p.row paid db'.escrows r.valid.booking_ids p.stored stored
          (p.booking ∙ sym r.booking) in
      false≢true (sym (ap (λ (x : EscrowModel). is_held x.status) same) ∙ p.waiting)

  -- On a database within its constraints, with unused ids for new wallets:
  -- after a payout of a booking that returned, every further payout of that booking, to whomever and
  -- at whatever rate, raises and changes nothing.
  pub process_payout_twice :
      (wid' k' u' : String) (rate' : env.Rate) (db : Store) {x : String} {db' : Store}
      → IsValid db
      → IsFresh wallet_id wid db.wallets
      → in_session (process_payout env wid k b u rate) db ≡ (ok x, db')
      → IsFresh wallet_id wid' db'.wallets
      → (e : Error) × (in_session (process_payout env wid' k' b u' rate') db' ≡ (err e, db'))
  process_payout_twice wid' k' u' rate' db {x} {db'} v fresh h fresh' =
      let (same, (row, c, n, rounded, r)) =
        process_payout_releases env wid k b u rate db v fresh h in
      process_payout_refuses env wid' k' b u' rate' db' r.valid fresh'
        (closed_by_payout rate' row c n db db' r)
