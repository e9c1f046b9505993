-- ===== src/Finance/Service/Conserving.antt =====
-- The requests that conserve the coins, whatever they answer.
use rent_a_girlfriend.Prelude.{
  ◌≢◌, negsuc, zero, suc, false≢true, ℕ, ◌+◌, ◌<◌, String, ℤ, pos, ◌-ℤ◌, ◌≡◌, refl, ap, sym, ◌∙◌,
  subst, true, false, Option, none, some, Memᴰ, arith,
}
use rent_a_girlfriend.Table.Rows.{upsert, IsFresh}
use rent_a_girlfriend.Finance.Vo.{is_held, TransactionType}
use rent_a_girlfriend.Finance.Transaction.{Transaction}
use rent_a_girlfriend.Finance.Action.{EscrowModel, Store, in_session}
use rent_a_girlfriend.Finance.Repositories.{Environment, wallet_id, escrow_id, booking_id}
use rent_a_girlfriend.Finance.Ledger.{IsValid, coins}
use rent_a_girlfriend.Prelude.{All, All-mem, ◌<◌}
use rent_a_girlfriend.Table.Rows.{All-upsert, mem_unique}
use rent_a_girlfriend.Finance.Ledger.Conservation.{
  IsFunded, IsFundedRow, Conserves, Conserves-refl, Moved-Conserves, reported-Conserves,
  in_session-ends,
}
use rent_a_girlfriend.Finance.Service.Reservations
use rent_a_girlfriend.Finance.Service.Reservations.{transfer_to_escrow}
use rent_a_girlfriend.Finance.Service.Reservations.Freezing.{
  freeze_coin_reserves, freeze_coin_fails,
}
use rent_a_girlfriend.Finance.Service.Reservations.Unfreezing.{
  unfreeze_coin_releases, unfreeze_coin_fails,
}
use rent_a_girlfriend.Finance.Service.Reservations.Moving.{
  transfer_to_escrow_holds, transfer_to_escrow_fails,
}
use rent_a_girlfriend.Finance.Service.Escrows.{
  process_payout, refund_escrow, resolve_if_missing, resolve_refund,
}
use rent_a_girlfriend.Finance.Service.Escrows.Paying.{process_payout_releases, process_payout_fails}
use rent_a_girlfriend.Finance.Service.Escrows.Refunding.{refund_escrow_pays}
use rent_a_girlfriend.Finance.Service.Escrows.RefundFailing.{refund_escrow_fails}

-- Closing an escrow for the amount that it held.
closing-Conserves :
    (row closed : EscrowModel) (n : ℕ) (db db' : Store)
    → IsValid db'
    → IsFunded db
    → is_held closed.status ≡ false
    → db'.escrows ≡ upsert escrow_id closed db.escrows
    → coins db' + row.amount ≡ coins db + n
    → n ≡ row.amount
    → Conserves db db'
closing-Conserves row closed n db db' v f shut e c same = record {
  valid = v;
  funded = subst (All IsFundedRow) (sym e) (
      All-upsert escrow_id IsFundedRow closed db.escrows f
        (λ h. absurd (false≢true (sym shut ∙ h))));
  same_coins = omega (arith, c, same);
}

without_commission : (a : ℕ) (c : ℤ) (n : ℕ) → some c ≡ some (pos 0) → pos n ≡ pos a -ℤ c → n ≡ a
unfolding ◌-ℤ◌
without_commission a (pos m) n p q = ground arith
without_commission a (negsuc m) n p q = cc

-- A positive amount is not looked up in the reservation.
pub resolved_amount :
    (client : String) (a : ℕ) (o : Option Transaction) (u : String) (n : ℕ)
    → 0 < a
    → resolve_if_missing client (pos a) o ≡ (u, pos n)
    → n ≡ a
unfolding resolve_if_missing resolve_refund
resolved_amount client a none u n p h = ground arith
resolved_amount client a (some t) u n p h = ground arith

module _ (env : Environment) (db : Store) (v : IsValid db) (f : IsFunded db) where
  pub freeze_coin-Conserves :
      (wid k u : String) (amount : ℤ) (b : String) (ty : TransactionType)
      → IsFresh wallet_id wid db.wallets
      → Conserves db (in_session (Reservations.freeze_coin env wid k u amount b ty) db).1
  freeze_coin-Conserves wid k u amount b ty fresh =
      in_session-ends _ db (Conserves db)
        (λ k' db' h.
          let (_, (n, _, r)) = freeze_coin_reserves env wid k u amount b ty db v fresh h in
          Moved-Conserves u 0 n n 0 db db' r.valid f r.moved r.escrows (omega arith))
        (λ e db' h.
          subst (Conserves db) (sym (freeze_coin_fails env wid k u amount b ty db h))
            (reported-Conserves env _ db v f))

  pub unfreeze_coin-Conserves :
      (k u : String) (amount : ℤ) (b : String)
      → Conserves db (in_session (Reservations.unfreeze_coin env k u amount b) db).1
  unfreeze_coin-Conserves k u amount b =
      in_session-ends _ db (Conserves db)
        (λ k' db' h.
          let (_, (n, _, r)) = unfreeze_coin_releases env k u amount b db v h in
          Moved-Conserves u n 0 0 n db db' r.valid f r.moved r.escrows (omega arith))
        (λ e db' h.
          subst (Conserves db) (sym (unfreeze_coin_fails env k u amount b db h))
            (reported-Conserves env _ db v f))

  pub transfer_to_escrow-Conserves :
      (x k u : String) (amount : ℤ) (b : String)
      → IsFresh escrow_id x db.escrows
      → amount ≢ pos 0
      → Conserves db (in_session (transfer_to_escrow env x k u amount b) db).1
  transfer_to_escrow-Conserves x k u amount b fresh some_coins =
      in_session-ends _ db (Conserves db)
        (λ x' db' h.
          let (_, (n, e, r)) = transfer_to_escrow_holds env x k u amount b db v fresh h in
          record {
            valid = r.valid;
            funded =
                subst (All IsFundedRow) (sym r.escrows)
                  (All-upsert escrow_id IsFundedRow _ db.escrows f (λ _. positive n e));
            same_coins = r.same_coins;
          })
        (λ e db' h.
          subst (Conserves db) (sym (transfer_to_escrow_fails env x k u amount b db h))
            (reported-Conserves env _ db v f))
    where
      positive : (n : ℕ) → amount ≡ pos n → 0 < n
      positive zero e = absurd (some_coins e)
      positive (suc n) e = omega arith

  -- A payout without commission.
  pub process_payout-Conserves :
      (wid k b u : String)
      → IsFresh wallet_id wid db.wallets
      → Conserves db (in_session (process_payout env wid k b u env.zero_rate) db).1
  process_payout-Conserves wid k b u fresh =
      in_session-ends _ db (Conserves db)
        (λ k' db' h.
          let (_, (row, c, n, round, r)) =
            process_payout_releases env wid k b u env.zero_rate db v fresh h in
          closing-Conserves row _ n db db' r.valid f refl r.escrows r.same_coins (
            without_commission row.amount c n (sym round ∙ env.round_product_zero row.amount)
              r.net))
        (λ e db' h.
          subst (Conserves db) (sym (process_payout_fails env wid k b u env.zero_rate db h))
            (Conserves-refl db v f))

  -- A refund of what the booking's escrow holds.
  pub refund_escrow-Conserves :
      (wid k b client : String) (x : EscrowModel)
      → IsFresh wallet_id wid db.wallets
      → Memᴰ x db.escrows
      → x.booking_id ≡ b
      → is_held x.status ≡ true
      → Conserves db (in_session (refund_escrow env wid k b client (pos x.amount)) db).1
  refund_escrow-Conserves wid k b client x fresh mem e was =
      in_session-ends _ db (Conserves db)
        (λ k' db' h.
          let (_, (row, u, n, resolved, r)) =
            refund_escrow_pays env wid k b client (pos x.amount) db v fresh h in
          let same : row ≡ x =
            mem_unique booking_id row x db.escrows v.booking_ids r.stored mem (r.booking ∙ sym e) in
          closing-Conserves row _ n db db' r.valid f refl r.escrows r.same_coins (
            resolved_amount client x.amount _ u n (All-mem IsFundedRow db.escrows f mem was)
              resolved
            ∙ ap (λ (m : EscrowModel). m.amount) (sym same)))
        (λ err' db' h.
          let (u, q) = refund_escrow_fails env wid k b client (pos x.amount) db h in
          subst (Conserves db) (sym q) (reported-Conserves env _ db v f))
