-- ===== src/Finance/Service/Topups/Redelivery.antt =====
-- The same callback of the payment gateway, delivered again.
use rent_a_girlfriend.Finance.Action.{gets, pure, Session}
use rent_a_girlfriend.Finance.Action.Sessions.{begin, run-bind, in_session-run}
use rent_a_girlfriend.Prelude.{
  ◌∙◌, false≢true, false≢true, is_empty, ◌==◌, String, ◌≡◌, refl, sym, ap, subst, true, false, some,
  Memᴰ,
}
use rent_a_girlfriend.Table.Reads.{first_of_mem}
use rent_a_girlfriend.Table.Rows.{IsFresh, mem-upsert_self}
use rent_a_girlfriend.Finance.Vo.{ok}
use rent_a_girlfriend.Finance.Transaction.{Transaction, is_pending, succeed, fail}
use rent_a_girlfriend.Finance.Action.{gets, Store, in_session}
use rent_a_girlfriend.Finance.Repositories.{
  Environment, wallet_id, transaction_id, find_transaction_by_id,
}
use rent_a_girlfriend.Finance.Ledger.{IsValid, with_transaction, with_transaction-IsValid}
use rent_a_girlfriend.Finance.Vnpay.{Params, get, validate_ipn_signature}
use rent_a_girlfriend.Finance.Service.Topups.{
  IpnResponse, already_confirmed, process_vnpay_ipn, settle_found, settle, find_order,
}
use rent_a_girlfriend.Finance.Service.Topups.Callbacks.{
  IpnOutcome, refused, unknown, repeated, mismatched, credited, rejected, process_vnpay_ipn_outcome,
}

module _ (env : Environment) (params : Params) where
  find-again :
      (db : Store) (t : Transaction)
      → IsValid db
      → Memᴰ t db.transactions
      → is_empty t.transaction_id ≡ false
      → find_order env (some t.transaction_id) (begin db) ≡ (ok (some t), begin db)
  unfolding find_order find_transaction_by_id gets
  find-again db t v mem is_named = rw is_named (
      ap (λ o. (ok o, begin db))
        (first_of_mem env.transactions transaction_id t db.transactions t.transaction_id
          v.transaction_ids mem refl))

  settle-again :
      (wid : String) (t : Transaction) (s : Session)
      → is_pending t.status ≡ false
      → settle_found env wid params (some t) s ≡ (ok already_confirmed, s)
  unfolding settle_found settle pure
  settle-again wid t s done = rw done refl

  already_done :
      (wid : String) (db : Store) (t : Transaction)
      → IsValid db
      → Memᴰ t db.transactions
      → is_pending t.status ≡ false
      → validate_ipn_signature env params ≡ true
      → get "vnp_TxnRef" params ≡ some t.transaction_id
      → is_empty t.transaction_id ≡ false
      → in_session (process_vnpay_ipn env wid params) db ≡ (ok already_confirmed, db)
  unfolding process_vnpay_ipn
  already_done wid db t v mem done signed named is_named =
      in_session-run (process_vnpay_ipn env wid params) db {s = begin db} (
        rw (signed, named)
          (run-bind (find_order env (some t.transaction_id)) (settle_found env wid params)
              (begin db) (find-again db t v mem is_named)
            ∙ settle-again wid t (begin db) done))

  again :
      (wid : String) (db : Store) {r : IpnResponse} {db' : Store}
      → IsValid db
      → (r.rsp_code == "00") ≡ true
      → IpnOutcome env params db r db'
      → in_session (process_vnpay_ipn env wid params) db' ≡ (ok already_confirmed, db')
  unfolding succeed fail with_transaction
  again wid db v e (refused u) = absurd (false≢true e)
  again wid db v e (unknown s n) = absurd (false≢true e)
  again wid db v e (repeated t s m d) = absurd (false≢true e)
  again wid db v e (mismatched t s m) = absurd (false≢true e)
  again wid db v e (credited t db' s m c done) =
      already_done wid db' (succeed t) done.valid
        (subst (λ ts. Memᴰ (succeed t) ts) (sym done.logged)
          (mem-upsert_self transaction_id (succeed t) db.transactions))
        refl s m.order.named m.order.is_named
  again wid db v e (rejected t s m c) =
      already_done wid (with_transaction (fail t) db) (fail t)
        (with_transaction-IsValid db v (fail t))
        (mem-upsert_self transaction_id (fail t) db.transactions) refl s m.order.named
        m.order.is_named

  -- On a database within its constraints, with an unused id for a new wallet:
  -- after a callback that was answered with the code 00, the same callback is answered as already
  -- confirmed, and changes nothing: a payment is credited at most once.
  pub process_vnpay_ipn_twice :
      (wid wid' : String) (db : Store) {r : IpnResponse} {db' : Store}
      → IsValid db
      → IsFresh wallet_id wid db.wallets
      → in_session (process_vnpay_ipn env wid params) db ≡ (ok r, db')
      → (r.rsp_code == "00") ≡ true
      → in_session (process_vnpay_ipn env wid' params) db' ≡ (ok already_confirmed, db')
  process_vnpay_ipn_twice wid wid' db v fresh h e =
      again wid' db v e (process_vnpay_ipn_outcome env wid params db v fresh h)
