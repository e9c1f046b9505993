-- ===== src/Finance/Service/Topups/Callbacks.antt =====
-- The callback of the payment gateway, `process_vnpay_ipn`: what it answers and does in each case.
use rent_a_girlfriend.Prelude.{
  String, ℤ, pos, ◌≡◌, refl, ap, sym, ◌∙◌, subst, true, Option, none, some, [], ◌∷◌, ◌++◌, Memᴰ,
  arith, ◌==◌, is_empty, Bool, div_ℤ, false≢true, ne_of_==-false,
}
use mathlib.Core.Option.{some-injective}
use rent_a_girlfriend.Table.Rows.{upsert, IsFresh}
use rent_a_girlfriend.Finance.Vo.{ok}
use rent_a_girlfriend.Finance.Events.{wallet_topped_up}
use rent_a_girlfriend.Finance.Wallet.{Wallet}
use rent_a_girlfriend.Finance.Transaction.{Transaction, is_pending, succeed, fail}
use rent_a_girlfriend.Finance.Action.{Action, Store, Session, in_session, ◌>>=◌}
use rent_a_girlfriend.Finance.Action.Yields.{
  Yields-if, Yields-if_bind, Yields, Yields-gets, Yields-lift, Yields-pure, Yields-pure_bind,
  Yields-returned, Yields-assoc,
}
use rent_a_girlfriend.Finance.Action.Sessions.{begin, in_session_ok}
use rent_a_girlfriend.Finance.Repositories.{
  Environment, wallet_id, transaction_id, find_transaction_by_id,
}
use rent_a_girlfriend.Finance.Ledger.{
  IsValid, with_wallet, with_transaction, with_events, with_wallet-IsValid,
  with_transaction-IsValid, with_events-IsValid,
}
use rent_a_girlfriend.Finance.Ledger.Accounts.{Moved, Moved-of_same_wallets}
use rent_a_girlfriend.Finance.Steps.{
  Yields-save_wallet, Yields-save_transaction, Yields-publish_all,
}
use rent_a_girlfriend.Finance.Service.Wallets.Opening.{
  with_opened_wallet-Moved, Yields-get_or_create,
}
use rent_a_girlfriend.Prelude.{◌*◌, eq_ℤ, false}
use rent_a_girlfriend.Finance.Vo.{rate_coin_to_vnd}
use rent_a_girlfriend.Finance.Vnpay.{Params, get, validate_ipn_signature}
use rent_a_girlfriend.Finance.Wallet
use rent_a_girlfriend.Finance.Wallet.Balances.{topup_ok}
use rent_a_girlfriend.Table.Reads.{mem_of_first}
use rent_a_girlfriend.Finance.Service.Topups.{
  IpnResponse, confirm_success, invalid_signature, order_not_found, already_confirmed,
  invalid_amount_response, process_vnpay_ipn, settle_found, settle, check_amount, conclude,
  credit_topup, find_order, vnp_amount, is_confirmed,
}

-- The coins of the top-up `t` are credited to its user, for a payment of `vnd`.
pub record Credited (t : Transaction) (vnd : ℤ) (db db' : Store) : Type 0 where
  pub valid : IsValid db'
  pub moved : Moved t.user_id t.amount 0 0 0 db db'
  pub escrows : db'.escrows ≡ db.escrows
  pub logged : db'.transactions ≡ upsert transaction_id (succeed t) db.transactions
  pub wallet : String
  pub published :
      db'.outbox
      ≡ db.outbox
        ++ wallet_topped_up (record {
          wallet_id = wallet;
          user_id = t.user_id;
          amount = t.amount;
          vnpay_amount_vnd = vnd;
        })
          ∷ []

-- The callback names the stored transaction `t`, by an id that is not empty.
pub record Names (params : Params) (t : Transaction) (db : Store) : Type 0 where
  pub stored : Memᴰ t db.transactions
  pub named : get "vnp_TxnRef" params ≡ some t.transaction_id
  pub is_named : is_empty t.transaction_id ≡ false

-- The callback names the stored and pending transaction `t`, and its amount of `cents` is the
-- transaction's if `same` is true, another if it is false.
pub record Matches (env : Environment) (params : Params) (t : Transaction) (db : Store)
    (same : Bool) : Type 0 where
  pub order : Names params t db
  pub waiting : is_pending t.status ≡ true
  pub cents : ℤ
  pub amount : vnp_amount env (get "vnp_Amount" params) ≡ ok cents
  pub same_amount : eq_ℤ cents (pos (rate_coin_to_vnd * t.amount * 100)) ≡ same

-- The answer to a callback and the database after it.
pub data IpnOutcome (env : Environment) (params : Params) (db : Store)
    : IpnResponse → Store → Type 0 where
  refused :
      validate_ipn_signature env params ≡ false → IpnOutcome env params db invalid_signature db
  unknown :
      validate_ipn_signature env params ≡ true
      → ¬ ((t : Transaction) × Names params t db)
      → IpnOutcome env params db order_not_found db
  repeated :
      (t : Transaction)
      → validate_ipn_signature env params ≡ true
      → Names params t db
      → is_pending t.status ≡ false
      → IpnOutcome env params db already_confirmed db
  mismatched :
      (t : Transaction)
      → validate_ipn_signature env params ≡ true
      → Matches env params t db false
      → IpnOutcome env params db invalid_amount_response db
  credited :
      (t : Transaction) (db' : Store)
      → validate_ipn_signature env params ≡ true
      → (m : Matches env params t db true) → is_confirmed (get "vnp_ResponseCode" params) ≡ true
      → Credited t (div_ℤ m.cents 100) db db'
      → IpnOutcome env params db confirm_success db'
  rejected :
      (t : Transaction)
      → validate_ipn_signature env params ≡ true
      → Matches env params t db true
      → is_confirmed (get "vnp_ResponseCode" params) ≡ false
      → IpnOutcome env params db confirm_success (with_transaction (fail t) db)

module _ (env : Environment) (wid : String) (params : Params) where
  credit_topup-Yields :
      {B : Type 0} {Q : B → Session → Type 0} (t : Transaction) (z : ℤ) (f : Unit {0} → Action B)
      {s : Session}
      → IsValid s.now
      → IsFresh wallet_id wid s.now.wallets
      → ((db : Store) → Credited t z s.now db → Yields Q (f tt) (record s { now = db }))
      → Yields Q (credit_topup env wid t z >>= f) s
  unfolding credit_topup with_events with_transaction with_wallet
  credit_topup-Yields t z f {s} v fresh h = Yields-assoc _ _ f (
      Yields-get_or_create env wid t.user_id _ v fresh λ w db hw.
        let (o, a, fr, e) = topup_ok t.amount z w in
        Yields-assoc _ _ f (
          Yields-save_wallet env (Wallet.topup t.amount z w) _ λ c. Yields-assoc _ _ f (
            Yields-save_transaction env (succeed t) _ (
              Yields-publish_all env _ f (
                h _ (record {
                  valid =
                      with_events-IsValid _
                        (with_transaction-IsValid _ (with_wallet-IsValid db hw.valid _ c) _) _;
                  moved =
                      Moved-of_same_wallets t.user_id t.amount 0 0 0 s.now
                        (with_wallet (Wallet.topup t.amount z w) db) _ refl
                        (with_opened_wallet-Moved t.user_id t.amount 0 0 0 _ hw o (omega arith)
                          (omega arith));
                  escrows = hw.same_escrows;
                  logged = ap (upsert transaction_id _) hw.same_transactions;
                  wallet = w.wallet_id;
                  published = rw (hw.same_outbox, e, hw.no_events, hw.owner) refl;
                }))))))

  settle-Yields :
      (t : Transaction) (s : Session)
      → IsValid s.now
      → IsFresh wallet_id wid s.now.wallets
      → validate_ipn_signature env params ≡ true
      → Names params t s.now
      → Yields (λ r s'. IpnOutcome env params s.now r s'.now) (settle env wid params t) s
  unfolding settle check_amount conclude
  settle-Yields t s v fresh signed order =
      Yields-if (is_pending t.status) _ _
        (λ waiting. Yields-lift (vnp_amount env (get "vnp_Amount" params)) λ cents amount.
          let matches : (b : Bool)
              → eq_ℤ cents (pos (rate_coin_to_vnd * t.amount * 100)) ≡ b
              → Matches env params t s.now b =
            λ b e. record {
              order = order;
              waiting = waiting;
              cents = cents;
              amount = amount;
              same_amount = e;
            } in
          Yields-if _ _ _
            (λ same.
              Yields-if_bind _ _ _ _
                (λ paid.
                  credit_topup-Yields t _ _ v fresh
                    λ db c. Yields-pure _ (credited t db signed (matches true same) paid c))
                (λ unpaid.
                  Yields-save_transaction env (fail t) _
                    (Yields-pure _ (rejected t signed (matches true same) unpaid))))
            (λ other. Yields-pure _ (mismatched t signed (matches false other))))
        (λ done. Yields-pure _ (repeated t signed order done))

  unnamed : (t : Transaction) {db : Store} → Names params t db → ¬ (get "vnp_TxnRef" params ≡ none)
  unnamed t n e = let named = n.named in cc

  named_by :
      (t : Transaction) (k : String) {db : Store}
      → Names params t db
      → get "vnp_TxnRef" params ≡ some k
      → t.transaction_id ≡ k
  named_by t k n e = some-injective _ _ (sym n.named ∙ e)

  unnamed_by :
      (t : Transaction) (k : String) {db : Store}
      → Names params t db
      → get "vnp_TxnRef" params ≡ some k
      → ¬ (is_empty k ≡ true)
  unnamed_by t k n e empty = false≢true (sym n.is_named ∙ ap is_empty (named_by t k n e) ∙ empty)

  unstored :
      (t : Transaction) (k : String) {db : Store}
      → Names params t db
      → get "vnp_TxnRef" params ≡ some k
      → ¬ ((t.transaction_id == k) ≡ false)
  unstored t k n e other = ne_of_==-false t.transaction_id k other (named_by t k n e)

  find_order-Yields :
      {B : Type 0} {Q : B → Session → Type 0} (o : Option String)
      (f : Option Transaction → Action B) {s : Session}
      → get "vnp_TxnRef" params ≡ o
      → (¬ ((t : Transaction) × Names params t s.now) → Yields Q (f none) s)
      → ((t : Transaction) → Names params t s.now → Yields Q (f (some t)) s)
      → Yields Q (find_order env o >>= f) s
  unfolding find_order find_transaction_by_id
  find_order-Yields none f e hn hs = Yields-pure_bind none f (hn λ (t, n). unnamed t n e)
  find_order-Yields {B} {Q} (some k) f {s} e hn hs =
      Yields-if_bind (is_empty k) _ _ f
        (λ empty. Yields-pure_bind none f (hn λ (t, n). unnamed_by t k n e empty))
        (λ ne.
          Yields-gets _ f (
            answer ne (env.transactions.first (λ t. transaction_id t == k) s.now.transactions)
              refl))
    where
      answer :
          is_empty k ≡ false
          → (o : Option Transaction)
          → env.transactions.first (λ t. transaction_id t == k) s.now.transactions ≡ o
          → Yields Q (f o) s
      answer ne none q =
          hn λ (t, n).
            unstored t k n e (env.transactions.first_none _ s.now.transactions t q n.stored)
      answer ne (some t) q =
          let (mem, same) = mem_of_first env.transactions transaction_id s.now.transactions k t q in
          hs t (record {
            stored = mem;
            named = e ∙ ap some (sym same);
            is_named = ap is_empty same ∙ ne;
          })

  process_vnpay_ipn-Yields :
      (s : Session)
      → IsValid s.now
      → IsFresh wallet_id wid s.now.wallets
      → Yields (λ r s'. IpnOutcome env params s.now r s'.now) (process_vnpay_ipn env wid params) s
  unfolding process_vnpay_ipn settle_found
  process_vnpay_ipn-Yields s v fresh =
      Yields-if _ _ _
        (λ signed.
          find_order-Yields _ _ refl (λ missing. Yields-pure _ (unknown signed missing))
            λ t order. settle-Yields t s v fresh signed order)
        (λ unsigned. Yields-pure _ (refused unsigned))

  -- On a database within its constraints, with an unused id for a new wallet:
  -- a callback that returns answers one of the replies to the gateway and has done what goes with
  -- it. It answers and changes nothing: 97 if the signature is wrong; else 01 if it names no
  -- stored transaction by an id that is not empty; 02 if the transaction that it names is not
  -- pending; 04 if its amount is not that of the pending transaction that it names. Else it
  -- answers 00: if the gateway confirms the payment, exactly the transaction's coins are credited
  -- to its user, the transaction is a success, and one event with the VND paid is published; if
  -- not, the transaction is marked as failed.
  pub process_vnpay_ipn_outcome :
      (db : Store) {r : IpnResponse} {db' : Store}
      → IsValid db
      → IsFresh wallet_id wid db.wallets
      → in_session (process_vnpay_ipn env wid params) db ≡ (ok r, db')
      → IpnOutcome env params db r db'
  process_vnpay_ipn_outcome db {r} {db'} v fresh h =
      let (s, run, end) = in_session_ok _ db h in
      subst (IpnOutcome env params db r) end
        (Yields-returned _ _ (process_vnpay_ipn-Yields (begin db) v fresh) run)
