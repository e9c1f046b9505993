-- ===== src/Finance/Steps/Rows.antt =====
-- Finding a wallet or an escrow at the start of a method, and what changing a found escrow does to
-- the held coins.
use mathlib.Core.Option.{some-injective}
use rent_a_girlfriend.Table.Rows.{upsert, total-upsert_old}
use rent_a_girlfriend.Prelude.{
  subst, ◌+◌, String, ◌≡◌, refl, Option, none, some, [], Memᴰ, ◌==◌, total,
}
use mathlib.Core.Option
use rent_a_girlfriend.Table.Reads.{mem_of_first}
use rent_a_girlfriend.Finance.Vo.{Error}
use rent_a_girlfriend.Finance.Wallet.{Wallet}
use rent_a_girlfriend.Finance.Escrow.{Escrow}
use rent_a_girlfriend.Finance.Action.{
  WalletModel, EscrowModel, Store, Session, Action, ◌>>=◌, or_raise,
}
use rent_a_girlfriend.Finance.Action.Yields.{Yields, Yields-gets, Yields-or_raise}
use rent_a_girlfriend.Finance.Repositories.{
  Environment, user_id, booking_id, escrow_id, to_domain, escrow_to_model, escrow_to_domain,
  find_wallet_by_user_id, find_escrow_by_booking_id,
}
use rent_a_girlfriend.Finance.Ledger.{IsValid, held_amount}
use rent_a_girlfriend.Finance.Service.Wallets.Opening.{HasWallet, found-HasWallet}

-- `x` is the escrow of the booking `b`.
pub record HasEscrow (b : String) (x : Escrow) (db : Store) : Type 0 where
  pub booking : x.booking_id ≡ b
  pub no_events : x.events ≡ []
  pub stored : Memᴰ (escrow_to_model x) db.escrows

module _ (env : Environment) {B : Type 0} {Q : B → Session → Type 0} where
  pub Yields-found_wallet :
      (u : String) (e : Error) (f : Wallet → Action B) {s : Session}
      → IsValid s.now
      → ((w : Wallet) → HasWallet s.now u w s.now → Yields Q (f w) s)
      → Yields Q (find_wallet_by_user_id env u >>= λ found. or_raise e found >>= f) s
  unfolding find_wallet_by_user_id
  Yields-found_wallet u e f {s} v h =
      Yields-gets _ _ (answer (env.wallets.first (λ m. user_id m == u) s.now.wallets) refl)
    where
      answer :
          (o : Option WalletModel)
          → env.wallets.first (λ m. user_id m == u) s.now.wallets ≡ o
          → Yields Q (or_raise e (Option.map to_domain o) >>= f) s
      answer none q = Yields-or_raise e none (λ a p. cc)
      answer (some m) q =
          let (mem, owner) = mem_of_first env.wallets user_id s.now.wallets u m q in
          Yields-or_raise e _ (λ a p.
            subst (λ w. Yields Q (f w) s) (some-injective _ _ p)
              (h (to_domain m) (found-HasWallet s.now u m v mem owner)))

  pub Yields-found_escrow :
      (b : String) (e : Error) (f : Escrow → Action B) {s : Session}
      → ((x : Escrow) → HasEscrow b x s.now → Yields Q (f x) s)
      → Yields Q (find_escrow_by_booking_id env b >>= λ found. or_raise e found >>= f) s
  unfolding find_escrow_by_booking_id escrow_to_domain
  Yields-found_escrow b e f {s} h =
      Yields-gets _ _ (answer (env.escrows.first (λ m. booking_id m == b) s.now.escrows) refl)
    where
      answer :
          (o : Option EscrowModel)
          → env.escrows.first (λ m. booking_id m == b) s.now.escrows ≡ o
          → Yields Q (or_raise e (Option.map escrow_to_domain o) >>= f) s
      answer none q = Yields-or_raise e none (λ a p. cc)
      answer (some m) q =
          let (mem, owner) = mem_of_first env.escrows booking_id s.now.escrows b m q in
          Yields-or_raise e _ (λ a p.
            subst (λ x. Yields Q (f x) s) (some-injective _ _ p)
              (h (escrow_to_domain m) (record {
                booking = owner;
                no_events = refl;
                stored = unfold escrow_to_model in mem;
              })))

pub held-upsert :
    (b : String) (x x' : Escrow) (db : Store)
    → IsValid db
    → HasEscrow b x db
    → x'.escrow_id ≡ x.escrow_id
    → total held_amount (upsert escrow_id (escrow_to_model x') db.escrows)
        + held_amount (escrow_to_model x)
      ≡ total held_amount db.escrows + held_amount (escrow_to_model x')
unfolding escrow_to_model
held-upsert b x x' db v h e =
    total-upsert_old escrow_id held_amount (escrow_to_model x') (escrow_to_model x) db.escrows
      v.escrow_ids h.stored e
