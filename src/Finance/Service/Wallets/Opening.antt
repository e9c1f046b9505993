-- ===== src/Finance/Service/Wallets/Opening.antt =====
-- What `get_or_create_wallet` gives to the rest of a method.
use rent_a_girlfriend.Finance.Steps.Saved.{saved_rules, find_wallet-SavedIs, SavedIs}
use rent_a_girlfriend.Finance.Action.Preserves.{Preserves-bind, Preserves}
use rent_a_girlfriend.Prelude.{
  subst, ◌+◌, ℕ, total, String, ◌≡◌, refl, Option, none, some, [], Memᴰ, arith, ◌==◌, All-mem,
  All-of_mem,
}
use mathlib.Core.Option
use rent_a_girlfriend.Table.Rows.{IsFresh, total-upsert_new, mem-upsert_self, mem-upsert_ne}
use rent_a_girlfriend.Table.Reads.{mem_of_first, IsFresh-of_first}
use rent_a_girlfriend.Finance.Wallet
use rent_a_girlfriend.Finance.Wallet.Balances.{SameOwner}
use rent_a_girlfriend.Finance.Wallet.{Wallet}
use rent_a_girlfriend.Finance.Action.{WalletModel, Store, Session, Action, ◌>>=◌}
use rent_a_girlfriend.Finance.Action.Yields.{Yields, Yields-gets, Yields-assoc, Yields-pure_bind}
use rent_a_girlfriend.Finance.Repositories.{
  Environment, wallet_id, user_id, to_model, to_domain, find_wallet_by_user_id,
}
use rent_a_girlfriend.Finance.Ledger.{IsValid, with_wallet, with_wallet-IsValid}
use rent_a_girlfriend.Finance.Ledger.{balance}
use rent_a_girlfriend.Finance.Ledger.Accounts.{
  Moved, with_wallet-Moved, available_part, frozen_part, share-zero,
}
use rent_a_girlfriend.Finance.Steps.{Yields-save_wallet}
use rent_a_girlfriend.Finance.Service.Wallets.{get_or_create_wallet, use_or_create}

abbrev pub empty_row : String → String → WalletModel
empty_row id u = record { wallet_id = id; user_id = u; available_balance = 0; frozen_balance = 0 }

-- `w` is the wallet of the user `u` in `db'`, which is `db` up to a new empty wallet.
pub record HasWallet (db : Store) (u : String) (w : Wallet) (db' : Store) : Type 0 where
  pub owner : w.user_id ≡ u
  pub no_events : w.events ≡ []
  pub valid : IsValid db'
  pub stored : Memᴰ (to_model w) db'.wallets
  pub same_totals :
      (f : WalletModel → ℕ)
      → f (empty_row w.wallet_id u) ≡ 0
      → total f db'.wallets ≡ total f db.wallets
  pub kept : (q : WalletModel) → Memᴰ q db.wallets → Memᴰ q db'.wallets
  pub same_escrows : db'.escrows ≡ db.escrows
  pub same_transactions : db'.transactions ≡ db.transactions
  pub same_outbox : db'.outbox ≡ db.outbox

to_model-to_domain : (m : WalletModel) → to_model (to_domain m) ≡ m
unfolding to_model to_domain
to_model-to_domain m = refl

pub found-HasWallet :
    (db : Store) (u : String) (m : WalletModel)
    → IsValid db
    → Memᴰ m db.wallets
    → user_id m ≡ u
    → HasWallet db u (to_domain m) db
found-HasWallet db u m v mem e = record {
  owner = unfold to_domain in e;
  no_events = unfold to_domain in refl;
  valid = v;
  stored = rw to_model-to_domain mem;
  same_totals = λ f z. refl;
  kept = λ q h. h;
  same_escrows = refl;
  same_transactions = refl;
  same_outbox = refl;
}

created-HasWallet :
    (db : Store) (id u : String)
    → IsValid db
    → IsFresh wallet_id id db.wallets
    → IsFresh user_id u db.wallets
    → HasWallet db u (Wallet.create id u) (with_wallet (Wallet.create id u) db)
unfolding Wallet.create to_model with_wallet
created-HasWallet db id u v fresh_id fresh_user =
    let w : Wallet = Wallet.create id u in
    record {
      owner = refl;
      no_events = refl;
      valid =
          with_wallet-IsValid db v w
            (All-of_mem _ db.wallets (λ q m _. All-mem _ db.wallets fresh_user m));
      stored = mem-upsert_self wallet_id (to_model w) db.wallets;
      same_totals =
          λ f z. omega (arith, total-upsert_new wallet_id f (to_model w) db.wallets fresh_id);
      kept = λ q m.
          mem-upsert_ne wallet_id (to_model w) q db.wallets (All-mem _ db.wallets fresh_id m) m;
      same_escrows = refl;
      same_transactions = refl;
      same_outbox = refl;
    }

module _ (env : Environment) (id u : String) {B : Type 0} {Q : B → Session → Type 0} where
  -- The wallet is the user's, and nothing else has changed.
  pub Yields-get_or_create :
      (f : Wallet → Action B) {s : Session}
      → IsValid s.now
      → IsFresh wallet_id id s.now.wallets
      → ((w : Wallet) (db : Store)
          → HasWallet s.now u w db
          → Yields Q (f w) (record s { now = db }))
      → Yields Q (get_or_create_wallet env id u >>= f) s
  unfolding get_or_create_wallet find_wallet_by_user_id
  Yields-get_or_create f {s} v fresh h =
      Yields-assoc _ _ f
        (Yields-gets _ _ (answer (env.wallets.first (λ m. user_id m == u) s.now.wallets) refl))
    where
      answer :
          (o : Option WalletModel)
          → env.wallets.first (λ m. user_id m == u) s.now.wallets ≡ o
          → Yields Q (use_or_create env id u (Option.map to_domain o) >>= f) s
      answer none e = Yields-assoc _ _ f (
          Yields-save_wallet env (Wallet.create id u) _ (λ _. Yields-pure_bind _ f (
            h (Wallet.create id u) (with_wallet (Wallet.create id u) s.now) (
              created-HasWallet s.now id u v fresh
                (IsFresh-of_first env.wallets user_id s.now.wallets u e)))))
      answer (some m) e =
          let (mem, owner) = mem_of_first env.wallets user_id s.now.wallets u m e in
          Yields-pure_bind _ f (h (to_domain m) s.now (found-HasWallet s.now u m v mem owner))

-- Opening a wallet moves nothing.
pub HasWallet-Moved :
    (u : String) (gain_a loss_a gain_f loss_f : ℕ) {db db₁ : Store} {w : Wallet} (db' : Store)
    → HasWallet db u w db₁
    → Moved u gain_a loss_a gain_f loss_f db₁ db'
    → Moved u gain_a loss_a gain_f loss_f db db'
HasWallet-Moved u gain_a loss_a gain_f loss_f {w} db' h m = record {
  of_available =
      λ x. omega (arith, m.of_available x, h.same_totals (available_part x) (share-zero u x));
  of_frozen = λ x. omega (arith, m.of_frozen x, h.same_totals (frozen_part x) (share-zero u x));
  of_all = omega (arith, m.of_all, h.same_totals balance (omega arith));
}

-- Saving the wallet with other balances moves the differences.
pub with_opened_wallet-Moved :
    (u : String) (gain_a loss_a gain_f loss_f : ℕ) {db db₁ : Store} {w : Wallet} (w' : Wallet)
    → HasWallet db u w db₁
    → SameOwner w w'
    → w'.available_balance + loss_a ≡ w.available_balance + gain_a
    → w'.frozen_balance + loss_f ≡ w.frozen_balance + gain_f
    → Moved u gain_a loss_a gain_f loss_f db (with_wallet w' db₁)
unfolding to_model
with_opened_wallet-Moved u gain_a loss_a gain_f loss_f {db} {db₁} {w} w' h o a f =
    HasWallet-Moved u gain_a loss_a gain_f loss_f (with_wallet w' db₁) h (
      subst (λ x. Moved x gain_a loss_a gain_f loss_f db₁ (with_wallet w' db₁)) h.owner
        (with_wallet-Moved db₁ h.valid (to_model w) h.stored w' gain_a loss_a gain_f loss_f
          o.wallet_id o.user_id a f))

pub get_or_create-SavedIs :
    (env : Environment) (db : Store) (id u : String)
    → Preserves (SavedIs db) (get_or_create_wallet env id u)
unfolding get_or_create_wallet
get_or_create-SavedIs env db id u =
    Preserves-bind _ _ (find_wallet-SavedIs env db u)
      (elim [ none ↦ search (saved_rules) | some w ↦ search saved_rules ])
