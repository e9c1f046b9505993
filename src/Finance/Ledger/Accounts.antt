-- ===== src/Finance/Ledger/Accounts.antt =====
-- The finance database as its users see it: what each user has available and frozen, whatever the
-- rows and their order; and how the write of one wallet moves these amounts.
use rent_a_girlfriend.Prelude.{
  ℕ, ◌+◌, String, ◌≡◌, refl, ap, Memᴰ, arith, total, ◌==◌, if◌then◌else◌, Bool-cases, inl, inr,
}
use rent_a_girlfriend.Table.Rows.{total-upsert_old}
use rent_a_girlfriend.Finance.Wallet.{Wallet}
use rent_a_girlfriend.Finance.Action.{WalletModel, Store}
use rent_a_girlfriend.Finance.Repositories.{wallet_id, user_id, to_model}
use rent_a_girlfriend.Finance.Ledger.{IsValid, with_wallet, balance}

-- The part of a sum that falls to `v` if it belongs to `u`.
abbrev pub share : String → String → ℕ → ℕ
share u v n = if u == v then n else 0

abbrev pub available_part : String → WalletModel → ℕ
available_part v m = share (user_id m) v m.available_balance

abbrev pub frozen_part : String → WalletModel → ℕ
frozen_part v m = share (user_id m) v m.frozen_balance

-- A user without a wallet has nothing.
abbrev pub available : String → Store → ℕ
available v db = total (available_part v) db.wallets

abbrev pub frozen : String → Store → ℕ
frozen v db = total (frozen_part v) db.wallets

-- Between `db` and `db'` the user `u` gains and loses these amounts, and nobody else anything.
pub record Moved (u : String) (gain_a loss_a gain_f loss_f : ℕ) (db db' : Store) : Type 0 where
  pub of_available :
      (v : String) → available v db' + share u v loss_a ≡ available v db + share u v gain_a
  pub of_frozen : (v : String) → frozen v db' + share u v loss_f ≡ frozen v db + share u v gain_f
  pub of_all :
      total balance db'.wallets + loss_a + loss_f ≡ total balance db.wallets + gain_a + gain_f

share-split :
    (u v : String) (a b c d : ℕ)
    → a + b ≡ c + d
    → share u v a + share u v b ≡ share u v c + share u v d
share-split u v a b c d e = elim (Bool-cases (u == v)) [
  | inl same ↦ rw same e
  | inr other ↦ rw other refl
]

module _ (db : Store) (v : IsValid db) (old : WalletModel) (mem : Memᴰ old db.wallets) where
  pub with_wallet-Moved :
      (w : Wallet) (gain_a loss_a gain_f loss_f : ℕ)
      → w.wallet_id ≡ wallet_id old
      → w.user_id ≡ user_id old
      → w.available_balance + loss_a ≡ old.available_balance + gain_a
      → w.frozen_balance + loss_f ≡ old.frozen_balance + gain_f
      → Moved (user_id old) gain_a loss_a gain_f loss_f db (with_wallet w db)
  unfolding with_wallet to_model
  with_wallet-Moved w gain_a loss_a gain_f loss_f id user a f = record {
    of_available = λ x. omega (
      arith,
      total-upsert_old wallet_id (available_part x) (to_model w) old db.wallets v.wallet_ids mem id,
      ap (λ y. share y x w.available_balance) user,
      share-split (user_id old) x w.available_balance loss_a old.available_balance gain_a a,
    );
    of_frozen = λ x. omega (
      arith,
      total-upsert_old wallet_id (frozen_part x) (to_model w) old db.wallets v.wallet_ids mem id,
      ap (λ y. share y x w.frozen_balance) user,
      share-split (user_id old) x w.frozen_balance loss_f old.frozen_balance gain_f f,
    );
    of_all =
        omega (
          arith,
          total-upsert_old wallet_id balance (to_model w) old db.wallets v.wallet_ids mem id,
        );
  }

-- Only the wallets count.
pub Moved-of_same_wallets :
    (u : String) (gain_a loss_a gain_f loss_f : ℕ) (db db₁ db' : Store)
    → db'.wallets ≡ db₁.wallets
    → Moved u gain_a loss_a gain_f loss_f db db₁
    → Moved u gain_a loss_a gain_f loss_f db db'
Moved-of_same_wallets u gain_a loss_a gain_f loss_f db db₁ db' e m = record {
  of_available = λ x. omega (arith, m.of_available x, ap (total (available_part x)) e);
  of_frozen = λ x. omega (arith, m.of_frozen x, ap (total (frozen_part x)) e);
  of_all = omega (arith, m.of_all, ap (total balance) e);
}

pub share-zero : (u v : String) → share u v 0 ≡ 0
share-zero u v = elim (Bool-cases (u == v)) [ inl same ↦ rw same refl | inr other ↦ rw other refl ]
