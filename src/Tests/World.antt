-- ===== src/Tests/World.antt =====
-- A small environment and small databases.
use rent_a_girlfriend.Prelude.{
  ap, ℕ, ◌*◌, ◌/◌, pos, ◌≡◌, refl, true, none, some, [], ◌∷◌, ◌==◌, arith, ne_of_==-false,
  if◌then◌else◌,
}
use rent_a_girlfriend.Table.Listed.{listed}
use rent_a_girlfriend.Table.Rows.{IsFresh}
use rent_a_girlfriend.Finance.Vo.{TransactionType, held}
use rent_a_girlfriend.Finance.Transaction.{Transaction, pending}
use rent_a_girlfriend.Finance.Action.{EscrowModel, WalletModel, Store}
use rent_a_girlfriend.Finance.Repositories.{
  Environment, wallet_id, user_id, escrow_id, booking_id, transaction_id,
}
use rent_a_girlfriend.Finance.Ledger.{IsValid}

pub nothing : (n : ℕ) → n * 0 / 100 ≡ 0
nothing n = omega arith

-- Rates are percentages; every signature is the same.
abbrev pub demo : Environment
demo = record {
  wallets = listed wallet_id user_id (λ _. true);
  escrows = listed escrow_id booking_id (λ _. true);
  transactions = listed transaction_id transaction_id (λ _. true);
  encodes = λ _. true;
  Rate = ℕ;
  zero_rate = 0;
  round_product = λ n r. some (pos (n * r / 100));
  round_product_zero = λ n. ap (λ m. some (pos m)) (nothing n);
  show_int = λ n. "2000000";
  parse_int = λ t. if t == "2000000" then some (pos 2000000) else none;
  urlencode = λ ps. "query";
  hmac_sha512 = λ t. "signature";
  lower = λ t. t;
  sort_items = λ ps. ps;
  tmn_code = "tmn";
  payment_url = "https://pay";
  return_url = "https://return";
}

abbrev pub alice_wallet : WalletModel
alice_wallet = record {
  wallet_id = "w1";
  user_id = "alice";
  available_balance = 100;
  frozen_balance = 50;
}

abbrev pub reservation : Transaction
reservation = record {
  transaction_id = "t0";
  user_id = "alice";
  amount = 50;
  type = TransactionType.booking_reservation;
  status = pending;
  reference_id = "b0";
}

abbrev pub topup_txn : Transaction
topup_txn = record {
  transaction_id = "t9";
  user_id = "alice";
  amount = 20;
  type = TransactionType.topup;
  status = pending;
  reference_id = "t9";
}

abbrev pub held_escrow : EscrowModel
held_escrow = record { escrow_id = "x0"; booking_id = "b0"; amount = 50; status = held }

-- Alice has 100 coins, and 50 more frozen for the booking b0.
abbrev pub reserved_db : Store
reserved_db = record {
  wallets = alice_wallet ∷ [];
  escrows = [];
  transactions = reservation ∷ [];
  outbox = [];
}

-- The same, and 50 coins in escrow.
abbrev pub held_db : Store
held_db = record {
  wallets = alice_wallet ∷ [];
  escrows = held_escrow ∷ [];
  transactions = reservation ∷ [];
  outbox = [];
}

-- The same, and a top-up of 20 coins that is not confirmed.
abbrev pub topup_db : Store
topup_db = record {
  wallets = alice_wallet ∷ [];
  escrows = [];
  transactions = topup_txn ∷ [];
  outbox = [];
}

pub reserved_db-IsValid : IsValid reserved_db
reserved_db-IsValid = record {
  wallet_ids = (tt, tt);
  user_ids = (tt, tt);
  escrow_ids = tt;
  booking_ids = tt;
  transaction_ids = (tt, tt);
}

pub held_db-IsValid : IsValid held_db
held_db-IsValid = record {
  wallet_ids = (tt, tt);
  user_ids = (tt, tt);
  escrow_ids = (tt, tt);
  booking_ids = (tt, tt);
  transaction_ids = (tt, tt);
}

pub topup_db-IsValid : IsValid topup_db
topup_db-IsValid = record {
  wallet_ids = (tt, tt);
  user_ids = (tt, tt);
  escrow_ids = tt;
  booking_ids = tt;
  transaction_ids = (tt, tt);
}

pub new_wallet-IsFresh : IsFresh wallet_id "w2" (alice_wallet ∷ [])
new_wallet-IsFresh = (ne_of_==-false "w1" "w2" refl, tt)
