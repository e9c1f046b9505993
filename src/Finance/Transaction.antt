-- ===== src/Finance/Transaction.antt =====
-- services/finance-service/internal/domain/aggregate/transaction.py, without the time of creation.
use rent_a_girlfriend.Prelude.{String, Bool, true, false}
use rent_a_girlfriend.Finance.Vo.{Money, TransactionType}

-- The `status` strings: PENDING, SUCCESS, FAILED.
pub data TransactionStatus : Type 0 where
  pending success failed : TransactionStatus

abbrev pub is_pending : TransactionStatus → Bool
is_pending pending = true
is_pending success = false
is_pending failed = false

pub record Transaction : Type 0 where
  pub transaction_id : String
  pub user_id : String
  pub amount : Money
  pub type : TransactionType
  pub status : TransactionStatus
  pub reference_id : String

-- `Transaction.success`
unfoldable pub succeed : Transaction → Transaction
succeed t = record t { status = success }

-- `Transaction.fail`
unfoldable pub fail : Transaction → Transaction
fail t = record t { status = failed }
