-- ===== src/Table.antt =====
-- A table of the relational database as the repositories see it through one session: the rows, and
-- the two statements that the repositories issue, `session.merge` with `flush`, and
-- `select(...).filter_by(...)` with `scalars().first()`. Both are the database's, so they are the
-- fields of a record with their documented behaviour: which row comes first is open, and a write
-- that breaks a constraint or a column's range is refused.
pub mod Rows
pub mod Reads
pub mod Listed
use rent_a_girlfriend.Prelude.{String, ◌≡◌, ◌≢◌, Bool, true, false, Option, none, some, List, Memᴰ}
use Rows.{upsert, NoClash}

-- `key` is the primary key; `unique` is the column with a UNIQUE constraint, the key where there is
-- no other.
pub record Table {R : Type 0} (key unique : R → String) : Type 0 where
  pub first : (R → Bool) → List R → Option R
  pub merge : R → List R → Option (List R)
  -- Whether the columns' types can hold the row.
  pub accepts : R → Bool
  pub first_some :
      (p : R → Bool) (t : List R) (r : R) → first p t ≡ some r → (p r ≡ true) × Memᴰ r t
  pub first_none : (p : R → Bool) (t : List R) (r : R) → first p t ≡ none → Memᴰ r t → p r ≡ false
  pub merge_some :
      (r : R) (t t' : List R) → merge r t ≡ some t' → (t' ≡ upsert key r t) × NoClash key unique r t
  pub merge_accepts :
      (r : R) (t : List R)
      → accepts r ≡ true
      → NoClash key unique r t
      → merge r t ≡ some (upsert key r t)
