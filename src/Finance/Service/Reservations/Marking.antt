-- ===== src/Finance/Service/Reservations/Marking.antt =====
-- What `transfer_to_escrow` logs: the reservation of the booking, marked as a success, or a new one.
use rent_a_girlfriend.Prelude.{
  ℕ, String, ◌≡◌, refl, ap, true, false, Option, none, some, List, Memᴰ, ◌==◌, ◌&&◌, false≢true,
  eq_iff, arith,
}
use rent_a_girlfriend.Table.Rows.{upsert}
use rent_a_girlfriend.Finance.Vo.{TransactionType, same_type}
use rent_a_girlfriend.Finance.Transaction.{Transaction, success, succeed}
use rent_a_girlfriend.Finance.Action.{Store}
use rent_a_girlfriend.Finance.Repositories.{Environment, transaction_id}
use rent_a_girlfriend.Finance.Service.Reservations.{reservation_done}

-- The reservation of a booking, as the repository finds it.
abbrev pub reservation_of : (env : Environment) → String → Store → Option Transaction
reservation_of env b db =
    env.transactions.first
      (λ t. t.reference_id == b && same_type t.type TransactionType.booking_reservation)
      db.transactions

-- `t` is logged as a reservation of the booking `b`.
pub record IsReservation (b : String) (t : Transaction) : Type 0 where
  pub of_booking : t.reference_id ≡ b
  pub of_type : t.type ≡ TransactionType.booking_reservation

-- The log after the reserved coins of `u` for the booking `b` are used: the status of one stored
-- reservation of the booking is a success, or, where none is stored, one is logged under the id `k`.
pub data SettledReservation (u b k : String) (n : ℕ) (log : List Transaction)
    : List Transaction → Type 0 where
  marked :
      (t : Transaction)
      → Memᴰ t log
      → IsReservation b t
      → SettledReservation u b k n log (upsert transaction_id (record t { status = success }) log)
  anew :
      ¬ ((t : Transaction) × Memᴰ t log × IsReservation b t)
      → SettledReservation u b k n log (
          upsert transaction_id
            (record {
              transaction_id = k;
              user_id = u;
              amount = n;
              type = TransactionType.booking_reservation;
              status = success;
              reference_id = b;
            })
            log)

is_reservation-type :
    (x : TransactionType)
    → same_type x TransactionType.booking_reservation ≡ true
    → x ≡ TransactionType.booking_reservation
unfolding same_type
is_reservation-type TransactionType.unspecified h = absurd (false≢true h)
is_reservation-type TransactionType.topup h = absurd (false≢true h)
is_reservation-type TransactionType.booking_reservation h = refl
is_reservation-type TransactionType.escrow_release h = absurd (false≢true h)
is_reservation-type TransactionType.penalty_deduction h = absurd (false≢true h)
is_reservation-type TransactionType.refund h = absurd (false≢true h)

module _ (b : String) (t : Transaction) where
  found-IsReservation :
      (t.reference_id == b && same_type t.type TransactionType.booking_reservation) ≡ true
      → IsReservation b t
  found-IsReservation h = record {
    of_booking = (eq_iff t.reference_id b).0 (ground (arith, h));
    of_type = is_reservation-type t.type (ground (arith, h));
  }

  missed-IsReservation :
      (t.reference_id == b && same_type t.type TransactionType.booking_reservation) ≡ false
      → ¬ IsReservation b t
  unfolding same_type
  missed-IsReservation h r =
      let same : same_type t.type TransactionType.booking_reservation ≡ true =
        ap (λ x. same_type x TransactionType.booking_reservation) r.of_type in
      let named : (t.reference_id == b) ≡ true = (eq_iff t.reference_id b).1 r.of_booking in
      ground (arith, h, same, named)

module _ (env : Environment) (u b k : String) (n : ℕ) (db : Store) where
  settled_by :
      (o : Option Transaction)
      → reservation_of env b db ≡ o
      → SettledReservation u b k n db.transactions
          (upsert transaction_id (reservation_done k u n b o) db.transactions)
  unfolding reservation_done succeed
  settled_by none h =
      anew λ (t, m, r).
        missed-IsReservation b t (env.transactions.first_none _ db.transactions t h m) r
  settled_by (some t) h =
      let (p, m) = env.transactions.first_some _ db.transactions t h in
      marked t m (found-IsReservation b t p)

  pub settled :
      SettledReservation u b k n db.transactions
        (upsert transaction_id (reservation_done k u n b (reservation_of env b db)) db.transactions)
  settled = settled_by (reservation_of env b db) refl
