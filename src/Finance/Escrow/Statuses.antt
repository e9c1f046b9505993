-- ===== src/Finance/Escrow/Statuses.antt =====
-- What the methods of an escrow that return have done; only a held escrow can change.
use rent_a_girlfriend.Prelude.{
  ℕ, String, ℤ, pos, ◌-ℤ◌, ◌≡◌, Option, some, true, [], ◌∷◌, ◌++◌, arith,
}
use rent_a_girlfriend.Finance.Vo.{Money, paid_out, refunded, is_held, ok}
use rent_a_girlfriend.Finance.Events.{payout_processed, escrow_refunded}
use rent_a_girlfriend.Finance.Escrow.{Escrow, payout, refund, release, add_event}

pub payout_ok :
    (c : String) (f : ℕ → Option ℤ) (x x' : Escrow) (commission net : ℤ)
    → payout c f x ≡ ok (commission, net, x')
    → (is_held x.status ≡ true)
      × (f x.amount ≡ some commission)
      × (net ≡ pos x.amount -ℤ commission)
      × (x' ≡ record x {
        status = paid_out;
        events =
            x.events
            ++ payout_processed (record {
              booking_id = x.booking_id;
              companion_id = c;
              amount = x.amount;
              commission_amount = commission;
              net_amount = pos x.amount -ℤ commission;
            })
              ∷ [];
      })
unfolding payout release add_event
payout_ok c f x x' commission net h = (ground arith, ground arith, ground arith, ground arith)

pub refund_ok :
    (c : String) (n : Money) (x x' : Escrow)
    → refund c n x ≡ ok x'
    → (is_held x.status ≡ true)
      × (x' ≡ record x {
        status = refunded;
        events =
            x.events
            ++ escrow_refunded
                (record { booking_id = x.booking_id; client_id = c; refund_amount = n })
              ∷ [];
      })
unfolding refund add_event
refund_ok c n x x' h = (ground arith, ground arith)
