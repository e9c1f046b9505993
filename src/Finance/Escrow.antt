-- ===== src/Finance/Escrow.antt =====
-- services/finance-service/internal/domain/aggregate/escrow.py. The commission rate is a float, so
-- the rounded product `int(round(amount * rate))` comes in as a function, `none` where it raises.
pub mod Statuses
use rent_a_girlfriend.Prelude.{
  ℕ, String, ℤ, pos, ◌-ℤ◌, Option, none, some, List, [], ◌∷◌, ◌++◌, if◌then◌else◌,
}
use rent_a_girlfriend.Finance.Vo.{
  Money, EscrowStatus, held, paid_out, refunded, is_held, Result, ok, err,
  invalid_escrow_status_transition, float_error,
}
use rent_a_girlfriend.Finance.Events.{
  DomainEvent, escrow_created, payout_processed, escrow_refunded,
}

pub record Escrow : Type 0 where
  pub escrow_id : String
  pub booking_id : String
  pub amount : Money
  pub status : EscrowStatus
  pub events : List DomainEvent

unfoldable pub add_event : DomainEvent → Escrow → Escrow
add_event e x = record x { events = x.events ++ e ∷ [] }

unfoldable pub clear_events : Escrow → List DomainEvent × Escrow
clear_events x = (x.events, record x { events = [] })

unfoldable pub create : String → String → Money → Escrow
unfolding add_event
create escrow_id booking_id amount =
    add_event (escrow_created (record { booking_id = booking_id; amount = amount })) (record {
      escrow_id = escrow_id;
      booking_id = booking_id;
      amount = amount;
      status = held;
      events = [];
    })

-- The part of `payout` after the guard and the rounding.
unfoldable pub release : String → ℤ → Escrow → Result (ℤ × ℤ × Escrow)
unfolding add_event
release companion_id commission_amount x =
    let net_amount = pos x.amount -ℤ commission_amount in
    ok (
      commission_amount,
      net_amount,
      add_event
          (payout_processed (record {
            booking_id = x.booking_id;
            companion_id = companion_id;
            amount = x.amount;
            commission_amount = commission_amount;
            net_amount = net_amount;
          }))
          (record x { status = paid_out }),
    )

-- The commission, the net amount and the changed escrow.
unfoldable pub payout : String → (ℕ → Option ℤ) → Escrow → Result (ℤ × ℤ × Escrow)
unfolding release
payout companion_id round_commission x =
    if is_held x.status
    then (elim (round_commission x.amount) [
      | none ↦ err float_error
      | some commission_amount ↦ release companion_id commission_amount x
    ])
    else err (invalid_escrow_status_transition x.status paid_out)

unfoldable pub refund : String → Money → Escrow → Result Escrow
unfolding add_event
refund client_id refund_amount x =
    if is_held x.status
    then ok (
        add_event
          (escrow_refunded (record {
            booking_id = x.booking_id;
            client_id = client_id;
            refund_amount = refund_amount;
          }))
          (record x { status = refunded }))
    else err (invalid_escrow_status_transition x.status refunded)
