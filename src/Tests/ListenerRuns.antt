-- ===== src/Tests/ListenerRuns.antt =====
-- Messages of the booking topic at concrete databases.
use rent_a_girlfriend.Prelude.{String, pos, ◌≡◌, refl, [], ◌∷◌, false≢true, ne_of_==-false}
use rent_a_girlfriend.Table.Rows.{upsert}
use rent_a_girlfriend.Table.Listed.{first_row, merge_row}
use rent_a_girlfriend.Finance.Vo.{ok, money, same_type}
use rent_a_girlfriend.Finance.Wallet
use rent_a_girlfriend.Finance.Action.{in_session, attempt, ◌>>=◌, write, commit}
use rent_a_girlfriend.Finance.Repositories.{
  save_wallet, save_escrow, save_transaction, publish, publish_all, find_wallet_by_user_id,
  find_escrow_by_booking_id, find_transaction_by_reference_id, to_model, to_domain, escrow_to_model,
  escrow_to_domain,
}
use rent_a_girlfriend.Finance.Ledger.Conservation.{IsFunded, Conserves}
use rent_a_girlfriend.Finance.Service.Reservations
use rent_a_girlfriend.Finance.Service.Wallets.{get_or_create_wallet, use_or_create}
use rent_a_girlfriend.Finance.Service.Reservations.{freeze_reservation, unfreeze_reservation}
use rent_a_girlfriend.Finance.Listener.{
  Draws, Message, number, release_found, release_reservation, give_back_found, give_back,
  cancel_early, deliver, handle_booking_events, handle_booking_event, booking_requested, freeze_for,
  int_of, get_field, text_field, or_other, truthy, with_two, with_three,
}
use rent_a_girlfriend.Finance.Listener.Delivery.{handle_booking_events_conserve, FitAll}
use rent_a_girlfriend.Finance.Listener.Redelivery.{cancel_early_twice}
use rent_a_girlfriend.Tests.World.{demo, reserved_db, reserved_db-IsValid, new_wallet-IsFresh}

abbrev drawn : Draws
drawn = record { wallet_id = "w2"; txn_id = "t1"; escrow_id = "x1" }

abbrev drawn_again : Draws
drawn_again = record { wallet_id = "w3"; txn_id = "t2"; escrow_id = "x2" }

cancels :
    in_session (cancel_early demo drawn "b0" "alice") reserved_db
    ≡ (ok tt, (in_session (cancel_early demo drawn "b0" "alice") reserved_db).1)
unfolding in_session attempt ◌>>=◌ write get_or_create_wallet use_or_create find_wallet_by_user_id
    find_escrow_by_booking_id find_transaction_by_reference_id same_type save_wallet save_escrow
    save_transaction publish publish_all commit money upsert first_row merge_row to_model to_domain
    escrow_to_model escrow_to_domain Reservations.unfreeze_coin unfreeze_reservation
    Wallet.unfreeze_coin cancel_early give_back give_back_found release_reservation release_found
cancels = refl

cancel_early_twice_example :
    deliver
      (cancel_early demo drawn_again "b0" "alice")
      (in_session (cancel_early demo drawn "b0" "alice") reserved_db).1
    ≡ (in_session (cancel_early demo drawn "b0" "alice") reserved_db).1
cancel_early_twice_example =
    cancel_early_twice demo "b0" "alice" drawn drawn_again reserved_db reserved_db-IsValid
      new_wallet-IsFresh cancels

-- A booking of 30 coins is requested, then cancelled.
abbrev request : Message
request = record {
  type = "booking.booking-requested.v1";
  payload = record {
    texts = ("bookingId", "b1") ∷ ("clientId", "alice") ∷ [];
    amounts = ("price", number (pos 30)) ∷ [];
  };
  draws = drawn;
}

abbrev cancellation : Message
cancellation = record {
  type = "booking.booking-cancelled-early.v1";
  payload = record { texts = ("bookingId", "b1") ∷ ("clientId", "alice") ∷ []; amounts = [] };
  draws = drawn_again;
}

abbrev same_text : String → String
same_text t = t

reserved_db-IsFunded : IsFunded reserved_db
reserved_db-IsFunded = tt

fit : FitAll demo same_text (request ∷ cancellation ∷ []) reserved_db
unfolding handle_booking_event booking_requested freeze_for int_of get_field text_field or_other
    truthy with_two with_three deliver in_session attempt ◌>>=◌ write get_or_create_wallet
    use_or_create find_wallet_by_user_id find_escrow_by_booking_id find_transaction_by_reference_id
    same_type save_wallet save_escrow save_transaction publish publish_all commit money upsert
    first_row merge_row to_model to_domain escrow_to_model escrow_to_domain Reservations.freeze_coin
    freeze_reservation Wallet.freeze_coin
fit = (
  record {
    fresh_wallet = new_wallet-IsFresh;
    fresh_escrow = tt;
    no_refund = refl;
    some_coins = λ h. absurd (false≢true h);
  },
  (
    record {
      fresh_wallet = (ne_of_==-false "w1" "w3" refl, tt);
      fresh_escrow = tt;
      no_refund = refl;
      some_coins = λ h. absurd (false≢true h);
    },
    tt,
  ),
)

handle_booking_events_conserve_example :
    Conserves reserved_db
      (handle_booking_events demo same_text (request ∷ cancellation ∷ []) reserved_db)
handle_booking_events_conserve_example =
    handle_booking_events_conserve demo same_text (request ∷ cancellation ∷ []) reserved_db
      reserved_db-IsValid reserved_db-IsFunded fit
