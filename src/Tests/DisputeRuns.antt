-- ===== src/Tests/DisputeRuns.antt =====
-- Disputes and their sagas at concrete inputs.
use rent_a_girlfriend.Prelude.{ℕ, some, none, List, [], ◌∷◌, ◌≡◌, refl, true, false}
use rent_a_girlfriend.Dispute.Vo.{
  opened, ok, err, port_error, refunding, paying_out, dispute_reason, refunded,
}
use rent_a_girlfriend.Dispute.Events.{report_created}
use rent_a_girlfriend.Dispute.Aggregate.{Dispute, create_report, add_event}
use rent_a_girlfriend.Dispute.Aggregate.Lifecycle.{
  Operation, assign, refund, payout, perform_all, perform_all-terminal, perform_all-IsConsistent,
  IsConsistent,
}
use rent_a_girlfriend.Dispute.SagaState.Refund.{DisputeRefundSaga}
use rent_a_girlfriend.Dispute.SagaState.Payout.{DisputePayoutSaga}
use rent_a_girlfriend.Dispute.Orchestrators.{SagaSession}
use rent_a_girlfriend.Dispute.Orchestrators.Refund
use rent_a_girlfriend.Dispute.Orchestrators.Payout
use rent_a_girlfriend.Dispute.Action.{Action, raise}
use rent_a_girlfriend.Dispute.Orchestrators.Refund.Fuel.{refund_saga_fuel}
use rent_a_girlfriend.Dispute.Orchestrators.Payout.Fuel.{payout_saga_fuel}

abbrev reported : Dispute
reported = record {
  dispute_id = "d1";
  booking_id = "b1";
  reporter_id = "alice";
  accused_id = "carol";
  reason = "FRAUD";
  status = opened;
  admin_id = none;
  resolution = none;
  notes = none;
  evidences = [];
  version = 1;
  events = report_created "d1" "b1" "alice" "carol" "FRAUD" ∷ [];
}

reports : create_report "d1" "b1" "alice" "carol" "FRAUD" [] ≡ ok reported
unfolding create_report dispute_reason add_event
reports = refl

abbrev calls : List Operation
calls = assign "admin" ∷ refund "admin" "proven" ∷ payout "admin" "again" ∷ []

perform_all-IsConsistent_example : IsConsistent (perform_all calls reported)
perform_all-IsConsistent_example =
    perform_all-IsConsistent "d1" "b1" "alice" "carol" "FRAUD" [] reported calls reports

abbrev closed : Dispute
closed = record reported { status = refunded; admin_id = some "admin" }

perform_all-terminal_example : perform_all calls closed ≡ closed
perform_all-terminal_example = perform_all-terminal calls closed refl

-- The refund succeeds and the interaction service is down at first.
abbrev pub refund_ports : Refund.Ports
refund_ports = record {
  refund_escrow_to_wallet =
      λ b. ok (record { success = true; transaction_id = some "t1"; error = none });
  hide_review_and_lock_chat = λ b. err (port_error "down");
  merged_version = λ x. some 2;
  encodes = λ e. true;
  show = λ e. "error";
}

abbrev refund_session : SagaSession DisputeRefundSaga
refund_session = record {
  object = record {
    saga_id = "s1";
    dispute_id = "d1";
    booking_id = "b1";
    current_state = refunding;
    retry_count = 0;
    last_error = none;
    version = 1;
    events = [];
  };
  saves = [];
  calls = [];
  published = [];
}

abbrev pub payout_ports : Payout.Ports ℕ
payout_ports = record {
  payout_from_escrow =
      λ b w r. ok (record { success = true; transaction_id = some "t1"; error = none });
  lock_chat_room = λ b. ok false;
  get_payout_snapshot = λ b. ok ("wallet", 20);
  merged_version = λ x. some 2;
  encodes = λ e. true;
  show = λ e. "error";
}

abbrev payout_session : SagaSession (DisputePayoutSaga ℕ)
payout_session = record {
  object = record {
    saga_id = "s1";
    dispute_id = "d1";
    booking_id = "b1";
    companion_wallet_id = some "wallet";
    commission_rate = some 20;
    current_state = paying_out;
    retry_count = 0;
    last_error = none;
    version = 1;
    events = [];
  };
  saves = [];
  calls = [];
  published = [];
}

-- What would be seen if a second recursive call were made.
abbrev third_refund_call : Action (SagaSession DisputeRefundSaga) Unit
third_refund_call = raise (port_error "called again")

refund_saga_fuel_example :
    Refund.process_saga refund_ports 5 refund_session
    ≡ Refund.process_step refund_ports
        (Refund.process_step refund_ports third_refund_call)
        refund_session
refund_saga_fuel_example = refund_saga_fuel refund_ports 3 third_refund_call refund_session

abbrev third_payout_call : Action (SagaSession (DisputePayoutSaga ℕ)) Unit
third_payout_call = raise (port_error "called again")

payout_saga_fuel_example :
    Payout.process_saga payout_ports 5 payout_session
    ≡ Payout.process_step payout_ports
        (Payout.process_step payout_ports third_payout_call)
        payout_session
payout_saga_fuel_example = payout_saga_fuel payout_ports 3 third_payout_call payout_session
