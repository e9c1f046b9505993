-- ===== src/Tests/DisputeRequests.antt =====
-- Reports, resolutions and requests to the dispute service at concrete inputs.
use rent_a_girlfriend.Prelude.{
  ℕ, ◌+◌, String, some, none, List, [], ◌∷◌, ◌≡◌, refl, true, ne_of_==-false,
}
use rent_a_girlfriend.Table.Rows.{upsert}
use rent_a_girlfriend.Table.Listed.{listed, first_row, merge_row}
use rent_a_girlfriend.Dispute.Vo.{paying_out, opened, resolving, refunded, ok, dispute_reason}
use rent_a_girlfriend.Dispute.Aggregate
use rent_a_girlfriend.Dispute.Aggregate.{
  Dispute, DisputeEvidence, add_event, close, assert_valid_transition, assert_not_terminal,
}
use rent_a_girlfriend.Dispute.Action.{pure, raise, lift, gets, modify, ◌>>=◌}
use rent_a_girlfriend.Dispute.Mappers.{
  DisputeModel, to_model, to_domain, read_model, domain_of, to_protobuf, saga_to_model, payout_saga,
  saga_to_domain, Saga,
}
use rent_a_girlfriend.Dispute.Mappers.RoundTrips.{
  to_domain-to_model, to_model-to_domain, saga_to_domain-saga_to_model, without_events,
}
use rent_a_girlfriend.Dispute.Repositories.{
  Environment, Session, dispute_id, booking_id, saga_id, or_raise, merge_dispute, save, read,
  find_by_id, find_open_by_booking_id, add_message, publish, publish_all,
}
use rent_a_girlfriend.Dispute.Commands.{
  EvidenceInput, evidence_entities, refuse_duplicate, create_report, found, settle, resolve_dispute,
}
use rent_a_girlfriend.Dispute.Commands.Decisions.{Reported, Settled}
use rent_a_girlfriend.Dispute.Commands.Effects.{create_report_reports, resolve_dispute_settles}
use rent_a_girlfriend.Dispute.Handlers.{AuthInfo, CreateReportRequest, ResolveDisputeRequest}
use rent_a_girlfriend.Dispute.Handlers.Requests.{
  Request, rpc_create_report, rpc_resolve_dispute, post_resolution, handle_all, requests_keep_open,
  AllOpen,
}
use rent_a_girlfriend.Dispute.Handlers.Decisions.{IsSound, KeepsDecided, requests_keep_decisions}
use rent_a_girlfriend.Tests.DisputeRuns.{refund_ports, payout_ports}

abbrev demo_env : Environment ℕ
demo_env = record {
  disputes = listed dispute_id booking_id (λ _. true);
  sagas = listed saga_id saga_id (λ _. true);
  merged_version = λ m t. some (m.version + 1);
  encodes = λ e. true;
  refund_ports = refund_ports;
  payout_ports = payout_ports;
}

abbrev decided_row : DisputeModel
decided_row = record {
  dispute_id = "d0";
  booking_id = "b0";
  reporter_id = "alice";
  accused_id = "carol";
  reason = "FRAUD";
  status = refunded;
  admin_id = some "admin";
  resolution = some "REFUND_CLIENT";
  notes = some "proven";
  version = 3;
  evidences = [];
}

abbrev resolving_row : DisputeModel
resolving_row = record {
  dispute_id = "d1";
  booking_id = "b1";
  reporter_id = "alice";
  accused_id = "carol";
  reason = "FRAUD";
  status = resolving;
  admin_id = some "admin";
  resolution = none;
  notes = none;
  version = 2;
  evidences =
      record { evidence_id = "e1"; dispute_id = "d1"; evidence_type = "TEXT"; content = "log" }
      ∷ [];
}

abbrev desk : Session ℕ
desk = record { disputes = decided_row ∷ resolving_row ∷ []; sagas = []; outbox = []; calls = [] }

abbrev new_id : String
new_id = "d2"

abbrev evidence : EvidenceInput
evidence = record { evidence_id = "e2"; evidence_type = none; content = some "late" }

reports_b2 :
    create_report demo_env "d2" "b2" "bob" "carol" "NO_SHOW" (evidence ∷ []) desk
    ≡ (ok new_id, (create_report demo_env "d2" "b2" "bob" "carol" "NO_SHOW" (evidence ∷ []) desk).1)
unfolding create_report find_open_by_booking_id read refuse_duplicate Aggregate.create_report
    dispute_reason add_event save merge_dispute or_raise publish_all publish add_message to_protobuf
    pure raise lift gets modify ◌>>=◌ first_row merge_row upsert to_model evidence_entities
reports_b2 = refl

create_report_reports_example :
    (new_id ≡ new_id)
    × Reported "d2" "b2" desk.disputes
        (create_report demo_env "d2" "b2" "bob" "carol" "NO_SHOW" (evidence ∷ []) desk).1.disputes
    × ((create_report demo_env "d2" "b2" "bob" "carol" "NO_SHOW" (evidence ∷ []) desk).1.sagas ≡ [])
    × ((create_report demo_env "d2" "b2" "bob" "carol" "NO_SHOW" (evidence ∷ []) desk).1.calls ≡ [])
create_report_reports_example =
    create_report_reports demo_env "d2" "b2" "bob" "carol" "NO_SHOW" (evidence ∷ []) desk reports_b2

rejects :
    resolve_dispute demo_env "s1" "d1" "admin" "REJECT" "no proof" desk
    ≡ (ok tt, (resolve_dispute demo_env "s1" "d1" "admin" "REJECT" "no proof" desk).1)
unfolding resolve_dispute find_by_id read found settle Aggregate.reject close
    assert_valid_transition assert_not_terminal dispute_reason add_event to_domain read_model
    domain_of save merge_dispute or_raise publish_all publish add_message to_protobuf pure raise
    lift gets modify ◌>>=◌ first_row merge_row upsert to_model
rejects = refl

resolve_dispute_settles_example :
    Settled "d1" "admin" "REJECT" desk.disputes
      (resolve_dispute demo_env "s1" "d1" "admin" "REJECT" "no proof" desk).1.disputes
resolve_dispute_settles_example =
    resolve_dispute_settles demo_env "s1" "d1" "admin" "REJECT" "no proof" desk rejects

abbrev admin : AuthInfo
admin = record { user_id = "admin"; user_role = "ADMIN" }

abbrev report : CreateReportRequest
report = record {
  booking_id = "b2";
  reporter_id = "bob";
  accused_id = "carol";
  reason = "NO_SHOW";
  evidences = evidence ∷ [];
  dispute_id = "d2";
}

abbrev decision : ResolveDisputeRequest
decision = record {
  dispute_id = "d1";
  admin_id = "admin";
  resolution = "REJECT";
  notes = "no proof";
  saga_id = "s1";
}

abbrev requests : List (Environment ℕ × Request)
requests =
    (demo_env, rpc_create_report admin report)
    ∷ (demo_env, rpc_resolve_dispute admin decision)
    ∷ (demo_env, post_resolution (some "admin") (some "ADMIN") decision)
    ∷ []

no_reason : dispute_reason "FRAUD" ≡ ok "FRAUD"
unfolding dispute_reason
no_reason = refl

desk-IsSound : IsSound desk.disputes
desk-IsSound = record {
  ids = ((ne_of_==-false "d1" "d0" refl, tt), (tt, tt));
  bookings = ((ne_of_==-false "b1" "b0" refl, tt), (tt, tt));
  rows = (
    record { resolution = refl; handled = refl; reason = no_reason; own = tt },
    (record { resolution = refl; handled = refl; reason = no_reason; own = (refl, tt) }, tt),
  );
}

requests_keep_decisions_example :
    IsSound (handle_all requests desk).disputes
    × KeepsDecided desk.disputes (handle_all requests desk).disputes
requests_keep_decisions_example =
    requests_keep_decisions requests desk desk-IsSound
      ((ne_of_==-false "d0" "d2" refl, (ne_of_==-false "d1" "d2" refl, tt)), (tt, (tt, tt)))

abbrev open_desk : Session ℕ
open_desk = record desk {
  disputes = record resolving_row { status = opened; admin_id = none } ∷ [];
}

requests_keep_open_example :
    AllOpen (handle_all requests open_desk).disputes × ((handle_all requests open_desk).sagas ≡ [])
requests_keep_open_example = requests_keep_open requests open_desk (refl, tt)

abbrev told : Dispute
told = record {
  dispute_id = "d1";
  booking_id = "b1";
  reporter_id = "alice";
  accused_id = "carol";
  reason = "FRAUD";
  status = opened;
  admin_id = none;
  resolution = none;
  notes = none;
  evidences = record { evidence_id = "e1"; evidence_type = "TEXT"; content = "log" } ∷ [];
  version = 1;
  events = [];
}

to_domain-to_model_example : to_domain (to_model told) ≡ ok (record told { events = [] })
to_domain-to_model_example = to_domain-to_model told no_reason

reads : to_domain resolving_row ≡ ok (domain_of resolving_row "FRAUD")
unfolding to_domain read_model dispute_reason
reads = refl

to_model-to_domain_example : to_model (domain_of resolving_row "FRAUD") ≡ resolving_row
to_model-to_domain_example = to_model-to_domain resolving_row (refl, tt) reads

abbrev a_saga : Saga ℕ
a_saga = payout_saga (record {
  saga_id = "s1";
  dispute_id = "d1";
  booking_id = "b1";
  companion_wallet_id = some "wallet";
  commission_rate = some 20;
  current_state = paying_out;
  retry_count = 0;
  last_error = none;
  version = 1;
  events = [];
})

saga_to_domain-saga_to_model_example :
    saga_to_domain (saga_to_model a_saga) ≡ ok (without_events a_saga)
saga_to_domain-saga_to_model_example = saga_to_domain-saga_to_model a_saga
