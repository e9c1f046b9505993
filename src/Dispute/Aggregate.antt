-- ===== src/Dispute/Aggregate.antt =====
-- services/dispute-service/internal/domain/aggregate/dispute.py. A method returns the changed
-- dispute, or the exception that it raises.
pub mod Lifecycle
use rent_a_girlfriend.Prelude.{
  ℕ, String, Option, none, some, List, [], ◌∷◌, ◌++◌, Bool, true, false, if◌then◌else◌,
}
use rent_a_girlfriend.Dispute.Vo.{
  DisputeStatus, opened, resolving, refunded, paid_out, rejected, other, Result, ok, err,
  dispute_already_resolved, invalid_dispute_status_transition, dispute_reason,
}
use rent_a_girlfriend.Dispute.Events.{
  DomainEvent, report_created, dispute_assigned, dispute_resolved_refund, dispute_resolved_payout,
  dispute_rejected,
}

pub record DisputeEvidence : Type 0 where
  pub evidence_id : String
  pub evidence_type : String
  pub content : String

pub record Dispute : Type 0 where
  pub dispute_id : String
  pub booking_id : String
  pub reporter_id : String
  pub accused_id : String
  pub reason : String
  pub status : DisputeStatus
  pub admin_id : Option String
  pub resolution : Option String
  pub notes : Option String
  pub evidences : List DisputeEvidence
  pub version : ℕ
  pub events : List DomainEvent

-- `status in TERMINAL_STATES`
abbrev pub is_terminal : DisputeStatus → Bool
is_terminal opened = false
is_terminal resolving = false
is_terminal refunded = true
is_terminal paid_out = true
is_terminal rejected = true
is_terminal (other s) = false

-- `target in VALID_TRANSITIONS.get(status, set())`
abbrev pub allows : DisputeStatus → DisputeStatus → Bool
allows opened resolving = true
allows resolving refunded = true
allows resolving paid_out = true
allows resolving rejected = true
allows _ _ = false

unfoldable pub add_event : DomainEvent → Dispute → Dispute
add_event e d = record d { events = d.events ++ e ∷ [] }

-- The events, and the dispute without them.
unfoldable pub clear_events : Dispute → List DomainEvent × Dispute
clear_events d = (d.events, record d { events = [] })

-- `_assert_not_terminal`
unfoldable pub assert_not_terminal : Dispute → Result Dispute
assert_not_terminal d =
    if is_terminal d.status then err (dispute_already_resolved d.dispute_id d.status) else ok d

-- `_assert_valid_transition`
unfoldable pub assert_valid_transition : DisputeStatus → Dispute → Result Dispute
unfolding assert_not_terminal
assert_valid_transition target d = elim (assert_not_terminal d) [
  | err e ↦ err e
  | ok _ ↦
      if allows d.status target
      then ok d
      else err (invalid_dispute_status_transition d.status target)
]

unfoldable pub create_report :
    String → String → String → String → String → List DisputeEvidence → Result Dispute
unfolding add_event
create_report dispute_id booking_id reporter_id accused_id reason evidences =
    elim (dispute_reason reason) [
      | err e ↦ err e
      | ok valid_reason ↦ ok (
          add_event (report_created dispute_id booking_id reporter_id accused_id valid_reason)
            (record {
              dispute_id = dispute_id;
              booking_id = booking_id;
              reporter_id = reporter_id;
              accused_id = accused_id;
              reason = valid_reason;
              status = opened;
              admin_id = none;
              resolution = none;
              notes = none;
              evidences = evidences;
              version = 1;
              events = [];
            }))
    ]

unfoldable pub assign_admin : String → Dispute → Result Dispute
unfolding assert_valid_transition add_event
assign_admin admin d = elim (assert_valid_transition resolving d) [
  | err e ↦ err e
  | ok _ ↦ ok (
      add_event (dispute_assigned d.dispute_id admin)
        (record d { status = resolving; admin_id = some admin }))
]

-- What the three resolutions have in common.
unfoldable pub close :
    DisputeStatus → String → DomainEvent → String → String → Dispute → Result Dispute
unfolding assert_valid_transition add_event
close target resolution event admin notes d = elim (assert_valid_transition target d) [
  | err e ↦ err e
  | ok _ ↦ ok (
      add_event event (record d {
        status = target;
        admin_id = some admin;
        resolution = some resolution;
        notes = some notes;
      }))
]

unfoldable pub resolve_refund : String → String → Dispute → Result Dispute
unfolding close
resolve_refund admin notes d =
    close refunded "REFUND_CLIENT"
      (dispute_resolved_refund (record {
        dispute_id = d.dispute_id;
        booking_id = d.booking_id;
        admin_id = admin;
        reporter_id = d.reporter_id;
        accused_id = d.accused_id;
      }))
      admin notes d

unfoldable pub resolve_payout : String → String → Dispute → Result Dispute
unfolding close
resolve_payout admin notes d =
    close paid_out "PAYOUT_COMPANION"
      (dispute_resolved_payout (record {
        dispute_id = d.dispute_id;
        booking_id = d.booking_id;
        admin_id = admin;
        reporter_id = d.reporter_id;
        accused_id = d.accused_id;
      }))
      admin notes d

unfoldable pub reject : String → String → Dispute → Result Dispute
unfolding close
reject admin notes d =
    close rejected "REJECT"
      (dispute_rejected (record {
        dispute_id = d.dispute_id;
        booking_id = d.booking_id;
        admin_id = admin;
        reporter_id = d.reporter_id;
        accused_id = d.accused_id;
      }))
      admin notes d

unfoldable pub add_evidence : DisputeEvidence → Dispute → Result Dispute
unfolding assert_not_terminal
add_evidence evidence d = elim (assert_not_terminal d) [
  | err e ↦ err e
  | ok _ ↦ ok (record d { evidences = d.evidences ++ evidence ∷ [] })
]
