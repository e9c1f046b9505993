-- ===== src/Dispute/Commands.antt =====
-- services/dispute-service/internal/application/command/dispute.py. The ids that `uuid4` draws are
-- arguments. The sagas run on the object that the orchestrators hold; what they save and publish
-- goes to the tables of the session.
pub mod Decisions
pub mod Effects
use rent_a_girlfriend.Prelude.{String, Option, none, some, List, [], ◌∷◌, ◌++◌, ◌==◌, if◌then◌else◌}
use rent_a_girlfriend.Table.Rows.{upsert}
use rent_a_girlfriend.Dispute.Vo.{
  duplicate_open_dispute, dispute_not_found, invalid_resolution, paying_out,
}
use rent_a_girlfriend.Dispute.Aggregate
use rent_a_girlfriend.Dispute.Aggregate.{Dispute, DisputeEvidence}
use rent_a_girlfriend.Dispute.SagaState.Refund
use rent_a_girlfriend.Dispute.SagaState.Refund.{DisputeRefundSaga}
use rent_a_girlfriend.Dispute.SagaState.Payout.{DisputePayoutSaga}
use rent_a_girlfriend.Dispute.Action.{Action, pure, raise, lift, ◌>>=◌, ◌>>◌}
use rent_a_girlfriend.Dispute.Orchestrators.{SagaSession}
use rent_a_girlfriend.Dispute.Orchestrators.Refund as RefundRun
use rent_a_girlfriend.Dispute.Orchestrators.Payout as PayoutRun
use rent_a_girlfriend.Dispute.Mappers.{SagaStateModel, refund_saga, payout_saga, saga_to_model}
use rent_a_girlfriend.Dispute.Repositories.{
  Environment, Session, saga_id, messages, save, find_by_id, find_open_by_booking_id, publish_all,
}

-- A dict of `evidences`, with the id that is drawn for it.
pub record EvidenceInput : Type 0 where
  pub evidence_id : String
  pub evidence_type : Option String
  pub content : Option String

-- `ev.get(key, default)`
abbrev pub get_or : Option String → String → String
get_or none default = default
get_or (some t) default = t

unfoldable pub evidence_entities : List EvidenceInput → List DisputeEvidence
evidence_entities [] = []
evidence_entities (ev ∷ evs) =
    record {
      evidence_id = ev.evidence_id;
      evidence_type = get_or ev.evidence_type "TEXT";
      content = get_or ev.content "";
    }
    ∷ evidence_entities evs

-- `DisputeRoutingService.route_dispute`
unfoldable pub route_dispute : Dispute → List String → Option String
route_dispute dispute [] = none
route_dispute dispute (admin ∷ admins) = some admin

-- The rows that the saves of a run leave.
unfoldable pub store_sagas :
    {Rate : Type 0}
    → List (SagaStateModel Rate)
    → List (SagaStateModel Rate)
    → List (SagaStateModel Rate)
unfolding upsert
store_sagas [] t = t
store_sagas (m ∷ ms) t = store_sagas ms (upsert saga_id m t)

unfoldable pub map_rows : {S R : Type 0} → (S → R) → List S → List R
map_rows f [] = []
map_rows f (x ∷ xs) = f x ∷ map_rows f xs

module _ {Rate : Type 0} (env : Environment Rate) where
  -- A run of an orchestrator, in the session.
  unfoldable pub run_saga :
      {S : Type 0}
      → (S → SagaStateModel Rate)
      → S
      → Action (SagaSession S) Unit
      → Action (Session Rate) Unit
  unfolding store_sagas map_rows messages
  run_saga row object run s =
      let (r, t) = run (record { object = object; saves = []; calls = []; published = [] }) in
      (
        r,
        record s {
          sagas = store_sagas (map_rows row t.saves) s.sagas;
          outbox = s.outbox ++ messages t.published;
          calls = s.calls ++ t.calls;
        },
      )

  -- `refund_saga_orchestrator.start`
  unfoldable pub start_refund : String → String → String → Action (Session Rate) Unit
  start_refund saga_id dispute_id booking_id =
      run_saga (λ x. saga_to_model (refund_saga x)) (Refund.create saga_id dispute_id booking_id)
        (RefundRun.start env.refund_ports 2 saga_id dispute_id booking_id)

  -- The object before the snapshot is there.
  abbrev pub no_snapshot : String → String → String → DisputePayoutSaga Rate
  no_snapshot saga_id dispute_id booking_id = record {
    saga_id = saga_id;
    dispute_id = dispute_id;
    booking_id = booking_id;
    companion_wallet_id = none;
    commission_rate = none;
    current_state = paying_out;
    retry_count = 0;
    last_error = none;
    version = 1;
    events = [];
  }

  -- `payout_saga_orchestrator.start`
  unfoldable pub start_payout : String → String → String → Action (Session Rate) Unit
  start_payout saga_id dispute_id booking_id =
      run_saga (λ x. saga_to_model (payout_saga x)) (no_snapshot saga_id dispute_id booking_id)
        (PayoutRun.start env.payout_ports 2 saga_id dispute_id booking_id)

  -- [INV-D01]
  unfoldable pub refuse_duplicate : String → Option Dispute → Action (Session Rate) Unit
  refuse_duplicate booking_id none = pure tt
  refuse_duplicate booking_id (some existing) = raise (duplicate_open_dispute booking_id)

  unfoldable pub create_report :
      String → String → String → String → String → List EvidenceInput → Action (Session Rate) String
  create_report dispute_id booking_id reporter_id accused_id reason evidences = do
    existing ← find_open_by_booking_id env booking_id
    refuse_duplicate booking_id existing
    dispute ← lift (
        Aggregate.create_report dispute_id booking_id reporter_id accused_id reason
          (evidence_entities evidences))
    saved ← save env dispute
    publish_all env dispute.events
    pure dispute_id

  unfoldable pub found : String → Option Dispute → Action (Session Rate) Dispute
  found dispute_id none = raise (dispute_not_found dispute_id)
  found dispute_id (some dispute) = pure dispute

  unfoldable pub assign_admin : String → String → Action (Session Rate) Unit
  assign_admin dispute_id admin_id = do
    o ← find_by_id env dispute_id
    dispute ← found dispute_id o
    assigned ← lift (Aggregate.assign_admin admin_id dispute)
    saved ← save env assigned
    publish_all env assigned.events

  -- The branch of the resolution: the dispute afterwards.
  unfoldable pub settle :
      String → String → String → String → String → Dispute → Action (Session Rate) Dispute
  settle saga_id dispute_id admin_id resolution notes dispute =
      if resolution == "REFUND_CLIENT"
      then (do
        resolved ← lift (Aggregate.resolve_refund admin_id notes dispute)
        saved ← save env resolved
        start_refund saga_id dispute_id dispute.booking_id
        pure saved)
      else if resolution == "PAYOUT_COMPANION"
      then (do
        resolved ← lift (Aggregate.resolve_payout admin_id notes dispute)
        saved ← save env resolved
        start_payout saga_id dispute_id dispute.booking_id
        pure saved)
      else if resolution == "REJECT"
      then (do
        resolved ← lift (Aggregate.reject admin_id notes dispute)
        saved ← save env resolved
        pure saved)
      else raise (invalid_resolution resolution)

  unfoldable pub resolve_dispute :
      String → String → String → String → String → Action (Session Rate) Unit
  resolve_dispute saga_id dispute_id admin_id resolution notes = do
    o ← find_by_id env dispute_id
    dispute ← found dispute_id o
    settled ← settle saga_id dispute_id admin_id resolution notes dispute
    publish_all env settled.events
