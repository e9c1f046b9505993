-- ===== src/Dispute/Orchestrators.antt =====
-- What the two orchestrators of services/dispute-service/internal/application/saga share: the saga
-- object, which an exception handler sees as the failed step left it, and the calls that they make.
pub mod Counting
pub mod Refund
pub mod Payout
use rent_a_girlfriend.Prelude.{
  ℕ, String, Option, none, some, List, [], ◌∷◌, ◌++◌, Bool, is_empty, if◌then◌else◌,
}
use rent_a_girlfriend.Dispute.Vo.{Error, Result, ok, err, database_error, encode_error}
use rent_a_girlfriend.Dispute.Events.{DomainEvent}
use rent_a_girlfriend.Dispute.Action.{Action, pure, raise, lift, gets, modify, ◌>>=◌, ◌>>◌}

-- The calls of the two ports, with the booking.
pub data Call : Type 0 where
  refund_call payout_call hide_call lock_call : String → Call

-- The saga that is processed, its versions that were saved, the calls made and the events published,
-- each oldest first.
pub record SagaSession (S : Type 0) : Type 0 where
  pub object : S
  pub saves : List S
  pub calls : List Call
  pub published : List DomainEvent

-- `RefundResult` and `PayoutResult` of application/port.
pub record PortResult : Type 0 where
  pub success : Bool
  pub transaction_id : Option String
  pub error : Option String

-- `error or default`
unfoldable pub or_default : Option String → String → String
or_default none default = default
or_default (some e) default = if is_empty e then default else e

module _ {S : Type 0} where
  -- A call of a port, which answers or raises.
  unfoldable pub call : {A : Type 0} → Call → Result A → Action (SagaSession S) A
  call c reply s = (reply, record s { calls = s.calls ++ c ∷ [] })

  -- A method of the saga, on the object.
  unfoldable pub update : (S → Result S) → Action (SagaSession S) Unit
  update method s = elim (method s.object) [
    | err e ↦ (err e, s)
    | ok x ↦ (ok tt, record s { object = x })
  ]

  -- `saga_repo.save`, which gives the version of the merged row, or raises.
  unfoldable pub save : (S → Option S) → Action (SagaSession S) Unit
  save merged s = elim (merged s.object) [
    | none ↦ (err database_error, s)
    | some x ↦ (ok tt, record s { object = x; saves = s.saves ++ x ∷ [] })
  ]

  -- `for event in events: self.event_publisher.publish(event)`
  unfoldable pub publish_all : (DomainEvent → Bool) → List DomainEvent → Action (SagaSession S) Unit
  unfolding pure raise modify ◌>>=◌
  publish_all encodes [] = pure tt
  publish_all encodes (e ∷ es) =
      (if encodes e
        then modify (λ s. record s { published = s.published ++ e ∷ [] })
        else raise encode_error)
      >> publish_all encodes es
