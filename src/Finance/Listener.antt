-- ===== src/Finance/Listener.antt =====
-- The Kafka listeners of services/finance-service/main.py: what one message does to the database.
-- Each message has a session of its own; a handler that raises is logged and leaves what the command
-- has committed. The fields of a message have the types of the events' schemas: texts, and integers
-- or texts for amounts.
pub mod Cancelling
pub mod Delivery
pub mod Redelivery
use rent_a_girlfriend.Prelude.{
  zero, String, ℤ, pos, Bool, true, false, not, Option, none, some, is_some, ◌||◌, ◌==◌, is_empty,
  List, [], ◌∷◌, if◌then◌else◌,
}
use rent_a_girlfriend.Finance.Vo.{TransactionType, Error, Result, ok, err, is_held}
use rent_a_girlfriend.Finance.Escrow.{Escrow}
use rent_a_girlfriend.Finance.Transaction.{Transaction}
use rent_a_girlfriend.Finance.Action.{Action, Store, pure, lift, ◌>>=◌, ◌>>◌, in_session}
use rent_a_girlfriend.Finance.Repositories.{
  Environment, find_escrow_by_booking_id, find_transaction_by_reference_id,
}
use rent_a_girlfriend.Finance.Service.Wallets.{create_wallet_onboard}
use rent_a_girlfriend.Finance.Service.Reservations.{freeze_coin, unfreeze_coin, transfer_to_escrow}
use rent_a_girlfriend.Finance.Service.Escrows.{process_payout, refund_escrow}

pub data Amount : Type 0 where
  number : ℤ → Amount
  text : String → Amount

-- The `data` of a message.
pub record Payload : Type 0 where
  pub texts : List (String × String)
  pub amounts : List (String × Amount)

-- `event_data.get(key)`
unfoldable pub get_field {ℓ} : {A : Type ℓ} → String → List (String × A) → Option A
get_field key [] = none
get_field key ((k, v) ∷ fields) = if k == key then some v else get_field key fields

-- A text that is missing or empty is false in a test.
unfoldable pub truthy : Option String → Option String
truthy none = none
truthy (some t) = if is_empty t then none else some t

-- `a or b`
unfoldable pub or_other : Option String → Option String → Option String
unfolding truthy
or_other a b = elim (truthy a) [ some t ↦ some t | none ↦ truthy b ]

-- `event_data.get(camel) or event_data.get(snake)`, where it is true in a test.
unfoldable pub text_field : String → String → Payload → Option String
unfolding get_field or_other
text_field camel snake d = or_other (get_field camel d.texts) (get_field snake d.texts)

unfoldable pub is_falsy : Amount → Bool
is_falsy (number (pos zero)) = true
is_falsy (number z) = false
is_falsy (text t) = is_empty t

-- `event_data.get("refundAmount") or event_data.get("refund_amount")`
unfoldable pub amount_or : Option Amount → Option Amount → Option Amount
unfolding is_falsy
amount_or none b = b
amount_or (some a) b = if is_falsy a then b else some a

-- What `uuid4` gives to the calls of one message.
pub record Draws : Type 0 where
  pub wallet_id : String
  pub txn_id : String
  pub escrow_id : String

module _ (env : Environment) where
  -- `int(amount)`
  unfoldable pub int_of : Amount → Result ℤ
  int_of (number z) = ok z
  int_of (text t) = elim (env.parse_int t) [ none ↦ err Error.value_error | some z ↦ ok z ]

  unfoldable pub freeze_for : Draws → String → String → Amount → Action String
  freeze_for draws booking_id client_id amount = do
    n ← lift (int_of amount)
    freeze_coin env draws.wallet_id draws.txn_id client_id n booking_id
        TransactionType.booking_reservation

  unfoldable pub transfer_for : Draws → String → String → Amount → Action String
  transfer_for draws booking_id user_id amount = do
    n ← lift (int_of amount)
    transfer_to_escrow env draws.escrow_id draws.txn_id user_id n booking_id

  unfoldable pub refund_for : Draws → String → String → Amount → Action String
  refund_for draws booking_id client_id amount = do
    n ← lift (int_of amount)
    refund_escrow env draws.wallet_id draws.txn_id booking_id client_id n

  unfoldable pub unfreeze_for : Draws → String → String → Amount → Action String
  unfreeze_for draws booking_id client_id amount = do
    n ← lift (int_of amount)
    unfreeze_coin env draws.txn_id client_id n booking_id

  -- `Refund from frozen`
  unfoldable pub release_found : Draws → String → String → Option Transaction → Action Unit
  release_found draws booking_id client_id none = pure tt
  release_found draws booking_id client_id (some reservation_txn) =
      unfreeze_coin env draws.txn_id client_id (pos reservation_txn.amount) booking_id >> pure tt

  unfoldable pub release_reservation : Draws → String → String → Action Unit
  release_reservation draws booking_id client_id = do
    reservation_txn ←
        find_transaction_by_reference_id env booking_id TransactionType.booking_reservation
    release_found draws booking_id client_id reservation_txn

  -- The escrow if it is held, else the reservation, goes back to the client.
  unfoldable pub give_back_found : Draws → String → String → Option Escrow → Action Unit
  give_back_found draws booking_id client_id none = release_reservation draws booking_id client_id
  give_back_found draws booking_id client_id (some escrow) =
      if is_held escrow.status
      then refund_escrow env draws.wallet_id draws.txn_id booking_id client_id (pos escrow.amount)
        >> pure tt
      else release_reservation draws booking_id client_id

  unfoldable pub give_back : Draws → String → String → Action Unit
  give_back draws booking_id client_id = do
    escrow ← find_escrow_by_booking_id env booking_id
    give_back_found draws booking_id client_id escrow

  -- The cancellation unless a refund exists.
  unfoldable pub cancel_early : Draws → String → String → Action Unit
  cancel_early draws booking_id client_id = do
    existing_refund ← find_transaction_by_reference_id env booking_id TransactionType.refund
    if is_some existing_refund then pure tt else give_back draws booking_id client_id

  -- The client cancelled late: all goes to the companion.
  unfoldable pub compensate_found : Draws → String → String → Option Escrow → Action Unit
  compensate_found draws booking_id companion_id none = pure tt
  compensate_found draws booking_id companion_id (some escrow) =
      if is_held escrow.status
      then process_payout env draws.wallet_id draws.txn_id booking_id companion_id env.zero_rate
        >> pure tt
      else pure tt

  unfoldable pub compensate : Draws → String → String → Action Unit
  compensate draws booking_id companion_id = do
    escrow ← find_escrow_by_booking_id env booking_id
    compensate_found draws booking_id companion_id escrow

  -- `role` is the actor's role in capitals.
  unfoldable pub cancel_by_role : Draws → String → String → String → String → Action Unit
  cancel_by_role draws booking_id client_id companion_id role =
      if role == "COMPANION"
      then give_back draws booking_id client_id
      else if role == "CLIENT"
      then compensate draws booking_id companion_id
      else pure tt

  unfoldable pub cancel_late : Draws → String → String → String → String → Action Unit
  cancel_late draws booking_id client_id companion_id role = do
    existing_refund ← find_transaction_by_reference_id env booking_id TransactionType.refund
    existing_payout ← find_transaction_by_reference_id env booking_id TransactionType.escrow_release
    if is_some existing_refund || is_some existing_payout
        then pure tt
        else cancel_by_role draws booking_id client_id companion_id role

-- A handler in a session of its own.
unfoldable pub deliver : {A : Type 0} → Action A → Store → Store
deliver handler db = (in_session handler db).1

-- The guards on the fields that a handler needs.
unfoldable pub with_one : {A : Type 0} → Option A → (A → Store → Store) → Store → Store
with_one (some a) f = f a
with_one none f = λ db. db

unfoldable pub with_two :
    {A B : Type 0} → Option A → Option B → (A → B → Store → Store) → Store → Store
with_two (some a) (some b) f = f a b
with_two _ _ f = λ db. db

unfoldable pub with_three :
    {A B C : Type 0} → Option A → Option B → Option C → (A → B → C → Store → Store) → Store → Store
unfolding with_two
with_three (some a) b c f = with_two b c (f a)
with_three none b c f = λ db. db

unfoldable pub with_four :
    {A B C D : Type 0}
    → Option A
    → Option B
    → Option C
    → Option D
    → (A → B → C → D → Store → Store)
    → Store
    → Store
unfolding with_three
with_four (some a) b c d f = with_three b c d (f a)
with_four none b c d f = λ db. db

pub record Message : Type 0 where
  pub type : String
  pub payload : Payload
  pub draws : Draws

-- `str.upper` is a parameter.
module _ (env : Environment) (upper : String → String) where
  unfoldable pub booking_requested : Draws → Payload → Store → Store
  booking_requested draws d =
      with_three (text_field "bookingId" "booking_id" d) (text_field "clientId" "client_id" d)
        (get_field "price" d.amounts)
        (λ booking_id client_id amount. deliver (freeze_for env draws booking_id client_id amount))

  unfoldable pub transfer_requested : Draws → Payload → Store → Store
  transfer_requested draws d =
      with_three (text_field "bookingId" "booking_id" d)
        (or_other (text_field "userId" "user_id" d) (text_field "clientId" "client_id" d))
        (get_field "amount" d.amounts)
        (λ booking_id user_id amount. deliver (transfer_for env draws booking_id user_id amount))

  unfoldable pub refund_requested : Draws → Payload → Store → Store
  refund_requested draws d =
      with_three (text_field "bookingId" "booking_id" d) (text_field "clientId" "client_id" d)
        (amount_or (get_field "refundAmount" d.amounts) (get_field "refund_amount" d.amounts))
        (λ booking_id client_id amount. deliver (refund_for env draws booking_id client_id amount))

  unfoldable pub unfreeze_requested : Draws → Payload → Store → Store
  unfreeze_requested draws d =
      with_three (text_field "bookingId" "booking_id" d) (text_field "userId" "user_id" d)
        (get_field "amount" d.amounts)
        (λ booking_id client_id amount.
          deliver (unfreeze_for env draws booking_id client_id amount))

  unfoldable pub cancelled_early : Draws → Payload → Store → Store
  cancelled_early draws d =
      with_two (text_field "bookingId" "booking_id" d) (text_field "clientId" "client_id" d)
        (λ booking_id client_id. deliver (cancel_early env draws booking_id client_id))

  unfoldable pub cancelled_late : Draws → Payload → Store → Store
  cancelled_late draws d =
      with_four (text_field "bookingId" "booking_id" d) (text_field "clientId" "client_id" d)
        (text_field "companionId" "companion_id" d) (text_field "actorRole" "actor_role" d)
        (λ booking_id client_id companion_id actor_role.
          deliver (cancel_late env draws booking_id client_id companion_id (upper actor_role)))

  -- `run_booking_event_listener` on one message.
  unfoldable pub handle_booking_event : Message → Store → Store
  handle_booking_event msg =
      if msg.type == "booking.booking-requested.v1"
      then booking_requested msg.draws msg.payload
      else if msg.type == "finance.transfer-to-escrow.v1"
      then transfer_requested msg.draws msg.payload
      else if msg.type == "finance.refund-escrow.v1"
      then refund_requested msg.draws msg.payload
      else if msg.type == "finance.unfreeze-coin.v1"
      then unfreeze_requested msg.draws msg.payload
      else if msg.type == "booking.booking-cancelled-early.v1"
      then cancelled_early msg.draws msg.payload
      else if msg.type == "booking.booking-cancelled-late.v1"
      then cancelled_late msg.draws msg.payload
      else λ db. db

  -- The messages of a topic, one after the other.
  unfoldable pub handle_booking_events : List Message → Store → Store
  handle_booking_events [] db = db
  handle_booking_events (msg ∷ msgs) db = handle_booking_events msgs (handle_booking_event msg db)

  -- `run_identity_event_listener` on one message.
  unfoldable pub handle_identity_event : Draws → Payload → Store → Store
  handle_identity_event draws d =
      with_one (or_other (text_field "userId" "user_id" d) (get_field "id" d.texts))
        (λ user_id. deliver (create_wallet_onboard env draws.wallet_id user_id))
