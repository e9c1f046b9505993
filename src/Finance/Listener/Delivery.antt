-- ===== src/Finance/Listener/Delivery.antt =====
-- Delivering messages of the booking topic conserves the coins.
use rent_a_girlfriend.Finance.Listener.Cancelling.{
  select-Conserves, cancel_late-Conserves, cancel_early-Conserves, deliver-lift-Conserves,
}
use rent_a_girlfriend.Prelude.{
  ◌≢◌, false≢true, String, pos, ◌≡◌, refl, ap, sym, ◌∙◌, Bool, true, false, Option, none, some, [],
  List, ◌∷◌, if◌then◌else◌, ◌==◌,
}
use rent_a_girlfriend.Table.Rows.{IsFresh}
use rent_a_girlfriend.Finance.Vo.{TransactionType, ok}
use rent_a_girlfriend.Finance.Action.{Store}
use rent_a_girlfriend.Finance.Repositories.{Environment, wallet_id, escrow_id}
use rent_a_girlfriend.Finance.Ledger.{IsValid}
use rent_a_girlfriend.Finance.Ledger.Conservation.{
  IsFunded, Conserves, Conserves-refl, Conserves-trans,
}
use rent_a_girlfriend.Finance.Service.Conserving.{
  freeze_coin-Conserves, unfreeze_coin-Conserves, transfer_to_escrow-Conserves,
}
use rent_a_girlfriend.Finance.Listener.{
  Amount, Message, get_field, text_field, or_other, int_of, freeze_for, transfer_for, unfreeze_for,
  cancel_early, cancel_late, deliver, with_two, with_three, with_four, booking_requested,
  transfer_requested, refund_requested, unfreeze_requested, cancelled_early, cancelled_late,
  handle_booking_event, handle_booking_events,
}

-- The guards on the fields either run the handler or change nothing.
module _ (db : Store) (v : IsValid db) (f : IsFunded db) where
  with_two-Conserves :
      {A B : Type 0} (a : Option A) (b : Option B) (g : A → B → Store → Store)
      → ((x : A) (y : B) → b ≡ some y → Conserves db (g x y db))
      → Conserves db (with_two a b g db)
  unfolding with_two
  with_two-Conserves (some a) (some b) g h = h a b refl
  with_two-Conserves (some a) none g h = Conserves-refl db v f
  with_two-Conserves none b g h = Conserves-refl db v f

  with_three-Conserves :
      {A B C : Type 0} (a : Option A) (b : Option B) (c : Option C) (g : A → B → C → Store → Store)
      → ((x : A) (y : B) (z : C) → c ≡ some z → Conserves db (g x y z db))
      → Conserves db (with_three a b c g db)
  unfolding with_three
  with_three-Conserves (some a) b c g h = with_two-Conserves b c (g a) (h a)
  with_three-Conserves none b c g h = Conserves-refl db v f

  with_four-Conserves :
      {A B C D : Type 0} (a : Option A) (b : Option B) (c : Option C) (d : Option D)
      (g : A → B → C → D → Store → Store)
      → ((x : A) (y : B) (z : C) (w : D) → Conserves db (g x y z w db))
      → Conserves db (with_four a b c d g db)
  unfolding with_four
  with_four-Conserves (some a) b c d g h = with_three-Conserves b c d (g a) (λ x y z _. h a x y z)
  with_four-Conserves none b c d g h = Conserves-refl db v f

-- The message draws unused ids, asks for no refund of an amount of its own, and for no transfer of
-- nothing.
pub record Fits (env : Environment) (msg : Message) (db : Store) : Type 0 where
  pub fresh_wallet : IsFresh wallet_id msg.draws.wallet_id db.wallets
  pub fresh_escrow : IsFresh escrow_id msg.draws.escrow_id db.escrows
  pub no_refund : (msg.type == "finance.refund-escrow.v1") ≡ false
  pub some_coins :
      (msg.type == "finance.transfer-to-escrow.v1") ≡ true
      → (a : Amount) → get_field "amount" msg.payload.amounts ≡ some a
      → int_of env a ≢ ok (pos 0)

module _ (env : Environment) (upper : String → String) (msg : Message) (db : Store) (v : IsValid db)
    (f : IsFunded db) (fits : Fits env msg db) where
  booking_requested-Conserves : Conserves db (booking_requested env upper msg.draws msg.payload db)
  unfolding booking_requested freeze_for deliver
  booking_requested-Conserves =
      with_three-Conserves db v f (text_field "bookingId" "booking_id" msg.payload)
        (text_field "clientId" "client_id" msg.payload) (get_field "price" msg.payload.amounts)
        (λ b u a. deliver (freeze_for env msg.draws b u a))
        λ b u a _. deliver-lift-Conserves env db v f (int_of env a) _ λ n _.
          freeze_coin-Conserves env db v f msg.draws.wallet_id msg.draws.txn_id u n b
            TransactionType.booking_reservation fits.fresh_wallet

  transfer_requested-Conserves :
      (msg.type == "finance.transfer-to-escrow.v1") ≡ true
      → Conserves db (transfer_requested env upper msg.draws msg.payload db)
  unfolding transfer_requested transfer_for deliver
  transfer_requested-Conserves is_transfer =
      with_three-Conserves db v f (text_field "bookingId" "booking_id" msg.payload)
        (or_other (text_field "userId" "user_id" msg.payload)
          (text_field "clientId" "client_id" msg.payload))
        (get_field "amount" msg.payload.amounts)
        (λ b u a. deliver (transfer_for env msg.draws b u a))
        λ b u a e. deliver-lift-Conserves env db v f (int_of env a) _ λ n q.
          transfer_to_escrow-Conserves env db v f msg.draws.escrow_id msg.draws.txn_id u n b
            fits.fresh_escrow (λ z. fits.some_coins is_transfer a e (q ∙ ap ok z))

  unfreeze_requested-Conserves :
      Conserves db (unfreeze_requested env upper msg.draws msg.payload db)
  unfolding unfreeze_requested unfreeze_for deliver
  unfreeze_requested-Conserves =
      with_three-Conserves db v f (text_field "bookingId" "booking_id" msg.payload)
        (text_field "userId" "user_id" msg.payload) (get_field "amount" msg.payload.amounts)
        (λ b u a. deliver (unfreeze_for env msg.draws b u a))
        λ b u a _.
          deliver-lift-Conserves env db v f (int_of env a) _
            λ n _. unfreeze_coin-Conserves env db v f msg.draws.txn_id u n b

  cancelled_early-Conserves : Conserves db (cancelled_early env upper msg.draws msg.payload db)
  unfolding cancelled_early
  cancelled_early-Conserves =
      with_two-Conserves db v f (text_field "bookingId" "booking_id" msg.payload)
        (text_field "clientId" "client_id" msg.payload)
        (λ b u. deliver (cancel_early env msg.draws b u))
        λ b u _. cancel_early-Conserves env db v f msg.draws fits.fresh_wallet b u

  cancelled_late-Conserves : Conserves db (cancelled_late env upper msg.draws msg.payload db)
  unfolding cancelled_late
  cancelled_late-Conserves =
      with_four-Conserves db v f (text_field "bookingId" "booking_id" msg.payload)
        (text_field "clientId" "client_id" msg.payload)
        (text_field "companionId" "companion_id" msg.payload)
        (text_field "actorRole" "actor_role" msg.payload)
        (λ b client u role. deliver (cancel_late env msg.draws b client u (upper role)))
        λ b client u role.
          cancel_late-Conserves env db v f msg.draws fits.fresh_wallet b client u (upper role)

module _ (env : Environment) (upper : String → String) where
  pub handle_booking_event-Conserves :
      (msg : Message) (db : Store)
      → IsValid db
      → IsFunded db
      → Fits env msg db
      → Conserves db (handle_booking_event env upper msg db)
  unfolding handle_booking_event
  handle_booking_event-Conserves msg db v f fits =
      select (msg.type == "booking.booking-requested.v1")
        (booking_requested env upper msg.draws msg.payload) _
        (λ _. booking_requested-Conserves env upper msg db v f fits)
        λ _.
          select (msg.type == "finance.transfer-to-escrow.v1")
            (transfer_requested env upper msg.draws msg.payload) _
            (transfer_requested-Conserves env upper msg db v f fits)
            λ _.
              select (msg.type == "finance.refund-escrow.v1")
                (refund_requested env upper msg.draws msg.payload) _
                (λ t. absurd (false≢true (sym fits.no_refund ∙ t)))
                λ _.
                  select (msg.type == "finance.unfreeze-coin.v1")
                    (unfreeze_requested env upper msg.draws msg.payload) _
                    (λ _. unfreeze_requested-Conserves env upper msg db v f fits)
                    λ _.
                      select (msg.type == "booking.booking-cancelled-early.v1")
                        (cancelled_early env upper msg.draws msg.payload) _
                        (λ _. cancelled_early-Conserves env upper msg db v f fits)
                        λ _.
                          select (msg.type == "booking.booking-cancelled-late.v1")
                            (cancelled_late env upper msg.draws msg.payload) (λ d. d)
                            (λ _. cancelled_late-Conserves env upper msg db v f fits)
                            (λ _. Conserves-refl db v f)
    where
      select :
          (t : Bool) (g h : Store → Store)
          → (t ≡ true → Conserves db (g db))
          → (t ≡ false → Conserves db (h db))
          → Conserves db ((if t then g else h) db)
      select t g h = select-Conserves env db v f t g h

  -- Each message fits the database that those before it leave.
  abbrev pub FitAll : List Message → Store → Type 0
  FitAll [] db = Unit
  FitAll (msg ∷ msgs) db = Fits env msg db × FitAll msgs (handle_booking_event env upper msg db)

  -- Any sequence of messages of the booking topic, if each draws unused ids, asks for no refund of an
  -- amount of its own and for no transfer of nothing: on a database within its constraints whose held
  -- escrows hold something, it keeps the constraints and the sum of all coins, whether the commands
  -- return or raise.
  pub handle_booking_events_conserve :
      (msgs : List Message) (db : Store)
      → IsValid db
      → IsFunded db
      → FitAll msgs db
      → Conserves db (handle_booking_events env upper msgs db)
  unfolding handle_booking_events
  handle_booking_events_conserve [] db v f fits = Conserves-refl db v f
  handle_booking_events_conserve (msg ∷ msgs) db v f fits =
      let c = handle_booking_event-Conserves msg db v f fits.0 in
      Conserves-trans c (
        handle_booking_events_conserve msgs (handle_booking_event env upper msg db) c.valid c.funded
          fits.1)
