-- ===== src/Finance/Listener/Cancelling.antt =====
-- The cancellation handlers conserve the coins.
use rent_a_girlfriend.Prelude.{
  String, pos, ◌≡◌, refl, sym, subst, Bool, true, false, Option, none, some, if◌then◌else◌, ◌==◌,
  ◌||◌,
}
use mathlib.Core.Option
use rent_a_girlfriend.Table.Rows.{IsFresh}
use rent_a_girlfriend.Finance.Vo.{Result, ok, err}
use rent_a_girlfriend.Finance.Escrow.{Escrow}
use rent_a_girlfriend.Finance.Transaction.{Transaction}
use rent_a_girlfriend.Finance.Action.{
  Action, gets, EscrowModel, Store, Session, in_session, ◌>>=◌, ◌>>◌, pure, lift,
}
use rent_a_girlfriend.Finance.Action.Sessions.{begin}
use rent_a_girlfriend.Finance.Repositories.{
  Environment, wallet_id, booking_id, find_escrow_by_booking_id, find_transaction_by_reference_id,
}
use rent_a_girlfriend.Finance.Ledger.{IsValid}
use rent_a_girlfriend.Prelude.{is_some, ◌||◌}
use rent_a_girlfriend.Table.Reads.{mem_of_first}
use rent_a_girlfriend.Finance.Repositories.{escrow_to_domain}
use rent_a_girlfriend.Finance.Ledger.Conservation.{IsFunded, Conserves, Conserves-refl}
use rent_a_girlfriend.Finance.Service.Conserving.{
  unfreeze_coin-Conserves, process_payout-Conserves, refund_escrow-Conserves,
}
use rent_a_girlfriend.Finance.Listener.{
  Draws, release_found, release_reservation, give_back_found, give_back, cancel_early,
  compensate_found, compensate, cancel_by_role, cancel_late, deliver,
}

-- How a session passes through the steps of a handler.
pub deliver-gets :
    {A B : Type 0} (g : Store → A) (f : A → Action B) (db : Store)
    → deliver (gets g >>= f) db ≡ deliver (f (g db)) db
unfolding deliver in_session ◌>>=◌
deliver-gets g f db = refl

pub deliver-discard :
    {A : Type 0} (m : Action A) (db : Store) → deliver (m >> pure tt) db ≡ deliver m db
unfolding deliver in_session ◌>>=◌
deliver-discard {A} m db = next (m (begin db))
  where
    next : (p : Result A × Session) → deliver ((λ _. p) >> pure tt) db ≡ deliver (λ _. p) db
    next (ok a, s) = refl
    next (err e, s) = refl

module _ (env : Environment) (db : Store) (v : IsValid db) (f : IsFunded db) where
  pub nothing-Conserves : Conserves db (deliver (pure tt) db)
  unfolding deliver in_session pure
  nothing-Conserves = Conserves-refl db v f

  pub deliver-lift-Conserves :
      {A B : Type 0} (r : Result A) (g : A → Action B)
      → ((a : A) → r ≡ ok a → Conserves db (deliver (g a) db))
      → Conserves db (deliver (lift r >>= g) db)
  unfolding deliver in_session ◌>>=◌
  deliver-lift-Conserves (ok a) g h = h a refl
  deliver-lift-Conserves (err e) g h = Conserves-refl db v f

  discard-Conserves :
      {A : Type 0} (m : Action A)
      → Conserves db (deliver m db)
      → Conserves db (deliver (m >> pure tt) db)
  discard-Conserves m c = subst (Conserves db) (sym (deliver-discard m db)) c

  pub if-Conserves :
      {A : Type 0} (t : Bool) (m n : Action A)
      → (t ≡ true → Conserves db (deliver m db))
      → (t ≡ false → Conserves db (deliver n db))
      → Conserves db (deliver (if t then m else n) db)
  if-Conserves true m n h k = h refl
  if-Conserves false m n h k = k refl

  pub select-Conserves :
      (t : Bool) (g h : Store → Store)
      → (t ≡ true → Conserves db (g db))
      → (t ≡ false → Conserves db (h db))
      → Conserves db ((if t then g else h) db)
  select-Conserves true g h p q = p refl
  select-Conserves false g h p q = q refl

module _ (env : Environment) (db : Store) (v : IsValid db) (f : IsFunded db) (draws : Draws) where
  pub release_reservation-Conserves :
      (b client : String) → Conserves db (deliver (release_reservation env draws b client) db)
  unfolding release_reservation find_transaction_by_reference_id
  release_reservation-Conserves b client =
      subst (Conserves db) (sym (deliver-gets _ (release_found env draws b client) db)) (found _)
    where
      found :
          (o : Option Transaction) → Conserves db (deliver (release_found env draws b client o) db)
      found none = unfold release_found in nothing-Conserves env db v f
      found (some t) =
          unfold release_found in
          discard-Conserves env db v f _ (
            unfold deliver in
            unfreeze_coin-Conserves env db v f draws.txn_id client (pos t.amount) b)

module _ (env : Environment) (db : Store) (v : IsValid db) (f : IsFunded db) (draws : Draws)
    (fresh : IsFresh wallet_id draws.wallet_id db.wallets) where
  pub give_back-Conserves :
      (b client : String) → Conserves db (deliver (give_back env draws b client) db)
  unfolding give_back find_escrow_by_booking_id give_back_found escrow_to_domain deliver
  give_back-Conserves b client =
      subst (Conserves db) (sym (deliver-gets _ (give_back_found env draws b client) db))
        (found (env.escrows.first (λ m. booking_id m == b) db.escrows) refl)
    where
      found :
          (o : Option EscrowModel)
          → env.escrows.first (λ m. booking_id m == b) db.escrows ≡ o
          → Conserves db
              (deliver (give_back_found env draws b client (Option.map escrow_to_domain o)) db)
      found none e = release_reservation-Conserves env db v f draws b client
      found (some m) e =
          let (mem, same) = mem_of_first env.escrows booking_id db.escrows b m e in
          if-Conserves env db v f _ _ _
            (λ was. discard-Conserves env db v f _ (
              refund_escrow-Conserves env db v f draws.wallet_id draws.txn_id b client m fresh mem
                same was))
            (λ _. release_reservation-Conserves env db v f draws b client)

  pub compensate-Conserves : (b u : String) → Conserves db (deliver (compensate env draws b u) db)
  unfolding compensate find_escrow_by_booking_id compensate_found deliver
  compensate-Conserves b u =
      subst (Conserves db) (sym (deliver-gets _ (compensate_found env draws b u) db)) (found _)
    where
      found : (o : Option Escrow) → Conserves db (deliver (compensate_found env draws b u o) db)
      found none = unfold compensate_found in nothing-Conserves env db v f
      found (some x) =
          if-Conserves env db v f _ _ _
            (λ _.
              discard-Conserves env db v f _
                (process_payout-Conserves env db v f draws.wallet_id draws.txn_id b u fresh))
            (λ _. nothing-Conserves env db v f)

  pub cancel_early-Conserves :
      (b client : String) → Conserves db (deliver (cancel_early env draws b client) db)
  unfolding cancel_early find_transaction_by_reference_id
  cancel_early-Conserves b client = subst (Conserves db) (sym (deliver-gets _ _ db)) (
      if-Conserves env db v f _ _ _ (λ _. nothing-Conserves env db v f)
        (λ _. give_back-Conserves b client))

  cancel_by_role-Conserves :
      (b client u role : String)
      → Conserves db (deliver (cancel_by_role env draws b client u role) db)
  unfolding cancel_by_role
  cancel_by_role-Conserves b client u role =
      if-Conserves env db v f (role == "COMPANION") (give_back env draws b client)
        (if role == "CLIENT" then compensate env draws b u else pure tt)
        (λ _. give_back-Conserves b client)
        (λ _.
          if-Conserves env db v f (role == "CLIENT") (compensate env draws b u) (pure tt)
            (λ _. compensate-Conserves b u) (λ _. nothing-Conserves env db v f))

  pub cancel_late-Conserves :
      (b client u role : String) → Conserves db (deliver (cancel_late env draws b client u role) db)
  unfolding cancel_late find_transaction_by_reference_id
  cancel_late-Conserves b client u role = subst (Conserves db) (sym (deliver-gets _ _ db)) (
      subst (Conserves db) (sym (deliver-gets _ _ db)) (
        if-Conserves env db v f (is_some _ || is_some _) (pure tt)
          (cancel_by_role env draws b client u role) (λ _. nothing-Conserves env db v f)
          (λ _. cancel_by_role-Conserves b client u role)))
