-- ===== src/Finance/Service/Escrows/RefundFailing.antt =====
-- What `refund_escrow` leaves when it raises.
use rent_a_girlfriend.Prelude.{String, ℤ, ◌≡◌, refl, ap, sym, ◌∙◌, subst, or_else}
use rent_a_girlfriend.Finance.Vo.{Error, Result, ok, err}
use rent_a_girlfriend.Finance.Events.{DomainEvent, refund_failed}
use rent_a_girlfriend.Finance.Escrow.{Escrow}
use rent_a_girlfriend.Finance.Action.{gets, Store, Session, in_session, ◌>>=◌, ◌>>◌, attempt}
use rent_a_girlfriend.Finance.Action.Preserves.{Preserves, preserves_rules}
use rent_a_girlfriend.Finance.Action.Sessions.{attempt_ok, begin, in_session_err}
use rent_a_girlfriend.Finance.Repositories.{
  Environment, find_escrow_by_booking_id, find_transaction_by_reference_id, publish,
}
use rent_a_girlfriend.Finance.Steps.Saved.{SavedIs, saved_rules, reported}
use rent_a_girlfriend.Finance.Service.Wallets.{nil_uuid}
use rent_a_girlfriend.Finance.Service.Wallets.Opening.{get_or_create-SavedIs}
use rent_a_girlfriend.Finance.Service.Escrows.{
  find_refund, pay_refund, refund_escrow, report_refund_failed, client_of_reservation,
}
use rent_a_girlfriend.Finance.Service.Reservations.Marking.{reservation_of}
use rent_a_girlfriend.Finance.Action.Sessions.{attempt_err, run-bind}
use rent_a_girlfriend.Finance.Action.{commit}
use rent_a_girlfriend.Finance.Steps.Saved.{saved-report}

-- The report of a failed refund.
abbrev pub failed_refund : String → String → Error → DomainEvent
failed_refund b client e =
    refund_failed (record { booking_id = b; client_id = or_else client nil_uuid; reason = e })

module _ (env : Environment) (b : String) where
  report-saved :
      (client : String) (e : Error) (db : Store)
      → ((report_refund_failed env b client e) (begin db)).1.saved
        ≡ reported env
            (failed_refund b (client_of_reservation client (reservation_of env b db)) e)
            db
  unfolding report_refund_failed find_transaction_by_reference_id gets
  report-saved client e db =
      ap (λ (p : Result Unit × Session). p.1.saved)
        (run-bind (gets (reservation_of env b))
          (λ t. publish env (failed_refund b (client_of_reservation client t) e) >> commit)
          (begin db) refl)
      ∙ saved-report env _ db

  -- Looking the refund up leaves the session alone.
  find_refund-reads :
      (client : String) (amount : ℤ) (P : Session → Type 0)
      → Preserves P (find_refund env b client amount)
  unfolding find_refund find_escrow_by_booking_id find_transaction_by_reference_id
  find_refund-reads client amount P = search preserves_rules depth 10

module _ (env : Environment) (wid k b : String) where
  pay_refund-SavedIs :
      (x : Escrow) (u : String) (amount : ℤ) (db : Store)
      → Preserves (SavedIs db) (pay_refund env wid k b x u amount)
  unfolding pay_refund
  pay_refund-SavedIs x u amount db = search (saved_rules, get_or_create-SavedIs) depth 20

module _ (env : Environment) (wid k b client : String) (amount : ℤ) where
  failed_by :
      (db : Store) (e : Error) (s : Session)
      → refund_escrow env wid k b client amount (begin db) ≡ (err e, s)
      → (u : String) × (s.saved ≡ reported env (failed_refund b u e) db)
  unfolding refund_escrow ◌>>=◌
  failed_by db e s h =
      first
        (attempt (report_refund_failed env b client) (find_refund env b client amount) (begin db))
        refl h
    where
      first :
          (p : Result (Escrow × String × ℤ) × Session)
          → attempt (report_refund_failed env b client) (find_refund env b client amount) (begin db)
            ≡ p
          → ((λ _. p) >>= λ r.
                attempt (report_refund_failed env b r.1) (pay_refund env wid k b r.0 r.1 r.2))
              (begin db)
            ≡ (err e, s)
          → (u : String) × (s.saved ≡ reported env (failed_refund b u e) db)
      first (err e', s') q h' = (
        client_of_reservation client (reservation_of env b db),
        let same : e' ≡ e = cc in
            let end : s' ≡ s = cc in
            sym (ap (λ (x : Session). x.saved) end)
            ∙ ap (λ (x : Session). x.saved)
                (attempt_err _ (find_refund env b client amount) db
                  (find_refund-reads env b client amount (SavedIs db)) q)
            ∙ report-saved env b client e' db
            ∙ ap
                (λ y.
                  reported env
                    (failed_refund b (client_of_reservation client (reservation_of env b db)) y) db)
                same,
      )
      first (ok r, s') q h' =
          let run = attempt_ok _ (find_refund env b client amount) (begin db) q in
          let same : s' ≡ begin db =
            sym (ap (λ (p : Result (Escrow × String × ℤ) × Session). p.1) run)
            ∙ (find_refund-reads env b client amount (λ x. x ≡ begin db)).after (begin db) refl in
          let paying =
            subst
              (λ x.
                attempt (report_refund_failed env b r.1) (pay_refund env wid k b r.0 r.1 r.2) x
                ≡ (err e, s))
              same h' in
          (
            client_of_reservation r.1 (reservation_of env b db),
            ap (λ (x : Session). x.saved)
                  (attempt_err _ (pay_refund env wid k b r.0 r.1 r.2) db
                    (pay_refund-SavedIs env wid k b r.0 r.1 r.2 db) paying)
                ∙ report-saved env b r.1 e db,
          )

  -- A refund that raises leaves the database as it was, but for one event that reports the error.
  pub refund_escrow_fails :
      (db : Store) {e : Error} {db' : Store}
      → in_session (refund_escrow env wid k b client amount) db ≡ (err e, db')
      → (u : String) × (db' ≡ reported env (failed_refund b u e) db)
  refund_escrow_fails db {e} h =
      let (s, run, end) = in_session_err _ db h in
      let (u, q) = failed_by db e s run in (u, sym end ∙ q)
