-- ===== src/Dispute/Commands/Decisions.antt =====
-- Disputes and their rows, before and after a report or a resolution.
use rent_a_girlfriend.Prelude.{
  ℕ, String, ◌≡◌, refl, sym, ap, ◌∙◌, subst, true, false, false≢true, none, some, is_some, List, [],
  ◌∷◌, ◌++◌, Memᴰ, All, if◌then◌else◌, arith,
}
use rent_a_girlfriend.Table.Rows.{upsert, NoClash}
use rent_a_girlfriend.Dispute.Vo.{DisputeStatus, opened, resolving, Result, ok, err, dispute_reason}
use rent_a_girlfriend.Dispute.Events.{DomainEvent}
use rent_a_girlfriend.Dispute.Aggregate
use rent_a_girlfriend.Dispute.Aggregate.{
  Dispute, DisputeEvidence, is_terminal, allows, add_event, assert_not_terminal,
  assert_valid_transition, close,
}
use rent_a_girlfriend.Dispute.Aggregate.Lifecycle.{resolution_of, is_opened}
use rent_a_girlfriend.Dispute.Mappers.{
  DisputeModel, DisputeEvidenceModel, to_model, to_domain, read_model, domain_of,
  evidences_to_model, evidence_to_model,
}
use rent_a_girlfriend.Dispute.Mappers.RoundTrips.{reason_kept}
use rent_a_girlfriend.Dispute.Repositories.{dispute_id, booking_id}
use rent_a_girlfriend.Dispute.Repositories.Rules.{NoneActive, row_of}

-- A row that the service can have written: its resolution is that of its status, it has an admin
-- unless it is open, its reason is valid and its evidences are its own.
pub record IsSoundRow (m : DisputeModel) : Type 0 where
  pub resolution : m.resolution ≡ resolution_of m.status
  pub handled : is_some m.admin_id ≡ (if is_opened m.status then false else true)
  pub reason : dispute_reason m.reason ≡ ok m.reason
  pub own : All (λ (ev : DisputeEvidenceModel). ev.dispute_id ≡ m.dispute_id) m.evidences

pub evidences_own :
    (k : String) (evs : List DisputeEvidence)
    → All (λ (ev : DisputeEvidenceModel). ev.dispute_id ≡ k) (evidences_to_model k evs)
unfolding evidences_to_model evidence_to_model
evidences_own k [] = tt
evidences_own k (ev ∷ evs) = (refl, evidences_own k evs)

-- The dispute `k` is new, open and the only one of the booking `b`.
pub record Reported (k b : String) (disputes disputes' : List DisputeModel) : Type 0 where
  pub row : DisputeModel
  pub named : row.dispute_id ≡ k
  pub of_booking : row.booking_id ≡ b
  pub is_open : row.status ≡ opened
  pub sound : IsSoundRow row
  pub none_active : NoneActive b disputes
  pub single : NoClash dispute_id booking_id row disputes
  pub stored : disputes' ≡ upsert dispute_id row disputes

-- The dispute `k` was being resolved, and is closed with the resolution.
pub record Settled (k admin resolution : String) (disputes disputes' : List DisputeModel)
    : Type 0 where
  pub old : DisputeModel
  pub was_stored : Memᴰ old disputes
  pub was_named : old.dispute_id ≡ k
  pub was_resolving : old.status ≡ resolving
  pub row : DisputeModel
  pub named : row.dispute_id ≡ k
  pub same_booking : row.booking_id ≡ old.booking_id
  pub is_closed : is_terminal row.status ≡ true
  pub decided : row.resolution ≡ some resolution
  pub by_admin : row.admin_id ≡ some admin
  pub sound : IsSoundRow row
  pub single : NoClash dispute_id booking_id row disputes
  pub stored : disputes' ≡ upsert dispute_id row disputes

-- What reporting gives.
pub record IsNew (k b : String) (d : Dispute) : Type 0 where
  pub id_is : d.dispute_id ≡ k
  pub booking_is : d.booking_id ≡ b
  pub status_is : d.status ≡ opened
  pub admin_is : d.admin_id ≡ none
  pub resolution_is : d.resolution ≡ none
  pub reason_is : dispute_reason d.reason ≡ ok d.reason

pub create_report_ok :
    (k b r a reason : String) (es : List DisputeEvidence) (d : Dispute)
    → Aggregate.create_report k b r a reason es ≡ ok d
    → IsNew k b d
unfolding Aggregate.create_report add_event
create_report_ok k b r a reason es d h = record {
  id_is = ground arith;
  booking_is = ground arith;
  status_is = ground arith;
  admin_is = ground arith;
  resolution_is = ground arith;
  reason_is =
      let accepted : dispute_reason reason ≡ ok d.reason = ground arith in
      subst (λ t. dispute_reason t ≡ ok d.reason) (reason_kept reason accepted) accepted;
}

close_ok :
    (target : DisputeStatus) (r : String) (e : DomainEvent) (a n : String) (d d' : Dispute)
    → close target r e a n d ≡ ok d'
    → (allows d.status target ≡ true)
      × (d' ≡ record d {
        status = target;
        admin_id = some a;
        resolution = some r;
        notes = some n;
        events = d.events ++ e ∷ [];
      })
unfolding close assert_valid_transition assert_not_terminal add_event
close_ok target r e a n d d' h = (ground arith, ground arith)

was_resolving :
    (s target : DisputeStatus) → is_terminal target ≡ true → allows s target ≡ true → s ≡ resolving
was_resolving opened resolving t h = absurd (false≢true t)
was_resolving resolving target t h = refl
was_resolving s target t h = absurd (false≢true h)

-- What a row that was read says of the dispute.
read_ok :
    (m : DisputeModel) (d : Dispute)
    → to_domain m ≡ ok d
    → (dispute_reason d.reason ≡ ok d.reason) × (d ≡ domain_of m d.reason)
unfolding to_domain read_model domain_of
read_ok m d h = next (dispute_reason m.reason) refl h
  where
    next :
        (x : Result String)
        → dispute_reason m.reason ≡ x
        → read_model m x ≡ ok d
        → (dispute_reason d.reason ≡ ok d.reason) × (d ≡ domain_of m d.reason)
    next (err e) a b = cc
    next (ok reason) a b =
        let same : domain_of m reason ≡ d = cc in
        let kept : reason ≡ d.reason = ap (λ (x : Dispute). x.reason) same in
        (
          subst (λ t. dispute_reason t ≡ ok d.reason) (reason_kept m.reason a ∙ kept)
              (a ∙ ap ok kept),
          sym same ∙ ap (domain_of m) kept,
        )

pub close-Settled :
    (target : DisputeStatus) (k admin r notes : String) (e : DomainEvent) (m : DisputeModel)
    (d : Dispute) (disputes : List DisputeModel)
    → is_terminal target ≡ true
    → is_opened target ≡ false
    → resolution_of target ≡ some r
    → Memᴰ m disputes
    → m.dispute_id ≡ k
    → to_domain m ≡ ok d
    → (d' : Dispute) → close target r e admin notes d ≡ ok d'
    → (v : ℕ) → NoClash dispute_id booking_id (row_of d' v) disputes
    → Settled k admin r disputes (upsert dispute_id (row_of d' v) disputes)
unfolding to_model domain_of
close-Settled target k admin r notes e m d disputes t o q mem named rd d' h v clash =
    let (allowed, d'_is) = close_ok target r e admin notes d d' h in
    let (reason, d_is) = read_ok m d rd in
    let status_is : d'.status ≡ target = ap (λ (x : Dispute). x.status) d'_is in
    let reason_is : d'.reason ≡ d.reason = ap (λ (x : Dispute). x.reason) d'_is in
    record {
      old = m;
      was_stored = mem;
      was_named = named;
      was_resolving =
          sym (ap (λ (x : Dispute). x.status) d_is) ∙ was_resolving d.status target t allowed;
      row = row_of d' v;
      named =
          ap (λ (x : Dispute). x.dispute_id) d'_is
          ∙ ap (λ (x : Dispute). x.dispute_id) d_is
          ∙ named;
      same_booking =
          ap (λ (x : Dispute). x.booking_id) d'_is ∙ ap (λ (x : Dispute). x.booking_id) d_is;
      is_closed = ap is_terminal status_is ∙ t;
      decided = ap (λ (x : Dispute). x.resolution) d'_is;
      by_admin = ap (λ (x : Dispute). x.admin_id) d'_is;
      sound = record {
        resolution =
            ap (λ (x : Dispute). x.resolution) d'_is ∙ sym q ∙ ap resolution_of (sym status_is);
        handled =
            ap (λ (x : Dispute). is_some x.admin_id) d'_is
            ∙ sym (ap (λ b. if b then false else true) (ap is_opened status_is ∙ o));
        reason = subst (λ x. dispute_reason x ≡ ok x) (sym reason_is) reason;
        own = evidences_own d'.dispute_id d'.evidences;
      };
      single = clash;
      stored = refl;
    }
