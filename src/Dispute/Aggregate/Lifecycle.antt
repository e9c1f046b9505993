-- ===== src/Dispute/Aggregate/Lifecycle.antt =====
-- The life of a dispute: what any sequence of calls can do to it.
use rent_a_girlfriend.Prelude.{
  subst, ℕ, ◌+◌, String, Option, none, some, List, [], ◌∷◌, ◌++◌, Bool, true, false, if◌then◌else◌,
  ◌≡◌, refl, sym, ap, ◌∙◌, total, total-append, arith, false≢true, is_some,
}
use rent_a_girlfriend.Dispute.Vo.{
  DisputeStatus, opened, resolving, refunded, paid_out, rejected, other, Result, ok, err,
}
use rent_a_girlfriend.Dispute.Events.{
  DomainEvent, report_created, dispute_assigned, dispute_resolved_refund, dispute_resolved_payout,
  dispute_rejected, saga_step_completed, saga_completed, saga_step_failed,
}
use rent_a_girlfriend.Dispute.Aggregate.{
  Dispute, DisputeEvidence, is_terminal, add_event, assert_not_terminal, assert_valid_transition,
  close, create_report, assign_admin, resolve_refund, resolve_payout, reject, add_evidence,
}

-- The calls.
pub data Operation : Type 0 where
  assign : String → Operation
  refund payout refuse : String → String → Operation
  attach : DisputeEvidence → Operation

unfoldable pub perform : Operation → Dispute → Result Dispute
perform (assign a) d = assign_admin a d
perform (refund a n) d = resolve_refund a n d
perform (payout a n) d = resolve_payout a n d
perform (refuse a n) d = reject a n d
perform (attach e) d = add_evidence e d

-- A call that raises leaves the dispute as it was.
unfoldable pub keep : Dispute → Result Dispute → Dispute
keep d (ok d') = d'
keep d (err e) = d

unfoldable pub perform_all : List Operation → Dispute → Dispute
unfolding keep perform
perform_all [] d = d
perform_all (o ∷ os) d = perform_all os (keep d (perform o d))

terminal-perform :
    (o : Operation) (d : Dispute) → is_terminal d.status ≡ true → keep d (perform o d) ≡ d
unfolding keep perform assign_admin resolve_refund resolve_payout reject add_evidence close
    assert_valid_transition assert_not_terminal
terminal-perform (assign a) d t = ground arith
terminal-perform (refund a n) d t = ground arith
terminal-perform (payout a n) d t = ground arith
terminal-perform (refuse a n) d t = ground arith
terminal-perform (attach e) d t = ground arith

-- Nothing changes a dispute in a terminal state, whatever is called and how often.
pub perform_all-terminal :
    (os : List Operation) (d : Dispute) → is_terminal d.status ≡ true → perform_all os d ≡ d
unfolding perform_all
perform_all-terminal [] d t = refl
perform_all-terminal (o ∷ os) d t =
    ap (perform_all os) (terminal-perform o d t) ∙ perform_all-terminal os d t

-- Whether an event resolves the dispute.
abbrev pub resolves : DomainEvent → ℕ
resolves (report_created a b c d e) = 0
resolves (dispute_assigned a b) = 0
resolves (dispute_resolved_refund r) = 1
resolves (dispute_resolved_payout r) = 1
resolves (dispute_rejected r) = 1
resolves (saga_step_completed a b c) = 0
resolves (saga_completed a b c) = 0
resolves (saga_step_failed r) = 0

-- The resolution that goes with a status.
abbrev pub resolution_of : DisputeStatus → Option String
resolution_of opened = none
resolution_of resolving = none
resolution_of refunded = some "REFUND_CLIENT"
resolution_of paid_out = some "PAYOUT_COMPANION"
resolution_of rejected = some "REJECT"
resolution_of (other s) = none

abbrev pub is_opened : DisputeStatus → Bool
is_opened opened = true
is_opened _ = false

abbrev pub times_resolved : DisputeStatus → ℕ
times_resolved s = if is_terminal s then 1 else 0

none_yet : (s : DisputeStatus) → is_terminal s ≡ false → times_resolved s ≡ 0
none_yet s l = rw l refl

all_once : (s : DisputeStatus) → is_terminal s ≡ true → times_resolved s ≡ 1
all_once s t = rw t refl

no_resolution : (s : DisputeStatus) → is_terminal s ≡ false → resolution_of s ≡ none
no_resolution opened l = refl
no_resolution resolving l = refl
no_resolution refunded l = absurd (false≢true (sym l))
no_resolution paid_out l = absurd (false≢true (sym l))
no_resolution rejected l = absurd (false≢true (sym l))
no_resolution (other s) l = refl

-- The status is one of the service's, the resolution is the status's, there is an admin unless the
-- dispute is open, and exactly the terminal disputes have an event of their resolution, one each.
pub record IsConsistent (d : Dispute) : Type 0 where
  pub resolution : d.resolution ≡ resolution_of d.status
  pub handled : is_some d.admin_id ≡ (if is_opened d.status then false else true)
  pub resolved_once : total resolves d.events ≡ times_resolved d.status

open_once :
    (d : Dispute) (e : DomainEvent)
    → total resolves (d.events ++ e ∷ []) ≡ total resolves d.events + resolves e
open_once d e = omega (arith, total-append resolves d.events (e ∷ []))

-- A property that a call that returns establishes, and one that raises leaves.
keep-of :
    (P : Dispute → Type 0) (d : Dispute) (r : Result Dispute)
    → ((d' : Dispute) → r ≡ ok d' → P d')
    → P d
    → P (keep d r)
unfolding keep
keep-of P d (ok d') h k = h d' refl
keep-of P d (err e) h k = k

module _ (d d' : Dispute) where
  close_ok :
      (target : DisputeStatus) (r : String) (e : DomainEvent) (a n : String)
      → close target r e a n d ≡ ok d'
      → (is_terminal d.status ≡ false)
        × (d' ≡ record d {
          status = target;
          admin_id = some a;
          resolution = some r;
          notes = some n;
          events = d.events ++ e ∷ [];
        })
  unfolding close assert_valid_transition assert_not_terminal add_event
  close_ok target r e a n h = (ground arith, ground arith)

  assign_admin_ok :
      (a : String)
      → assign_admin a d ≡ ok d'
      → (is_terminal d.status ≡ false)
        × (d.resolution ≡ d.resolution)
        × (d' ≡ record d {
          status = resolving;
          admin_id = some a;
          events = d.events ++ dispute_assigned d.dispute_id a ∷ [];
        })
  unfolding assign_admin assert_valid_transition assert_not_terminal add_event
  assign_admin_ok a h = (ground arith, refl, ground arith)

  add_evidence_ok :
      (e : DisputeEvidence)
      → add_evidence e d ≡ ok d'
      → d' ≡ record d { evidences = d.evidences ++ e ∷ [] }
  unfolding add_evidence assert_not_terminal
  add_evidence_ok e h = ground arith

  closed-IsConsistent :
      (target : DisputeStatus) (r : String) (e : DomainEvent) (a n : String)
      → is_terminal target ≡ true
      → resolution_of target ≡ some r
      → is_opened target ≡ false
      → resolves e ≡ 1
      → IsConsistent d
      → close target r e a n d ≡ ok d'
      → IsConsistent d'
  closed-IsConsistent target r e a n t q o one c h =
      let (live, d'_is) = close_ok target r e a n h in
      subst IsConsistent (sym d'_is) (record {
        resolution = sym q;
        handled = rw o refl;
        resolved_once =
            omega (
              arith,
              open_once d e,
              one,
              c.resolved_once,
              none_yet d.status live,
              all_once target t,
            );
      })

-- Every call keeps a dispute consistent.
perform-IsConsistent :
    (o : Operation) (d : Dispute) → IsConsistent d → IsConsistent (keep d (perform o d))
unfolding perform resolve_refund resolve_payout reject
perform-IsConsistent (assign a) d c =
    keep-of IsConsistent d _
      (λ d' h.
        let (live, _, d'_is) = assign_admin_ok d d' a h in
        subst IsConsistent (sym d'_is) (record {
          resolution = c.resolution ∙ no_resolution d.status live;
          handled = refl;
          resolved_once = omega (
            arith,
            open_once d (dispute_assigned d.dispute_id a),
            c.resolved_once,
            none_yet d.status live,
          );
        }))
      c
perform-IsConsistent (refund a n) d c =
    keep-of IsConsistent d _ (λ d' h. closed-IsConsistent d d' _ _ _ a n refl refl refl refl c h) c
perform-IsConsistent (payout a n) d c =
    keep-of IsConsistent d _ (λ d' h. closed-IsConsistent d d' _ _ _ a n refl refl refl refl c h) c
perform-IsConsistent (refuse a n) d c =
    keep-of IsConsistent d _ (λ d' h. closed-IsConsistent d d' _ _ _ a n refl refl refl refl c h) c
perform-IsConsistent (attach e) d c =
    keep-of IsConsistent d _
      (λ d' h. subst IsConsistent (sym (add_evidence_ok d d' e h)) (record {
        resolution = c.resolution;
        handled = c.handled;
        resolved_once = c.resolved_once;
      }))
      c

perform_all-keeps :
    (os : List Operation) (d : Dispute) → IsConsistent d → IsConsistent (perform_all os d)
unfolding perform_all
perform_all-keeps [] d c = c
perform_all-keeps (o ∷ os) d c =
    perform_all-keeps os (keep d (perform o d)) (perform-IsConsistent o d c)

reported-IsConsistent :
    (d b r a reason : String) (es : List DisputeEvidence) (x : Dispute)
    → create_report d b r a reason es ≡ ok x
    → IsConsistent x
unfolding create_report add_event
reported-IsConsistent d b r a reason es x h = record {
  resolution = ground arith;
  handled = ground arith;
  resolved_once = ground arith;
}

-- A dispute that was reported, after any calls: its resolution is that of its status, it has an
-- admin unless it is open, and exactly one event of a resolution if its status is terminal, else
-- none.
pub perform_all-IsConsistent :
    (d b r a reason : String) (es : List DisputeEvidence) (x : Dispute) (os : List Operation)
    → create_report d b r a reason es ≡ ok x
    → IsConsistent (perform_all os x)
perform_all-IsConsistent d b r a reason es x os h =
    perform_all-keeps os x (reported-IsConsistent d b r a reason es x h)
