-- ===== src/Dispute/Handlers/Requests.antt =====
-- Sequences of requests to the dispute service, from both interfaces.
use rent_a_girlfriend.Prelude.{
  String, ◌≡◌, ◌≢◌, refl, sym, ◌∙◌, subst, Bool, true, false, Option, List, [], ◌∷◌, All, All-mem,
  ◌==◌, is_empty, or_else, if◌then◌else◌,
}
use rent_a_girlfriend.Table.Rows.{All-upsert}
use rent_a_girlfriend.Dispute.Vo.{Error, Result, ok, err, opened, resolving}
use rent_a_girlfriend.Dispute.Action.{Action}
use rent_a_girlfriend.Dispute.Action.Runs.{Ends}
use rent_a_girlfriend.Dispute.Orchestrators.{Call}
use rent_a_girlfriend.Dispute.Mappers.{DisputeModel}
use rent_a_girlfriend.Dispute.Repositories.{Environment, Session, dispute_id}
use rent_a_girlfriend.Dispute.Repositories.Rules.{Returns}
use rent_a_girlfriend.Dispute.Commands.Effects.{Returns-create_report, Returns-resolve_dispute}
use rent_a_girlfriend.Dispute.Commands.Decisions.{Reported, Settled}
use rent_a_girlfriend.Dispute.Handlers.{
  AuthInfo, CreateReportRequest, ResolveDisputeRequest, Reply, body, http_exception, answer,
  committed, uncommitted, authorized, get_auth_info, get_admin_auth_info, create_report_rpc,
  resolve_dispute_rpc, create_dispute, resolve_dispute_route, get_dispute_detail_route,
  get_saga_state_route,
}

abbrev pub AllOpen : List DisputeModel → Type 0
AllOpen = All (λ m. m.status ≡ opened)

-- The headers `user-id` and `user-role` of an HTTP request come first.
pub data Request : Type 0 where
  rpc_create_report : AuthInfo → CreateReportRequest → Request
  rpc_resolve_dispute : AuthInfo → ResolveDisputeRequest → Request
  post_dispute : Option String → Option String → CreateReportRequest → Request
  post_resolution : Option String → Option String → ResolveDisputeRequest → Request
  get_dispute get_saga : Option String → Option String → String → Request

module _ {Rate : Type 0} where
  unfoldable pub handle : Environment Rate → Request → Session Rate → Session Rate
  handle env (rpc_create_report auth_info request) s = (create_report_rpc env auth_info request s).1
  handle env (rpc_resolve_dispute auth_info request) s =
      (resolve_dispute_rpc env auth_info request s).1
  handle env (post_dispute u r payload) s = (create_dispute env u r payload s).1
  handle env (post_resolution u r payload) s = (resolve_dispute_route env u r payload s).1
  handle env (get_dispute u r k) s = (get_dispute_detail_route env u r k s).1
  handle env (get_saga u r k) s = (get_saga_state_route env u r k s).1

  -- The requests, each with what it meets outside the service.
  unfoldable pub handle_all : List (Environment Rate × Request) → Session Rate → Session Rate
  handle_all [] s = s
  handle_all ((env, request) ∷ requests) s = handle_all requests (handle env request s)

  -- What holds for any calls to other services.
  abbrev Ignores : (Session Rate → Type 0) → Session Rate → Type 0
  Ignores P s = (calls : List Call) → P (record s { calls = calls })

  committed_leaves :
      {A B : Type 0} {Q : A → Session Rate → Type 0} (P : Session Rate → Type 0) (f : A → B)
      (g : Error → B) (m : Action (Session Rate) A) (s : Session Rate)
      → Ignores P s
      → Returns m s Q
      → ((a : A) (s' : Session Rate) → Q a s' → P s')
      → P (answer f g (committed m s)).1
  unfolding answer committed
  committed_leaves {A} {B} {Q} P f g m s k h q = next (m s) h.outcome
    where
      next :
          (r : Result A × Session Rate)
          → Ends Q (λ _. Unit) r
          → P (answer f g (committed (λ _. r) s)).1
      next (ok a, s') h' = q a s' h'
      next (err e, s') h' = k s'.calls

  uncommitted_leaves :
      {A B : Type 0} (P : Session Rate → Type 0) (f : A → B) (g : Error → B)
      (m : Action (Session Rate) A) (s : Session Rate)
      → Ignores P s
      → P (answer f g (uncommitted m s)).1
  unfolding answer uncommitted
  uncommitted_leaves {A} P f g m s k = next (m s)
    where
      next : (r : Result A × Session Rate) → P (answer f g (uncommitted (λ _. r) s)).1
      next (ok a, s') = k s'.calls
      next (err e, s') = k s'.calls

  authorized_leaves :
      {A : Type 0} (P : Session Rate → Type 0) (auth : Reply AuthInfo)
      (route : AuthInfo → Session Rate → Reply A × Session Rate) (s : Session Rate)
      → Ignores P s
      → ((i : AuthInfo) → P (route i s).1)
      → P (authorized auth route s).1
  unfolding authorized
  authorized_leaves P (body i) route s k h = h i
  authorized_leaves P (http_exception code) route s k h = k s.calls

  -- A route whose session nothing commits.
  http_leaves :
      {A B : Type 0} (P : Session Rate → Type 0) (auth : Reply AuthInfo) (f : A → Reply B)
      (g : Error → Reply B) (m : AuthInfo → Action (Session Rate) A) (s : Session Rate)
      → Ignores P s
      → P (authorized auth (λ i s'. answer f g (uncommitted (m i) s')) s).1
  http_leaves P auth f g m s k =
      authorized_leaves P auth _ s k λ i. uncommitted_leaves P f g (m i) s k

  if_leaves :
      {A : Type 0} (P : Session Rate → Type 0) (b : Bool) (x y : A × Session Rate)
      → P x.1
      → P y.1
      → P (if b then x else y).1
  if_leaves P true x y p q = p
  if_leaves P false x y p q = q

  -- A property of the tables that the two commands of the gRPC interface keep is kept by every
  -- request.
  pub handle_leaves :
      (P : Session Rate → Type 0) (env : Environment Rate) (request : Request) (s : Session Rate)
      → Ignores P s
      → ((auth_info : AuthInfo) (r : CreateReportRequest)
          → request ≡ rpc_create_report auth_info r
          → (k' : String) (s' : Session Rate)
          → Reported r.dispute_id r.booking_id s.disputes s'.disputes
          → s'.sagas ≡ s.sagas
          → P s')
      → ((k admin resolution : String) (s' : Session Rate)
          → Settled k admin resolution s.disputes s'.disputes
          → P s')
      → P (handle env request s)
  unfolding handle create_report_rpc resolve_dispute_rpc create_dispute resolve_dispute_route
      get_dispute_detail_route get_saga_state_route
  handle_leaves P env (rpc_create_report i r) s k c q =
      if_leaves P (is_empty (or_else r.reporter_id i.user_id)) _ _ (k s.calls) (
        committed_leaves P _ _ _ s k
          (Returns-create_report env r.dispute_id r.booking_id (or_else r.reporter_id i.user_id)
            r.accused_id r.reason r.evidences s)
          (λ k' s' (_, reported, sagas, _). c i r refl k' s' reported sagas))
  handle_leaves P env (rpc_resolve_dispute i r) s k c q =
      if_leaves P (i.user_role == "ADMIN") _ _
        (if_leaves P (is_empty (or_else r.admin_id i.user_id)) _ _ (k s.calls) (
          committed_leaves P _ _ _ s k
            (Returns-resolve_dispute env r.saga_id r.dispute_id (or_else r.admin_id i.user_id)
              r.resolution r.notes s)
            (λ _ s' settled. q r.dispute_id _ r.resolution s' settled)))
        (k s.calls)
  handle_leaves P env (post_dispute u r payload) s k c q =
      http_leaves P (get_auth_info u r) _ _ _ s k
  handle_leaves P env (post_resolution u r payload) s k c q =
      http_leaves P (get_admin_auth_info u r) _ _ _ s k
  handle_leaves P env (get_dispute u r x) s k c q =
      http_leaves P (get_admin_auth_info u r) _ _ _ s k
  handle_leaves P env (get_saga u r x) s k c q = http_leaves P (get_admin_auth_info u r) _ _ _ s k

  -- If all disputes are open, then after any requests through either interface all disputes are still open, and
  -- no saga has been stored: a resolution always fails or is not committed.
  pub requests_keep_open :
      (requests : List (Environment Rate × Request)) (s : Session Rate)
      → AllOpen s.disputes
      → AllOpen (handle_all requests s).disputes × ((handle_all requests s).sagas ≡ s.sagas)
  unfolding handle_all
  requests_keep_open [] s h = (h, refl)
  requests_keep_open ((env, request) ∷ requests) s h =
      let (next, same) =
        handle_leaves (λ s'. AllOpen s'.disputes × (s'.sagas ≡ s.sagas)) env request s
          (λ _. (h, refl))
          (λ _ _ _ _ s' r sagas. (
            subst AllOpen (sym r.stored) (All-upsert dispute_id _ r.row s.disputes h r.is_open),
            sagas,
          ))
          (λ _ _ _ s' r.
            absurd (not_open (sym (All-mem _ s.disputes h r.was_stored) ∙ r.was_resolving))) in
      let (all, sagas) = requests_keep_open requests (handle env request s) next in
      (all, sagas ∙ same)
    where
      not_open : opened ≢ resolving
      not_open e = cc
