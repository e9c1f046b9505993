-- ===== src/Dispute/Handlers.antt =====
-- services/dispute-service/internal/interfaces: the gRPC servicer and the HTTP router. A gRPC handler
-- has a session of its own, which it commits when the command has returned; nothing commits the
-- session of an HTTP request. The ids that `uuid4` draws are part of a request.
pub mod Requests
pub mod Decisions
use rent_a_girlfriend.Prelude.{
  ℕ, String, Option, none, some, List, [], ◌∷◌, ◌==◌, is_empty, or_else, if◌then◌else◌, Bool, true,
  false,
}
use rent_a_girlfriend.Dispute.Vo.{
  DisputeStatus, SagaState, Error, Result, ok, err, dispute_not_found, duplicate_open_dispute,
  dispute_already_resolved, invalid_dispute_status_transition, invalid_saga_transition,
  invalid_dispute_reason, invalid_resolution, port_error, unknown_saga_type, database_error,
  encode_error, out_of_fuel,
}
use rent_a_girlfriend.Dispute.Aggregate.{Dispute, DisputeEvidence}
use rent_a_girlfriend.Dispute.Action.{Action, ◌>>◌}
use rent_a_girlfriend.Dispute.Mappers.{Saga, refund_saga, payout_saga}
use rent_a_girlfriend.Dispute.Repositories.{
  Environment, Session, get_dispute_detail, get_saga_state,
}
use rent_a_girlfriend.Dispute.Commands.{EvidenceInput, create_report, assign_admin, resolve_dispute}
use rent_a_girlfriend.Dispute.Dtos.{DisputeDto, SagaStateDto, dispute_dto, optional_saga_dto}

-- `isinstance(e, DomainError)`
abbrev pub is_domain_error : Error → Bool
is_domain_error (dispute_not_found d) = true
is_domain_error (duplicate_open_dispute b) = true
is_domain_error (dispute_already_resolved d s) = true
is_domain_error (invalid_dispute_status_transition a b) = true
is_domain_error (invalid_saga_transition a b c) = true
is_domain_error (invalid_dispute_reason r) = true
is_domain_error (invalid_resolution r) = true
is_domain_error (port_error e) = false
is_domain_error (unknown_saga_type t) = false
is_domain_error database_error = false
is_domain_error encode_error = false
is_domain_error out_of_fuel = false

pub data StatusCode : Type 0 where
  fine invalid_argument internal unauthenticated permission_denied : StatusCode

-- `DisputeCommandResponse`, and the code set in the context; the message is the error.
pub record Response : Type 0 where
  pub code : StatusCode
  pub dispute_id : String
  pub status : String
  pub message : Option Error

-- `_extract_auth_headers`: a header that is missing is empty.
pub record AuthInfo : Type 0 where
  pub user_id : String
  pub user_role : String

pub record CreateReportRequest : Type 0 where
  pub booking_id : String
  pub reporter_id : String
  pub accused_id : String
  pub reason : String
  pub evidences : List EvidenceInput
  -- What `uuid4` draws.
  pub dispute_id : String

pub record ResolveDisputeRequest : Type 0 where
  pub dispute_id : String
  pub admin_id : String
  pub resolution : String
  pub notes : String
  -- What `uuid4` draws.
  pub saga_id : String

-- `DisputeCommandResponse()` under a code.
abbrev pub denied : StatusCode → Response
denied code = record { code = code; dispute_id = ""; status = ""; message = none }

-- `_handle_exception`, and the response after it.
unfoldable pub handle_exception : Error → Response
handle_exception e = record {
  code = if is_domain_error e then invalid_argument else internal;
  dispute_id = "";
  status = "FAILED";
  message = some e;
}

module _ {Rate : Type 0} where
  -- A session that is committed if the command returns.
  unfoldable pub committed : {A : Type 0} → Action (Session Rate) A → Action (Session Rate) A
  committed m s =
      let (r, s') = m s in
      elim r [ ok a ↦ (ok a, s') | err e ↦ (err e, record s { calls = s'.calls }) ]

  -- A session that is closed without a commit.
  unfoldable pub uncommitted : {A : Type 0} → Action (Session Rate) A → Action (Session Rate) A
  uncommitted m s = let (r, s') = m s in (r, record s { calls = s'.calls })

  unfoldable pub answer :
      {A B : Type 0} → (A → B) → (Error → B) → Result A × Session Rate → B × Session Rate
  answer f g (ok a, s) = (f a, s)
  answer f g (err e, s) = (g e, s)

abbrev pub succeeded : String → Response
succeeded dispute_id = record {
  code = fine;
  dispute_id = dispute_id;
  status = "SUCCESS";
  message = none;
}

-- The answers of the router: a body, or the status code of the exception.
pub data Reply (A : Type 0) : Type 0 where
  body : A → Reply A
  http_exception : ℕ → Reply A

unfoldable pub get_auth_info : Option String → Option String → Reply AuthInfo
get_auth_info none role = http_exception 401
get_auth_info (some user_id) role =
    if is_empty user_id
    then http_exception 401
    else body (record { user_id = user_id; user_role = elim role [ none ↦ "" | some r ↦ r ] })

unfoldable pub get_admin_auth_info : Option String → Option String → Reply AuthInfo
get_admin_auth_info none role = http_exception 401
get_admin_auth_info (some user_id) none =
    if is_empty user_id then http_exception 401 else http_exception 403
get_admin_auth_info (some user_id) (some user_role) =
    if is_empty user_id
    then http_exception 401
    else if user_role == "ADMIN"
    then body (record { user_id = user_id; user_role = user_role })
    else http_exception 403

-- The exceptions of a command, as status codes.
abbrev pub bad_request : Error → ℕ
bad_request e = if is_domain_error e then 400 else 500

abbrev pub not_found : Error → ℕ
not_found e = if is_domain_error e then 404 else 500

-- A route with its dependency on the headers.
unfoldable pub authorized :
    {A S : Type 0} → Reply AuthInfo → (AuthInfo → S → Reply A × S) → S → Reply A × S
authorized (body auth_info) route s = route auth_info s
authorized (http_exception code) route s = (http_exception code, s)

module _ {Rate : Type 0} (env : Environment Rate) where
  -- `CreateReport`
  unfoldable pub create_report_rpc :
      AuthInfo → CreateReportRequest → Session Rate → Response × Session Rate
  create_report_rpc auth_info request s =
      let reporter_id = or_else request.reporter_id auth_info.user_id in
      if is_empty reporter_id
      then (denied unauthenticated, s)
      else answer succeeded handle_exception (
          committed
            (create_report env request.dispute_id request.booking_id reporter_id request.accused_id
              request.reason request.evidences)
            s)

  -- `ResolveDispute`
  unfoldable pub resolve_dispute_rpc :
      AuthInfo → ResolveDisputeRequest → Session Rate → Response × Session Rate
  resolve_dispute_rpc auth_info request s =
      if auth_info.user_role == "ADMIN"
      then (let admin_id = or_else request.admin_id auth_info.user_id in
          if is_empty admin_id
          then (denied unauthenticated, s)
          else answer (λ _. succeeded request.dispute_id) handle_exception
              (committed
                (resolve_dispute env request.saga_id request.dispute_id admin_id request.resolution
                  request.notes)
                s))
      else (denied permission_denied, s)

  -- `POST /disputes`
  unfoldable pub create_dispute :
      Option String
      → Option String
      → CreateReportRequest
      → Session Rate
      → Reply String × Session Rate
  create_dispute user_id user_role payload =
      authorized (get_auth_info user_id user_role) λ auth_info s.
        answer body (λ e. http_exception (bad_request e))
          (uncommitted
            (create_report env payload.dispute_id payload.booking_id auth_info.user_id
              payload.accused_id payload.reason payload.evidences)
            s)

  -- `POST /disputes/{dispute_id}/resolve`
  unfoldable pub resolve_dispute_route :
      Option String
      → Option String
      → ResolveDisputeRequest
      → Session Rate
      → Reply Bool × Session Rate
  resolve_dispute_route user_id user_role payload =
      authorized (get_admin_auth_info user_id user_role) λ auth_info s.
        answer (λ _. body true) (λ e. http_exception (bad_request e))
          (uncommitted
            (assign_admin env payload.dispute_id auth_info.user_id
              >> resolve_dispute env payload.saga_id payload.dispute_id auth_info.user_id
                  payload.resolution payload.notes)
            s)

  -- `GET /disputes/{dispute_id}`
  unfoldable pub get_dispute_detail_route :
      Option String → Option String → String → Session Rate → Reply DisputeDto × Session Rate
  get_dispute_detail_route user_id user_role dispute_id =
      authorized (get_admin_auth_info user_id user_role) λ auth_info s.
        answer (λ d. body (dispute_dto d)) (λ e. http_exception (not_found e))
          (uncommitted (get_dispute_detail env dispute_id) s)

  -- `GET /disputes/{dispute_id}/saga`
  unfoldable pub get_saga_state_route :
      Option String
      → Option String
      → String
      → Session Rate
      → Reply (Option SagaStateDto) × Session Rate
  get_saga_state_route user_id user_role dispute_id =
      authorized (get_admin_auth_info user_id user_role) λ auth_info s.
        answer (λ x. body (optional_saga_dto x)) (λ _. http_exception 500)
          (uncommitted (get_saga_state env dispute_id) s)
