-- ===== src/Lib.antt =====
-- A model of the Python services of rent-a-girlfriend that handle coins and disputes, and the
-- theorems about them.
--
-- The finance service (services/finance-service) keeps Kano-Coin wallets, escrows and a log of
-- transactions. A booking freezes coins of the client, moves them into escrow, and ends with a
-- payout to the companion or a refund; a payment gateway tops wallets up by callbacks. The dispute
-- service (services/dispute-service) keeps disputes about bookings; resolving one starts a saga that
-- calls the finance service and then the interaction service. The profile service
-- (services/profile-service) keeps what companions offer and show.
--
-- Prelude: names of the libraries, Python's integers, Boolean tests, sums over lists.
-- Table: a database table as the repositories use it. `first` and `merge` are the database's, given
--   by their documented behaviour; Table/Listed has an instance that runs.
-- Finance/Vo, Events, Wallet, Escrow, Transaction: internal/domain (vo.py, errors.py, service.py,
--   events.py, aggregate). A method returns the changed object or the exception.
-- Finance/Action: a database session; a method returns or raises, and its writes stay in the session
--   until `commit` or `rollback`. `in_session` is get_db_session of internal/bootstrap. A commit, also
--   the one of get_db_session and those in the except blocks of the commands, always succeeds here, so
--   what a method that raises leaves is said for commits that do not fail. Action/Preserves, Yields
--   and Sessions have the rules for running a method.
-- Finance/Repositories: internal/infrastructure/persistence and the outbox publisher. The record
--   `Environment` holds what lies outside the repository: tables, event encoding, floats, number
--   parsing, the signature primitives.
-- Finance/Vnpay: internal/infrastructure/payment/vnpay.py.
-- Finance/Ledger: the coins of a database, its constraints, and what each user has.
-- Finance/Service: internal/application/command/finance.py, in Wallets, Reservations (freeze_coin,
--   unfreeze_coin, transfer_to_escrow), Escrows (process_payout, refund_escrow) and Topups
--   (initiate_topup, process_vnpay_ipn). The identifiers that uuid4 draws and the time are
--   arguments. A `try` block is a definition of its own under the method that handles its
--   exceptions.
-- Finance/Listener: the Kafka listeners of services/finance-service/main.py; a message is handled in a
--   session of its own. Cancelling and Delivery follow the coins, Redelivery a second delivery.
-- Dispute/Vo, Events, Aggregate, SagaState: internal/domain of the dispute service. A status that is
--   none of the service's strings is `other`.
-- Dispute/Orchestrators: internal/application/saga. The saga object is part of the state, since an
--   exception handler sees it as the failed step left it; the ports' answers are parameters of a
--   run. `process_step` is the body of `process_saga`, over its own recursive call; `process_saga` is on
--   fuel. A command gives it two units, since the first step calls it once for the second and the
--   second calls nothing. A run that has used up its fuel raises. `retries` runs process_saga again on
--   the saga in memory: the filter of SagaRetryWorker
--   (services/dispute-service/internal/infrastructure/broker/saga_worker.py) and its reload from the
--   database are not part of it.
-- Dispute/Mappers, Repositories: internal/infrastructure of the dispute service, rows, mappers both
--   ways, and the outbox; Dispute/Commands: internal/application/command/dispute.py, which runs the
--   orchestrators in its session; Dispute/Dtos, Handlers: internal/interfaces, gRPC and HTTP. The
--   calls to other services are kept apart from the tables, since no rollback undoes them.
-- Profile: services/profile-service, the scenarios and media of companions. A step gives the new
--   tables or the exception.
-- Outbox: the batches of the dispute service's outbox worker,
--   services/dispute-service/internal/infrastructure/broker/outbox_worker.py.
-- Tests: an environment and databases, and the theorems at concrete inputs.
--
-- Not modelled: times of creation, commits of the finance service that fail, row locks and concurrent sessions; listings and searches, which
-- are database queries; the gRPC and HTTP handlers of the finance service; the clean-up workers, and
-- the outbox workers of the finance and profile services; the clients of other services, whose
-- answers are parameters; the profiles, queries and router of the profile service; and the services
-- in other languages.
pub mod Prelude
pub mod Table
pub mod Finance
pub mod Dispute
pub mod Profile
pub mod Outbox
pub mod Tests
