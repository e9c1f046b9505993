-- ===== src/Outbox.antt =====
-- `_process_batch` of the outbox workers (services/dispute-service/internal/infrastructure/broker/
-- outbox_worker.py): the oldest unprocessed rows are sent to Kafka one by one and marked; the marks
-- are committed together, and an exception rolls all of them back. The producer is
-- started. The rows stand in order of creation; the contents of an event are left out.
pub mod Delivery
use rent_a_girlfriend.Prelude.{
  ℕ, zero, suc, String, Bool, true, false, Option, none, some, List, [], ◌∷◌, ◌++◌, if◌then◌else◌,
}

pub record OutboxModel : Type 0 where
  pub event_id : String
  pub processed : Bool

-- The rows, and the ids that Kafka has received, oldest first.
pub record State : Type 0 where
  pub rows : List OutboxModel
  pub sent : List String

-- What a loop over the rows has sent, and the marked rows unless it raised.
abbrev pub Progress : Type 0
Progress = List String × Option (List OutboxModel)

abbrev pub with_row : OutboxModel → Option (List OutboxModel) → Option (List OutboxModel)
with_row r none = none
with_row r (some t) = some (r ∷ t)

unfoldable pub skip : OutboxModel → Progress → Progress
skip r p = (p.0, with_row r p.1)

-- `send_and_wait`, then `event.processed = True`.
unfoldable pub send : Bool → OutboxModel → Progress → Progress
send true r p = (r.event_id ∷ p.0, with_row (record r { processed = true }) p.1)
send false r p = ([], none)

-- The loop, where `n` is what is left of the batch and `is_sent` tells which rows Kafka accepts.
unfoldable pub send_rows : (OutboxModel → Bool) → ℕ → List OutboxModel → Progress
unfolding skip send
send_rows is_sent zero t = ([], some t)
send_rows is_sent (suc n) [] = ([], some [])
send_rows is_sent (suc n) (r ∷ t) =
    let skipped = send_rows is_sent (suc n) t in
    let next = send_rows is_sent n t in
    if r.processed then skip r skipped else send (is_sent r) r next

-- The commit, if it succeeds, or the rollback.
unfoldable pub end_batch : Bool → State → Progress → State
end_batch true s (log, some t) = record { rows = t; sent = s.sent ++ log }
end_batch true s (log, none) = record s { sent = s.sent ++ log }
end_batch false s (log, o) = record s { sent = s.sent ++ log }

-- What a batch meets: which rows Kafka accepts, and whether the commit succeeds.
pub record Batch : Type 0 where
  pub is_sent : OutboxModel → Bool
  pub commits : Bool

unfoldable pub process_batch : ℕ → Batch → State → State
process_batch batch_size b s = end_batch b.commits s (send_rows b.is_sent batch_size s.rows)

-- `_poll_loop`: a batch for each time that the worker wakes up.
unfoldable pub poll : ℕ → List Batch → State → State
poll batch_size [] s = s
poll batch_size (b ∷ batches) s = poll batch_size batches (process_batch batch_size b s)
