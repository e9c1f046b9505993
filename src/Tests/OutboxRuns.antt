-- ===== src/Tests/OutboxRuns.antt =====
-- The outbox worker at a concrete outbox.
use rent_a_girlfriend.Prelude.{[], ◌∷◌, ◌≡◌, refl, true, false, List, arith, Memᴰ, ◌==◌}
use rent_a_girlfriend.Outbox.{State, Batch, poll, process_batch}
use rent_a_girlfriend.Outbox.Delivery.{IsDelivered, poll-IsDelivered, process_batch-marked, marked}

abbrev outbox : State
outbox = record {
  rows =
      record { event_id = "e1"; processed = true }
      ∷ record { event_id = "e2"; processed = false }
      ∷ record { event_id = "e3"; processed = false }
      ∷ [];
  sent = "e1" ∷ [];
}

-- Kafka is down for one event, then the commit fails, then all goes well.
abbrev batches : List Batch
batches =
    record { is_sent = λ r. r.event_id == "e2"; commits = true }
    ∷ record { is_sent = λ r. true; commits = false }
    ∷ record { is_sent = λ r. true; commits = true }
    ∷ []

outbox-IsDelivered : IsDelivered outbox
outbox-IsDelivered = (λ _. Memᴰ.head refl, (λ e. cc, (λ e. cc, tt)))

poll-IsDelivered_example : IsDelivered (poll 50 batches outbox)
poll-IsDelivered_example = poll-IsDelivered 50 batches outbox outbox-IsDelivered

process_batch-marked_example :
    (process_batch 50 (record { is_sent = λ r. true; commits = true }) outbox).rows
    ≡ marked outbox.rows
process_batch-marked_example =
    process_batch-marked 50 (record { is_sent = λ r. true; commits = true }) outbox (λ r. refl) refl
      (omega arith)
