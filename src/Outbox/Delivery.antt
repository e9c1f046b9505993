-- ===== src/Outbox/Delivery.antt =====
-- What the outbox workers guarantee.
use rent_a_girlfriend.Prelude.{
  ap, ◌∙◌, false≢true, length, ◌≤◌, arith, ℕ, zero, suc, String, Bool, true, false, none, some,
  List, [], ◌∷◌, ◌++◌, Memᴰ, All, ◌≡◌, refl, ◌⊎◌, inl, inr, if◌then◌else◌,
}
use rent_a_girlfriend.Outbox.{
  Batch, with_row, OutboxModel, State, Progress, skip, send, send_rows, end_batch, process_batch,
  poll,
}

mem_left : (k : String) (xs ys : List String) → Memᴰ k xs → Memᴰ k (xs ++ ys)
mem_left k [] ys m = elim m [ ]
mem_left k (x ∷ xs) ys (Memᴰ.head e) = Memᴰ.head e
mem_left k (x ∷ xs) ys (Memᴰ.tail m) = Memᴰ.tail (mem_left k xs ys m)

mem_right : (k : String) (xs ys : List String) → Memᴰ k ys → Memᴰ k (xs ++ ys)
mem_right k [] ys m = m
mem_right k (x ∷ xs) ys m = Memᴰ.tail (mem_right k xs ys m)

-- Every row that is marked as processed was sent.
abbrev pub IsDelivered : State → Type 0
IsDelivered s = All (λ (r : OutboxModel). r.processed ≡ true → Memᴰ r.event_id s.sent) s.rows

-- The same within a batch, where `log` was sent by it.
abbrev Told : List String → List String → List OutboxModel → Type 0
Told sent log t =
    All (λ (r : OutboxModel). r.processed ≡ true → Memᴰ r.event_id sent ⊎ Memᴰ r.event_id log) t

abbrev ToldBy : List String → Progress → Type 0
ToldBy sent (log, none) = Unit
ToldBy sent (log, some t) = Told sent log t

abbrev AllSent : List String → List OutboxModel → Type 0
AllSent sent t = All (λ (r : OutboxModel). r.processed ≡ true → Memᴰ r.event_id sent) t

weaken : (sent log : List String) (t : List OutboxModel) → AllSent sent t → Told sent log t
weaken sent log [] h = tt
weaken sent log (r ∷ t) (h, hs) = (λ p. inl (h p), weaken sent log t hs)

longer :
    (sent log : List String) (k : String) (t : List OutboxModel)
    → Told sent log t
    → Told sent (k ∷ log) t
longer sent log k [] h = tt
longer sent log k (r ∷ t) (h, hs) =
    (λ p. elim (h p) [ inl m ↦ inl m | inr m ↦ inr (Memᴰ.tail m) ], longer sent log k t hs)

skip-ToldBy :
    (sent : List String) (r : OutboxModel) (p : Progress)
    → (r.processed ≡ true → Memᴰ r.event_id sent)
    → ToldBy sent p
    → ToldBy sent (skip r p)
unfolding skip
skip-ToldBy sent r (log, none) h q = tt
skip-ToldBy sent r (log, some t) h q = (λ p. inl (h p), q)

send-ToldBy :
    (sent : List String) (b : Bool) (r : OutboxModel) (p : Progress)
    → ToldBy sent p
    → ToldBy sent (send b r p)
unfolding send
send-ToldBy sent false r p q = tt
send-ToldBy sent true r (log, none) q = tt
send-ToldBy sent true r (log, some t) q =
    (λ _. inr (Memᴰ.head refl), longer sent log r.event_id t q)

branch :
    (sent : List String) (b : Bool) (p q : Progress)
    → ToldBy sent p
    → ToldBy sent q
    → ToldBy sent (if b then p else q)
branch sent true p q h k = h
branch sent false p q h k = k

send_rows-ToldBy :
    (sent : List String) (is_sent : OutboxModel → Bool) (n : ℕ) (t : List OutboxModel)
    → AllSent sent t
    → ToldBy sent (send_rows is_sent n t)
unfolding send_rows
send_rows-ToldBy sent is_sent zero t h = weaken sent [] t h
send_rows-ToldBy sent is_sent (suc n) [] h = tt
send_rows-ToldBy sent is_sent (suc n) (r ∷ t) (h, hs) =
    branch sent r.processed _ _
      (skip-ToldBy sent r (send_rows is_sent (suc n) t) h
        (send_rows-ToldBy sent is_sent (suc n) t hs))
      (send-ToldBy sent (is_sent r) r (send_rows is_sent n t)
        (send_rows-ToldBy sent is_sent n t hs))

joined : (sent log : List String) (t : List OutboxModel) → Told sent log t → AllSent (sent ++ log) t
joined sent log [] h = tt
joined sent log (r ∷ t) (h, hs) = (
  λ p. elim (h p) [
    | inl m ↦ mem_left r.event_id sent log m
    | inr m ↦ mem_right r.event_id sent log m
  ],
  joined sent log t hs,
)

end_batch-IsDelivered :
    (commits : Bool) (s : State) (p : Progress)
    → IsDelivered s
    → ToldBy s.sent p
    → IsDelivered (end_batch commits s p)
unfolding end_batch
end_batch-IsDelivered true s (log, some t) h q = joined s.sent log t q
end_batch-IsDelivered true s (log, none) h q = joined s.sent log s.rows (weaken s.sent log s.rows h)
end_batch-IsDelivered false s (log, o) h q = joined s.sent log s.rows (weaken s.sent log s.rows h)

-- However often the worker wakes up, whatever Kafka refuses and whether or not the commits succeed: an
-- event that is marked as processed was received by Kafka, so none is lost by the marks.
pub poll-IsDelivered :
    (batch_size : ℕ) (batches : List Batch) (s : State)
    → IsDelivered s
    → IsDelivered (poll batch_size batches s)
unfolding poll process_batch
poll-IsDelivered batch_size [] s h = h
poll-IsDelivered batch_size (b ∷ batches) s h =
    poll-IsDelivered batch_size batches (process_batch batch_size b s) (
      end_batch-IsDelivered b.commits s (send_rows b.is_sent batch_size s.rows) h
        (send_rows-ToldBy s.sent b.is_sent batch_size s.rows h))

-- All rows, marked as processed.
abbrev pub marked : List OutboxModel → List OutboxModel
marked [] = []
marked (r ∷ t) = record r { processed = true } ∷ marked t

branch_marked :
    (b c : Bool) (r : OutboxModel) (p q : Progress) (t : List OutboxModel)
    → r.processed ≡ b
    → c ≡ true
    → p.1 ≡ some t
    → q.1 ≡ some t
    → (if b then skip r p else send c r q).1 ≡ some (record r { processed = true } ∷ t)
unfolding skip send
branch_marked true c r p q t e f h k =
    ap (with_row r) h ∙ ap (λ x. some (record r { processed = x } ∷ t)) e
branch_marked false true r p q t e f h k = ap (with_row (record r { processed = true })) k
branch_marked false false r p q t e f h k = absurd (false≢true f)

send_rows-marked :
    (is_sent : OutboxModel → Bool) (n : ℕ) (t : List OutboxModel)
    → ((r : OutboxModel) → is_sent r ≡ true)
    → length t ≤ n
    → (send_rows is_sent n t).1 ≡ some (marked t)
unfolding send_rows
send_rows-marked is_sent zero [] h le = refl
send_rows-marked is_sent zero (r ∷ t) h le = absurd (omega (arith, le))
send_rows-marked is_sent (suc n) [] h le = refl
send_rows-marked is_sent (suc n) (r ∷ t) h le =
    branch_marked r.processed (is_sent r) r _ _ (marked t) refl (h r)
      (send_rows-marked is_sent (suc n) t h (omega (arith, le)))
      (send_rows-marked is_sent n t h (omega (arith, le)))

-- A batch that Kafka accepts and whose commit succeeds, and that is as large as the outbox, leaves no
-- event unprocessed.
pub process_batch-marked :
    (batch_size : ℕ) (b : Batch) (s : State)
    → ((r : OutboxModel) → b.is_sent r ≡ true)
    → b.commits ≡ true
    → length s.rows ≤ batch_size
    → (process_batch batch_size b s).rows ≡ marked s.rows
unfolding process_batch
process_batch-marked batch_size b s h c le =
    ap (λ x. (end_batch x s (send_rows b.is_sent batch_size s.rows)).rows) c
    ∙ done (send_rows b.is_sent batch_size s.rows)
        (send_rows-marked b.is_sent batch_size s.rows h le)
  where
    done : (p : Progress) → p.1 ≡ some (marked s.rows) → (end_batch true s p).rows ≡ marked s.rows
    done (log, some t) e = unfold end_batch in cc
    done (log, none) e = cc
