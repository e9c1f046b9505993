-- ===== src/Dispute/Orchestrators/Counting.antt =====
-- How the orchestrators' steps change the list of calls.
use rent_a_girlfriend.Prelude.{
  ℕ, ◌+◌, Option, none, some, List, [], ◌∷◌, ◌++◌, Bool, total, total-append, ◌≡◌, refl, arith,
}
use rent_a_girlfriend.Dispute.Vo.{Error, Result, ok, err}
use rent_a_girlfriend.Dispute.Events.{DomainEvent}
use rent_a_girlfriend.Dispute.Action.Runs.{
  Ends, Runs, Leaves, Runs-bind, Runs-modify, Runs-pure, Runs-raise, Runs-if,
}
use rent_a_girlfriend.Dispute.Orchestrators.{
  Call, refund_call, payout_call, hide_call, lock_call, SagaSession, call, update, save,
  publish_all,
}

-- Whether a call moves money.
abbrev pub moves_money : Call → ℕ
moves_money (refund_call b) = 1
moves_money (payout_call b) = 1
moves_money (hide_call b) = 0
moves_money (lock_call b) = 0

-- The calls to the finance service.
abbrev pub payments : {S : Type 0} → SagaSession S → ℕ
payments s = total moves_money s.calls

-- `n` payments were ordered, and the object satisfies `P`.
pub record Paid {S : Type 0} (n : ℕ) (P : S → Type 0) (s : SagaSession S) : Type 0 where
  pub count : payments s ≡ n
  pub is_so : P s.object

module _ {S : Type 0} {n : ℕ} (P : S → Type 0) where
  pub call-Paid :
      {A : Type 0} (c : Call) (reply : Result A) {s : SagaSession S}
      → Paid n P s
      → Leaves (call c reply) s (Paid (n + moves_money c) P)
  unfolding call
  call-Paid {A} c reply {s} p = record { outcome = next reply }
    where
      after : Paid (n + moves_money c) P (record s { calls = s.calls ++ c ∷ [] })
      after = record {
        count = omega (arith, total-append moves_money s.calls (c ∷ []), p.count);
        is_so = p.is_so;
      }

      next :
          (r : Result A)
          → Ends (λ _. Paid (n + moves_money c) P) (Paid (n + moves_money c) P) (call c r s)
      next (ok a) = after
      next (err e) = after

  pub update-Paid :
      (method : S → Result S) {s : SagaSession S} (P' : S → Type 0) (E : S → Type 0)
      → Paid n P s
      → ((x : S) → method s.object ≡ ok x → P' x)
      → ((e : Error) → method s.object ≡ err e → E s.object)
      → Runs (update method) s (λ _. Paid n P') (Paid n E)
  unfolding update
  update-Paid method {s} P' E p h k = record { outcome = next (method s.object) refl }
    where
      next :
          (r : Result S)
          → method s.object ≡ r
          → Ends (λ _. Paid n P') (Paid n E) (update (λ _. r) s)
      next (ok x) e = record { count = p.count; is_so = h x e }
      next (err x) e = record { count = p.count; is_so = k x e }

  pub save-Paid :
      (merged : S → Option S) {s : SagaSession S}
      → ((x y : S) → merged x ≡ some y → P x → P y)
      → Paid n P s
      → Leaves (save merged) s (Paid n P)
  unfolding save
  save-Paid merged {s} h p = record { outcome = next (merged s.object) refl }
    where
      next :
          (r : Option S) → merged s.object ≡ r → Ends (λ _. Paid n P) (Paid n P) (save (λ _. r) s)
      next none e = p
      next (some x) e = record { count = p.count; is_so = h s.object x e p.is_so }

  pub publish_all-Paid :
      (encodes : DomainEvent → Bool) (es : List DomainEvent) {s : SagaSession S}
      → Paid n P s
      → Leaves (publish_all encodes es) s (Paid n P)
  unfolding publish_all
  publish_all-Paid encodes [] p = Runs-pure _ p
  publish_all-Paid encodes (e ∷ es) {s} p =
      Runs-bind _ _ (λ _. Paid n P)
        (Runs-if (encodes e) _ _ (λ _. Runs-modify _ (record { count = p.count; is_so = p.is_so }))
          (λ _. Runs-raise _ p))
        (λ _ s' p'. publish_all-Paid encodes es p')
