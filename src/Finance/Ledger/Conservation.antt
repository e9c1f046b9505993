-- ===== src/Finance/Ledger/Conservation.antt =====
-- Requests that keep the database within its constraints and the coins the same, whether they
-- return or raise.
use rent_a_girlfriend.Prelude.{
  ℕ, ◌+◌, String, ◌≡◌, refl, ap, ◌∙◌, true, false, [], ◌∷◌, arith, total, if◌then◌else◌,
}
use rent_a_girlfriend.Prelude.{All, ◌<◌, subst, sym}
use rent_a_girlfriend.Finance.Vo.{is_held}
use rent_a_girlfriend.Finance.Action.{EscrowModel}
use rent_a_girlfriend.Finance.Vo.{Error, Result, ok, err}
use rent_a_girlfriend.Finance.Events.{DomainEvent}
use rent_a_girlfriend.Finance.Action.{Action, Store, in_session}
use rent_a_girlfriend.Finance.Repositories.{Environment}
use rent_a_girlfriend.Finance.Ledger.{
  IsValid, coins, held_amount, with_events, with_events-IsValid, coins-with_events,
}
use rent_a_girlfriend.Finance.Ledger.Accounts.{Moved}
use rent_a_girlfriend.Finance.Steps.Saved.{reported}

-- A held escrow holds something.
abbrev pub IsFundedRow : EscrowModel → Type 0
IsFundedRow m = is_held m.status ≡ true → 0 < m.amount

abbrev pub IsFunded : Store → Type 0
IsFunded db = All IsFundedRow db.escrows

pub record Conserves (db db' : Store) : Type 0 where
  pub valid : IsValid db'
  pub funded : IsFunded db'
  pub same_coins : coins db' ≡ coins db

pub Conserves-refl : (db : Store) → IsValid db → IsFunded db → Conserves db db
Conserves-refl db v f = record { valid = v; funded = f; same_coins = refl }

pub Conserves-trans : {a b c : Store} → Conserves a b → Conserves b c → Conserves a c
Conserves-trans p q = record {
  valid = q.valid;
  funded = q.funded;
  same_coins = q.same_coins ∙ p.same_coins;
}

-- What moves within the wallets, with the escrows left alone.
pub Moved-Conserves :
    (u : String) (gain_a loss_a gain_f loss_f : ℕ) (db db' : Store)
    → IsValid db'
    → IsFunded db
    → Moved u gain_a loss_a gain_f loss_f db db'
    → db'.escrows ≡ db.escrows
    → gain_a + gain_f ≡ loss_a + loss_f
    → Conserves db db'
Moved-Conserves u gain_a loss_a gain_f loss_f db db' v f m e even = record {
  valid = v;
  funded = subst (All IsFundedRow) (sym e) f;
  same_coins = omega (arith, m.of_all, ap (total held_amount) e, even);
}

pub reported-Conserves :
    (env : Environment) (e : DomainEvent) (db : Store)
    → IsValid db
    → IsFunded db
    → Conserves db (reported env e db)
unfolding with_events
reported-Conserves env e db v f =
    elim (env.encodes e) as (λ t. Conserves db (if t then with_events (e ∷ []) db else db)) [
      | true ↦ record {
        valid = with_events-IsValid db v (e ∷ []);
        funded = f;
        same_coins = coins-with_events db (e ∷ []);
      }
      | false ↦ Conserves-refl db v f
    ]

-- A request ends in one of two ways.
pub in_session-ends :
    {A : Type 0} (m : Action A) (db : Store) (P : Store → Type 0)
    → ((a : A) (db' : Store) → in_session m db ≡ (ok a, db') → P db')
    → ((e : Error) (db' : Store) → in_session m db ≡ (err e, db') → P db')
    → P (in_session m db).1
in_session-ends {A} m db P h k = next (in_session m db) refl
  where
    next : (p : Result A × Store) → in_session m db ≡ p → P p.1
    next (ok a, db') q = h a db' q
    next (err e, db') q = k e db' q
