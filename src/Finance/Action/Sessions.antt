-- ===== src/Finance/Action/Sessions.antt =====
-- Requests from outside: what a session that ended leaves in the database.
use rent_a_girlfriend.Prelude.{◌≡◌, refl, sym, ap, ◌∙◌}
use rent_a_girlfriend.Finance.Vo.{Error, Result, ok, err}
use rent_a_girlfriend.Finance.Action.{Store, Session, Action, attempt, rollback, in_session, ◌>>=◌}
use rent_a_girlfriend.Finance.Action.Preserves.{Preserves}

-- A new session on the database.
abbrev pub begin : Store → Session
begin db = record { saved = db; now = db }

module _ {A : Type 0} where
  pub in_session_ok :
      (m : Action A) (db : Store) {a : A} {db' : Store}
      → in_session m db ≡ (ok a, db')
      → (s : Session) × (m (begin db) ≡ (ok a, s)) × (s.now ≡ db')
  unfolding in_session
  in_session_ok m db {a} {db'} h = next (m (begin db)) refl h
    where
      next :
          (p : Result A × Session)
          → m (begin db) ≡ p
          → in_session (λ _. p) db ≡ (ok a, db')
          → (s : Session) × (m (begin db) ≡ (ok a, s)) × (s.now ≡ db')
      next (ok a', s) e h' = (s, cc, cc)
      next (err x, s) e h' = cc

  pub in_session_err :
      (m : Action A) (db : Store) {x : Error} {db' : Store}
      → in_session m db ≡ (err x, db')
      → (s : Session) × (m (begin db) ≡ (err x, s)) × (s.saved ≡ db')
  unfolding in_session
  in_session_err m db {x} {db'} h = next (m (begin db)) refl h
    where
      next :
          (p : Result A × Session)
          → m (begin db) ≡ p
          → in_session (λ _. p) db ≡ (err x, db')
          → (s : Session) × (m (begin db) ≡ (err x, s)) × (s.saved ≡ db')
      next (ok a', s) e h' = cc
      next (err x', s) e h' = (s, cc, cc)

  pub attempt_ok :
      (handler : Error → Action Unit) (m : Action A) (s : Session) {a : A} {s' : Session}
      → attempt handler m s ≡ (ok a, s')
      → m s ≡ (ok a, s')
  unfolding attempt
  attempt_ok handler m s {a} {s'} h = next (m s) h
    where
      next : (p : Result A × Session) → attempt handler (λ _. p) s ≡ (ok a, s') → p ≡ (ok a, s')
      next (ok a', s₁) h' = h'
      next (err x, s₁) h' = cc

  -- A `try` whose body commits nothing runs the handler on the database as it was.
  pub attempt_err :
      (handler : Error → Action Unit) (m : Action A) (db : Store) {x : Error} {s' : Session}
      → Preserves (λ s. s.saved ≡ db) m
      → attempt handler m (begin db) ≡ (err x, s')
      → s' ≡ (handler x (begin db)).1
  unfolding attempt
  attempt_err handler m db {x} {s'} k h = next (m (begin db)) (k.after (begin db) refl) h
    where
      next :
          (p : Result A × Session)
          → p.1.saved ≡ db
          → attempt handler (λ _. p) (begin db) ≡ (err x, s')
          → s' ≡ (handler x (begin db)).1
      next (ok a', s₁) e h' = cc
      next (err x', s₁) e h' =
          let same : x' ≡ x = cc in
          let end : (handler x' (rollback s₁)).1 ≡ s' = cc in
          sym end ∙ ap (λ y. (handler y (rollback s₁)).1) same ∙ ap (λ d. (handler x (begin d)).1) e

-- Running the steps of a method one by one.
pub run-bind :
    {A B : Type 0} (m : Action A) (f : A → Action B) (s : Session) {a : A} {s' : Session}
    → m s ≡ (ok a, s')
    → (m >>= f) s ≡ f a s'
unfolding ◌>>=◌
run-bind {A = A} m f s e = ap (λ (p : Result A × Session). ((λ _. p) >>= f) s) e

pub in_session-run :
    {A : Type 0} (m : Action A) (db : Store) {a : A} {s : Session}
    → m (begin db) ≡ (ok a, s)
    → in_session m db ≡ (ok a, s.now)
unfolding in_session
in_session-run {A} m db e = ap (λ (p : Result A × Session). in_session (λ _. p) db) e
