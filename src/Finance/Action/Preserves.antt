-- ===== src/Finance/Action/Preserves.antt =====
-- Predicates on sessions that a method leaves true, whether it returns or raises.
use rent_a_girlfriend.Prelude.{
  ◌≡◌, refl, subst, sym, Bool, true, false, Option, none, some, if◌then◌else◌,
}
use rent_a_girlfriend.Finance.Vo.{Error, Result, ok, err}
use rent_a_girlfriend.Finance.Action.{
  write, Store, Session, Action, pure, raise, lift, gets, or_raise, ◌>>=◌,
}

pub record Preserves {A : Type 0} (P : Session → Type 0) (m : Action A) : Type 0 where
  pub after : (from : Session) → P from → P (m from).1

module _ {P : Session → Type 0} where
  pub Preserves-write :
      (f : Store → Option Store)
      → ((s : Session) (t : Store) → P s → f s.now ≡ some t → P (record s { now = t }))
      → Preserves P (write f)
  unfolding write
  Preserves-write f h = record { after = λ s p. wrote s p (f s.now) refl }
    where
      wrote : (s : Session) → P s → (o : Option Store) → f s.now ≡ o → P (write (λ _. o) s).1
      wrote s p none e = p
      wrote s p (some t) e = h s t p e

module _ {A B : Type 0} {P : Session → Type 0} where
  pub Preserves-bind :
      (first : Action A) (rest : A → Action B)
      → Preserves P first
      → ((a : A) → Preserves P (rest a))
      → Preserves P (first >>= rest)
  unfolding ◌>>=◌
  Preserves-bind first rest before behind = record {
    after = λ s p. next (first s).0 (first s).1 (before.after s p);
  }
    where
      next :
          (r : Result A) (s' : Session)
          → P s'
          → P ((λ (x : Action A). x >>= rest) (λ _. (r, s')) s').1
      next (err e) s' p = p
      next (ok a) s' p = (behind a).after s' p

module _ {A : Type 0} {P : Session → Type 0} where
  -- A method that leaves the session alone.
  pub Preserves-of_same : (m : Action A) → ((s : Session) → (m s).1 ≡ s) → Preserves P m
  Preserves-of_same m same = record { after = λ s. subst P (sym (same s)) }

  pub Preserves-either :
      (b : Bool) (m n : Action A) → Preserves P m → Preserves P n → Preserves P (if b then m else n)
  Preserves-either false m n _ second = second
  Preserves-either true m n first _ = first

  pub Preserves-or_raise : (e : Error) (o : Option A) → Preserves P (or_raise e o)
  unfolding or_raise pure raise
  Preserves-or_raise e (some a) = Preserves-of_same (pure a) (λ s. refl)
  Preserves-or_raise e none = Preserves-of_same (raise e) (λ s. refl)

  pub Preserves-gets : (read : Store → A) → Preserves P (gets read)
  unfolding gets
  Preserves-gets read = Preserves-of_same (gets read) (λ s. refl)

  pub Preserves-lift : (r : Result A) → Preserves P (lift r)
  unfolding lift
  Preserves-lift r = Preserves-of_same (lift r) (λ s. refl)

  pub Preserves-raise : (e : Error) → Preserves P (raise {A = A} e)
  unfolding raise
  Preserves-raise e = Preserves-of_same (raise e) (λ s. refl)

  pub Preserves-pure : (a : A) → Preserves P (pure a)
  unfolding pure
  Preserves-pure a = Preserves-of_same (pure a) (λ s. refl)

pub ruleset preserves_rules = (
  Preserves-bind, Preserves-either, Preserves-or_raise, Preserves-gets, Preserves-lift,
  Preserves-raise, Preserves-pure,
)
