-- ===== src/Finance/Action/Yields.antt =====
-- Running a method from a given session: if it returns, its result and the session it leaves satisfy
-- `Q`. The rules follow the steps of a `do` block.
use rent_a_girlfriend.Prelude.{Bool, true, false, if◌then◌else◌, Option, none, some, ◌≡◌, refl}
use rent_a_girlfriend.Finance.Vo.{Error, Result, ok, err}
use rent_a_girlfriend.Finance.Action.{
  Store, Session, Action, pure, raise, lift, gets, or_raise, attempt, write, ◌>>=◌,
}

abbrev pub Ensures : {A : Type 0} → (A → Session → Type 0) → Result A × Session → Type 0
Ensures Q (ok a, s) = Q a s
Ensures Q (err e, s) = Unit

pub record Yields {A : Type 0} (Q : A → Session → Type 0) (m : Action A) (s : Session)
    : Type 0 where
  pub outcome : Ensures Q (m s)

module _ {A : Type 0} {Q : A → Session → Type 0} where
  -- What a method that returned has done.
  pub Yields-returned :
      (m : Action A) (s : Session) {a : A} {s' : Session} → Yields Q m s → m s ≡ (ok a, s') → Q a s'
  Yields-returned m s y e = rw e at y.outcome

  pub Yields-pure : (a : A) {s : Session} → Q a s → Yields Q (pure a) s
  unfolding pure
  Yields-pure a q = record { outcome = q }

  pub Yields-raise : (e : Error) {s : Session} → Yields Q (raise e) s
  unfolding raise
  Yields-raise e = record { outcome = tt }

module _ {A B : Type 0} {Q : B → Session → Type 0} where
  pub Yields-lift :
      (r : Result A) {f : A → Action B} {s : Session}
      → ((a : A) → r ≡ ok a → Yields Q (f a) s)
      → Yields Q (lift r >>= f) s
  unfolding ◌>>=◌
  Yields-lift (ok a) h = record { outcome = (h a refl).outcome }
  Yields-lift (err e) h = record { outcome = tt }

  pub Yields-pure_bind :
      (a : A) (f : A → Action B) {s : Session} → Yields Q (f a) s → Yields Q (pure a >>= f) s
  unfolding ◌>>=◌
  Yields-pure_bind a f h = record { outcome = h.outcome }

  pub Yields-gets :
      (g : Store → A) (f : A → Action B) {s : Session}
      → Yields Q (f (g s.now)) s
      → Yields Q (gets g >>= f) s
  unfolding ◌>>=◌
  Yields-gets g f h = record { outcome = h.outcome }

  pub Yields-or_raise :
      (e : Error) (o : Option A) {f : A → Action B} {s : Session}
      → ((a : A) → o ≡ some a → Yields Q (f a) s)
      → Yields Q (or_raise e o >>= f) s
  unfolding ◌>>=◌
  Yields-or_raise e none h = record { outcome = tt }
  Yields-or_raise e (some a) h = record { outcome = (h a refl).outcome }

  pub Yields-bind :
      {m : Action A} {f : A → Action B} {s : Session} (R : A → Session → Type 0)
      → Yields R m s
      → ((a : A) (s' : Session) → R a s' → Yields Q (f a) s')
      → Yields Q (m >>= f) s
  unfolding ◌>>=◌
  Yields-bind {m} {f} {s} R y h = record { outcome = next (m s) y.outcome }
    where
      next : (p : Result A × Session) → Ensures R p → Ensures Q (((λ _. p) >>= f) s)
      next (ok a, s') r = (h a s' r).outcome
      next (err e, s') r = tt

module _ {B : Type 0} {Q : B → Session → Type 0} where
  pub Yields-write :
      (g : Store → Option Store) (f : Unit {0} → Action B) {s : Session}
      → ((t : Store) → g s.now ≡ some t → Yields Q (f tt) (record s { now = t }))
      → Yields Q (write g >>= f) s
  unfolding ◌>>=◌ write
  Yields-write g f {s} h = record { outcome = next (g s.now) refl }
    where
      next : (o : Option Store) → g s.now ≡ o → Ensures Q ((write (λ _. o) >>= f) s)
      next none e = tt
      next (some t) e = (h t e).outcome

module _ {A B C : Type 0} {Q : C → Session → Type 0} where
  pub Yields-assoc :
      (m : Action A) (g : A → Action B) (f : B → Action C) {s : Session}
      → Yields Q (m >>= λ a. g a >>= f) s
      → Yields Q (m >>= g >>= f) s
  unfolding ◌>>=◌
  Yields-assoc m g f {s} y = record { outcome = next (m s) y.outcome }
    where
      next :
          (p : Result A × Session)
          → Ensures Q (((λ _. p) >>= λ a. g a >>= f) s)
          → Ensures Q (((λ _. p) >>= g >>= f) s)
      next (ok a, s') h = h
      next (err e, s') h = h

module _ {A : Type 0} {Q : A → Session → Type 0} where
  -- A handler always ends in the error.
  pub Yields-attempt :
      (handler : Error → Action Unit) (m : Action A) {s : Session}
      → Yields Q m s
      → Yields Q (attempt handler m) s
  unfolding attempt
  Yields-attempt handler m {s} y = record { outcome = next (m s) y.outcome }
    where
      next : (p : Result A × Session) → Ensures Q p → Ensures Q (attempt handler (λ _. p) s)
      next (ok a, s') q = q
      next (err e, s') q = tt

  pub Yields-weaken :
      (R : A → Session → Type 0) {m : Action A} {s : Session}
      → Yields R m s
      → ((a : A) (s' : Session) → R a s' → Q a s')
      → Yields Q m s
  Yields-weaken R {m} {s} y h = record { outcome = next (m s) y.outcome }
    where
      next : (p : Result A × Session) → Ensures R p → Ensures Q p
      next (ok a, s') r = h a s' r
      next (err e, s') r = tt

  pub Yields-if :
      (b : Bool) (m n : Action A) {s : Session}
      → (b ≡ true → Yields Q m s)
      → (b ≡ false → Yields Q n s)
      → Yields Q (if b then m else n) s
  Yields-if true m n h k = h refl
  Yields-if false m n h k = k refl

module _ {A B : Type 0} {Q : B → Session → Type 0} where
  pub Yields-if_bind :
      (b : Bool) (m n : Action A) (f : A → Action B) {s : Session}
      → (b ≡ true → Yields Q (m >>= f) s)
      → (b ≡ false → Yields Q (n >>= f) s)
      → Yields Q ((if b then m else n) >>= f) s
  Yields-if_bind true m n f h k = h refl
  Yields-if_bind false m n f h k = k refl
