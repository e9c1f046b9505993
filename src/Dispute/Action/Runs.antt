-- ===== src/Dispute/Action/Runs.antt =====
-- Running a method from a given state: the state it leaves satisfies `Q` if it returns and `E` if it
-- raises.
use rent_a_girlfriend.Prelude.{ap, Bool, true, false, if◌then◌else◌, ◌≡◌, refl}
use rent_a_girlfriend.Dispute.Vo.{Error, Result, ok, err}
use rent_a_girlfriend.Dispute.Action.{Action, pure, raise, lift, gets, catch, modify, ◌>>=◌}

abbrev pub Ends : {S A : Type 0} → (A → S → Type 0) → (S → Type 0) → Result A × S → Type 0
Ends Q E (ok a, s) = Q a s
Ends Q E (err e, s) = E s

pub record Runs {S A : Type 0} (m : Action S A) (s : S) (Q : A → S → Type 0) (E : S → Type 0)
    : Type 0 where
  pub outcome : Ends Q E (m s)

-- The same on both ends.
abbrev pub Leaves : {S A : Type 0} → Action S A → S → (S → Type 0) → Type 0
Leaves m s P = Runs m s (λ _. P) P

module _ {S A : Type 0} {Q : A → S → Type 0} {E : S → Type 0} where
  pub Runs-pure : (a : A) {s : S} → Q a s → Runs (pure a) s Q E
  unfolding pure
  Runs-pure a q = record { outcome = q }

  pub Runs-raise : (e : Error) {s : S} → E s → Runs (raise e) s Q E
  unfolding raise
  Runs-raise e q = record { outcome = q }

  pub Runs-gets : (f : S → A) {s : S} → Q (f s) s → Runs (gets f) s Q E
  unfolding gets
  Runs-gets f q = record { outcome = q }

  pub Runs-lift : (r : Result A) {s : S} → ((a : A) → Q a s) → E s → Runs (lift r) s Q E
  unfolding lift
  Runs-lift (ok a) q e = record { outcome = q a }
  Runs-lift (err x) q e = record { outcome = e }

  pub Runs-if :
      (b : Bool) (m n : Action S A) {s : S}
      → (b ≡ true → Runs m s Q E)
      → (b ≡ false → Runs n s Q E)
      → Runs (if b then m else n) s Q E
  Runs-if true m n h k = h refl
  Runs-if false m n h k = k refl

  pub Runs-catch :
      (m : Action S A) (handler : Error → Action S A) (R : S → Type 0) {s : S}
      → Runs m s Q R
      → ((e : Error) (s' : S) → R s' → Runs (handler e) s' Q E)
      → Runs (catch m handler) s Q E
  unfolding catch
  Runs-catch m handler R {s} y h = record { outcome = next (m s) y.outcome }
    where
      next : (p : Result A × S) → Ends Q R p → Ends Q E (catch (λ _. p) handler s)
      next (ok a, s') q = q
      next (err e, s') r = (h e s' r).outcome

  -- What the method did, from how it ended.
  pub Runs-ended :
      {m : Action S A} {s : S} {P : S → Type 0}
      → Runs m s Q E
      → ((a : A) (s' : S) → Q a s' → P s')
      → ((s' : S) → E s' → P s')
      → P (m s).1
  Runs-ended {m} {s} {P} y h k = next (m s) y.outcome
    where
      next : (p : Result A × S) → Ends Q E p → P p.1
      next (ok a, s') q = h a s' q
      next (err e, s') q = k s' q

pub Runs-modify :
    {S : Type 0} {Q : Unit {0} → S → Type 0} {E : S → Type 0} (f : S → S) {s : S}
    → Q tt (f s)
    → Runs (modify f) s Q E
unfolding modify
Runs-modify f q = record { outcome = q }

module _ {S A B : Type 0} {Q : B → S → Type 0} {E : S → Type 0} where
  pub Runs-bind :
      (m : Action S A) (f : A → Action S B) (R : A → S → Type 0) {s : S}
      → Runs m s R E
      → ((a : A) (s' : S) → R a s' → Runs (f a) s' Q E)
      → Runs (m >>= f) s Q E
  unfolding ◌>>=◌
  Runs-bind m f R {s} y h = record { outcome = next (m s) y.outcome }
    where
      next : (p : Result A × S) → Ends R E p → Ends Q E (((λ _. p) >>= f) s)
      next (ok a, s') r = (h a s' r).outcome
      next (err e, s') r = r

  pub Runs-gets_bind :
      (g : S → A) (f : A → Action S B) {s : S} → Runs (f (g s)) s Q E → Runs (gets g >>= f) s Q E
  unfolding ◌>>=◌ gets
  Runs-gets_bind g f y = record { outcome = y.outcome }

module _ {S A : Type 0} {Q Q' : A → S → Type 0} {E E' : S → Type 0} where
  pub Runs-weaken :
      {m : Action S A} {s : S}
      → Runs m s Q E
      → ((a : A) (s' : S) → Q a s' → Q' a s')
      → ((s' : S) → E s' → E' s')
      → Runs m s Q' E'
  Runs-weaken {m} {s} y h k = record { outcome = next (m s) y.outcome }
    where
      next : (p : Result A × S) → Ends Q E p → Ends Q' E' p
      next (ok a, s') q = h a s' q
      next (err e, s') q = k s' q

-- Two methods that agree where `m` can end agree after `m`.
pub Runs-same :
    {S A B : Type 0} {P : S → Type 0} {E : S → Type 0} (m : Action S A) (f g : Action S B) {s : S}
    → Runs m s (λ _. P) E
    → ((s' : S) → P s' → f s' ≡ g s')
    → (m >>= λ _. f) s ≡ (m >>= λ _. g) s
unfolding ◌>>=◌
Runs-same {S} {A} {B} {P} {E} m f g {s} y h = next (m s) y.outcome
  where
    next :
        (p : Result A × S) → Ends (λ _. P) E p → ((λ _. p) >>= λ _. f) s ≡ ((λ _. p) >>= λ _. g) s
    next (ok a, s') q = h s' q
    next (err e, s') q = refl

pub bind_same :
    {S A B : Type 0} (m : Action S A) (f g : A → Action S B) (s : S)
    → ((a : A) (s' : S) → f a s' ≡ g a s')
    → (m >>= f) s ≡ (m >>= g) s
unfolding ◌>>=◌
bind_same {S} {A} m f g s h = next (m s)
  where
    next : (p : Result A × S) → ((λ _. p) >>= f) s ≡ ((λ _. p) >>= g) s
    next (ok a, s') = h a s'
    next (err e, s') = refl

pub catch_same :
    {S A : Type 0} (m n : Action S A) (handler : Error → Action S A) (s : S)
    → m s ≡ n s
    → catch m handler s ≡ catch n handler s
unfolding catch
catch_same m n handler s h = ap (λ p. catch (λ _. p) handler s) h

pub if_same :
    {S A : Type 0} (b : Bool) (f g m : Action S A) (s : S)
    → f s ≡ g s
    → (if b then f else m) s ≡ (if b then g else m) s
if_same true f g m s h = h
if_same false f g m s h = refl
